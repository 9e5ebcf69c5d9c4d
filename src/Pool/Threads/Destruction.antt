-- ===== src/Pool/Threads/Destruction.antt =====
-- Queue_destory in thread_pool_destroy of Code/liuting1/lt_thread_pool/thread_pool.c.
use team_c.Common.{ℕ, ◌≤◌, some, ◌≡◌, ◌∙◌, sym, ap, ◌++◌, arith}
use team_c.Pool.Queue.{Heap, Remains, queue_destory}
use team_c.Pool.Queue.Teardown.{chain_addresses, queue_destory-IsQueue}
use team_c.Pool.Threads.{ThreadPool, Reachable}
use team_c.Pool.Threads.Safety.{no_task_lost}

-- In every state that a pool started once can come to, Queue_destory, with at least as many rounds as
-- the queue counts elements, returns, and it destroys exactly the tasks that were pushed and that no
-- worker has taken, in the order in which they were pushed.
pub rest_is_destroyed :
    (cells : Heap) (fresh thread_count rounds : ℕ) (s : ThreadPool)
    → Reachable cells fresh thread_count s
    → s.queue.size ≤ rounds
    → (r : Remains) × (queue_destory rounds s.queue ≡ some r) × (s.pushed ≡ s.taken ++ r.destroyed)
rest_is_destroyed cells fresh thread_count rounds s h le =
    let (xs, q, e) = no_task_lost cells fresh thread_count s h in
    let (addrs, links) = chain_addresses s.queue.cells s.queue.head s.queue.end xs q.chain in
    let (r, runs, all, _, _, _) =
      queue_destory-IsQueue rounds s.queue xs addrs q links (omega (arith, q.counted, le)) in
    (r, runs, e ∙ ap (λ ys. s.taken ++ ys) (sym all))
