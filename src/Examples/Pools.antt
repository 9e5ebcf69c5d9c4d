-- ===== src/Examples/Pools.antt =====
-- The theorems about the queue and the pool at concrete inputs: a pool with two workers, one of which
-- is about to take the only task.
use team_c.Common.{ℕ, ◌≡◌, false, none, some, refl, List, [], ◌∷◌, arith}
use team_c.Pool.Queue.{Heap, Queue, queue_init, queue_push, queue_pop, queue_destory, Remains}
use team_c.Pool.Queue.Fifo.{
  IsQueue, queue_init-IsQueue, queue_push-IsQueue, queue_pop-IsQueue, queue_pop-crashes,
}
use team_c.Pool.Threads.Wakeup.{Unwoken, stop_and_broadcast, asleep, broadcast_misses_waiter}
use team_c.Pool.Threads.{Place, Owner, ThreadPool, goes, started, Step, Reachable}
use team_c.Pool.Threads.Destruction.{rest_is_destroyed}
use team_c.Pool.Threads.Safety.{holds, mutual_exclusion, no_task_lost, pop_succeeds}

abbrev no_cells : Heap
no_cells = λ a. none

abbrev empty : Queue
empty = queue_init no_cells 5

empty_pop_crashes : queue_pop empty ≡ none
empty_pop_crashes = queue_pop-crashes empty (queue_init-IsQueue no_cells 5)

-- The queue with the task 7.
filled : (q : Queue) × (queue_push 7 empty ≡ some q) × IsQueue q (7 ∷ [])
filled = queue_push-IsQueue 7 empty [] (queue_init-IsQueue no_cells 5) (omega arith)

queue_pop-IsQueue_example : (q : Queue) × (queue_pop (filled.0) ≡ some (7, q)) × IsQueue q []
queue_pop-IsQueue_example = queue_pop-IsQueue 7 (filled.0) [] (filled.2)

-- Worker 0 is created and finds the pool started, the task is pushed, and the worker locks the mutex
-- and comes to Queue_pop.
abbrev start_state : ThreadPool
start_state = started no_cells 5 2

abbrev with_task : ThreadPool
with_task =
    record (goes 0 Place.at_lock Owner.nobody (goes 0 Place.at_while Owner.nobody start_state)) {
      queue = filled.0;
      pushed = 7 ∷ [];
    }

abbrev about_to_pop : ThreadPool
about_to_pop =
    goes 0 Place.at_pop (Owner.worker 0)
      (goes 0 Place.at_stop (Owner.worker 0) (goes 0 Place.at_check (Owner.worker 0) with_task))

with_task-Reachable : Reachable no_cells 5 2 with_task
unfolding started queue_init
with_task-Reachable =
    Reachable.next _ _
      (Reachable.next _ _
        (Reachable.next _ _ Reachable.begin (Step.create start_state 0 (omega arith) refl))
        (Step.enter _ 0 refl refl))
      (Step.push _ 7 (filled.0) refl (omega arith) (filled.1))

about_to_pop-Reachable : Reachable no_cells 5 2 about_to_pop
unfolding started queue_init
about_to_pop-Reachable =
    Reachable.next _ _
      (Reachable.next _ _ (Reachable.next _ _ with_task-Reachable (Step.lock _ 0 refl refl))
        (Step.ready _ 0 refl (ground (arith, (filled.2).counted))))
      (Step.go _ 0 refl refl)

mutual_exclusion_example : holds (about_to_pop.places 1) ≡ false
mutual_exclusion_example =
    mutual_exclusion no_cells 5 2 about_to_pop about_to_pop-Reachable 0 1 (λ e. omega arith) refl

no_task_lost_example : (xs : List ℕ) × IsQueue (filled.0) xs × ((7 ∷ []) ≡ xs)
unfolding started
no_task_lost_example = no_task_lost no_cells 5 2 about_to_pop about_to_pop-Reachable

pop_succeeds_example : (x : ℕ) × (q : Queue) × (queue_pop (filled.0) ≡ some (x, q))
pop_succeeds_example = pop_succeeds no_cells 5 2 about_to_pop about_to_pop-Reachable 0 refl

rest_is_destroyed_example :
    (r : Remains) × (queue_destory 1 (filled.0) ≡ some r) × ((7 ∷ []) ≡ r.destroyed)
unfolding started
rest_is_destroyed_example =
    rest_is_destroyed no_cells 5 2 1 about_to_pop about_to_pop-Reachable
      (ground (arith, (filled.2).counted))

-- Worker 0 is created, locks the mutex, and finds the queue empty and the pool started.
abbrev about_to_wait : ThreadPool
about_to_wait = goes 0 Place.at_wait (Owner.worker 0) (
    goes 0 Place.at_check (Owner.worker 0)
      (goes 0 Place.at_lock Owner.nobody (goes 0 Place.at_while Owner.nobody start_state)))

about_to_wait-Reachable : Reachable no_cells 5 2 about_to_wait
unfolding started queue_init
about_to_wait-Reachable =
    Reachable.next _ _
      (Reachable.next _ _
        (Reachable.next _ _
          (Reachable.next _ _ Reachable.begin (Step.create start_state 0 (omega arith) refl))
          (Step.enter _ 0 refl refl))
        (Step.lock _ 0 refl refl))
      (Step.wait _ 0 refl refl)

-- Then worker 1 is created and finds the pool stopped.
abbrev last_state : ThreadPool
last_state =
    goes 1 Place.exited Owner.nobody (goes 1 Place.at_while Owner.nobody (asleep 0 about_to_wait))

sleeps_on : Unwoken 0 (asleep 0 about_to_wait) last_state
unfolding started
sleeps_on =
    Unwoken.later _ _
      (Unwoken.later _ _ Unwoken.still (Step.create (asleep 0 about_to_wait) 1 (omega arith) refl)
        (λ e. absurd (ground (arith, e))))
      (Step.leave _ 1 refl refl) (λ e. absurd (ground (arith, e)))

broadcast_misses_waiter_example :
    (about_to_wait.mutex ≡ Owner.worker 0)
    × Step about_to_wait (record about_to_wait { is_start = false })
    × Step (record about_to_wait { is_start = false }) (stop_and_broadcast about_to_wait)
    × Step (stop_and_broadcast about_to_wait) (asleep 0 about_to_wait)
    × Reachable no_cells 5 2 last_state
    × (last_state.is_start ≡ false)
    × (last_state.places 0 ≡ Place.sleeping)
broadcast_misses_waiter_example =
    broadcast_misses_waiter no_cells 5 2 about_to_wait last_state 0 about_to_wait-Reachable refl
      sleeps_on
