-- ===== src/Pool/Threads/Safety.antt =====
-- The mutex and the tasks in the states that the pool can come to.
use team_c.Common.{
  ℕ, ◌+◌, ◌<◌, Bool, true, false, none, some, ◌≡◌, ◌≢◌, refl, sym, ap, ◌∙◌, List, [], ◌∷◌, ◌++◌,
  append_assoc, arith,
}
use mathlib.Core.Path.{subst}
use team_c.Pool.Queue.{Queue, Heap, queue_push, queue_pop, words}
use team_c.Pool.Queue.Fifo.{
  IsQueue, queue_push-IsQueue, queue_pop-IsQueue, queue_pop-crashes, queue_init-IsQueue,
}
use team_c.Pool.Threads.{Place, Owner, ThreadPool, goes, started, wake_place, Step, Reachable}

-- The places at which a worker has the mutex.
abbrev pub holds : Place → Bool
holds Place.at_check = true
holds Place.at_wait = true
holds Place.at_stop = true
holds Place.at_pop = true
holds (Place.at_unlock x) = true
holds _ = false

-- A worker at such a place is the owner of the mutex.
abbrev pub IsExclusive : ThreadPool → Type 0
IsExclusive s = (j : ℕ) → holds (s.places j) ≡ true → s.mutex ≡ Owner.worker j

-- A broadcast moves sleeping workers, who do not have the mutex.
holds-wake_place : (c : Place) → holds (wake_place c) ≡ holds c
holds-wake_place Place.idle = refl
holds-wake_place Place.at_while = refl
holds-wake_place Place.at_lock = refl
holds-wake_place Place.at_check = refl
holds-wake_place Place.at_wait = refl
holds-wake_place Place.sleeping = refl
holds-wake_place Place.woken = refl
holds-wake_place Place.at_stop = refl
holds-wake_place Place.at_pop = refl
holds-wake_place (Place.at_unlock x) = refl
holds-wake_place (Place.running x) = refl
holds-wake_place Place.exited = refl

wake_place-else : (c d : Place) → d ≢ Place.woken → wake_place c ≡ d → c ≡ d
wake_place-else Place.idle d n e = e
wake_place-else Place.at_while d n e = e
wake_place-else Place.at_lock d n e = e
wake_place-else Place.at_check d n e = e
wake_place-else Place.at_wait d n e = e
wake_place-else Place.sleeping d n e = absurd (n (sym e))
wake_place-else Place.woken d n e = e
wake_place-else Place.at_stop d n e = e
wake_place-else Place.at_pop d n e = e
wake_place-else (Place.at_unlock x) d n e = e
wake_place-else (Place.running x) d n e = e
wake_place-else Place.exited d n e = e

IsExclusive-Step : (s t : ThreadPool) → Step s t → IsExclusive s → IsExclusive t
IsExclusive-Step _ _ (Step.create s i lt p) h j = ground (arith, h j, h i)
IsExclusive-Step _ _ (Step.enter s i p on) h j = ground (arith, h j, h i)
IsExclusive-Step _ _ (Step.leave s i p off) h j = ground (arith, h j, h i)
IsExclusive-Step _ _ (Step.lock s i p free) h j = ground (arith, h j, h i)
IsExclusive-Step _ _ (Step.wait s i p e) h j = ground (arith, h j, h i)
IsExclusive-Step _ _ (Step.ready s i p e) h j = ground (arith, h j, h i)
IsExclusive-Step _ _ (Step.sleep s i p) h j = ground (arith, h j, h i)
IsExclusive-Step _ _ (Step.wake s i p) h j = ground (arith, h j, h i)
IsExclusive-Step _ _ (Step.relock s i p free) h j = ground (arith, h j, h i)
IsExclusive-Step _ _ (Step.stopped s i p off) h j = ground (arith, h j, h i)
IsExclusive-Step _ _ (Step.go s i p on) h j = ground (arith, h j, h i)
IsExclusive-Step _ _ (Step.pop s i x q p e) h j = ground (arith, h j, h i)
IsExclusive-Step _ _ (Step.unlock s i x p) h j = ground (arith, h j, h i)
IsExclusive-Step _ _ (Step.finish s i x p) h j = ground (arith, h j, h i)
IsExclusive-Step _ _ (Step.push s x q free room e) h j = h j
IsExclusive-Step _ _ (Step.stop s) h j = h j
IsExclusive-Step _ _ (Step.broadcast_all s) h j = λ e. h j (sym (holds-wake_place (s.places j)) ∙ e)

-- The queue holds what was pushed and not yet taken.
abbrev pub HasTasks : ThreadPool → Type 0
HasTasks s = (xs : List ℕ) × IsQueue s.queue xs × (s.pushed ≡ s.taken ++ xs)

-- A worker that is about to take a task, or will when it finds the pool started, has one to take.
abbrev pub IsReady : ThreadPool → Type 0
IsReady s =
    (j : ℕ)
    → (s.places j ≡ Place.at_pop → 0 < s.queue.size)
      × (s.places j ≡ Place.at_stop → s.is_start ≡ true → 0 < s.queue.size)

some_inj {ℓ} : {A : Type ℓ} (a b : A) → some a ≡ some b → a ≡ b
some_inj a b e = ap (λ o. elim o [ none ↦ a | some c ↦ c ]) e

tasks_pop :
    (s : ThreadPool) (i x : ℕ) (q : Queue)
    → queue_pop s.queue ≡ some (x, q)
    → HasTasks s
    → HasTasks
        (record (goes i (Place.at_unlock x) s.mutex s) { queue = q; taken = s.taken ++ x ∷ [] })
tasks_pop s i x q e ([], h, l) = absurd (ground (arith, e, queue_pop-crashes s.queue h))
tasks_pop s i x q e (y ∷ ys, h, l) =
    let (q', e', h') = queue_pop-IsQueue y s.queue ys h in
    let same = some_inj (x, q) (y, q') (sym e ∙ e') in
    (
      ys,
      subst (λ r. IsQueue r ys) (sym (ap (λ (p : ℕ × Queue). p.1) same)) h',
      l ∙ rw (ap (λ (p : ℕ × Queue). p.0) same, append_assoc) refl,
    )

tasks_push :
    (s : ThreadPool) (x : ℕ) (q : Queue)
    → s.queue.size + 1 < words
    → queue_push x s.queue ≡ some q
    → HasTasks s
    → HasTasks (record s { queue = q; pushed = s.pushed ++ x ∷ [] })
tasks_push s x q room e (xs, h, l) =
    let (q', e', h') = queue_push-IsQueue x s.queue xs h (omega (arith, room, h.counted)) in
    (
      xs ++ x ∷ [],
      subst (λ r. IsQueue r (xs ++ x ∷ [])) (some_inj q' q (sym e' ∙ e)) h',
      rw (l, append_assoc) refl,
    )

tasks-Step : (s t : ThreadPool) → Step s t → HasTasks s → HasTasks t
tasks-Step _ _ (Step.create s i lt p) h = h
tasks-Step _ _ (Step.enter s i p on) h = h
tasks-Step _ _ (Step.leave s i p off) h = h
tasks-Step _ _ (Step.lock s i p free) h = h
tasks-Step _ _ (Step.wait s i p e) h = h
tasks-Step _ _ (Step.ready s i p e) h = h
tasks-Step _ _ (Step.sleep s i p) h = h
tasks-Step _ _ (Step.wake s i p) h = h
tasks-Step _ _ (Step.relock s i p free) h = h
tasks-Step _ _ (Step.stopped s i p off) h = h
tasks-Step _ _ (Step.go s i p on) h = h
tasks-Step _ _ (Step.pop s i x q p e) h = tasks_pop s i x q e h
tasks-Step _ _ (Step.unlock s i x p) h = h
tasks-Step _ _ (Step.finish s i x p) h = h
tasks-Step _ _ (Step.push s x q free room e) h = tasks_push s x q room e h
tasks-Step _ _ (Step.stop s) h = h
tasks-Step _ _ (Step.broadcast_all s) h = h

IsReady-Step : (s t : ThreadPool) → Step s t → IsExclusive s → IsReady s → IsReady t
IsReady-Step _ _ (Step.create s i lt p) x h j = ground (arith, h j, h i)
IsReady-Step _ _ (Step.enter s i p on) x h j = ground (arith, h j, h i)
IsReady-Step _ _ (Step.leave s i p off) x h j = ground (arith, h j, h i)
IsReady-Step _ _ (Step.lock s i p free) x h j = ground (arith, h j, h i)
IsReady-Step _ _ (Step.wait s i p e) x h j = ground (arith, h j, h i)
IsReady-Step _ _ (Step.ready s i p e) x h j = ground (arith, h j, h i)
IsReady-Step _ _ (Step.sleep s i p) x h j = ground (arith, h j, h i)
IsReady-Step _ _ (Step.wake s i p) x h j = ground (arith, h j, h i)
IsReady-Step _ _ (Step.relock s i p free) x h j = ground (arith, h j, h i)
IsReady-Step _ _ (Step.stopped s i p off) x h j = ground (arith, h j, h i)
IsReady-Step _ _ (Step.go s i p on) x h j = ground (arith, h j, h i)
IsReady-Step _ _ (Step.pop s i y q p e) x h j = ground (arith, h j, h i, x i, x j)
IsReady-Step _ _ (Step.unlock s i y p) x h j = ground (arith, h j, h i)
IsReady-Step _ _ (Step.finish s i y p) x h j = ground (arith, h j, h i)
IsReady-Step _ _ (Step.push s y q free room e) x h j = ground (arith, h j, x j)
IsReady-Step _ _ (Step.stop s) x h j = ground (arith, h j)
IsReady-Step _ _ (Step.broadcast_all s) x h j = (
  λ e. (h j).0 (wake_place-else (s.places j) Place.at_pop (λ f. ground (arith, f)) e),
  λ e. (h j).1 (wake_place-else (s.places j) Place.at_stop (λ f. ground (arith, f)) e),
)

-- What every step keeps.
record IsSafe (s : ThreadPool) : Type 0 where
  exclusive : IsExclusive s
  tasks : HasTasks s
  ready : IsReady s

started-IsSafe : (cells : Heap) (fresh n : ℕ) → IsSafe (started cells fresh n)
unfolding started
started-IsSafe cells fresh n = record {
  exclusive = λ j h. ground arith;
  tasks = ([], queue_init-IsQueue cells fresh, refl);
  ready = λ j. (λ p. ground arith, λ p on. ground arith);
}

Reachable-IsSafe :
    (cells : Heap) (fresh n : ℕ) (s : ThreadPool) → Reachable cells fresh n s → IsSafe s
Reachable-IsSafe cells fresh n _ Reachable.begin = started-IsSafe cells fresh n
Reachable-IsSafe cells fresh n _ (Reachable.next s t r step) =
    let h = Reachable-IsSafe cells fresh n s r in
    record {
      exclusive = IsExclusive-Step s t step h.exclusive;
      tasks = tasks-Step s t step h.tasks;
      ready = IsReady-Step s t step h.exclusive h.ready;
    }

-- A worker in front of pthread_cond_wait has the mutex.
pub waiting-mutex :
    (cells : Heap) (fresh n : ℕ) (s : ThreadPool)
    → Reachable cells fresh n s
    → (i : ℕ) → s.places i ≡ Place.at_wait
    → s.mutex ≡ Owner.worker i
waiting-mutex cells fresh n s run i p =
    (Reachable-IsSafe cells fresh n s run).exclusive i (rw p refl)

module _ (cells : Heap) (fresh n : ℕ) (s : ThreadPool) (run : Reachable cells fresh n s) where
  -- A pool that is started once, after any steps of its workers and of its callers: while one worker
  -- is between the lock and the unlock of thread_work, no other is.
  pub mutual_exclusion : (i j : ℕ) → i ≢ j → holds (s.places i) ≡ true → holds (s.places j) ≡ false
  mutual_exclusion i j apart hi =
      let h = (Reachable-IsSafe cells fresh n s run).exclusive in ground (arith, h i hi, h j)

  -- A pool that is started once, after any steps: the workers have taken the tasks in the order in
  -- which they were pushed, each once, and the queue holds the others, in that order.
  pub no_task_lost : (xs : List ℕ) × IsQueue s.queue xs × (s.pushed ≡ s.taken ++ xs)
  no_task_lost = (Reachable-IsSafe cells fresh n s run).tasks

  -- A pool that is started once, after any steps: a worker that calls Queue_pop gets a task, and goes
  -- through no null pointer.
  pub pop_succeeds :
      (i : ℕ)
      → s.places i ≡ Place.at_pop
      → (x : ℕ) × (q : Queue) × (queue_pop s.queue ≡ some (x, q))
  pop_succeeds i p = let h = Reachable-IsSafe cells fresh n s run in found h.tasks ((h.ready i).0 p)
    where
      found :
          HasTasks s → 0 < s.queue.size → (x : ℕ) × (q : Queue) × (queue_pop s.queue ≡ some (x, q))
      found ([], h, l) some_task = absurd (omega (arith, h.counted, some_task))
      found (x ∷ xs, h, l) some_task = let (q, e, _) = queue_pop-IsQueue x s.queue xs h in (x, q, e)
