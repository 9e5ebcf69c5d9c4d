-- ===== src/Pool/Threads/Wakeup.antt =====
-- thread_pool_stop and the broadcast of thread_pool_destroy, which do not lock the mutex.
use team_c.Common.{ℕ, ◌==◌, Bool-cases, false, ◌≡◌, ◌≢◌, refl, arith, inl, inr}
use team_c.Pool.Threads.{Place, Owner, ThreadPool, goes, broadcast, Step, Reachable}
use team_c.Pool.Queue.{Heap}
use team_c.Pool.Threads.Safety.{waiting-mutex}

-- Steps of any threads, in none of which the worker i is woken.
pub data Unwoken (i : ℕ) (s : ThreadPool) : ThreadPool → Type 0 where
  still : Unwoken i s s
  later : (t u : ThreadPool) → Unwoken i s t → Step t u → u.places i ≢ Place.woken → Unwoken i s u

sleeping-Step :
    (i : ℕ) (s t : ThreadPool)
    → Step s t
    → s.places i ≡ Place.sleeping
    → t.places i ≢ Place.woken
    → t.places i ≡ Place.sleeping
sleeping-Step i _ _ (Step.create s j lt p) h n = ground arith
sleeping-Step i _ _ (Step.enter s j p on) h n = ground arith
sleeping-Step i _ _ (Step.leave s j p off) h n = ground arith
sleeping-Step i _ _ (Step.lock s j p free) h n = ground arith
sleeping-Step i _ _ (Step.wait s j p e) h n = ground arith
sleeping-Step i _ _ (Step.ready s j p e) h n = ground arith
sleeping-Step i _ _ (Step.sleep s j p) h n = ground arith
sleeping-Step i _ _ (Step.wake s j p) h n = elim (Bool-cases (i == j)) [
  | inl same ↦ absurd (n (ground (arith, same)))
  | inr other ↦ ground (arith, other)
]
sleeping-Step i _ _ (Step.relock s j p free) h n = ground arith
sleeping-Step i _ _ (Step.stopped s j p off) h n = ground arith
sleeping-Step i _ _ (Step.go s j p on) h n = ground arith
sleeping-Step i _ _ (Step.pop s j x q p e) h n = ground arith
sleeping-Step i _ _ (Step.unlock s j x p) h n = ground arith
sleeping-Step i _ _ (Step.finish s j x p) h n = ground arith
sleeping-Step i _ _ (Step.push s x q free room e) h n = h
sleeping-Step i _ _ (Step.stop s) h n = h
sleeping-Step i _ _ (Step.broadcast_all s) h n = absurd (n (rw (h) refl))

sleeping-Unwoken :
    (i : ℕ) (s t : ThreadPool)
    → s.places i ≡ Place.sleeping
    → Unwoken i s t
    → t.places i ≡ Place.sleeping
sleeping-Unwoken i s _ h Unwoken.still = h
sleeping-Unwoken i s _ h (Unwoken.later t u r step n) =
    sleeping-Step i t u step (sleeping-Unwoken i s t h r) n

-- No step starts the pool again.
is_start-Step : (s t : ThreadPool) → Step s t → s.is_start ≡ false → t.is_start ≡ false
is_start-Step _ _ (Step.create s j lt p) h = h
is_start-Step _ _ (Step.enter s j p on) h = h
is_start-Step _ _ (Step.leave s j p off) h = h
is_start-Step _ _ (Step.lock s j p free) h = h
is_start-Step _ _ (Step.wait s j p e) h = h
is_start-Step _ _ (Step.ready s j p e) h = h
is_start-Step _ _ (Step.sleep s j p) h = h
is_start-Step _ _ (Step.wake s j p) h = h
is_start-Step _ _ (Step.relock s j p free) h = h
is_start-Step _ _ (Step.stopped s j p off) h = h
is_start-Step _ _ (Step.go s j p on) h = h
is_start-Step _ _ (Step.pop s j x q p e) h = h
is_start-Step _ _ (Step.unlock s j x p) h = h
is_start-Step _ _ (Step.finish s j x p) h = h
is_start-Step _ _ (Step.push s x q free room e) h = h
is_start-Step _ _ (Step.stop s) h = refl
is_start-Step _ _ (Step.broadcast_all s) h = h

is_start-Unwoken :
    (i : ℕ) (s t : ThreadPool) → s.is_start ≡ false → Unwoken i s t → t.is_start ≡ false
is_start-Unwoken i s _ h Unwoken.still = h
is_start-Unwoken i s _ h (Unwoken.later t u r step n) =
    is_start-Step t u step (is_start-Unwoken i s t h r)

Unwoken-Reachable :
    (cells : Heap) (fresh n i : ℕ) (s t : ThreadPool)
    → Reachable cells fresh n s
    → Unwoken i s t
    → Reachable cells fresh n t
Unwoken-Reachable cells fresh n i s _ r Unwoken.still = r
Unwoken-Reachable cells fresh n i s _ r (Unwoken.later t u run step _) =
    Reachable.next t u (Unwoken-Reachable cells fresh n i s t r run) step

-- thread_pool_stop, and the broadcast behind it.
abbrev pub stop_and_broadcast : ThreadPool → ThreadPool
stop_and_broadcast s = broadcast (record s { is_start = false })

-- Then the worker i in pthread_cond_wait.
abbrev pub asleep : ℕ → ThreadPool → ThreadPool
asleep i s = goes i Place.sleeping Owner.nobody (stop_and_broadcast s)

-- In any state that a pool which was started once can come to, in which a worker has found the queue
-- empty and the pool started, and is in front of pthread_cond_wait: the worker has the mutex, and all
-- the same thread_pool_stop, the broadcast of thread_pool_destroy and the call of pthread_cond_wait
-- can be the next three steps, behind which the broadcast is over and the worker sleeps. Whatever
-- steps follow, as long as none of them wakes the worker: the pool is in a state that it can come to,
-- it is stopped, and the worker still sleeps.
pub broadcast_misses_waiter :
    (cells : Heap) (fresh n : ℕ) (s u : ThreadPool) (i : ℕ)
    → Reachable cells fresh n s
    → s.places i ≡ Place.at_wait
    → Unwoken i (asleep i s) u
    → (s.mutex ≡ Owner.worker i)
      × Step s (record s { is_start = false })
      × Step (record s { is_start = false }) (stop_and_broadcast s)
      × Step (stop_and_broadcast s) (asleep i s)
      × Reachable cells fresh n u
      × (u.is_start ≡ false)
      × (u.places i ≡ Place.sleeping)
broadcast_misses_waiter cells fresh n s u i r p run =
    let halted = record s { is_start = false } in
    let stops = Step.stop s in
    let wakes = Step.broadcast_all halted in
    let sleeps = Step.sleep (broadcast halted) i (rw p refl) in
    let later : Reachable cells fresh n (asleep i s) =
      Reachable.next _ _ (Reachable.next _ _ (Reachable.next _ _ r stops) wakes) sleeps in
    (
      waiting-mutex cells fresh n s r i p,
      stops,
      wakes,
      sleeps,
      Unwoken-Reachable cells fresh n i (asleep i s) u later run,
      is_start-Unwoken i (asleep i s) u refl run,
      sleeping-Unwoken i (asleep i s) u (ground arith) run,
    )
