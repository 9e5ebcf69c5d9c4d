-- ===== src/Pool/Threads.antt =====
-- The threads of the pool: thread_pool.c of Code/liuting1/lt_thread_pool. A state is the pool with the
-- place of each worker in thread_work; a step is what one thread does between two points where
-- another can come in between.
pub mod Safety
pub mod Destruction
pub mod Wakeup
use team_c.Common.{
  ℕ, ◌+◌, ◌<◌, ◌==◌, ltb, Bool, true, false, not, ◌&&◌, some, ◌≡◌, List, [], ◌∷◌, ◌++◌,
  if◌then◌else◌,
}
use team_c.Pool.Queue.{Queue, Heap, queue_init, queue_push, queue_pop, words}

-- Where a worker stands in thread_work.
pub data Place : Type 0 where
  -- not created yet
  idle : Place
  -- `while(pool->is_start)`
  at_while : Place
  -- pthread_mutex_lock
  at_lock : Place
  -- `while(Queue_size(pool->queue) < 1 && pool->is_start)`, with the mutex
  at_check : Place
  -- the call of pthread_cond_wait, with the mutex
  at_wait : Place
  -- in pthread_cond_wait, without the mutex
  sleeping : Place
  -- woken, and waiting for the mutex
  woken : Place
  -- `if(pool->is_start==0)`, with the mutex
  at_stop : Place
  -- Queue_pop, with the mutex
  at_pop : Place
  -- pthread_mutex_unlock, with a task
  at_unlock : ℕ → Place
  -- the callback of a task
  running : ℕ → Place
  -- pthread_exit, or the end of the function
  exited : Place

pub data Owner : Type 0 where
  nobody : Owner
  worker : ℕ → Owner

pub record ThreadPool : Type 0 where
  pub queue : Queue
  pub is_start : Bool
  pub mutex : Owner
  pub thread_count : ℕ
  pub places : ℕ → Place
  -- the tasks that were pushed, and those that workers have taken, oldest first
  pub pushed : List ℕ
  pub taken : List ℕ

abbrev pub move : ℕ → Place → (ℕ → Place) → ℕ → Place
move i c places j = if j == i then c else places j

-- A worker goes to a place, and the mutex to an owner.
abbrev pub goes : ℕ → Place → Owner → ThreadPool → ThreadPool
goes i c o s = record s { places = move i c s.places; mutex = o }

-- The test of the inner loop: true when the worker is to wait.
abbrev pub is_empty : ThreadPool → Bool
is_empty s = ltb s.queue.size 1 && s.is_start

-- thread_pool_init and the assignment of thread_pool_start.
unfoldable pub started : Heap → ℕ → ℕ → ThreadPool
started cells fresh thread_count = record {
  queue = queue_init cells fresh;
  is_start = true;
  mutex = Owner.nobody;
  thread_count = thread_count;
  places = λ i. Place.idle;
  pushed = [];
  taken = [];
}

-- pthread_cond_broadcast: the workers that are in pthread_cond_wait, and no others, are woken.
abbrev pub wake_place : Place → Place
wake_place Place.sleeping = Place.woken
wake_place c = c

abbrev pub broadcast : ThreadPool → ThreadPool
broadcast s = record s { places = λ j. wake_place (s.places j) }

pub data Step : ThreadPool → ThreadPool → Type 0 where
  -- pthread_create in thread_pool_start
  create :
      (s : ThreadPool) (i : ℕ)
      → i < s.thread_count
      → s.places i ≡ Place.idle
      → Step s (goes i Place.at_while s.mutex s)
  -- the outer loop
  enter :
      (s : ThreadPool) (i : ℕ)
      → s.places i ≡ Place.at_while
      → s.is_start ≡ true
      → Step s (goes i Place.at_lock s.mutex s)
  leave :
      (s : ThreadPool) (i : ℕ)
      → s.places i ≡ Place.at_while
      → s.is_start ≡ false
      → Step s (goes i Place.exited s.mutex s)
  lock :
      (s : ThreadPool) (i : ℕ)
      → s.places i ≡ Place.at_lock
      → s.mutex ≡ Owner.nobody
      → Step s (goes i Place.at_check (Owner.worker i) s)
  -- the inner loop
  wait :
      (s : ThreadPool) (i : ℕ)
      → s.places i ≡ Place.at_check
      → is_empty s ≡ true
      → Step s (goes i Place.at_wait s.mutex s)
  ready :
      (s : ThreadPool) (i : ℕ)
      → s.places i ≡ Place.at_check
      → is_empty s ≡ false
      → Step s (goes i Place.at_stop s.mutex s)
  -- pthread_cond_wait: the mutex is released; then a signal, a broadcast, or no reason at all
  sleep :
      (s : ThreadPool) (i : ℕ)
      → s.places i ≡ Place.at_wait
      → Step s (goes i Place.sleeping Owner.nobody s)
  wake :
      (s : ThreadPool) (i : ℕ) → s.places i ≡ Place.sleeping → Step s (goes i Place.woken s.mutex s)
  relock :
      (s : ThreadPool) (i : ℕ)
      → s.places i ≡ Place.woken
      → s.mutex ≡ Owner.nobody
      → Step s (goes i Place.at_check (Owner.worker i) s)
  -- behind the inner loop
  stopped :
      (s : ThreadPool) (i : ℕ)
      → s.places i ≡ Place.at_stop
      → s.is_start ≡ false
      → Step s (goes i Place.exited Owner.nobody s)
  go :
      (s : ThreadPool) (i : ℕ)
      → s.places i ≡ Place.at_stop
      → s.is_start ≡ true
      → Step s (goes i Place.at_pop s.mutex s)
  pop :
      (s : ThreadPool) (i x : ℕ) (q : Queue)
      → s.places i ≡ Place.at_pop
      → queue_pop s.queue ≡ some (x, q)
      → Step s
          (record (goes i (Place.at_unlock x) s.mutex s) { queue = q; taken = s.taken ++ x ∷ [] })
  unlock :
      (s : ThreadPool) (i x : ℕ)
      → s.places i ≡ Place.at_unlock x
      → Step s (goes i (Place.running x) Owner.nobody s)
  finish :
      (s : ThreadPool) (i x : ℕ)
      → s.places i ≡ Place.running x
      → Step s (goes i Place.at_while s.mutex s)
  -- thread_pool_pushtask, from the lock to the unlock
  push :
      (s : ThreadPool) (x : ℕ) (q : Queue)
      → s.mutex ≡ Owner.nobody
      → s.queue.size + 1 < words
      → queue_push x s.queue ≡ some q
      → Step s (record s { queue = q; pushed = s.pushed ++ x ∷ [] })
  -- thread_pool_stop, without the mutex
  stop : (s : ThreadPool) → Step s (record s { is_start = false })
  -- the broadcast of thread_pool_destroy, without the mutex
  broadcast_all : (s : ThreadPool) → Step s (broadcast s)

-- What a pool that was started once can come to.
pub data Reachable (cells : Heap) (fresh thread_count : ℕ) : ThreadPool → Type 0 where
  begin : Reachable cells fresh thread_count (started cells fresh thread_count)
  next :
      (s t : ThreadPool)
      → Reachable cells fresh thread_count s
      → Step s t
      → Reachable cells fresh thread_count t
