-- ===== src/Pool/Queue.antt =====
-- The queue of tasks: queue.c of Code/liuting1/lt_thread_pool. Its nodes stand in a heap; an address
-- is a number, `none` the null pointer, and a call that goes through a null or dangling pointer has
-- the result `none`.
pub mod Fifo
pub mod Teardown
use team_c.Common.{
  ℕ, zero, suc, List, [], ◌∷◌, ◌+◌, ◌-◌, ◌%◌, ◌==◌, Option, none, some, if◌then◌else◌,
}

pub record Node : Type 0 where
  pub data_ : ℕ
  pub next : Option ℕ

-- The memory: the nodes that are allocated.
abbrev pub Heap : Type 0
Heap = ℕ → Option Node

abbrev pub write : ℕ → Option Node → Heap → Heap
write p n cells a = if a == p then n else cells a

-- Queue, with the heap and the address that malloc returns next.
pub record Queue : Type 0 where
  pub cells : Heap
  pub fresh : ℕ
  pub head : ℕ
  pub end : ℕ
  pub size : ℕ

-- The values of size_t.
abbrev pub words : ℕ
words = 18446744073709551616

-- Queue_init, in a heap where every address from `fresh` on is free: the head is a node without data.
unfoldable pub queue_init : Heap → ℕ → Queue
queue_init cells fresh = record {
  cells = write fresh (some (record { data_ = 0; next = none })) cells;
  fresh = suc fresh;
  head = fresh;
  end = fresh;
  size = 0;
}

-- Queue_push
unfoldable pub queue_push : ℕ → Queue → Option Queue
queue_push data_ q =
    let qnew = q.fresh in
    let cells = write qnew (some (record { data_ = data_; next = none })) q.cells in
    elim (cells q.end) [
      | none ↦ none
      | some e ↦ some (record {
        cells = write q.end (some (record e { next = some qnew })) cells;
        fresh = suc q.fresh;
        head = q.head;
        end = qnew;
        size = (q.size + 1) % words;
      })
    ]

-- Queue_pop
unfoldable pub queue_pop : Queue → Option (ℕ × Queue)
queue_pop q = elim (q.cells q.head) [
  | none ↦ none
  | some h ↦ elim h.next [
    | none ↦ none
    | some p ↦ elim (q.cells p) [
      | none ↦ none
      | some n ↦ some (
        n.data_,
        record q {
          cells = write p none (write q.head (some (record h { next = n.next })) q.cells);
          end = if q.size == 1 then q.head else q.end;
          size = (q.size + words - 1) % words;
        },
      )
    ]
  ]
]

-- Queue_size
abbrev pub queue_size : Queue → ℕ
queue_size q = q.size

abbrev pub note_data : ℕ → Option (List ℕ × Heap) → Option (List ℕ × Heap)
note_data x none = none
note_data x (some r) = some (x ∷ r.0, r.1)

-- The loop of Queue_destory from the node q, with the rounds that are left: the data that
-- dataDestory gets, in order, and the heap.
unfoldable pub free_nodes : ℕ → Option ℕ → Heap → Option (List ℕ × Heap)
free_nodes rounds none cells = some ([], cells)
free_nodes zero (some p) cells = none
free_nodes (suc rounds) (some p) cells = elim (cells p) [
  | none ↦ none
  | some n ↦ note_data n.data_ (free_nodes rounds n.next (write p none cells))
]

-- What Queue_destory leaves: the fields of the queue, and what dataDestory was called with.
pub record Remains : Type 0 where
  pub destroyed : List ℕ
  pub cells : Heap
  pub head : Option ℕ
  pub end : ℕ
  pub size : ℕ

abbrev pub remains : Queue → List ℕ × Heap → Remains
remains q r = record { destroyed = r.0; cells = r.1; head = none; end = q.end; size = q.size }

abbrev pub remains_of : Queue → Option (List ℕ × Heap) → Option Remains
remains_of q none = none
remains_of q (some r) = some (remains q r)

-- Queue_destory, with a dataDestory
unfoldable pub queue_destory : ℕ → Queue → Option Remains
queue_destory rounds q = elim (q.cells q.head) [
  | none ↦ none
  | some h ↦ remains_of q (free_nodes rounds h.next q.cells)
]
