-- ===== src/Pool/Queue/Fifo.antt =====
-- The linked nodes of the queue, and the list that it holds.
use team_c.Common.{
  ℕ, suc, ◌+◌, ◌<◌, ◌≤◌, ◌≢◌, ◌==◌, Option, none, some, ◌≡◌, refl, sym, ap, ◌∙◌, List, [],
  if◌then◌else◌, Bool-cases, inl, inr, ◌∷◌, ◌++◌, arith,
}
use team_c.Common.Lists.{length}
use team_c.Pool.Queue.{Node, Heap, Queue, write, words, queue_init, queue_push, queue_pop}

-- The node at p is allocated, and its data is x.
unfoldable pub HasData : Heap → ℕ → ℕ → Type 0
HasData cells p x = (m : Node) × (cells p ≡ some m) × (m.data_ ≡ x)

-- The nodes behind p hold the elements of the list, in order, up to the node `last`, and each node
-- was allocated after the one before it.
unfoldable pub IsChain : Heap → ℕ → ℕ → List ℕ → Type 0
IsChain cells p last [] = (p ≡ last) × ((n : Node) × (cells p ≡ some n) × (n.next ≡ none))
IsChain cells p last (x ∷ xs) =
    (n : Node) × (p' : ℕ) × (cells p ≡ some n)
    × (n.next ≡ some p')
    × HasData cells p' x
    × (p < p')
    × IsChain cells p' last xs

-- The queue holds the elements of the list.
pub record IsQueue (q : Queue) (xs : List ℕ) : Type 0 where
  pub chain : IsChain q.cells q.head q.end xs
  pub allocated : q.end < q.fresh
  pub counted : q.size ≡ length xs
  pub fits : length xs < words

IsChain-le : (cells : Heap) (p last : ℕ) (xs : List ℕ) → IsChain cells p last xs → p ≤ last
unfolding IsChain
IsChain-le cells p last [] h = omega (arith, h.0)
IsChain-le cells p last (x ∷ xs) (n, p', e, l, d, lt, rest) =
    omega (arith, lt, IsChain-le cells p' last xs rest)

-- A chain reads no address in front of its first node.
IsChain-frame :
    (cells cells' : Heap) (p last : ℕ) (xs : List ℕ)
    → ((a : ℕ) → p ≤ a → cells' a ≡ cells a)
    → IsChain cells p last xs
    → IsChain cells' p last xs
unfolding IsChain HasData
IsChain-frame cells cells' p last [] same (e, (n, f, l)) = (e, (n, same p (omega arith) ∙ f, l))
IsChain-frame cells cells' p last (x ∷ xs) same (n, p', e, l, d, lt, rest) = (
  n,
  p',
  same p (omega arith) ∙ e,
  l,
  (d.0, same p' (omega (arith, lt)) ∙ d.1, d.2),
  lt,
  IsChain-frame cells cells' p' last xs (λ a le. same a (omega (arith, lt, le))) rest,
)

-- The node at the end of a chain.
chain_end :
    (cells : Heap) (p last : ℕ) (xs : List ℕ)
    → IsChain cells p last xs
    → (n : Node) × (cells last ≡ some n) × (n.next ≡ none)
unfolding IsChain
chain_end cells p last [] (e, (n, f, l)) = (n, ap cells (sym e) ∙ f, l)
chain_end cells p last (x ∷ xs) (n, p', e, l, d, lt, rest) = chain_end cells p' last xs rest

write_here : (p : ℕ) (n : Option Node) (cells : Heap) → write p n cells p ≡ n
write_here p n cells = ground arith

write_elsewhere : (p a : ℕ) (n : Option Node) (cells : Heap) → a ≢ p → write p n cells a ≡ cells a
write_elsewhere p a n cells h = ground arith

length-snoc : (xs : List ℕ) (x : ℕ) → length (xs ++ x ∷ []) ≡ suc (length xs)
length-snoc [] x = refl
length-snoc (y ∷ ys) x = ap suc (length-snoc ys x)

-- The heap after a push: the new node at `fresh`, and its address in the node `last`.
abbrev pushed : Heap → ℕ → ℕ → Node → ℕ → Heap
pushed cells last fresh e x =
    write last (some (record e { next = some fresh }))
      (write fresh (some (record { data_ = x; next = none })) cells)

HasData-pushed :
    (cells : Heap) (p last fresh : ℕ) (e : Node) (x y : ℕ)
    → last < fresh
    → p ≤ last
    → cells last ≡ some e
    → HasData cells p y
    → HasData (pushed cells last fresh e x) p y
unfolding HasData
HasData-pushed cells p last fresh e x y lt le found (m, f, d) = elim (Bool-cases (p == last)) [
  | inl here ↦
      (record e { next = some fresh }, ground (arith, here), ground (arith, here, found, f, d))
  | inr other ↦ (m, ground (arith, other, lt, le, f), d)
]

IsChain-pushed :
    (cells : Heap) (p last fresh : ℕ) (e : Node) (x : ℕ) (xs : List ℕ)
    → last < fresh
    → cells last ≡ some e
    → IsChain cells p last xs
    → IsChain (pushed cells last fresh e x) p fresh (xs ++ x ∷ [])
unfolding IsChain HasData
IsChain-pushed cells p last fresh e x [] lt found (q, (n, f, l)) = (
  record e { next = some fresh },
  fresh,
  ground (arith, q),
  refl,
  (record { data_ = x; next = none }, ground (arith, lt), refl),
  omega (arith, q, lt),
  (refl, (record { data_ = x; next = none }, ground (arith, lt), refl)),
)
IsChain-pushed cells p last fresh e x (y ∷ ys) lt found (n, p', f, l, d, lt', rest) =
    let le = IsChain-le cells p' last ys rest in
    (
      n,
      p',
      ground (arith, lt, lt', le, f),
      l,
      HasData-pushed cells p' last fresh e x y lt le found d,
      lt',
      IsChain-pushed cells p' last fresh e x ys lt found rest,
    )

-- Queue_push on a queue that holds a list whose length plus one is below 2^64: it writes through
-- no bad pointer, and the queue holds the list with the new element at its end.
pub queue_push-IsQueue :
    (x : ℕ) (q : Queue) (xs : List ℕ)
    → IsQueue q xs
    → length xs + 1 < words
    → (q' : Queue) × (queue_push x q ≡ some q') × IsQueue q' (xs ++ x ∷ [])
unfolding queue_push
queue_push-IsQueue x q xs h room =
    let (e, found, _) = chain_end q.cells q.head q.end xs h.chain in
    let q' : Queue = record {
      cells = pushed q.cells q.end q.fresh e x;
      fresh = suc q.fresh;
      head = q.head;
      end = q.fresh;
      size = q.size + 1;
    } in
    (
      q',
      ground (arith, h.allocated, found, h.counted, room),
      record {
        chain = IsChain-pushed q.cells q.head q.end q.fresh e x xs h.allocated found h.chain;
        allocated = omega arith;
        counted = omega (arith, h.counted, length-snoc xs x);
        fits = omega (arith, room, length-snoc xs x);
      },
    )

-- The heap after a pop.
abbrev popped : Heap → ℕ → ℕ → Node → Node → Heap
popped cells head p n m = write p none (write head (some (record n { next = m.next })) cells)

-- The end of the queue after a pop that leaves a list.
abbrev end_after : Queue → List ℕ → ℕ
end_after q [] = q.head
end_after q (_ ∷ _) = q.end

end_after_lem :
    (q : Queue) (xs : List ℕ) → end_after q xs ≡ (if length xs == 0 then q.head else q.end)
end_after_lem q [] = refl
end_after_lem q (x ∷ xs) = ground arith

-- The state after a pop of the node m at p behind the head n.
abbrev after_pop : Queue → ℕ → Node → Node → List ℕ → Queue
after_pop q p n m xs = record q {
  cells = popped q.cells q.head p n m;
  end = end_after q xs;
  size = length xs;
}

IsChain-popped :
    (q : Queue) (p x : ℕ) (n m : Node) (xs : List ℕ)
    → q.cells p ≡ some m
    → q.head < p
    → q.end < q.fresh
    → length xs < words
    → IsChain q.cells p q.end xs
    → IsQueue (after_pop q p n m xs) xs
unfolding IsChain HasData
IsChain-popped q p x n m [] found lt allocated fits (e, (m2, f2, l2)) = record {
  chain = (refl, (record n { next = m.next }, ground (arith, lt), ground (arith, found, f2, l2)));
  allocated = omega (arith, lt, e, allocated);
  counted = refl;
  fits = fits;
}
IsChain-popped q p x n m (y ∷ ys) found lt allocated fits
      (m2, p2, f2, l2, (m3, f3, d3), lt2, rest) =
    record {
      chain = (
        record n { next = m.next },
        p2,
        ground (arith, lt),
        ground (arith, found, f2, l2),
        (m3, ground (arith, lt, lt2, f3), d3),
        omega (arith, lt, lt2),
        IsChain-frame q.cells (popped q.cells q.head p n m) p2 q.end ys
            (λ a le. ground (arith, le, lt, lt2)) rest,
      );
      allocated = allocated;
      counted = refl;
      fits = fits;
    }

-- Queue_pop on a queue that holds a list that is not empty: it goes through no bad pointer, its
-- result is the first element, and the queue holds the rest.
pub queue_pop-IsQueue :
    (x : ℕ) (q : Queue) (xs : List ℕ)
    → IsQueue q (x ∷ xs)
    → (q' : Queue) × (queue_pop q ≡ some (x, q')) × IsQueue q' xs
unfolding queue_pop IsChain HasData
queue_pop-IsQueue x q xs h =
    let (n, p, found, next, (m, found', is_x), lt, rest) = h.chain in
    (
      after_pop q p n m xs,
      ground (arith, found, next, found', is_x, h.counted, h.fits, end_after_lem q xs),
      IsChain-popped q p x n m xs found' lt h.allocated (omega (arith, h.fits)) rest,
    )

-- Queue_pop on an empty queue goes through a null pointer.
pub queue_pop-crashes : (q : Queue) → IsQueue q [] → queue_pop q ≡ none
unfolding queue_pop IsChain
queue_pop-crashes q h = let (_, (n, found, next)) = h.chain in ground (arith, found, next)

-- Queue_init holds the empty list.
pub queue_init-IsQueue : (cells : Heap) (fresh : ℕ) → IsQueue (queue_init cells fresh) []
unfolding queue_init IsChain
queue_init-IsQueue cells fresh = record {
  chain = (refl, (record { data_ = 0; next = none }, ground arith, refl));
  allocated = omega arith;
  counted = refl;
  fits = omega arith;
}
