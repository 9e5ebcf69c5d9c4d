-- ===== src/Pool/Queue/Teardown.antt =====
-- Queue_destory of Code/liuting1/lt_thread_pool/queue.c on the linked nodes of the queue.
use mathlib.Core.Path.{subst}
use team_c.Common.{ℕ, zero, suc, ◌≤◌, ◌<◌, none, some, ◌≡◌, refl, sym, ◌∙◌, List, [], ◌∷◌, arith}
use team_c.Common.Lists.{length, All}
use team_c.Pool.Queue.{Node, Heap, Queue, Remains, write, free_nodes, queue_destory, remains}
use team_c.Pool.Queue.Fifo.{IsQueue, IsChain, HasData}

-- The addresses of the nodes behind the node p, in their order.
unfoldable pub IsLinked : Heap → ℕ → List ℕ → Type 0
IsLinked cells p [] = (n : Node) × (cells p ≡ some n) × (n.next ≡ none)
IsLinked cells p (a ∷ addrs) =
    (n : Node) × (cells p ≡ some n) × (n.next ≡ some a) × IsLinked cells a addrs

-- What a loop over the nodes behind p leaves.
record IsFreed (rounds : ℕ) (p : ℕ) (n : Node) (cells : Heap) (xs addrs : List ℕ) : Type 0 where
  cells' : Heap
  runs : free_nodes rounds n.next cells ≡ some (xs, cells')
  freed : All (λ a. cells' a ≡ none) addrs
  kept : (a : ℕ) → a ≤ p → cells' a ≡ cells a

IsFreed-step :
    (rounds p p' x : ℕ) (n m : Node) (cells : Heap) (xs addrs : List ℕ)
    → n.next ≡ some p'
    → cells p' ≡ some m
    → m.data_ ≡ x
    → p < p'
    → IsFreed rounds p' m (write p' none cells) xs addrs
    → IsFreed (suc rounds) p n cells (x ∷ xs) (p' ∷ addrs)
unfolding free_nodes
IsFreed-step rounds p p' x n m cells xs addrs l f d lt h = record {
  cells' = h.cells';
  runs = rw (l, free_nodes, f, h.runs, d) refl;
  freed = (h.kept p' (omega arith) ∙ ground arith, h.freed);
  kept = λ a le. h.kept a (omega (arith, le, lt)) ∙ ground (arith, le, lt);
}

-- The node at an address is the node at that address.
same_next :
    (cells : Heap) (p : ℕ) (n n' : Node) → cells p ≡ some n → cells p ≡ some n' → n.next ≡ n'.next
same_next cells p n n' e e' = ground (arith, e, e')

free_nodes-chain :
    (rounds p last : ℕ) (n : Node) (cells0 cells : Heap) (xs addrs : List ℕ)
    → IsChain cells0 p last xs
    → IsLinked cells0 p addrs
    → length xs ≤ rounds
    → cells0 p ≡ some n
    → ((a : ℕ) → p < a → cells a ≡ cells0 a)
    → IsFreed rounds p n cells xs addrs
unfolding IsChain IsLinked HasData free_nodes
free_nodes-chain rounds p last n cells0 cells [] [] (e, (n1, f1, l1)) (n2, f2, l2) le found same =
    record {
      cells' = cells;
      runs = rw (same_next cells0 p n n2 found f2, l2, free_nodes) refl;
      freed = tt;
      kept = λ a h. refl;
    }
free_nodes-chain rounds p last n cells0 cells [] (b ∷ addrs) (e, (n1, f1, l1)) (n2, f2, l2, rest) le
      found same =
    absurd (ground (arith, l1, l2, same_next cells0 p n1 n2 f1 f2))
free_nodes-chain rounds p last n cells0 cells (x ∷ xs) [] (n1, p', f1, l1, d, lt, rest) (n2, f2, l2)
      le found same =
    absurd (ground (arith, l1, l2, same_next cells0 p n1 n2 f1 f2))
free_nodes-chain zero p last n cells0 cells (x ∷ xs) (b ∷ addrs) c l le found same =
    absurd (omega (arith, le))
free_nodes-chain (suc rounds) p last n cells0 cells (x ∷ xs) (b ∷ addrs)
      (n1, p', f1, l1, (m, f, d), lt, rest) (n2, f2, l2, links) le found same =
    let e : p' ≡ b = ground (arith, l1, l2, same_next cells0 p n1 n2 f1 f2) in
    subst (λ c. IsFreed (suc rounds) p n cells (x ∷ xs) (c ∷ addrs)) e
      (IsFreed-step rounds p p' x n m cells xs addrs (same_next cells0 p n n1 found f1 ∙ l1)
        (same p' lt ∙ f) d lt
        (free_nodes-chain rounds p' last m cells0 (write p' none cells) xs addrs rest
          (subst (λ c. IsLinked cells0 c addrs) (sym e) links) (omega (arith, le)) f
          (λ a lt'. ground (arith, lt', same a (omega (arith, lt, lt'))))))

head_node :
    (cells : Heap) (p last : ℕ) (xs : List ℕ)
    → IsChain cells p last xs
    → (n : Node) × (cells p ≡ some n)
unfolding IsChain
head_node cells p last [] (e, (n, f, l)) = (n, f)
head_node cells p last (x ∷ xs) (n, p', f, l, d, lt, rest) = (n, f)

-- Queue_destory on a queue that holds a list, with at least as many rounds as the list has elements,
-- returns: dataDestory is called once for each element, in the order of the list, and the nodes
-- behind the head are free. The head is null then, but its node is not freed.
pub queue_destory-IsQueue :
    (rounds : ℕ) (q : Queue) (xs addrs : List ℕ)
    → IsQueue q xs
    → IsLinked q.cells q.head addrs
    → length xs ≤ rounds
    → (r : Remains) × (queue_destory rounds q ≡ some r)
      × (r.destroyed ≡ xs)
      × All (λ a. r.cells a ≡ none) addrs
      × (r.cells q.head ≡ q.cells q.head)
      × (r.head ≡ none)
unfolding queue_destory
queue_destory-IsQueue rounds q xs addrs h links le =
    let (n, found) = head_node q.cells q.head q.end xs h.chain in
    let f =
      free_nodes-chain rounds q.head q.end n q.cells q.cells xs addrs h.chain links le found
        (λ a lt. refl) in
    (
      remains q (xs, f.cells'),
      rw (queue_destory, found, f.runs) refl,
      refl,
      f.freed,
      f.kept q.head (omega arith),
      refl,
    )

-- The nodes of a queue have addresses.
pub chain_addresses :
    (cells : Heap) (p last : ℕ) (xs : List ℕ)
    → IsChain cells p last xs
    → (addrs : List ℕ) × IsLinked cells p addrs
unfolding IsChain IsLinked
chain_addresses cells p last [] (e, end_node) = ([], end_node)
chain_addresses cells p last (x ∷ xs) (n, p', f, l, d, lt, rest) =
    let (addrs, links) = chain_addresses cells p' last xs rest in (p' ∷ addrs, (n, f, l, links))
