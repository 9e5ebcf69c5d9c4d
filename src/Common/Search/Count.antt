-- ===== src/Common/Search/Count.antt =====
-- How many nodes pass a test, and what the searches and updates do to that number.
use team_c.Common.Tests.{if◌then◌else◌, Bool-cases}
use team_c.Common.Lists.{filter}
use team_c.Common.Search.{find, modify_first, delete_first}
use Prim.Native.Nat.{ℕ, suc, ◌+◌, ◌≤◌, ◌<◌}
use mathlib.Core.Path.{◌≡◌, refl}
use mathlib.Core.Logic.{inl, inr}
use mathlib.Core.Bool.{Bool, true, false, not}
use mathlib.Core.Option.{none, some}
use mathlib.Core.List.{List, [], ◌∷◌, ◌++◌, map}
use native.Mathlib.Omega.{arith}

module _ {ℓ} {A : Type ℓ} where
  unfoldable pub count : (A → Bool) → List A → ℕ
  count test [] = 0
  count test (x ∷ xs) = if test x then suc (count test xs) else count test xs

  module _ (test : A → Bool) where
    pub count-append : (xs ys : List A) → count test (xs ++ ys) ≡ count test xs + count test ys
    unfolding count
    count-append [] ys = omega arith
    count-append (x ∷ xs) ys = ground (arith, count-append xs ys)

    -- A search fails exactly where no node passes.
    pub count_of_find-none : (xs : List A) → find test xs ≡ none → count test xs ≡ 0
    unfolding find count
    count_of_find-none [] h = refl
    count_of_find-none (x ∷ xs) h = ground (arith, count_of_find-none xs)

    pub find-none_of_count : (xs : List A) → count test xs ≡ 0 → find test xs ≡ none
    unfolding find count
    find-none_of_count [] h = refl
    find-none_of_count (x ∷ xs) h = ground (arith, find-none_of_count xs)

    -- Where some node passes, a search finds one.
    pub find-some_of_count : (xs : List A) → 0 < count test xs → (a : A) × (find test xs ≡ some a)
    unfolding find count
    find-some_of_count [] h = absurd (omega arith)
    find-some_of_count (x ∷ xs) h = elim (Bool-cases (test x)) [
      | inl hit ↦ (x, ground arith)
      | inr miss ↦ let (a, e) = find-some_of_count xs (ground arith) in (a, ground (arith, e))
    ]

    -- The node that a search finds passes the test.
    pub find-passes : (xs : List A) (a : A) → find test xs ≡ some a → test a ≡ true
    unfolding find
    find-passes [] a h = ground arith
    find-passes (x ∷ xs) a h = ground (arith, find-passes xs a)

    pub find-append :
        (xs ys : List A)
        → find test (xs ++ ys) ≡ elim (find test xs) [ some a ↦ some a | none ↦ find test ys ]
    unfolding find
    find-append [] ys = refl
    find-append (x ∷ xs) ys = ground (arith, find-append xs ys)

  -- A deletion lowers the count of its own test by one, and raises no other.
  pub count-delete_first-le :
      (test other : A → Bool) (xs : List A) → count other (delete_first test xs) ≤ count other xs
  unfolding count delete_first
  count-delete_first-le test other [] = omega arith
  count-delete_first-le test other (x ∷ xs) = ground (arith, count-delete_first-le test other xs)

  pub find-delete_first_unique :
      (test : A → Bool) (xs : List A) → count test xs ≤ 1 → find test (delete_first test xs) ≡ none
  unfolding find count delete_first
  find-delete_first_unique test [] h = refl
  find-delete_first_unique test (x ∷ xs) h =
      ground (arith, find-none_of_count test xs, find-delete_first_unique test xs)

  filter_of_count :
      (test : A → Bool) (xs : List A) → count test xs ≡ 0 → filter (λ x. not (test x)) xs ≡ xs
  unfolding count
  filter_of_count test [] h = refl
  filter_of_count test (x ∷ xs) h = ground (arith, filter_of_count test xs)

  -- Where at most one node passes, `delete_first` deletes all that pass.
  pub delete_first-eq-filter :
      (test : A → Bool) (xs : List A)
      → count test xs ≤ 1
      → delete_first test xs ≡ filter (λ x. not (test x)) xs
  unfolding count delete_first
  delete_first-eq-filter test [] h = refl
  delete_first-eq-filter test (x ∷ xs) h =
      ground (arith, filter_of_count test xs, delete_first-eq-filter test xs)

  -- An update that leaves a test alone leaves its count alone.
  pub count-modify_first :
      (test other : A → Bool) (f : A → A) (xs : List A)
      → ((a : A) → other (f a) ≡ other a)
      → count other (modify_first test f xs) ≡ count other xs
  unfolding count modify_first
  count-modify_first test other f [] h = refl
  count-modify_first test other f (x ∷ xs) h =
      ground (arith, h x, count-modify_first test other f xs h)

  pub count-modify_first-le :
      (test other : A → Bool) (f : A → A) (xs : List A)
      → ((a : A) → other (f a) ≡ false)
      → count other (modify_first test f xs) ≤ count other xs
  unfolding count modify_first
  count-modify_first-le test other f [] h = omega arith
  count-modify_first-le test other f (x ∷ xs) h =
      ground (arith, h x, count-modify_first-le test other f xs h)

  -- What no node passes, the node that is found does not pass.
  pub find-fails_of_count :
      (test other : A → Bool) (xs : List A) (a : A)
      → count other xs ≡ 0
      → find test xs ≡ some a
      → other a ≡ false
  unfolding count find
  find-fails_of_count test other [] a none_pass h = ground arith
  find-fails_of_count test other (x ∷ xs) a none_pass h =
      ground (arith, find-fails_of_count test other xs a)

  map_of_count :
      (test : A → Bool) (f : A → A) (xs : List A)
      → count test xs ≡ 0
      → map (λ x. if test x then f x else x) xs ≡ xs
  unfolding count
  map_of_count test f [] h = refl
  map_of_count test f (x ∷ xs) h = ground (arith, map_of_count test f xs)

  -- Where at most one node passes, `modify_first` changes all that pass.
  pub modify_first-eq-map :
      (test : A → Bool) (f : A → A) (xs : List A)
      → count test xs ≤ 1
      → modify_first test f xs ≡ map (λ x. if test x then f x else x) xs
  unfolding count modify_first
  modify_first-eq-map test f [] h = refl
  modify_first-eq-map test f (x ∷ xs) h =
      ground (arith, map_of_count test f xs, modify_first-eq-map test f xs)

  -- After an update that keeps the test, the same search finds the new node.
  pub find-modify_first :
      (test : A → Bool) (f : A → A) (xs : List A) (a : A)
      → test (f a) ≡ true
      → find test xs ≡ some a
      → find test (modify_first test f xs) ≡ some (f a)
  unfolding find modify_first
  find-modify_first test f [] a keeps h = ground arith
  find-modify_first test f (x ∷ xs) a keeps h = ground (arith, find-modify_first test f xs a keeps)

  -- An update of other nodes does not change what a search finds.
  pub find-modify_first_other :
      (test other : A → Bool) (f : A → A) (xs : List A)
      → ((a : A) → test a ≡ true → other a ≡ false)
      → ((a : A) → other (f a) ≡ other a)
      → find other (modify_first test f xs) ≡ find other xs
  unfolding find modify_first
  find-modify_first_other test other f [] apart keeps = refl
  find-modify_first_other test other f (x ∷ xs) apart keeps =
      ground (arith, apart x, keeps x, find-modify_first_other test other f xs apart keeps)

  pub find-delete_first_other :
      (test other : A → Bool) (xs : List A)
      → ((a : A) → test a ≡ true → other a ≡ false)
      → find other (delete_first test xs) ≡ find other xs
  unfolding find delete_first
  find-delete_first_other test other [] apart = refl
  find-delete_first_other test other (x ∷ xs) apart =
      ground (arith, apart x, find-delete_first_other test other xs apart)
