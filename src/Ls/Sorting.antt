-- ===== src/Ls/Sorting.antt =====
-- The loops of Code/huqingwei/study_file/my_ls3.c that sort names.
use mathlib.Core.Path.{subst}
use mathlib.Core.List.{Perm}
use mathlib.Core.List.Perm
use team_c.Common.{
  ℕ, zero, suc, true, false, ◌≡◌, refl, sym, ◌∙◌, ap, List, [], ◌∷◌, ◌++◌, Bool-cases, inl, inr,
  append-nil, arith,
}
use team_c.Common.Lists.{length, All, All-map}
use team_c.Common.Text.{CStr}
use team_c.Ls.{is_greater, pass, sort_rounds, sort_names}

-- strcmp(a, b) <= 0
abbrev pub IsAtMost : CStr → CStr → Type 0
IsAtMost a b = is_greater a b ≡ false

-- Every name is at most every one behind it.
abbrev pub IsSorted : List CStr → Type 0
IsSorted [] = Unit
IsSorted (x ∷ xs) = All (IsAtMost x) xs × IsSorted xs

IsAtMost-trans : (a b c : CStr) → IsAtMost a b → IsAtMost b c → IsAtMost a c
unfolding is_greater
IsAtMost-trans [] b c h k = refl
IsAtMost-trans (x ∷ a) [] c h k = ground (arith, h)
IsAtMost-trans (x ∷ a) (y ∷ b) [] h k = ground (arith, k)
IsAtMost-trans (x ∷ a) (y ∷ b) (z ∷ c) h k = ground (arith, h, k, IsAtMost-trans a b c)

greater_converse : (a b : CStr) → is_greater a b ≡ true → IsAtMost b a
unfolding is_greater
greater_converse [] b h = ground arith
greater_converse (x ∷ a) [] h = refl
greater_converse (x ∷ a) (y ∷ b) h = ground (arith, h, greater_converse a b)

pass-Perm : (n : ℕ) (names : List CStr) → Perm (pass n names) names
unfolding pass
pass-Perm zero names = Perm.rfl
pass-Perm (suc n) [] = Perm.rfl
pass-Perm (suc n) (x ∷ []) = Perm.rfl
pass-Perm (suc n) (x ∷ y ∷ names) = elim (Bool-cases (is_greater x y)) [
  | inl e ↦ rw (pass, e) (Perm.trans (Perm.cons y (pass-Perm n (x ∷ names))) (Perm.swap x y names))
  | inr e ↦ rw (pass, e) (Perm.cons x (pass-Perm n (y ∷ names)))
]

-- A pass over the first names leaves a greatest one behind the others.
record IsPassed (x : CStr) (xs back : List CStr) : Type 0 where
  front : List CStr
  greatest : CStr
  runs : pass (length xs) (x ∷ xs ++ back) ≡ front ++ greatest ∷ back
  same_length : length front ≡ length xs
  from_first : IsAtMost x greatest
  sorted : All (λ a. IsAtMost a greatest) front
  bounded :
      (b : CStr)
      → All (λ a. IsAtMost a b) (x ∷ xs)
      → All (λ a. IsAtMost a b) front × IsAtMost greatest b

is_greater_refl : (a : CStr) → IsAtMost a a
unfolding is_greater
is_greater_refl [] = refl
is_greater_refl (x ∷ a) = ground (arith, is_greater_refl a)

IsPassed-swap :
    (x y : CStr) (xs back : List CStr)
    → is_greater x y ≡ true
    → IsPassed x xs back
    → IsPassed x (y ∷ xs) back
unfolding pass
IsPassed-swap x y xs back e h = record {
  front = y ∷ h.front;
  greatest = h.greatest;
  runs = rw (pass, e) (ap (λ ys. y ∷ ys) h.runs);
  same_length = ap suc h.same_length;
  from_first = h.from_first;
  sorted = (IsAtMost-trans y x h.greatest (greater_converse x y e) h.from_first, h.sorted);
  bounded = λ b (hx, (hy, hs)). let r = h.bounded b (hx, hs) in ((hy, r.0), r.1);
}

IsPassed-keep :
    (x y : CStr) (xs back : List CStr)
    → is_greater x y ≡ false
    → IsPassed y xs back
    → IsPassed x (y ∷ xs) back
unfolding pass
IsPassed-keep x y xs back e h = record {
  front = x ∷ h.front;
  greatest = h.greatest;
  runs = rw (pass, e) (ap (λ ys. x ∷ ys) h.runs);
  same_length = ap suc h.same_length;
  from_first = IsAtMost-trans x y h.greatest e h.from_first;
  sorted = (IsAtMost-trans x y h.greatest e h.from_first, h.sorted);
  bounded = λ b (hx, hs). let r = h.bounded b hs in ((hx, r.0), r.1);
}

pass-IsPassed : (x : CStr) (xs back : List CStr) → IsPassed x xs back
unfolding pass
pass-IsPassed x [] back = record {
  front = [];
  greatest = x;
  runs = refl;
  same_length = refl;
  from_first = is_greater_refl x;
  sorted = tt;
  bounded = λ b h. (tt, h.0);
}
pass-IsPassed x (y ∷ xs) back = elim (Bool-cases (is_greater x y)) [
  | inl e ↦ IsPassed-swap x y xs back e (pass-IsPassed x xs back)
  | inr e ↦ IsPassed-keep x y xs back e (pass-IsPassed y xs back)
]

-- Every name of a list is at most every name of another one.
abbrev AllAtMost : List CStr → List CStr → Type 0
AllAtMost xs ys = All (λ b. All (λ a. IsAtMost a b) xs) ys

sorted_back :
    (x : CStr) (xs back : List CStr) (h : IsPassed x xs back)
    → AllAtMost (x ∷ xs) back
    → AllAtMost h.front back × All (IsAtMost h.greatest) back
sorted_back x xs back h below = (
  All-map _ (λ b. All (λ a. IsAtMost a b) h.front) (λ b k. (h.bounded b k).0) back below,
  All-map _ (IsAtMost h.greatest) (λ b k. (h.bounded b k).1) back below,
)

sort_rounds-IsSorted :
    (n : ℕ) (front back : List CStr)
    → length front ≡ n
    → IsSorted back
    → AllAtMost front back
    → IsSorted (sort_rounds n (front ++ back))
unfolding sort_rounds
sort_rounds-IsSorted zero [] back e s below = s
sort_rounds-IsSorted zero (x ∷ front) back e s below = absurd (omega (arith, e))
sort_rounds-IsSorted (suc n) [] back e s below = absurd (omega (arith, e))
sort_rounds-IsSorted (suc n) (x ∷ front) back e s below =
    let h = pass-IsPassed x front back in
    let (b1, b2) = sorted_back x front back h below in
    let same : length front ≡ n = omega (arith, e) in
    rw (sym same, h.runs, same)
      (sort_rounds-IsSorted n h.front (h.greatest ∷ back) (h.same_length ∙ same) (b2, s)
        (h.sorted, b1))

sort_rounds-Perm : (n : ℕ) (names : List CStr) → Perm (sort_rounds n names) names
unfolding sort_rounds
sort_rounds-Perm zero names = Perm.rfl
sort_rounds-Perm (suc n) names = Perm.trans (sort_rounds-Perm n (pass n names)) (pass-Perm n names)

-- The two loops that sort names end with the same names, each as often as before, in an order in which
-- strcmp finds none greater than one behind it.
pub sort_names-IsSorted :
    (names : List CStr) → IsSorted (sort_names names) × Perm (sort_names names) names
unfolding sort_names
sort_names-IsSorted names = (
  subst (λ l. IsSorted (sort_rounds (length names) l)) (append-nil names)
      (sort_rounds-IsSorted (length names) names [] refl tt tt),
  sort_rounds-Perm (length names) names,
)
