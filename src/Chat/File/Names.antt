-- ===== src/Chat/File/Names.antt =====
-- Which part of a path get_file_name takes.
use team_c.Common.{
  ℕ, zero, suc, ◌+◌, ◌-◌, ◌<◌, ◌≤◌, Option, none, some, ◌≡◌, ◌≢◌, refl, ap, ◌∙◌, [], ◌∷◌, ◌++◌,
  arith, append_assoc,
}
use team_c.Common.Lists.{length-append, All, length, get_elem?, drop}
use team_c.Common.Text.{CStr}
use team_c.Chat.File.{name_start, get_file_name}

-- The place holds a character that is not '/'.
abbrev IsPlain : Option ℕ → Type 0
IsPlain o = o ≢ some b'/'

name_start-plain :
    (path : CStr) (j : ℕ) → IsPlain (get_elem? path j) → name_start path (suc j) ≡ name_start path j
unfolding name_start
name_start-plain path j h = ground arith

name_start-slash :
    (path : CStr) (j : ℕ) → get_elem? path j ≡ some b'/' → name_start path (suc j) ≡ some (suc j)
unfolding name_start
name_start-slash path j h = ground arith

get_elem?-append : (xs ys : CStr) (i : ℕ) → get_elem? (xs ++ ys) (length xs + i) ≡ get_elem? ys i
get_elem?-append [] ys i = ap (get_elem? ys) (omega arith)
get_elem?-append (x ∷ xs) ys i =
    let e : suc (length xs) + i ≡ suc (length xs + i) = omega arith in
    rw e (get_elem?-append xs ys i)

drop-append : (xs ys : CStr) → drop (length xs) (xs ++ ys) ≡ ys
drop-append [] ys = refl
drop-append (x ∷ xs) ys = drop-append xs ys

All-get_elem? :
    (stem ys : CStr) (i : ℕ)
    → All (λ c. c ≢ b'/') stem
    → i < length stem
    → IsPlain (get_elem? (stem ++ ys) i)
All-get_elem? [] ys i h lt = absurd (omega arith)
All-get_elem? (c ∷ stem) ys zero h lt = λ e. h.0 (ground arith)
All-get_elem? (c ∷ stem) ys (suc i) h lt = All-get_elem? stem ys i h.1 (omega arith)

-- The loop walks back over a stem without '/' that stands behind `dir`.
name_start-walk :
    (dir stem ys : CStr) (d : ℕ)
    → All (λ c. c ≢ b'/') stem
    → d ≤ length stem
    → name_start (dir ++ (stem ++ ys)) (length dir + d)
      ≡ name_start (dir ++ (stem ++ ys)) (length dir)
name_start-walk dir stem ys zero h le = ap (name_start (dir ++ (stem ++ ys))) (omega arith)
name_start-walk dir stem ys (suc d) h le =
    let e : length dir + suc d ≡ suc (length dir + d) = omega arith in
    rw e (
      name_start-plain (dir ++ (stem ++ ys)) (length dir + d)
        (rw (get_elem?-append dir (stem ++ ys) d) (All-get_elem? stem ys d h (omega arith)))
      ∙ name_start-walk dir stem ys d h (omega arith))

-- A path that ends in a '/' and a name of at least one character, whose characters before its last
-- are no '/': get_file_name returns that name.
pub get_file_name_lem :
    (dir stem : CStr) (c : ℕ)
    → All (λ d. d ≢ b'/') stem
    → get_file_name ((dir ++ b'/' ∷ []) ++ (stem ++ c ∷ [])) ≡ some (stem ++ c ∷ [])
unfolding get_file_name
get_file_name_lem dir stem c h =
    rw (start, get_file_name) (ap some (drop-append (dir ++ b'/' ∷ []) (stem ++ c ∷ [])))
  where
    front : CStr
    front = dir ++ b'/' ∷ []

    path : CStr
    path = front ++ (stem ++ c ∷ [])

    last : length path - 1 ≡ length front + length stem
    last = omega (arith, length-append front (stem ++ c ∷ []), length-append stem (c ∷ []))

    at_front : length front ≡ suc (length dir)
    at_front = omega (arith, length-append dir (b'/' ∷ []))

    slash : get_elem? path (length dir) ≡ some b'/'
    slash =
        let e : length dir ≡ length dir + 0 = omega arith in
        rw (append_assoc dir (b'/' ∷ []) (stem ++ c ∷ []), e)
          (get_elem?-append dir (b'/' ∷ (stem ++ c ∷ [])) 0)

    start : name_start path (length path - 1) ≡ some (length front)
    start = rw last (
        name_start-walk front stem (c ∷ []) (length stem) h (omega arith)
        ∙ rw at_front (name_start-slash path (length dir) slash))

-- A path of at least one character, whose characters before its last are no '/': get_file_name
-- reads in front of the array.
pub get_file_name-none :
    (stem : CStr) (c : ℕ) → All (λ d. d ≢ b'/') stem → get_file_name (stem ++ c ∷ []) ≡ none
unfolding get_file_name name_start
get_file_name-none stem c h =
    let last : length (stem ++ c ∷ []) - 1 ≡ 0 + length stem =
      omega (arith, length-append stem (c ∷ [])) in
    let start : name_start (stem ++ c ∷ []) (length (stem ++ c ∷ []) - 1) ≡ none =
      rw last (name_start-walk [] stem (c ∷ []) (length stem) h (omega arith)) in
    rw (start, get_file_name) refl
