-- ===== src/Shell/Command/Plain.antt =====
-- The loops of do_cmd (Code/huqingwei/study_jincheng/my_shell.c) on words that are no operators.
use team_c.Common.{
  ℕ, ◌+◌, ◌≡◌, refl, ◌∙◌, ap, Bool, true, false, Option, none, some, List, [], ◌∷◌, ◌++◌, arith,
}
use team_c.Common.Lists.{All, length}
use team_c.Common.Text.{CStr, codes, streq}
use team_c.Shell.Command.{
  Pointers, Operators, starts_with_and, find_background, see_word, find_operators, head_pointer,
  cut_redirect, cut_add, until_null, cut_pipe, copy_next,
}

-- A word that do_cmd takes as it is.
abbrev pub IsPlain : CStr → Type 0
IsPlain w =
    (streq w (codes ">") ≡ false)
    × (streq w (codes "<") ≡ false)
    × (streq w (codes "|") ≡ false)
    × (streq w (codes ">>") ≡ false)
    × (starts_with_and w ≡ false)

-- What may stand at the end of a command: nothing, or a word that begins with `&`.
abbrev pub IsTail : Bool → List CStr → Type 0
IsTail background [] = background ≡ false
IsTail background (a ∷ []) = (starts_with_and a ≡ true) × (background ≡ true)
IsTail background (a ∷ b ∷ ws) = ⊥

-- Pointers to strings, before other ones.
abbrev pub somes : List CStr → Pointers → Pointers
somes [] rest = rest
somes (w ∷ ws) rest = some w ∷ somes ws rest

-- The end of arg[], with the null pointer that stands for `&`.
abbrev pub nulls : List CStr → Pointers
nulls [] = none ∷ []
nulls (a ∷ ws) = none ∷ none ∷ []

pub find_background-IsTail :
    (ws tail : List CStr) (background : Bool)
    → All (λ w. starts_with_and w ≡ false) ws
    → IsTail background tail
    → find_background (ws ++ tail) ≡ some (background, somes ws (nulls tail))
unfolding find_background
find_background-IsTail [] [] background h t = ground arith
find_background-IsTail [] (a ∷ []) background h t = ground arith
find_background-IsTail [] (a ∷ b ∷ tail) background h t = absurd t
find_background-IsTail (w ∷ ws) tail background (h, hs) t =
    ground (arith, find_background-IsTail ws tail background hs t)

see_word-IsPlain :
    (w : CStr) (next : Option CStr) (i : ℕ) (o : Operators) → IsPlain w → see_word w next i o ≡ o
unfolding see_word
see_word-IsPlain w next i o (g, l, p, a, _) = ground arith

pub find_operators-IsPlain :
    (ws : List CStr) (rest : Pointers) (i : ℕ) (o : Operators)
    → All IsPlain ws
    → find_operators i (somes ws rest) o ≡ find_operators (i + length ws) rest o
unfolding find_operators
find_operators-IsPlain [] rest i o h = ap (λ j. find_operators j rest o) (omega arith)
find_operators-IsPlain (w ∷ ws) rest i o (h, hs) =
    rw (find_operators, see_word-IsPlain w (head_pointer (somes ws rest)) i o h)
      (find_operators-IsPlain ws rest (i + 1) o hs
        ∙ ap (λ j. find_operators j rest o) (omega arith))

pub find_operators-nulls :
    (tail : List CStr) (i : ℕ) (o : Operators) → find_operators i (nulls tail) o ≡ o
unfolding find_operators
find_operators-nulls [] i o = refl
find_operators-nulls (a ∷ tail) i o = refl

pub cut_redirect-somes :
    (op : CStr) (ws : List CStr) (rest arg : Pointers) (file file' : Option CStr)
    → All (λ w. streq w op ≡ false) ws
    → cut_redirect op rest file ≡ (arg, file')
    → cut_redirect op (somes ws rest) file ≡ (somes ws arg, file')
unfolding cut_redirect
cut_redirect-somes op [] rest arg file file' h e = e
cut_redirect-somes op (w ∷ ws) rest arg file file' (h, hs) e =
    rw (cut_redirect, h, cut_redirect-somes op ws rest arg file file' hs e) refl

pub cut_add-somes :
    (ws more : List CStr) (rest arg : Pointers) (file file' : Option CStr)
    → All (λ w. streq w (codes ">>") ≡ false) ws
    → cut_add more rest file ≡ (arg, file')
    → cut_add (ws ++ more) (somes ws rest) file ≡ (somes ws arg, file')
unfolding cut_add
cut_add-somes [] more rest arg file file' h e = e
cut_add-somes (w ∷ ws) more rest arg file file' (h, hs) e =
    rw (cut_add, h, cut_add-somes ws more rest arg file file' hs e) refl

pub cut_pipe-somes :
    (ws more : List CStr) (rest arg argnext : Pointers)
    → All (λ w. streq w (codes "|") ≡ false) ws
    → cut_pipe more rest ≡ (arg, argnext)
    → cut_pipe (ws ++ more) (somes ws rest) ≡ (somes ws arg, argnext)
unfolding cut_pipe
cut_pipe-somes [] more rest arg argnext h e = e
cut_pipe-somes (w ∷ ws) more rest arg argnext (h, hs) e =
    rw (cut_pipe, h, cut_pipe-somes ws more rest arg argnext hs e) refl

pub copy_next-somes :
    (ws : List CStr) (rest : Pointers) → copy_next (somes ws (none ∷ rest)) ≡ somes ws (none ∷ [])
unfolding copy_next
copy_next-somes [] rest = refl
copy_next-somes (w ∷ ws) rest = ap (λ ps. some w ∷ ps) (copy_next-somes ws rest)

pub somes-append :
    (us vs : List CStr) (rest : Pointers) → somes (us ++ vs) rest ≡ somes us (somes vs rest)
somes-append [] vs rest = refl
somes-append (u ∷ us) vs rest = ap (λ ps. some u ∷ ps) (somes-append us vs rest)

pub until_null-somes :
    (ws : List CStr) (rest : Pointers) → until_null (somes ws rest) ≡ ws ++ until_null rest
unfolding until_null
until_null-somes [] rest = refl
until_null-somes (w ∷ ws) rest = ap (λ us. w ∷ us) (until_null-somes ws rest)
