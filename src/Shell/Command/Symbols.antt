-- ===== src/Shell/Command/Symbols.antt =====
-- The operators of a command in do_cmd (Code/huqingwei/study_jincheng/my_shell.c), one by one.
use team_c.Common.{
  ℕ, ◌<◌, ◌≡◌, ◌≢◌, refl, Bool, true, false, Option, none, some, List, [], ◌∷◌, arith,
}
use team_c.Common.Lists.{All, All-map}
use team_c.Common.Text.{CStr, codes, streq}
use team_c.Shell.Command.{
  How, starts_with_and, see_word, no_operators, cut_redirect, cut_add, copy_next,
}
use team_c.Shell.Command.Plain.{IsPlain, IsTail, somes, nulls, copy_next-somes}

pub plain_no_and : (ws : List CStr) → All IsPlain ws → All (λ w. starts_with_and w ≡ false) ws
plain_no_and = All-map IsPlain (λ w. starts_with_and w ≡ false) (λ w p. p.4)

pub plain_no_out : (ws : List CStr) → All IsPlain ws → All (λ w. streq w (codes ">") ≡ false) ws
plain_no_out = All-map IsPlain (λ w. streq w (codes ">") ≡ false) (λ w p. p.0)

pub plain_no_in : (ws : List CStr) → All IsPlain ws → All (λ w. streq w (codes "<") ≡ false) ws
plain_no_in = All-map IsPlain (λ w. streq w (codes "<") ≡ false) (λ w p. p.1)

pub plain_no_pipe : (ws : List CStr) → All IsPlain ws → All (λ w. streq w (codes "|") ≡ false) ws
plain_no_pipe = All-map IsPlain (λ w. streq w (codes "|") ≡ false) (λ w p. p.2)

pub plain_no_add : (ws : List CStr) → All IsPlain ws → All (λ w. streq w (codes ">>") ≡ false) ws
plain_no_add = All-map IsPlain (λ w. streq w (codes ">>") ≡ false) (λ w p. p.3)

-- The operators.
abbrev pub symbol : How → CStr
symbol How.normal = []
symbol How.out_redirect = codes ">"
symbol How.in_redirect = codes "<"
symbol How.have_pipe = codes "|"
symbol How.add_file = codes ">>"

abbrev pub IsRedirection : How → Type 0
IsRedirection How.normal = ⊥
IsRedirection How.out_redirect = Unit
IsRedirection How.in_redirect = Unit
IsRedirection How.have_pipe = ⊥
IsRedirection How.add_file = Unit

-- The first operator of a command is counted once if it is not the first word.
pub see_word-symbol :
    (how : How) (file : CStr) (i : ℕ)
    → how ≢ How.normal
    → 0 < i
    → see_word (symbol how) (some file) i no_operators ≡ record { flag = 1; how = how }
unfolding see_word streq
see_word-symbol How.normal file i n h = absurd (n refl)
see_word-symbol How.out_redirect file i n h = refl
see_word-symbol How.in_redirect file i n h = ground arith
see_word-symbol How.have_pipe file i n h = ground arith
see_word-symbol How.add_file file i n h = ground arith

pub see_word-out :
    (file : CStr) (i : ℕ)
    → see_word (codes ">") (some file) i no_operators ≡ record { flag = 1; how = How.out_redirect }
unfolding see_word streq
see_word-out file i = refl

pub symbol_is_no_and : (how : How) → starts_with_and (symbol how) ≡ false
symbol_is_no_and How.normal = refl
symbol_is_no_and How.out_redirect = refl
symbol_is_no_and How.in_redirect = refl
symbol_is_no_and How.have_pipe = refl
symbol_is_no_and How.add_file = refl

pub not_symbol : (a : CStr) → starts_with_and a ≡ true → streq a (codes ">>") ≡ false
unfolding streq
not_symbol [] h = refl
not_symbol (x ∷ a) h = ground arith

pub cut_redirect-nulls :
    (op : CStr) (tail : List CStr) (file : Option CStr)
    → cut_redirect op (nulls tail) file ≡ (nulls tail, file)
unfolding cut_redirect
cut_redirect-nulls op [] file = refl
cut_redirect-nulls op (a ∷ tail) file = refl

pub copy_next-nulls :
    (ws tail : List CStr) → copy_next (somes ws (nulls tail)) ≡ somes ws (none ∷ [])
copy_next-nulls ws [] = copy_next-somes ws []
copy_next-nulls ws (a ∷ tail) = copy_next-somes ws (none ∷ [])

pub cut_add-nulls :
    (tail : List CStr) (background : Bool) (file : Option CStr)
    → IsTail background tail
    → cut_add tail (nulls tail) file ≡ (nulls tail, file)
unfolding cut_add
cut_add-nulls [] background file t = refl
cut_add-nulls (a ∷ []) background file (h, _) =
    let no : streq a (codes ">>") ≡ false = not_symbol a h in rw (cut_add, no) refl
cut_add-nulls (a ∷ b ∷ tail) background file t = absurd t
