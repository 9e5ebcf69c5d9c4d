-- ===== src/Shell/Command/Refusal.antt =====
-- Commands that do_cmd (Code/huqingwei/study_jincheng/my_shell.c) does not carry out.
use team_c.Common.{
  ℕ, ◌+◌, ◌≤◌, ◌<◌, ◌≡◌, refl, ◌∙◌, ap, Bool, false, ◌||◌, Option, List, [], ◌∷◌, ◌++◌, arith,
}
use team_c.Common.Lists.{All}
use team_c.Common.Text.{CStr, codes, streq}
use team_c.Shell.Command.{
  Operators, Action, starts_with_and, see_word, find_operators, head_pointer, no_operators, prepare,
  do_cmd, one_if, cut_or_refuse,
}
use team_c.Shell.Command.Plain.{IsTail, somes, nulls, find_operators-nulls}
use team_c.Shell.Command.Launching.{prepare-somes}

abbrev pub is_operator : CStr → Bool
is_operator w =
    streq w (codes ">") || streq w (codes "<") || streq w (codes "|") || streq w (codes ">>")

-- The number of operators among words.
abbrev pub operators : List CStr → ℕ
operators [] = 0
operators (w ∷ ws) = one_if (is_operator w) + operators ws

see_word-le :
    (w : CStr) (next : Option CStr) (i : ℕ) (o : Operators)
    → o.flag + one_if (is_operator w) ≤ (see_word w next i o).flag
unfolding see_word
see_word-le w next i o = ground arith

find_operators-le :
    (ws tail : List CStr) (i : ℕ) (o : Operators)
    → o.flag + operators ws ≤ (find_operators i (somes ws (nulls tail)) o).flag
unfolding find_operators
find_operators-le [] tail i o =
    ground (arith, ap (λ (q : Operators). q.flag) (find_operators-nulls tail i o))
find_operators-le (w ∷ ws) tail i o =
    let next = head_pointer (somes ws (nulls tail)) in
    ground (arith, see_word-le w next i o, find_operators-le ws tail (i + 1) (see_word w next i o))

prepare-wrong :
    (tail : List CStr) (background : Bool) (ws : List CStr)
    → IsTail background tail
    → All (λ w. starts_with_and w ≡ false) ws
    → 1 < operators ws
    → prepare (ws ++ tail) ≡ Action.wrong
prepare-wrong tail background ws t h l =
    prepare-somes tail background t ws _ h refl
    ∙ refused (find_operators 0 (somes ws (nulls tail)) no_operators)
        (omega (arith, find_operators-le ws tail 0 no_operators))
  where
    refused :
        (o : Operators)
        → 1 < o.flag
        → cut_or_refuse background (ws ++ tail) (somes ws (nulls tail)) o ≡ Action.wrong
    refused o m = ground arith

-- A command other than cd, with two operators or more, and no word that begins with `&` but perhaps
-- one behind the others, is answered with "wrong aommand.": do_cmd launches nothing.
pub do_cmd-wrong :
    (tail : List CStr) (background : Bool) (w : CStr) (ws : List CStr)
    → streq w (codes "cd") ≡ false
    → IsTail background tail
    → All (λ v. starts_with_and v ≡ false) (w ∷ ws)
    → 1 < operators (w ∷ ws)
    → do_cmd (w ∷ ws ++ tail) ≡ Action.wrong
unfolding do_cmd
do_cmd-wrong tail background w ws e t h l =
    rw (do_cmd, e) (prepare-wrong tail background (w ∷ ws) t h l)
