-- ===== src/Shell/Command/Launching.antt =====
-- Commands that do_cmd (Code/huqingwei/study_jincheng/my_shell.c) carries out: a program with its
-- arguments, with one redirection, or with one pipe.
use team_c.Common.{
  ◌+◌, ◌<◌, ◌≡◌, ◌≢◌, refl, ◌∙◌, ap, ap₂, Bool, false, none, some, List, [], ◌∷◌, ◌++◌,
  append_assoc, arith,
}
use team_c.Common.Lists.{All, All-append, length}
use team_c.Common.Text.{CStr, codes, streq, streq_refl}
use team_c.Shell.Command.{
  How, Pointers, Operators, Launch, Action, starts_with_and, see_word, find_operators, no_operators,
  cut, cut_redirect, cut_add, cut_pipe, prepare, with_file, with_pipe, cut_or_refuse,
}
use team_c.Shell.Command.Plain.{
  IsPlain, IsTail, somes, nulls, find_background-IsTail, find_operators-IsPlain,
  find_operators-nulls, cut_redirect-somes, cut_add-somes, cut_pipe-somes, somes-append,
}
use team_c.Shell.Command.Symbols.{
  plain_no_and, plain_no_out, plain_no_in, plain_no_pipe, plain_no_add, symbol, IsRedirection,
  see_word-symbol, see_word-out, symbol_is_no_and, cut_redirect-nulls, copy_next-nulls,
  cut_add-nulls,
}

module _ (tail : List CStr) (background : Bool) (t : IsTail background tail) where
  -- do_cmd on words of which one may be an operator.
  pub prepare-somes :
      (ws : List CStr) (o : Operators)
      → All (λ w. starts_with_and w ≡ false) ws
      → find_operators 0 (somes ws (nulls tail)) no_operators ≡ o
      → prepare (ws ++ tail) ≡ cut_or_refuse background (ws ++ tail) (somes ws (nulls tail)) o
  unfolding prepare
  prepare-somes ws o h e = rw (prepare, find_background-IsTail ws tail background h t, e) refl

  -- A command without operators.
  pub prepare-IsPlain :
      (ws : List CStr)
      → All IsPlain ws
      → prepare (ws ++ tail)
        ≡ Action.launch (with_file How.normal background (somes ws (nulls tail), none))
  unfolding cut
  prepare-IsPlain ws h = prepare-somes ws no_operators (plain_no_and ws h) plain
    where
      plain : find_operators 0 (somes ws (nulls tail)) no_operators ≡ no_operators
      plain =
          find_operators-IsPlain ws (nulls tail) 0 no_operators h
          ∙ find_operators-nulls tail _ no_operators

  module _ (ws post : List CStr) (file : CStr) where
    -- The words before an operator, the operator, and the words behind it.
    abbrev words_with : CStr → List CStr
    words_with op = ws ++ op ∷ file ∷ post

    abbrev behind_operator : Pointers
    behind_operator = some file ∷ somes post (nulls tail)

    -- One operator with a word on both sides.
    find_operators-one :
        (op : CStr) (o : Operators)
        → All IsPlain ws
        → All IsPlain (file ∷ post)
        → see_word op (some file) (0 + length ws) no_operators ≡ o
        → find_operators 0 (somes (words_with op) (nulls tail)) no_operators ≡ o
    unfolding find_operators
    find_operators-one op o h hs e =
        ap (λ ps. find_operators 0 ps no_operators)
          (somes-append ws (op ∷ file ∷ post) (nulls tail))
        ∙ find_operators-IsPlain ws (some op ∷ behind_operator) 0 no_operators h
        ∙ one
      where
        rest : find_operators (0 + length ws + 1) behind_operator o ≡ o
        rest =
            find_operators-IsPlain (file ∷ post) (nulls tail) _ o hs ∙ find_operators-nulls tail _ o

        one : find_operators (0 + length ws) (some op ∷ behind_operator) no_operators ≡ o
        one = rw (find_operators, e) rest

    -- A redirection of the output, of the input, or to the end of a file.
    abbrev pub redirected : How → Launch
    redirected how = with_file how background (somes ws (none ∷ behind_operator), some file)

    prepare-one :
        (op : CStr) (how : How)
        → All IsPlain ws
        → All IsPlain (file ∷ post)
        → starts_with_and op ≡ false
        → see_word op (some file) (0 + length ws) no_operators ≡ record { flag = 1; how = how }
        → prepare (words_with op ++ tail)
          ≡ Action.launch
              (cut how background (words_with op ++ tail) (somes (words_with op) (nulls tail)))
    prepare-one op how h hs a e =
        prepare-somes (words_with op) _
          (All-append (λ w. starts_with_and w ≡ false) ws (op ∷ file ∷ post) (plain_no_and ws h)
            (a, plain_no_and (file ∷ post) hs))
          (find_operators-one op _ h hs e)

    cut_redirect-one :
        (op : CStr)
        → All (λ w. streq w op ≡ false) ws
        → All (λ w. streq w op ≡ false) (file ∷ post)
        → cut_redirect op (somes (words_with op) (nulls tail)) none
          ≡ (somes ws (none ∷ behind_operator), some file)
    unfolding cut_redirect
    cut_redirect-one op h hs =
        ap (λ ps. cut_redirect op ps none) (somes-append ws (op ∷ file ∷ post) (nulls tail))
        ∙ cut_redirect-somes op ws (some op ∷ behind_operator) _ none (some file) h one
      where
        rest : cut_redirect op behind_operator (some file) ≡ (behind_operator, some file)
        rest =
            cut_redirect-somes op (file ∷ post) (nulls tail) (nulls tail) _ _ hs
              (cut_redirect-nulls op tail (some file))

        one : cut_redirect op (some op ∷ behind_operator) none ≡ (none ∷ behind_operator, some file)
        one = rw (cut_redirect, streq_refl op, rest) refl

    cut_add-one :
        All (λ w. streq w (codes ">>") ≡ false) ws
        → All (λ w. streq w (codes ">>") ≡ false) (file ∷ post)
        → cut_add
            (words_with (codes ">>") ++ tail)
            (somes (words_with (codes ">>")) (nulls tail))
            none
          ≡ (somes ws (none ∷ behind_operator), some file)
    unfolding cut_add
    cut_add-one h hs =
        ap₂ (λ vs ps. cut_add vs ps none) (append_assoc ws (codes ">>" ∷ file ∷ post) tail)
          (somes-append ws (codes ">>" ∷ file ∷ post) (nulls tail))
        ∙ cut_add-somes ws (codes ">>" ∷ file ∷ post ++ tail) (some (codes ">>") ∷ behind_operator)
            _ none (some file) h one
      where
        rest :
            cut_add (file ∷ post ++ tail) behind_operator (some file) ≡ (behind_operator, some file)
        rest =
            cut_add-somes (file ∷ post) tail (nulls tail) (nulls tail) _ _ hs
              (cut_add-nulls tail background (some file) t)

        one :
            cut_add (codes ">>" ∷ file ∷ post ++ tail) (some (codes ">>") ∷ behind_operator) none
            ≡ (none ∷ behind_operator, some file)
        one = rw (cut_add, streq_refl (codes ">>"), rest) refl

    cut_pipe-one :
        All (λ w. streq w (codes "|") ≡ false) ws
        → cut_pipe (words_with (codes "|") ++ tail) (somes (words_with (codes "|")) (nulls tail))
          ≡ (somes ws (none ∷ behind_operator), somes (file ∷ post) (none ∷ []))
    unfolding cut_pipe
    cut_pipe-one h =
        ap₂ (λ vs ps. cut_pipe vs ps) (append_assoc ws (codes "|" ∷ file ∷ post) tail)
          (somes-append ws (codes "|" ∷ file ∷ post) (nulls tail))
        ∙ cut_pipe-somes ws (codes "|" ∷ file ∷ post ++ tail) (some (codes "|") ∷ behind_operator) _
            _ h one
      where
        one :
            cut_pipe (codes "|" ∷ file ∷ post ++ tail) (some (codes "|") ∷ behind_operator)
            ≡ (none ∷ behind_operator, somes (file ∷ post) (none ∷ []))
        one = rw (cut_pipe, streq_refl (codes "|"), copy_next-nulls (file ∷ post) tail) refl

    cut-redirection :
        (how : How)
        → IsRedirection how
        → All IsPlain ws
        → All IsPlain (file ∷ post)
        → cut how background
            (words_with (symbol how) ++ tail)
            (somes (words_with (symbol how)) (nulls tail))
          ≡ redirected how
    unfolding cut
    cut-redirection How.normal r h hs = absurd r
    cut-redirection How.out_redirect r h hs =
        ap (with_file How.out_redirect background)
          (cut_redirect-one (codes ">") (plain_no_out ws h) (plain_no_out (file ∷ post) hs))
    cut-redirection How.in_redirect r h hs =
        ap (with_file How.in_redirect background)
          (cut_redirect-one (codes "<") (plain_no_in ws h) (plain_no_in (file ∷ post) hs))
    cut-redirection How.have_pipe r h hs = absurd r
    cut-redirection How.add_file r h hs =
        ap (with_file How.add_file background)
          (cut_add-one (plain_no_add ws h) (plain_no_add (file ∷ post) hs))

    -- What do_cmd makes of a redirection.
    pub prepare-redirection :
        (how : How)
        → IsRedirection how
        → 0 < length ws
        → All IsPlain ws
        → All IsPlain (file ∷ post)
        → prepare (words_with (symbol how) ++ tail) ≡ Action.launch (redirected how)
    prepare-redirection how r l h hs =
        prepare-one (symbol how) how h hs (symbol_is_no_and how)
          (see_word-symbol how file (0 + length ws) (not_normal how r) (omega arith))
        ∙ ap Action.launch (cut-redirection how r h hs)
      where
        not_normal : (how : How) → IsRedirection how → how ≢ How.normal
        not_normal How.normal r = absurd r
        not_normal How.out_redirect r = ground arith
        not_normal How.in_redirect r = ground arith
        not_normal How.have_pipe r = ground arith
        not_normal How.add_file r = ground arith

    -- `>` may be the first word.
    pub prepare-out_first :
        All IsPlain ws
        → All IsPlain (file ∷ post)
        → prepare (words_with (codes ">") ++ tail) ≡ Action.launch (redirected How.out_redirect)
    prepare-out_first h hs =
        prepare-one (codes ">") How.out_redirect h hs refl (see_word-out file (0 + length ws))
        ∙ ap Action.launch (cut-redirection How.out_redirect tt h hs)

    abbrev piped : Launch
    piped =
        with_pipe background (somes ws (none ∷ behind_operator), somes (file ∷ post) (none ∷ []))

    -- What do_cmd makes of a pipe.
    pub prepare-pipe :
        0 < length ws
        → All IsPlain ws
        → All IsPlain (file ∷ post)
        → prepare (words_with (codes "|") ++ tail) ≡ Action.launch piped
    unfolding cut
    prepare-pipe l h hs =
        prepare-one (codes "|") How.have_pipe h hs refl
          (see_word-symbol How.have_pipe file (0 + length ws) (ground arith) (omega arith))
        ∙ ap (λ p. Action.launch (with_pipe background p)) (cut_pipe-one (plain_no_pipe ws h))
