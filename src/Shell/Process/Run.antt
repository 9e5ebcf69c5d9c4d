-- ===== src/Shell/Process/Run.antt =====
-- What runs for a command: do_cmd (Code/huqingwei/study_jincheng/my_shell.c) from its words to execvp.
use team_c.Common.{
  ◌≡◌, refl, ◌∙◌, Bool, true, false, none, some, List, [], ◌∷◌, ◌++◌, append-nil, arith,
}
use team_c.Common.Lists.{All}
use team_c.Common.Text.{CStr, codes, streq}
use team_c.Shell.Command.{How, Pointers, Launch, Action, prepare, do_cmd, until_null}
use team_c.Shell.Command.Plain.{IsPlain, IsTail, somes, nulls, until_null-somes}
use team_c.Shell.Command.Symbols.{IsRedirection, symbol}
use team_c.Shell.Command.Launching.{
  redirected, prepare-out_first, prepare-IsPlain, prepare-redirection, prepare-pipe,
}
use team_c.Shell.Process.{Files, Found, Child, Stream, find_command, children}

-- The child processes of a command, and whether the shell goes on without waiting for them.
abbrev pub Runs : Files → Action → List Child → Bool → Type 0
Runs fs c cs background =
    (l : Launch) × (c ≡ Action.launch l) × (children fs l ≡ cs) × (l.background ≡ background)

pub do_cmd-prepare :
    (w : CStr) (ws : List CStr) → streq w (codes "cd") ≡ false → do_cmd (w ∷ ws) ≡ prepare (w ∷ ws)
unfolding do_cmd
do_cmd-prepare w ws h = rw (do_cmd, h) refl

abbrev pub program : List CStr → Stream → Stream → Child
program argv input output = Child.runs (record { argv = argv; input = input; output = output })

until_null-nulls : (ws tail : List CStr) → until_null (somes ws (nulls tail)) ≡ ws
unfolding until_null
until_null-nulls ws [] = until_null-somes ws (none ∷ []) ∙ append-nil ws
until_null-nulls ws (a ∷ tail) = until_null-somes ws (none ∷ none ∷ []) ∙ append-nil ws

until_null-none : (ws : List CStr) (rest : Pointers) → until_null (somes ws (none ∷ rest)) ≡ ws
unfolding until_null
until_null-none ws rest = until_null-somes ws (none ∷ rest) ∙ append-nil ws

-- The streams of a program whose input or output is redirected to a file.
abbrev pub redirected_program : How → List CStr → CStr → Child
redirected_program How.out_redirect argv file = program argv Stream.inherited (Stream.at_start file)
redirected_program How.in_redirect argv file = program argv (Stream.at_start file) Stream.inherited
redirected_program How.add_file argv file = program argv Stream.inherited (Stream.at_end file)
redirected_program how argv file = program argv Stream.inherited Stream.inherited

abbrev pub opens_for : Files → How → CStr → Bool
opens_for fs How.in_redirect file = fs.open_in file
opens_for fs how file = fs.open_out file

module _ (fs : Files) (w : CStr) (ws tail : List CStr) (background : Bool)
    (n : streq w (codes "cd") ≡ false) (h : All IsPlain (w ∷ ws)) (t : IsTail background tail)
    (f : find_command fs (some w) ≡ Found.found) where
  -- A program that find_command finds, called with words that are no operators, is run with these
  -- words as its arguments, and the shell waits for it unless a word that begins with `&` stands at
  -- the end.
  pub plain-Runs :
      Runs fs
        (do_cmd (w ∷ ws ++ tail))
        (program (w ∷ ws) Stream.inherited Stream.inherited ∷ [])
        background
  unfolding children
  plain-Runs = (
    _,
    do_cmd-prepare w (ws ++ tail) n ∙ prepare-IsPlain tail background t (w ∷ ws) h,
    rw (f, until_null-nulls (w ∷ ws) tail) refl,
    refl,
  )

  module _ (post : List CStr) (file : CStr) (hf : All IsPlain (file ∷ post)) where
    cut_short : until_null (somes (w ∷ ws) (none ∷ some file ∷ somes post (nulls tail))) ≡ w ∷ ws
    cut_short = until_null-none (w ∷ ws) (some file ∷ somes post (nulls tail))

    redirected-children :
        (how : How)
        → IsRedirection how
        → opens_for fs how file ≡ true
        → children fs (redirected tail background t (w ∷ ws) post file how)
          ≡ redirected_program how (w ∷ ws) file ∷ []
    unfolding children
    redirected-children How.normal r o = absurd r
    redirected-children How.out_redirect r o = rw (f, o, cut_short) refl
    redirected-children How.in_redirect r o = rw (f, o, cut_short) refl
    redirected-children How.have_pipe r o = absurd r
    redirected-children How.add_file r o = rw (f, o, cut_short) refl

    -- A program with a redirection: it is run with the words before the operator as its arguments,
    -- its output goes to the file behind `>` from the file's first byte on and to the file behind
    -- `>>` from the file's end on, its input comes from the file behind `<`, if the file opens; the
    -- words behind the file are dropped.
    pub redirection-Runs :
        (how : How)
        → IsRedirection how
        → opens_for fs how file ≡ true
        → Runs fs
            (do_cmd ((w ∷ ws) ++ symbol how ∷ file ∷ post ++ tail))
            (redirected_program how (w ∷ ws) file ∷ [])
            background
    redirection-Runs how r o = (
      _,
      do_cmd-prepare w (ws ++ symbol how ∷ file ∷ post ++ tail) n
          ∙ prepare-redirection tail background t (w ∷ ws) post file how r (omega arith) h hf,
      redirected-children how r o,
      refl,
    )

    -- A pipe: the words before `|` and those behind it are run as two programs, the output of the
    -- first one goes to the input of the second one.
    pub pipe-Runs :
        find_command fs (some file) ≡ Found.found
        → Runs fs
            (do_cmd ((w ∷ ws) ++ codes "|" ∷ file ∷ post ++ tail))
            (program (w ∷ ws) Stream.inherited Stream.pipe
              ∷ program (file ∷ post) Stream.pipe Stream.inherited
              ∷ [])
            background
    unfolding children
    pipe-Runs g = (
      _,
      do_cmd-prepare w (ws ++ codes "|" ∷ file ∷ post ++ tail) n
          ∙ prepare-pipe tail background t (w ∷ ws) post file (omega arith) h hf,
      rw (f, g, cut_short, until_null-none (file ∷ post) []) refl,
      refl,
    )

-- `>` as the first word is not refused, unlike the other operators: the child gets no command, and
-- reads a null pointer.
pub out_first_crashes :
    (fs : Files) (file : CStr) (post tail : List CStr) (background : Bool)
    → All IsPlain (file ∷ post)
    → IsTail background tail
    → Runs fs (do_cmd (codes ">" ∷ file ∷ post ++ tail)) (Child.crashed ∷ []) background
unfolding children streq find_command
out_first_crashes fs file post tail background h t = (
  _,
  do_cmd-prepare (codes ">") (file ∷ post ++ tail) refl
      ∙ prepare-out_first tail background t [] post file tt h,
  refl,
  refl,
)
