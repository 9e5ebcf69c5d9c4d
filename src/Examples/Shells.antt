-- ===== src/Examples/Shells.antt =====
-- The theorems about the shell at concrete lines and commands, on a computer with a few programs.
use team_c.Common.{◌≤◌, ◌≡◌, ◌↔◌, ◌⊎◌, refl, true, false, none, some, List, [], ◌∷◌, ◌++◌, arith}
use team_c.Common.Lists.{All, length}
use team_c.Common.Text.{CStr, codes, streq}
use team_c.Common.Search.{find}
use team_c.Shell.Words.{Parsed, get_mingling, argvlist}
use team_c.Shell.Words.Split.{split, split_from}
use team_c.Shell.Words.Rows.{get_mingling-split}
use team_c.Shell.Words.RoundTrip.{join, get_mingling-join, separators}
use team_c.Shell.Command.{How, Action, do_cmd}
use team_c.Shell.Command.Refusal.{do_cmd-wrong}
use team_c.Shell.Process.{Files, Stream, find_command, find_in}
use team_c.Shell.Command.Plain.{IsPlain}
use team_c.Shell.Process.Run.{Runs, program, plain-Runs, redirection-Runs, pipe-Runs}
use team_c.Shell.Session.{Turn, turn}
use team_c.Shell.Session.Line.{is_exit}
use team_c.Shell.Session.Typed.{turn-fault, turn-join}

-- Every directory has the same four programs, every file opens.
abbrev programs : List CStr
programs = codes "ls" ∷ codes "sort" ∷ codes "wc" ∷ codes "cat" ∷ []

abbrev files : Files
files = record { readdir = λ d. some programs; open_in = λ f. true; open_out = λ f. true }

-- On this computer no directory opens.
abbrev closed : Files
closed = record { readdir = λ d. none; open_in = λ f. true; open_out = λ f. true }

get_mingling-split_example :
    (p : Parsed) × (get_mingling (codes "ls  -l\n") ≡ some p)
    × (p.argc ≡ length (split (codes "ls  -l\n")))
    × (argvlist p.argc 0 p.argv ≡ split (codes "ls  -l\n"))
get_mingling-split_example =
    get_mingling-split (codes "ls  -l\n") (ground arith) (ground arith)
      (unfold split_from in ground arith)

get_mingling-join_example :
    (p : Parsed) × (get_mingling (join (codes "ls") (codes "-l" ∷ []) ++ b'\n' ∷ []) ≡ some p)
    × (p.argc ≡ 2)
    × (argvlist p.argc 0 p.argv ≡ codes "ls" ∷ codes "-l" ∷ [])
unfolding join
get_mingling-join_example =
    get_mingling-join (codes "ls") (codes "-l" ∷ []) (ground arith) (ground arith) (ground arith)
      (ground arith)

turn-fault_example : (turn (codes "ls -l") ≡ Turn.fault) ↔ (
    (255 ≤ length (codes "ls -l"))
    ⊎ ((is_exit (codes "ls -l") ≡ false) × (100 ≤ separators (codes "ls -l"))))
turn-fault_example = turn-fault (codes "ls -l") (ground arith)

turn-join_example :
    turn (join (codes "ls") (codes "-l" ∷ [])) ≡ Turn.does (do_cmd (codes "ls" ∷ codes "-l" ∷ []))
unfolding join streq
turn-join_example =
    turn-join (codes "ls") (codes "-l" ∷ []) (ground arith) (ground arith) refl refl (ground arith)
      (ground arith)

do_cmd-wrong_example :
    do_cmd (codes "ls" ∷ codes "|" ∷ codes "wc" ∷ codes ">" ∷ codes "f" ∷ []) ≡ Action.wrong
unfolding streq
do_cmd-wrong_example =
    do_cmd-wrong [] false (codes "ls") (codes "|" ∷ codes "wc" ∷ codes ">" ∷ codes "f" ∷ []) refl
      refl (refl, (refl, (refl, (refl, (refl, tt))))) (ground arith)

IsPlain-ls : All IsPlain (codes "ls" ∷ codes "-l" ∷ [])
unfolding streq
IsPlain-ls = ((refl, refl, refl, refl, refl), ((refl, refl, refl, refl, refl), tt))

IsPlain-wc : All IsPlain (codes "wc" ∷ codes "-w" ∷ [])
unfolding streq
IsPlain-wc = ((refl, refl, refl, refl, refl), ((refl, refl, refl, refl, refl), tt))

plain-Runs_example :
    Runs files
      (do_cmd (codes "ls" ∷ codes "-l" ∷ codes "&x" ∷ []))
      (program (codes "ls" ∷ codes "-l" ∷ []) Stream.inherited Stream.inherited ∷ [])
      true
unfolding streq find find_command find_in
plain-Runs_example =
    plain-Runs files (codes "ls") (codes "-l" ∷ []) (codes "&x" ∷ []) true refl IsPlain-ls
      (refl, refl) refl

redirection-Runs_example :
    Runs files
      (do_cmd (codes "ls" ∷ codes "-l" ∷ codes ">>" ∷ codes "wc" ∷ codes "-w" ∷ []))
      (program (codes "ls" ∷ codes "-l" ∷ []) Stream.inherited (Stream.at_end (codes "wc")) ∷ [])
      false
unfolding streq find find_command find_in
redirection-Runs_example =
    redirection-Runs files (codes "ls") (codes "-l" ∷ []) [] false refl IsPlain-ls refl refl
      (codes "-w" ∷ []) (codes "wc") IsPlain-wc How.add_file tt refl

pipe-Runs_example :
    Runs files
      (do_cmd (codes "ls" ∷ codes "-l" ∷ codes "|" ∷ codes "wc" ∷ codes "-w" ∷ []))
      (program (codes "ls" ∷ codes "-l" ∷ []) Stream.inherited Stream.pipe
        ∷ program (codes "wc" ∷ codes "-w" ∷ []) Stream.pipe Stream.inherited
        ∷ [])
      false
unfolding streq find find_command find_in
pipe-Runs_example =
    pipe-Runs files (codes "ls") (codes "-l" ∷ []) [] false refl IsPlain-ls refl refl
      (codes "-w" ∷ []) (codes "wc") IsPlain-wc refl
