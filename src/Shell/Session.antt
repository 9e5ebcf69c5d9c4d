-- ===== src/Shell/Session.antt =====
-- The loop of main in Code/huqingwei/study_jincheng/my_shell.c: the prompt, and what a line leads to.
pub mod Line
pub mod Typed
pub mod Prompt
use team_c.Common.{
  ℕ, Bool, true, false, ◌||◌, Option, none, some, List, [], ◌∷◌, ◌++◌, if◌then◌else◌,
}
use team_c.Common.Lists.{length, drop}
use team_c.Common.Text.{CStr, codes, streq}
use team_c.Shell.Words.{Parsed, columns, get_mingling, row_string, argvlist}
use team_c.Shell.Input.{Input, read_line}
use team_c.Shell.Command.{Action, is_empty_word, do_cmd}

abbrev pub home_dir : CStr → CStr
home_dir login = codes "/home/" ++ login

-- The directory that the prompt shows, for the user `login` in the directory `cwd`.
unfoldable pub shown_directory : CStr → CStr → CStr
shown_directory login cwd =
    if streq cwd (codes "/")
    then codes "/"
    else if streq cwd (codes "/home")
    then codes "/home"
    else b'~' ∷ drop (length (home_dir login)) cwd

-- What a line leads to.
pub data Turn : Type 0 where
  -- a write outside of the buffer or of the table
  fault : Turn
  -- exit or logout
  ends : Turn
  -- an empty first word
  skipped : Turn
  does : Action → Turn

-- The words of the table go to do_cmd.
abbrev pub obey : Parsed → Turn
obey p =
    if is_empty_word (row_string columns (p.argv 0) 0)
    then Turn.skipped
    else Turn.does (do_cmd (argvlist p.argc 0 p.argv))

-- The loop behind my_shell_input.
unfoldable pub obey_buffer : CStr → Turn
obey_buffer buf =
    if streq buf (codes "exit\n") || streq buf (codes "logout\n")
    then Turn.ends
    else elim (get_mingling buf) [ none ↦ Turn.fault | some p ↦ obey p ]

unfoldable pub turn : CStr → Turn
turn temp = elim (read_line temp) [
  | Input.overflow ↦ Turn.fault
  | Input.too_long buf ↦ obey_buffer buf
  | Input.line buf ↦ obey_buffer buf
]

-- chdir: the directory that a path leads to from another one, if there is one.
abbrev pub Chdir : Type 0
Chdir = CStr → CStr → Option CStr

abbrev pub or_stay : CStr → Option CStr → CStr
or_stay cwd none = cwd
or_stay cwd (some d) = d

-- The working directory after a command, for a user.
unfoldable pub directory : Chdir → CStr → CStr → Action → CStr
directory chdir login cwd Action.go_home = or_stay cwd (chdir cwd (home_dir login))
directory chdir login cwd (Action.change_dir path) = or_stay cwd (chdir cwd path)
directory chdir login cwd c = cwd

-- The `while(1)` of main over the lines of the terminal: the prompt before each line, and what the
-- line leads to.
unfoldable pub session : Chdir → CStr → CStr → List CStr → List (CStr × Turn)
session chdir login cwd [] = []
session chdir login cwd (temp ∷ lines) = (shown_directory login cwd, turn temp) ∷ elim (turn temp) [
  | Turn.fault ↦ []
  | Turn.ends ↦ []
  | Turn.skipped ↦ session chdir login cwd lines
  | Turn.does c ↦ session chdir login (directory chdir login cwd c) lines
]
