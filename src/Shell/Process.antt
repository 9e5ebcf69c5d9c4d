-- ===== src/Shell/Process.antt =====
-- The switch of do_cmd and find_command, Code/huqingwei/study_jincheng/my_shell.c: what the child
-- processes run. fork and pipe succeed.
pub mod Run
pub mod Missing
use team_c.Common.{Bool, true, false, Option, none, some, List, [], ◌∷◌, ◌==◌, if◌then◌else◌}
use team_c.Common.Text.{CStr, codes, streq}
use team_c.Common.Search.{find}
use team_c.Shell.Command.{How, Pointers, Launch, head_pointer, until_null}

-- The file system: the names in a directory, if it opens; whether a file opens for reading, and for
-- reading and writing, where it is created if need be.
pub record Files : Type 0 where
  pub readdir : CStr → Option (List CStr)
  pub open_in : CStr → Bool
  pub open_out : CStr → Bool

pub data Found : Type 0 where
  -- a null pointer is read
  fault : Found
  missing : Found
  found : Found

abbrev pub drop_here : CStr → CStr
drop_here (x ∷ y ∷ s) = if x == b'.' then if y == b'/' then s else x ∷ y ∷ s else x ∷ y ∷ s
drop_here s = s

abbrev pub has_name : CStr → List CStr → Bool
has_name command names = elim (find (streq command) names) [ none ↦ false | some name ↦ true ]

-- The loop of find_command. After the message that a directory does not open, readdir gets a null
-- pointer.
unfoldable pub find_in : Files → CStr → List CStr → Found
find_in fs command [] = Found.missing
find_in fs command (dir ∷ dirs) =
    let rest = find_in fs command dirs in
    elim (fs.readdir dir) [
      | none ↦ Found.fault
      | some names ↦ if has_name command names then Found.found else rest
    ]

abbrev pub paths : List CStr
paths = codes "./" ∷ codes "/bin" ∷ codes "/usr/bin" ∷ codes "/usr/games/" ∷ []

-- find_command
unfoldable pub find_command : Files → Option CStr → Found
find_command fs none = Found.fault
find_command fs (some command) = find_in fs (drop_here command) paths

-- Where a process reads or writes.
pub data Stream : Type 0 where
  inherited pipe : Stream
  -- a file, from its first byte on, and from its end on
  at_start at_end : CStr → Stream

-- A call of execvp.
pub record Program : Type 0 where
  pub argv : List CStr
  pub input : Stream
  pub output : Stream

pub data Child : Type 0 where
  crashed : Child
  -- "command can't found"
  not_found : Child
  -- my_err("open")
  not_opened : Child
  runs : Program → Child

abbrev pub if_found : Found → Child → Child
if_found Found.fault c = Child.crashed
if_found Found.missing c = Child.not_found
if_found Found.found c = c

abbrev pub exec : Pointers → Stream → Stream → Child
exec arg input output =
    Child.runs (record { argv = until_null arg; input = input; output = output })

-- open fails on a null pointer.
abbrev pub opens : (CStr → Bool) → Option CStr → (CStr → Child) → Child → Child
opens can_open none c d = d
opens can_open (some file) c d = if can_open file then c file else d

-- The switch, in the child; a pipe has two of them.
unfoldable pub children : Files → Launch → List Child
children fs l =
    let arg = l.arg in
    let command = find_command fs (head_pointer arg) in
    elim l.how [
      | How.normal ↦ if_found command (exec arg Stream.inherited Stream.inherited) ∷ []
      | How.out_redirect ↦
          if_found command (
            opens fs.open_out l.file (λ file. exec arg Stream.inherited (Stream.at_start file))
              Child.not_opened)
          ∷ []
      | How.in_redirect ↦
          if_found command (
            opens fs.open_in l.file (λ file. exec arg (Stream.at_start file) Stream.inherited)
              Child.not_opened)
          ∷ []
      | How.have_pipe ↦
          if_found command (exec arg Stream.inherited Stream.pipe)
          ∷ if_found (find_command fs (head_pointer l.argnext))
              (exec l.argnext Stream.pipe Stream.inherited)
          ∷ []
      | How.add_file ↦
          if_found command (
            opens fs.open_out l.file (λ file. exec arg Stream.inherited (Stream.at_end file))
              (exec arg Stream.inherited Stream.inherited))
          ∷ []
    ]
