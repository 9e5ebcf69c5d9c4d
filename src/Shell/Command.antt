-- ===== src/Shell/Command.antt =====
-- do_cmd of Code/huqingwei/study_jincheng/my_shell.c up to the fork: what a list of words asks for.
pub mod Plain
pub mod Symbols
pub mod Launching
pub mod Refusal
use team_c.Common.{
  ℕ, zero, suc, ◌+◌, ◌==◌, ltb, Bool, true, false, Option, none, some, List, [], ◌∷◌, if◌then◌else◌,
}
use team_c.Common.Text.{CStr, codes, streq}

-- NORMAL, OUT_REDIRECT, IN_REDIRECT, HAVE_PIPE, ADD_FILE
pub data How : Type 0 where
  normal out_redirect in_redirect have_pipe add_file : How

-- An array of pointers to strings; `none` is a null pointer.
abbrev pub Pointers : Type 0
Pointers = List (Option CStr)

-- What the switch works on. `file` is `none` where it is null or was never set.
pub record Launch : Type 0 where
  pub how : How
  pub arg : Pointers
  pub argnext : Pointers
  pub file : Option CStr
  pub background : Bool

pub data Action : Type 0 where
  -- a null pointer is compared
  crash : Action
  -- chdir to the home directory
  go_home : Action
  -- chdir to a path
  change_dir : CStr → Action
  -- "cd: too many arguments"
  too_many : Action
  -- "woring command!"
  misplaced_background : Action
  -- "wrong aommand."
  wrong : Action
  launch : Launch → Action

abbrev pub is_empty_word : CStr → Bool
is_empty_word [] = true
is_empty_word (x ∷ s) = false

-- The branch of cd, on the words behind it.
unfoldable pub cd : List CStr → Action
cd [] = Action.go_home
cd (path ∷ rest) =
    if is_empty_word path
    then Action.go_home
    else elim rest [ [] ↦ Action.change_dir path | w ∷ ws ↦ Action.too_many ]

-- strncmp(arg[i], "&", 1) == 0
abbrev pub starts_with_and : CStr → Bool
starts_with_and [] = false
starts_with_and (x ∷ s) = x == b'&'

abbrev pub put_front : CStr → Option (Bool × Pointers) → Option (Bool × Pointers)
put_front w none = none
put_front w (some (background, arg)) = some (background, some w ∷ arg)

-- The loop that looks for `&`, from arg[i] on: the flag and the array, or no result for the message.
unfoldable pub find_background : List CStr → Option (Bool × Pointers)
find_background [] = some (false, none ∷ [])
find_background (w ∷ ws) =
    let rest = find_background ws in
    if starts_with_and w
    then elim ws [ [] ↦ some (true, none ∷ none ∷ []) | v ∷ vs ↦ none ]
    else put_front w rest

pub record Operators : Type 0 where
  pub flag : ℕ
  pub how : How

-- arg[i+1], where `rest` begins
abbrev pub head_pointer : Pointers → Option CStr
head_pointer [] = none
head_pointer (p ∷ ps) = p

abbrev pub is_null : Option CStr → Bool
is_null none = true
is_null (some w) = false

abbrev pub one_if : Bool → ℕ
one_if b = if b then 1 else 0

-- The four tests of a round of the loop that looks for operators: at arg[i] the word `w`, behind it
-- the pointer `next`.
abbrev pub see_out : CStr → Option CStr → ℕ → Operators → Operators
see_out w next i o =
    if streq w (codes ">")
    then record { flag = o.flag + 1 + one_if (is_null next); how = How.out_redirect }
    else o

abbrev pub see_in : CStr → Option CStr → ℕ → Operators → Operators
see_in w next i o =
    if streq w (codes "<")
    then record { flag = o.flag + 1 + one_if (i == 0); how = How.in_redirect }
    else o

abbrev pub see_pipe : CStr → Option CStr → ℕ → Operators → Operators
see_pipe w next i o =
    if streq w (codes "|")
    then record { flag = o.flag + 1 + one_if (is_null next) + one_if (i == 0); how = How.have_pipe }
    else o

abbrev pub see_add : CStr → Option CStr → ℕ → Operators → Operators
see_add w next i o =
    if streq w (codes ">>")
    then record { flag = o.flag + 1 + one_if (is_null next) + one_if (i == 0); how = How.add_file }
    else o

unfoldable pub see_word : CStr → Option CStr → ℕ → Operators → Operators
see_word w next i o = see_add w next i (see_pipe w next i (see_in w next i (see_out w next i o)))

-- The loop that looks for operators, from arg[i] on.
unfoldable pub find_operators : ℕ → Pointers → Operators → Operators
find_operators i [] o = o
find_operators i (none ∷ arg) o = o
find_operators i (some w ∷ arg) o = find_operators (i + 1) arg (see_word w (head_pointer arg) i o)

-- An array with the name of a file.
abbrev pub Cut : Type 0
Cut = Pointers × Option CStr

abbrev pub under : Option CStr → Cut → Cut
under p (arg, file) = (p ∷ arg, file)

-- The loops for `>` and `<`, which end at a null pointer.
unfoldable pub cut_redirect : CStr → Pointers → Option CStr → Cut
cut_redirect op [] file = ([], file)
cut_redirect op (none ∷ arg) file = (none ∷ arg, file)
cut_redirect op (some w ∷ arg) file =
    if streq w op
    then under none (cut_redirect op arg (head_pointer arg))
    else under (some w) (cut_redirect op arg file)

-- The loop for `>>`, which goes through argvlist.
unfoldable pub cut_add : List CStr → Pointers → Option CStr → Cut
cut_add [] arg file = (arg, file)
cut_add (v ∷ vs) [] file = ([], file)
cut_add (v ∷ vs) (p ∷ arg) file =
    if streq v (codes ">>")
    then under none (cut_add vs arg (head_pointer arg))
    else under p (cut_add vs arg file)

-- The strings before the first null pointer.
unfoldable pub until_null : Pointers → List CStr
until_null [] = []
until_null (none ∷ arg) = []
until_null (some w ∷ arg) = w ∷ until_null arg

-- The copy of a command behind `|`, with its null pointer.
unfoldable pub copy_next : Pointers → Pointers
copy_next [] = []
copy_next (none ∷ arg) = none ∷ []
copy_next (some w ∷ arg) = some w ∷ copy_next arg

abbrev pub under_pipe : Option CStr → Pointers × Pointers → Pointers × Pointers
under_pipe p (arg, argnext) = (p ∷ arg, argnext)

-- The loop for `|`, which goes through argvlist up to the first one.
unfoldable pub cut_pipe : List CStr → Pointers → Pointers × Pointers
cut_pipe [] arg = (arg, [])
cut_pipe (v ∷ vs) [] = ([], [])
cut_pipe (v ∷ vs) (p ∷ arg) =
    if streq v (codes "|") then (none ∷ arg, copy_next arg) else under_pipe p (cut_pipe vs arg)

abbrev pub with_file : How → Bool → Cut → Launch
with_file how background (arg, file) = record {
  how = how;
  arg = arg;
  argnext = [];
  file = file;
  background = background;
}

abbrev pub with_pipe : Bool → Pointers × Pointers → Launch
with_pipe background (arg, argnext) = record {
  how = How.have_pipe;
  arg = arg;
  argnext = argnext;
  file = none;
  background = background;
}

-- The four blocks that cut the array at the operator.
unfoldable pub cut : How → Bool → List CStr → Pointers → Launch
cut How.normal background argvlist arg = with_file How.normal background (arg, none)
cut How.out_redirect background argvlist arg =
    with_file How.out_redirect background (cut_redirect (codes ">") arg none)
cut How.in_redirect background argvlist arg =
    with_file How.in_redirect background (cut_redirect (codes "<") arg none)
cut How.have_pipe background argvlist arg = with_pipe background (cut_pipe argvlist arg)
cut How.add_file background argvlist arg =
    with_file How.add_file background (cut_add argvlist arg none)

abbrev pub no_operators : Operators
no_operators = record { flag = 0; how = How.normal }

abbrev pub cut_or_refuse : Bool → List CStr → Pointers → Operators → Action
cut_or_refuse background argvlist arg o =
    if ltb 1 o.flag then Action.wrong else Action.launch (cut o.how background argvlist arg)

-- do_cmd behind the branch of cd.
unfoldable pub prepare : List CStr → Action
prepare argvlist = elim (find_background argvlist) [
  | none ↦ Action.misplaced_background
  | some (background, arg) ↦
      cut_or_refuse background argvlist arg (find_operators 0 arg no_operators)
]

-- do_cmd
unfoldable pub do_cmd : List CStr → Action
do_cmd [] = Action.crash
do_cmd (w ∷ ws) = if streq w (codes "cd") then cd ws else prepare (w ∷ ws)
