-- ===== src/Shell/Process/Missing.antt =====
-- Commands that find_command of Code/huqingwei/study_jincheng/my_shell.c does not find.
use mathlib.Core.Path.{subst}
use team_c.Shell.Command.Launching.{prepare-IsPlain}
use team_c.Common.{
  Option-cases, inl, inr, ◌==◌, ◌≡◌, ◌≢◌, refl, sym, ◌∙◌, ap, Bool, true, false, Option, none, some,
  List, [], ◌∷◌, ◌++◌, if◌then◌else◌, arith,
}
use team_c.Common.Lists.{All}
use team_c.Common.Text.{CStr, codes, streq, streq_iff}
use team_c.Common.Search.{find}
use team_c.Shell.Command.{do_cmd}
use team_c.Shell.Command.Plain.{IsPlain, IsTail}
use team_c.Shell.Process.{
  Files, Found, Child, drop_here, has_name, find_in, paths, find_command, children,
}
use team_c.Shell.Process.Run.{Runs, do_cmd-prepare}

-- No byte is a slash.
abbrev pub HasNoSlash : CStr → Type 0
HasNoSlash s = All (λ x. x ≢ b'/') s

-- A directory that opens, with names that have no slash.
abbrev pub IsDirectory : Option (List CStr) → Type 0
IsDirectory none = ⊥
IsDirectory (some names) = All HasNoSlash names

abbrev pub has_slash : CStr → Bool
has_slash [] = false
has_slash (x ∷ s) = if x == b'/' then true else has_slash s

slash-HasNoSlash : (s : CStr) → HasNoSlash s → has_slash s ≡ false
slash-HasNoSlash [] h = refl
slash-HasNoSlash (x ∷ s) (h, hs) = ground (arith, slash-HasNoSlash s hs)

has_name-slash :
    (command : CStr) (names : List CStr)
    → has_slash command ≡ true
    → All HasNoSlash names
    → has_name command names ≡ false
unfolding find
has_name-slash command [] h hs = refl
has_name-slash command (n ∷ names) h (hn, hs) =
    let other : n ≢ command = λ e. ground (arith, slash-HasNoSlash n hn, ap has_slash e) in
    ground (arith, has_name-slash command names h hs, streq_iff command n, other)

find_in-slash :
    (fs : Files) (command : CStr) (dirs : List CStr)
    → has_slash command ≡ true
    → All (λ d. IsDirectory (fs.readdir d)) dirs
    → find_in fs command dirs ≡ Found.missing
unfolding find_in
find_in-slash fs command [] h ds = refl
find_in-slash fs command (d ∷ dirs) h (hd, ds) = elim (Option-cases (fs.readdir d)) [
  | inl e ↦ absurd (subst IsDirectory e hd)
  | inr (names, e) ↦
      rw (find_in, e, has_name-slash command names h (subst IsDirectory e hd))
        (find_in-slash fs command dirs h ds)
]

-- Where the four directories open and the names in them have no slash, a command with a slash, but
-- for `./` at its beginning, is not found: no program is run by its absolute path.
pub slash_not_found :
    (fs : Files) (w : CStr) (ws tail : List CStr) (background : Bool)
    → streq w (codes "cd") ≡ false
    → All IsPlain (w ∷ ws)
    → IsTail background tail
    → has_slash (drop_here w) ≡ true
    → All (λ d. IsDirectory (fs.readdir d)) paths
    → Runs fs (do_cmd (w ∷ ws ++ tail)) (Child.not_found ∷ []) background
unfolding children find_command
slash_not_found fs w ws tail background n h t s ds = (
  _,
  do_cmd-prepare w (ws ++ tail) n ∙ prepare-IsPlain tail background t (w ∷ ws) h,
  rw (find_in-slash fs (drop_here w) paths s ds) refl,
  refl,
)

find_in-fault :
    (fs : Files) (command dir : CStr) (before after : List CStr)
    → find_in fs command before ≡ Found.missing
    → fs.readdir dir ≡ none
    → find_in fs command (before ++ dir ∷ after) ≡ Found.fault
unfolding find_in
find_in-fault fs command dir [] after h e = rw (e) refl
find_in-fault fs command dir (d ∷ before) after h e = elim (Option-cases (fs.readdir d)) [
  | inl n ↦ ground arith
  | inr (names, s) ↦ ground (arith, find_in-fault fs command dir before after, s)
]

-- Where one of the four directories does not open and the command stands in none of those before it,
-- find_command reads a null pointer: the child crashes before it runs anything.
pub closed_directory_crashes :
    (fs : Files) (w : CStr) (ws tail : List CStr) (background : Bool) (before after : List CStr)
    (dir : CStr)
    → streq w (codes "cd") ≡ false
    → All IsPlain (w ∷ ws)
    → IsTail background tail
    → before ++ dir ∷ after ≡ paths
    → find_in fs (drop_here w) before ≡ Found.missing
    → fs.readdir dir ≡ none
    → Runs fs (do_cmd (w ∷ ws ++ tail)) (Child.crashed ∷ []) background
unfolding children find_command
closed_directory_crashes fs w ws tail background before after dir n h t p m e =
    let crash : find_in fs (drop_here w) paths ≡ Found.fault =
      ap (find_in fs (drop_here w)) (sym p) ∙ find_in-fault fs (drop_here w) dir before after m e in
    (
      _,
      do_cmd-prepare w (ws ++ tail) n ∙ prepare-IsPlain tail background t (w ∷ ws) h,
      rw (crash) refl,
      refl,
    )
