-- ===== src/Shell/Session/Line.antt =====
-- From a line of the terminal to do_cmd: the loop of main in
-- Code/huqingwei/study_jincheng/my_shell.c.
use team_c.Common.{
  ℕ, zero, suc, ◌≤◌, ◌<◌, ◌≡◌, ◌≢◌, refl, Bool, false, ◌||◌, none, some, List, [], ◌∷◌, ◌++◌,
  if◌then◌else◌, ltb, arith,
}
use team_c.Common.Lists.{All-append, length}
use team_c.Common.Text.{CStr, codes, streq}
use team_c.Shell.Words.{Parsed, Table, columns, get_mingling, row_string, argvlist}
use team_c.Shell.Words.Rows.{IsCStr}
use team_c.Shell.Words.RoundTrip.{separators}
use team_c.Shell.Input.{Input, my_shell_input, read_line}
use team_c.Shell.Command.{is_empty_word, do_cmd}
use team_c.Shell.Session.{Turn, obey, obey_buffer, turn}

-- A line of at most 254 bytes is put into the buffer with a newline; a longer one is written behind
-- the end of the buffer, and the message that a command is too long is never printed.
read_line_lem :
    (temp : CStr)
    → read_line temp
      ≡ (if ltb (length temp) 255 then Input.line (temp ++ b'\n' ∷ []) else Input.overflow)
unfolding read_line my_shell_input
read_line_lem temp = ground arith

argvlist-head :
    (n : ℕ) (argv : Table) (w : CStr) (ws : List CStr)
    → argvlist n 0 argv ≡ w ∷ ws
    → row_string columns (argv 0) 0 ≡ w
unfolding argvlist
argvlist-head zero argv w ws e = ground arith
argvlist-head (suc n) argv w ws e = ground arith

pub obey-words :
    (p : Parsed) (w : CStr) (ws : List CStr)
    → argvlist p.argc 0 p.argv ≡ w ∷ ws
    → is_empty_word w ≡ false
    → obey p ≡ Turn.does (do_cmd (w ∷ ws))
obey-words p w ws e n = rw (argvlist-head p.argc p.argv w ws e, n, e) refl

pub obey-not_fault : (p : Parsed) → obey p ≢ Turn.fault
obey-not_fault p = ground arith

-- Whether a line is one of the words that end the shell.
abbrev pub is_exit : CStr → Bool
is_exit temp = streq temp (codes "exit") || streq temp (codes "logout")

streq-snoc : (a b : CStr) (x : ℕ) → streq (a ++ x ∷ []) (b ++ x ∷ []) ≡ streq a b
unfolding streq
streq-snoc [] [] x = ground arith
streq-snoc [] (y ∷ []) x = ground arith
streq-snoc [] (y ∷ z ∷ b) x = ground arith
streq-snoc (y ∷ []) [] x = ground arith
streq-snoc (y ∷ z ∷ a) [] x = ground arith
streq-snoc (y ∷ a) (z ∷ b) x = ground (arith, streq-snoc a b x)

abbrev pub newline : CStr → CStr
newline temp = temp ++ b'\n' ∷ []

pub turn-short :
    (temp : CStr)
    → length temp < 255
    → turn temp ≡ (
        if is_exit temp
        then Turn.ends
        else elim (get_mingling (newline temp)) [ none ↦ Turn.fault | some p ↦ obey p ])
unfolding turn obey_buffer
turn-short temp h = ground (
  arith,
  read_line_lem temp,
  streq-snoc temp (codes "exit") b'\n',
  streq-snoc temp (codes "logout") b'\n',
)

pub turn-long : (temp : CStr) → 255 ≤ length temp → turn temp ≡ Turn.fault
unfolding turn
turn-long temp h = ground (arith, read_line_lem temp)

pub separators-snoc : (temp : CStr) → separators (newline temp) ≡ suc (separators temp)
unfolding separators
separators-snoc [] = refl
separators-snoc (x ∷ temp) = ground (arith, separators-snoc temp)

pub IsCStr-newline : (temp : CStr) → IsCStr temp → IsCStr (newline temp)
IsCStr-newline temp h = All-append (λ x. x ≢ 0) temp (b'\n' ∷ []) h (ground arith, tt)
