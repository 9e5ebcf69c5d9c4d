-- ===== src/Shell/Words.antt =====
-- get_mingling of Code/huqingwei/study_jincheng/my_shell.c, which cuts a line into the words of the
-- table argv[100][256]. A write outside of the table, or of the row that is indexed, has the result
-- `none`.
pub mod Split
pub mod Cells
pub mod Parse
pub mod Rows
pub mod RoundTrip
use team_c.Common.{
  ℕ, zero, suc, ◌+◌, ◌-◌, ◌==◌, ltb, Bool, ◌&&◌, ◌||◌, Option, none, some, List, [], ◌∷◌,
  if◌then◌else◌,
}
use team_c.Common.Lists.{length}
use team_c.Common.Text.{CStr}

-- argv: the byte of a row and a column.
abbrev pub Table : Type 0
Table = ℕ → ℕ → ℕ

-- The rows of arglist, and the bytes of a row.
abbrev pub rows : ℕ
rows = 100

abbrev pub columns : ℕ
columns = 256

-- The table that main has cleared.
abbrev pub cleared_table : Table
cleared_table r c = 0

-- buf[i]: behind the last byte stands the zero.
abbrev pub byte : CStr → ℕ → ℕ
byte [] i = 0
byte (x ∷ s) zero = x
byte (x ∷ s) (suc i) = byte s i

-- argv[r][c] = x
abbrev pub put : ℕ → ℕ → ℕ → Table → Table
put r c x argv r' c' = if (r' == r) && (c' == c) then x else argv r' c'

unfoldable pub set_byte : ℕ → ℕ → ℕ → Table → Option Table
set_byte r c x argv = if ltb r rows && ltb c columns then some (put r c x argv) else none

abbrev pub is_separator : ℕ → Bool
is_separator x = (x == b' ') || (x == b'\n')

-- `while(j<i)`, with the rounds that are left: the bytes from buf[j] on go to argv[r][k] and on.
unfoldable pub copy_word : ℕ → CStr → ℕ → ℕ → ℕ → Table → Option Table
copy_word zero buf j r k argv = some argv
copy_word (suc n) buf j r k argv = elim (set_byte r k (byte buf j) argv) [
  | none ↦ none
  | some argv' ↦ copy_word n buf (j + 1) r (k + 1) argv'
]

-- The words and their number, and the place where the next word begins.
pub record Parsed : Type 0 where
  pub argc : ℕ
  pub argv : Table
  pub j : ℕ

-- A separator at buf[i]: the row is filled, and a zero is written one byte behind its end.
unfoldable pub end_word : CStr → ℕ → Parsed → Option Parsed
end_word buf i p = elim (copy_word (i - p.j) buf p.j p.argc 0 p.argv) [
  | none ↦ none
  | some argv ↦ elim (set_byte p.argc (i - p.j + 1) 0 argv) [
    | none ↦ none
    | some argv' ↦ some (record { argc = suc p.argc; argv = argv'; j = i + 1 })
  ]
]

-- `for(i=0; i<len; i++)`, with the rounds that are left.
unfoldable pub scan : ℕ → CStr → ℕ → Parsed → Option Parsed
scan zero buf i p = some p
scan (suc n) buf i p = elim (if is_separator (byte buf i) then end_word buf i p else some p) [
  | none ↦ none
  | some q ↦ scan n buf (i + 1) q
]

-- get_mingling, with the count and the table that main has cleared.
unfoldable pub get_mingling : CStr → Option Parsed
get_mingling buf = scan (length buf) buf 0 (record { argc = 0; argv = cleared_table; j = 0 })

-- The string that begins at a byte of a row, which ends at a zero at the latest after `n` bytes.
unfoldable pub row_string : ℕ → (ℕ → ℕ) → ℕ → CStr
row_string zero row c = []
row_string (suc n) row c =
    let rest = row_string n row (c + 1) in if row c == 0 then [] else row c ∷ rest

-- argvlist, as do_cmd reads it: the strings of the first rows, from row `r` on.
unfoldable pub argvlist : ℕ → ℕ → Table → List CStr
argvlist zero r argv = []
argvlist (suc n) r argv = row_string columns (argv r) 0 ∷ argvlist n (r + 1) argv
