-- ===== src/Shell/Words/Rows.antt =====
-- The rows of the table of get_mingling read as C strings: Code/huqingwei/study_jincheng/my_shell.c,
-- do_cmd's argvlist.
use team_c.Common.{
  ℕ, zero, suc, ◌+◌, ◌≤◌, ◌<◌, ◌≡◌, ◌≢◌, inl, inr, Bool-cases, refl, ◌∙◌, ap, ap₂, some, List, [],
  ◌∷◌, ◌++◌, arith,
}
use team_c.Common.Lists.{All, length, length-append}
use team_c.Common.Text.{CStr}
use team_c.Shell.Words.{
  Table, Parsed, rows, columns, byte, is_separator, get_mingling, row_string, argvlist,
}
use team_c.Shell.Words.Split.{split, split_from, split_from-separator, split_from-byte}
use team_c.Shell.Words.Cells.{table, word_at}
use team_c.Shell.Words.Parse.{get_mingling_lem}

-- No byte is the zero that ends a string.
abbrev pub IsCStr : CStr → Type 0
IsCStr s = All (λ x. x ≢ 0) s

-- A string that has room in a row, with its zero.
abbrev Fits : CStr → Type 0
Fits w = IsCStr w × (length w < columns)

row_string-byte :
    (n : ℕ) (row : ℕ → ℕ) (c : ℕ) (w : CStr)
    → ((k : ℕ) → row (c + k) ≡ byte w k)
    → IsCStr w
    → length w < n
    → row_string n row c ≡ w
unfolding row_string
row_string-byte zero row c w e h l = absurd (omega arith)
row_string-byte (suc n) row c [] e h l = ground (arith, e 0)
row_string-byte (suc n) row c (x ∷ w) e (h, hs) l =
    let next : (k : ℕ) → row (c + 1 + k) ≡ byte w k = λ k. ap row (omega arith) ∙ e (suc k) in
    ground (arith, e 0, row_string-byte n row (c + 1) w next hs (omega arith))

argvlist-word_at :
    (argv : Table) (r : ℕ) (ws : List CStr)
    → ((k c : ℕ) → argv (r + k) c ≡ byte (word_at ws k) c)
    → All Fits ws
    → argvlist (length ws) r argv ≡ ws
unfolding argvlist
argvlist-word_at argv r [] e h = refl
argvlist-word_at argv r (w ∷ ws) e ((h, l), hs) =
    let row : (k : ℕ) → argv r (0 + k) ≡ byte w k =
      λ k. ap₂ argv (omega arith) (omega arith) ∙ e 0 k in
    let below : (k c : ℕ) → argv (r + 1 + k) c ≡ byte (word_at ws k) c =
      λ k c. ap (λ i. argv i c) (omega arith) ∙ e (suc k) c in
    ap₂ (λ v vs. v ∷ vs) (row_string-byte columns (argv r) 0 w row h l)
      (argvlist-word_at argv (r + 1) ws below hs)

IsCStr-snoc : (w : CStr) (x : ℕ) → IsCStr w → x ≢ 0 → IsCStr (w ++ x ∷ [])
IsCStr-snoc [] x hw h = (h, tt)
IsCStr-snoc (y ∷ w) x (hy, hw) h = (hy, IsCStr-snoc w x hw h)

split_from-Fits :
    (w s : CStr) → IsCStr w → IsCStr s → length w + length s < columns → All Fits (split_from w s)
split_from-Fits w [] hw hs l = unfold split_from in tt
split_from-Fits w (x ∷ s) hw (h, hs) l = elim (Bool-cases (is_separator x)) [
  | inl e ↦
      rw (split_from-separator w x s e)
        ((hw, omega arith), split_from-Fits [] s tt hs (omega arith))
  | inr e ↦ rw (split_from-byte w x s e) (
      split_from-Fits (w ++ x ∷ []) s (IsCStr-snoc w x hw h) hs
        (omega (arith, length-append w (x ∷ []))))
]

-- On a line of at most 255 bytes, the newline included, with at most 100 blanks and newlines, the
-- table that get_mingling fills holds, as C strings, the words that the blanks and newlines end, and
-- argc is their number.
pub get_mingling-split :
    (buf : CStr)
    → IsCStr buf
    → length buf < columns
    → length (split buf) ≤ rows
    → (p : Parsed) × (get_mingling buf ≡ some p)
      × (p.argc ≡ length (split buf))
      × (argvlist p.argc 0 p.argv ≡ split buf)
get_mingling-split buf z h l =
    let (j, e) = get_mingling_lem buf h l in
    (
      _,
      e,
      refl,
      argvlist-word_at (table (split buf)) 0 (split buf)
          (λ k c. ap (λ i. table (split buf) i c) (omega arith))
          (split_from-Fits [] buf tt z (omega arith)),
    )
