-- ===== src/Shell/Words/Cells.antt =====
-- The cells of the table that get_mingling of Code/huqingwei/study_jincheng/my_shell.c fills.
use mathlib.Core.Path.{fun_ext}
use team_c.Common.{
  ℕ, zero, suc, ◌+◌, ◌-◌, ◌≤◌, ◌<◌, ◌==◌, ◌≡◌, ◌≢◌, ◌⊎◌, inl, inr, Bool-cases, ==_iff, sym, refl,
  ◌∙◌, ap, none, some, List, [], ◌∷◌, ◌++◌, arith,
}
use team_c.Common.Lists.{length, length-append}
use team_c.Common.Text.{CStr}
use team_c.Shell.Words.{Table, Parsed, rows, columns, byte, put, set_byte, copy_word, end_word}

abbrev pub word_at : List CStr → ℕ → CStr
word_at [] r = []
word_at (w ∷ ws) zero = w
word_at (w ∷ ws) (suc r) = word_at ws r

-- The table with these words, each followed by zeros.
abbrev pub table : List CStr → Table
table ws r c = byte (word_at ws r) c

byte-out : (w : CStr) (c : ℕ) → length w ≤ c → byte w c ≡ 0
byte-out [] c h = refl
byte-out (x ∷ w) zero h = ground arith
byte-out (x ∷ w) (suc c) h = byte-out w c (omega arith)

pub byte-append : (pre s : CStr) (c : ℕ) → byte (pre ++ s) (length pre + c) ≡ byte s c
byte-append [] s c = ground arith
byte-append (x ∷ pre) s c = ground (arith, byte-append pre s c)

byte-append_in : (w s : CStr) (c : ℕ) → c < length w → byte (w ++ s) c ≡ byte w c
byte-append_in [] s c h = ground arith
byte-append_in (x ∷ w) s zero h = refl
byte-append_in (x ∷ w) s (suc c) h = byte-append_in w s c (omega arith)

word_at-append : (ws : List CStr) (w : CStr) → word_at (ws ++ w ∷ []) (length ws) ≡ w
word_at-append [] w = refl
word_at-append (v ∷ ws) w = word_at-append ws w

word_at-append_other :
    (ws : List CStr) (w : CStr) (r : ℕ) → r ≢ length ws → word_at (ws ++ w ∷ []) r ≡ word_at ws r
word_at-append_other [] w zero h = ground arith
word_at-append_other [] w (suc r) h = refl
word_at-append_other (v ∷ ws) w zero h = refl
word_at-append_other (v ∷ ws) w (suc r) h = word_at-append_other ws w r (omega arith)

word_at-length : (ws : List CStr) → word_at ws (length ws) ≡ []
word_at-length [] = refl
word_at-length (w ∷ ws) = word_at-length ws

set_byte-in :
    (r c x : ℕ) (argv : Table)
    → r < rows
    → c < columns
    → set_byte r c x argv ≡ some (put r c x argv)
unfolding set_byte
set_byte-in r c x argv h l = ground arith

-- The table after a copy.
fill : ℕ → CStr → ℕ → ℕ → ℕ → Table → Table
fill zero buf j r k argv = argv
fill (suc n) buf j r k argv = fill n buf (j + 1) r (k + 1) (put r k (byte buf j) argv)

copy_word-fill :
    (n : ℕ) (buf : CStr) (j r k : ℕ) (argv : Table)
    → r < rows
    → k + n ≤ columns
    → copy_word n buf j r k argv ≡ some (fill n buf j r k argv)
unfolding copy_word fill set_byte
copy_word-fill zero buf j r k argv h l = refl
copy_word-fill (suc n) buf j r k argv h l =
    ground (arith, copy_word-fill n buf (j + 1) r (k + 1) (put r k (byte buf j) argv))

fill-other :
    (n : ℕ) (buf : CStr) (j r k : ℕ) (argv : Table) (r' c : ℕ)
    → r' ≢ r
    → fill n buf j r k argv r' c ≡ argv r' c
unfolding fill
fill-other zero buf j r k argv r' c h = refl
fill-other (suc n) buf j r k argv r' c h =
    ground (arith, fill-other n buf (j + 1) r (k + 1) (put r k (byte buf j) argv) r' c)

fill-outside :
    (n : ℕ) (buf : CStr) (j r k : ℕ) (argv : Table) (c : ℕ)
    → (k + n ≤ c) ⊎ (c < k)
    → fill n buf j r k argv r c ≡ argv r c
unfolding fill
fill-outside zero buf j r k argv c h = refl
fill-outside (suc n) buf j r k argv c h =
    ground (arith, fill-outside n buf (j + 1) r (k + 1) (put r k (byte buf j) argv) c)

fill-inside :
    (n : ℕ) (buf : CStr) (j r k : ℕ) (argv : Table) (c : ℕ)
    → c < n
    → fill n buf j r k argv r (k + c) ≡ byte buf (j + c)
unfolding fill
fill-inside zero buf j r k argv c h = ground arith
fill-inside (suc n) buf j r k argv zero h =
    ground (arith, fill-outside n buf (j + 1) r (k + 1) (put r k (byte buf j) argv) k)
fill-inside (suc n) buf j r k argv (suc c) h =
    ground (arith, fill-inside n buf (j + 1) r (k + 1) (put r k (byte buf j) argv) c)

-- The words with one more, which ended at the separator behind `pre` and `w`.
abbrev pub ended_word : CStr → CStr → List CStr → Parsed
ended_word pre w ws = record {
  argc = length (ws ++ w ∷ []);
  argv = table (ws ++ w ∷ []);
  j = length pre + length w + 1;
}

module _ (pre w rest : CStr) (ws : List CStr) where
  abbrev filled : Table
  filled = fill (length w) (pre ++ (w ++ rest)) (length pre) (length ws) 0 (table ws)

  -- The cells after a separator.
  cell_in : (c : ℕ) → c < length w → filled (length ws) c ≡ byte w c
  cell_in c h = ground (
    arith,
    fill-inside (length w) (pre ++ (w ++ rest)) (length pre) (length ws) 0 (table ws) c,
    byte-append pre (w ++ rest) c,
    byte-append_in w rest c,
  )

  cell_out : (c : ℕ) → length w ≤ c → filled (length ws) c ≡ 0
  cell_out c h = ground (
    arith,
    fill-outside (length w) (pre ++ (w ++ rest)) (length pre) (length ws) 0 (table ws) c,
    ap (λ v. byte v c) (word_at-length ws),
  )

  cell_row : (c : ℕ) → put (length ws) (length w + 1) 0 filled (length ws) c ≡ byte w c
  cell_row c = ground (arith, cell_in c, cell_out c, byte-out w c)

  cell_other :
      (r c : ℕ) → r ≢ length ws → put (length ws) (length w + 1) 0 filled r c ≡ table ws r c
  cell_other r c h =
      ground (
        arith,
        fill-other (length w) (pre ++ (w ++ rest)) (length pre) (length ws) 0 (table ws) r c,
      )

  cell : (r c : ℕ) → put (length ws) (length w + 1) 0 filled r c ≡ table (ws ++ w ∷ []) r c
  cell r c = elim (Bool-cases (r == length ws)) [
    | inl e ↦ rw ((==_iff r (length ws)).0 e, word_at-append ws w) (cell_row c)
    | inr n ↦
        let other : r ≢ length ws = ground arith in
        cell_other r c other ∙ ap (λ v. byte v c) (sym (word_at-append_other ws w r other))
  ]

  stored : put (length ws) (length w + 1) 0 filled ≡ table (ws ++ w ∷ [])
  stored = fun_ext λ r. fun_ext λ c. cell r c

  -- What a separator makes of the words that stand in the table.
  pub end_word-append :
      length ws < rows
      → length w + 1 < columns
      → end_word
          (pre ++ (w ++ rest))
          (length pre + length w)
          (record { argc = length ws; argv = table ws; j = length pre })
        ≡ some (ended_word pre w ws)
  unfolding end_word
  end_word-append h l =
      let word : length pre + length w - length pre ≡ length w = omega arith in
      let more : length (ws ++ w ∷ []) ≡ suc (length ws) =
        ground (arith, length-append ws (w ∷ [])) in
      rw (
        end_word,
        word,
        copy_word-fill (length w) (pre ++ (w ++ rest)) (length pre) (length ws) 0 (table ws) h
            (omega arith),
        word,
        set_byte-in (length ws) (length w + 1) 0 filled h l,
        stored,
        more,
      )

-- Without a row for it, a word ends in a write outside of the table.
pub end_word-none : (buf : CStr) (i : ℕ) (p : Parsed) → rows ≤ p.argc → end_word buf i p ≡ none
unfolding end_word set_byte copy_word
end_word-none buf i p h = elim (i - p.j) [ zero ↦ ground arith | suc n ↦ ground arith ]
