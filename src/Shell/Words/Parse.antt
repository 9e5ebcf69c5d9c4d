-- ===== src/Shell/Words/Parse.antt =====
-- get_mingling of Code/huqingwei/study_jincheng/my_shell.c against the words of a line.
use team_c.Common.{
  ℕ, suc, ◌+◌, ◌≤◌, ◌<◌, ltb, ◌≡◌, inl, inr, Bool-cases, refl, ◌∙◌, ap, true, false, Option, none,
  some, List, [], ◌∷◌, ◌++◌, append_assoc, append-nil, arith,
}
use team_c.Common.Lists.{length, length-append}
use team_c.Common.Text.{CStr}
use team_c.Shell.Words.{
  Parsed, rows, columns, byte, is_separator, end_word, scan, get_mingling, cleared_table,
}
use team_c.Shell.Words.Split.{split, split_from, split_from-separator, split_from-byte}
use team_c.Shell.Words.Cells.{table, ended_word, end_word-append, end_word-none, byte-append}

module _ (n : ℕ) (buf : CStr) (i : ℕ) (p : Parsed) where
  scan-word :
      (q : Parsed)
      → is_separator (byte buf i) ≡ true
      → end_word buf i p ≡ some q
      → scan (suc n) buf i p ≡ scan n buf (i + 1) q
  unfolding scan
  scan-word q h e = rw (scan, h, e) refl

  scan-word_none :
      is_separator (byte buf i) ≡ true → end_word buf i p ≡ none → scan (suc n) buf i p ≡ none
  unfolding scan
  scan-word_none h e = rw (scan, h, e) refl

  scan-byte : is_separator (byte buf i) ≡ false → scan (suc n) buf i p ≡ scan n buf (i + 1) p
  unfolding scan
  scan-byte h = rw (scan, h) refl

-- A run of the loop ends with these words in the table.
abbrev pub Reads : Option Parsed → List CStr → Type 0
Reads r ws = (j : ℕ) × (r ≡ some (record { argc = length ws; argv = table ws; j = j }))

scan-split_from_end :
    (w : CStr) (ws : List CStr) (buf : CStr) (i j : ℕ) (p : Parsed)
    → p ≡ record { argc = length ws; argv = table ws; j = j }
    → Reads (scan 0 buf i p) (ws ++ split_from w [])
unfolding scan split_from
scan-split_from_end w ws buf i j p q = (j, rw append-nil (ap some q))

-- `p` stands behind the text `pre` with the words `ws`; at `i` the bytes `w` of the next word are read
-- and `rest` is left of the line.
record Stands (pre w rest : CStr) (ws : List CStr) (buf : CStr) (i : ℕ) (p : Parsed) : Type 0 where
  line : buf ≡ pre ++ (w ++ rest)
  index : i ≡ length pre + length w
  read : p ≡ record { argc = length ws; argv = table ws; j = length pre }
  short : length w + length rest < columns

module _ (x : ℕ) (rest w pre : CStr) (ws : List CStr) (buf : CStr) (i : ℕ) (p : Parsed) where
  Stands-byte : Stands pre w (x ∷ rest) ws buf i p → byte buf i ≡ x
  Stands-byte s =
      rw (s.line, s.index)
        (ground (arith, byte-append pre (w ++ x ∷ rest) (length w), byte-append w (x ∷ rest) 0))

  Stands-end_word :
      Stands pre w (x ∷ rest) ws buf i p
      → length ws < rows
      → end_word buf i p ≡ some (ended_word pre w ws)
  Stands-end_word s few =
      let h : length w + 1 < columns = let short = s.short in omega arith in
      rw (s.line, s.index, s.read) (end_word-append pre w (x ∷ rest) ws few h)

  Stands-separator :
      Stands pre w (x ∷ rest) ws buf i p
      → Stands (pre ++ (w ++ x ∷ [])) [] rest (ws ++ w ∷ []) buf (i + 1) (ended_word pre w ws)
  Stands-separator s = record {
    line = s.line ∙ simp append_assoc;
    index = let index = s.index in omega (arith, taken);
    read = rw taken refl;
    short = let short = s.short in omega arith;
  }
    where
      taken : length (pre ++ (w ++ x ∷ [])) ≡ length pre + length w + 1
      taken = ground (arith, length-append pre (w ++ x ∷ []), length-append w (x ∷ []))

  Stands-longer :
      Stands pre w (x ∷ rest) ws buf i p → Stands pre (w ++ x ∷ []) rest ws buf (i + 1) p
  Stands-longer s = record {
    line = s.line ∙ simp append_assoc;
    index = let index = s.index in omega (arith, length-append w (x ∷ []));
    read = s.read;
    short = let short = s.short in omega (arith, length-append w (x ∷ []));
  }

  words-separator :
      is_separator x ≡ true → ws ++ split_from w (x ∷ rest) ≡ ws ++ w ∷ [] ++ split_from [] rest
  words-separator h = rw (split_from-separator w x rest h, append_assoc) refl

  words-byte :
      is_separator x ≡ false → ws ++ split_from w (x ∷ rest) ≡ ws ++ split_from (w ++ x ∷ []) rest
  words-byte h = rw (split_from-byte w x rest h) refl

scan-split_from :
    (rest w pre : CStr) (ws : List CStr) (buf : CStr) (i : ℕ) (p : Parsed)
    → Stands pre w rest ws buf i p
    → length (ws ++ split_from w rest) ≤ rows
    → Reads (scan (length rest) buf i p) (ws ++ split_from w rest)
scan-split_from [] w pre ws buf i p s l = scan-split_from_end w ws buf i (length pre) p s.read
scan-split_from (x ∷ rest) w pre ws buf i p s l = elim (Bool-cases (is_separator x)) [
  | inl h ↦
      let here = Stands-byte x rest w pre ws buf i p s in
      let few : length ws < rows = ground (
        arith,
        length-append ws (split_from w (x ∷ rest)),
        ap length (split_from-separator w x rest h),
      ) in
      rw
        (
          words-separator x rest w pre ws buf i p h,
          scan-word (length rest) buf i p _ (rw here h)
              (Stands-end_word x rest w pre ws buf i p s few),
        )
        (scan-split_from rest [] _ _ buf (i + 1) _ (Stands-separator x rest w pre ws buf i p s)
          (rw (← words-separator x rest w pre ws buf i p h) l))
  | inr h ↦
      let here = Stands-byte x rest w pre ws buf i p s in
      rw (words-byte x rest w pre ws buf i p h, scan-byte (length rest) buf i p (rw here h))
        (scan-split_from rest (w ++ x ∷ []) pre ws buf (i + 1) p
          (Stands-longer x rest w pre ws buf i p s) (rw (← words-byte x rest w pre ws buf i p h) l))
]

length-split_from : (w : CStr) → length (split_from w []) ≡ 0
unfolding split_from
length-split_from w = refl

scan-none :
    (rest w pre : CStr) (ws : List CStr) (buf : CStr) (i : ℕ) (p : Parsed)
    → Stands pre w rest ws buf i p
    → length ws ≤ rows
    → rows < length (ws ++ split_from w rest)
    → scan (length rest) buf i p ≡ none
scan-none [] w pre ws buf i p s l many =
    absurd (ground (arith, length-append ws (split_from w []), length-split_from w))
scan-none (x ∷ rest) w pre ws buf i p s l many = elim (Bool-cases (is_separator x)) [
  | inl h ↦
      let here = Stands-byte x rest w pre ws buf i p s in
      elim (Bool-cases (ltb (length ws) rows)) [
        | inl few ↦
            let few : length ws < rows = ground arith in
            let more : length (ws ++ w ∷ []) ≤ rows = omega (arith, length-append ws (w ∷ [])) in
            scan-word (length rest) buf i p _ (rw here h)
              (Stands-end_word x rest w pre ws buf i p s few)
            ∙ scan-none rest [] _ _ buf (i + 1) _ (Stands-separator x rest w pre ws buf i p s) more
                (rw (← words-separator x rest w pre ws buf i p h) many)
        | inr full ↦
            let full : rows ≤ p.argc = ground (arith, ap (λ (q : Parsed). q.argc) s.read) in
            scan-word_none (length rest) buf i p (rw here h) (end_word-none buf i p full)
      ]
  | inr h ↦
      let here = Stands-byte x rest w pre ws buf i p s in
      scan-byte (length rest) buf i p (rw here h)
      ∙ scan-none rest (w ++ x ∷ []) pre ws buf (i + 1) p (Stands-longer x rest w pre ws buf i p s)
          l (rw (← words-byte x rest w pre ws buf i p h) many)
]

abbrev fresh_parse : Parsed
fresh_parse = record { argc = 0; argv = cleared_table; j = 0 }

fresh-Stands : (buf : CStr) → length buf < columns → Stands [] [] buf [] buf 0 fresh_parse
fresh-Stands buf h = record { line = refl; index = refl; read = refl; short = omega arith }

-- On a line of at most 255 bytes, the newline included, get_mingling gives the words that the
-- separators end, in the table and in their number, if there are at most 100 of them.
pub get_mingling_lem :
    (buf : CStr)
    → length buf < columns
    → length (split buf) ≤ rows
    → Reads (get_mingling buf) (split buf)
unfolding get_mingling
get_mingling_lem buf h l = scan-split_from buf [] [] [] buf 0 fresh_parse (fresh-Stands buf h) l

pub get_mingling-none :
    (buf : CStr) → length buf < columns → rows < length (split buf) → get_mingling buf ≡ none
unfolding get_mingling
get_mingling-none buf h l =
    scan-none buf [] [] [] buf 0 fresh_parse (fresh-Stands buf h) (omega arith) l
