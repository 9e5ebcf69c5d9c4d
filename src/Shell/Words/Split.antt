-- ===== src/Shell/Words/Split.antt =====
-- The words of a line, described without the table of get_mingling in
-- Code/huqingwei/study_jincheng/my_shell.c.
use team_c.Common.{ℕ, ◌≡◌, refl, true, false, List, [], ◌∷◌, ◌++◌, if◌then◌else◌}
use team_c.Common.Text.{CStr}
use team_c.Shell.Words.{is_separator}

-- Each separator ends a word, which may be empty; what follows the last one is no word.
unfoldable pub split_from : CStr → CStr → List CStr
split_from word [] = []
split_from word (x ∷ s) =
    let next = split_from [] s in
    let longer = split_from (word ++ x ∷ []) s in if is_separator x then word ∷ next else longer

abbrev pub split : CStr → List CStr
split s = split_from [] s

module _ (w : CStr) (x : ℕ) (s : CStr) where
  pub split_from-separator : is_separator x ≡ true → split_from w (x ∷ s) ≡ w ∷ split_from [] s
  unfolding split_from
  split_from-separator h = rw (h) refl

  pub split_from-byte : is_separator x ≡ false → split_from w (x ∷ s) ≡ split_from (w ++ x ∷ []) s
  unfolding split_from
  split_from-byte h = rw (h) refl
