-- ===== src/Ls/Mode.antt =====
-- The mode that display_attribute of Code/huqingwei/study_file/my_ls3.c prints, read back.
use team_c.Common.{
  ℕ, ◌+◌, ◌<◌, Bool-cases, inl, inr, ◌*◌, ◌/◌, ◌%◌, ◌==◌, ◌≢◌, Option, none, some, ◌≡◌, ap, [], ◌∷◌,
  if◌then◌else◌, arith,
}
use team_c.Common.Text.{CStr, codes}
use team_c.Ls.{has_bit, letter, permissions}

-- The weight of a letter where `c` stands for a permission that is granted, and `-` for one that is
-- not; no other letter may stand there.
abbrev weight_of : ℕ → ℕ → ℕ → Option ℕ
weight_of weight c x = if x == c then some weight else if x == b'-' then some 0 else none

abbrev plus : Option ℕ → Option ℕ → Option ℕ
plus none n = none
plus (some m) none = none
plus (some m) (some n) = some (m + n)

-- The number that letters stand for, the first of which has a weight; `grants` are the letters where
-- everything is granted.
unfoldable pub octal_of : ℕ → CStr → CStr → Option ℕ
octal_of weight [] [] = some 0
octal_of weight [] (x ∷ letters) = none
octal_of weight (c ∷ grants) [] = none
octal_of weight (c ∷ grants) (x ∷ letters) =
    plus (weight_of weight c x) (octal_of (weight / 2) grants letters)

letter_lem :
    (mode weight c : ℕ)
    → c ≢ b'-'
    → weight_of weight c (letter mode weight c) ≡ some (weight * ((mode / weight) % 2))
letter_lem mode weight c h =
    let bit : (mode / weight) % 2 < 2 = omega arith in
    elim (Bool-cases (has_bit mode weight)) [
      | inl e ↦ let q : (mode / weight) % 2 ≡ 1 = ground (arith, e) in rw (q) (ground (arith, h))
      | inr e ↦
          let q : (mode / weight) % 2 ≡ 0 = ground (arith, e, bit) in rw (q) (ground (arith, h))
    ]

-- The nine letters that display_attribute prints are r, w and x three times, each at its place or a
-- `-` instead of it, and they stand for the nine low bits of the mode: read with the weights from 256
-- down to 1 they give the number of these bits.
pub octal_of-permissions :
    (mode : ℕ) → octal_of 256 (codes "rwxrwxrwx") (permissions mode) ≡ some (mode % 512)
unfolding octal_of permissions
octal_of-permissions mode =
    rw
      (
        octal_of,
        letter_lem mode 256 b'r' (λ e. omega arith),
        letter_lem mode 128 b'w' (λ e. omega arith),
        letter_lem mode 64 b'x' (λ e. omega arith),
        letter_lem mode 32 b'r' (λ e. omega arith),
        letter_lem mode 16 b'w' (λ e. omega arith),
        letter_lem mode 8 b'x' (λ e. omega arith),
        letter_lem mode 4 b'r' (λ e. omega arith),
        letter_lem mode 2 b'w' (λ e. omega arith),
        letter_lem mode 1 b'x' (λ e. omega arith),
      )
      (ap some (omega arith))
