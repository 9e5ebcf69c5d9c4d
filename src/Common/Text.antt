-- ===== src/Common/Text.antt =====
-- C strings: the bytes before the terminating zero. `strcmp` is only ever compared with 0.
use team_c.Common.Tests.{◌==◌}
use Prim.Native.Nat.{ℕ}
use Prim.Native.Char.{code}
use Prim.Native.String.{String}
use mathlib.Core.Path.{◌≡◌, refl}
use mathlib.Core.Logic.{◌↔◌}
use mathlib.Core.Bool.{Bool, true, false, ◌&&◌}
use mathlib.Core.List.{List, [], ◌∷◌}
use native.Mathlib.Omega.{arith}

abbrev pub CStr : Type 0
CStr = List ℕ

-- A literal of the source, one byte for each ASCII character.
abbrev pub codes : String → CStr
codes String.[] = []
codes (String.◌∷◌ c s) = code c ∷ codes s

-- strcmp(a, b) == 0
unfoldable pub streq : CStr → CStr → Bool
streq [] [] = true
streq [] (y ∷ ys) = false
streq (x ∷ xs) [] = false
streq (x ∷ xs) (y ∷ ys) = x == y && streq xs ys

pub streq→eq : (a b : CStr) → streq a b ≡ true → a ≡ b
unfolding streq
streq→eq [] [] h = refl
streq→eq [] (y ∷ ys) h = ground arith
streq→eq (x ∷ xs) [] h = ground arith
streq→eq (x ∷ xs) (y ∷ ys) h = ground (arith, streq→eq xs ys)

pub streq_refl : (a : CStr) → streq a a ≡ true
unfolding streq
streq_refl [] = refl
streq_refl (x ∷ xs) = ground (arith, streq_refl xs)

pub streq_iff : (a b : CStr) → (streq a b ≡ true) ↔ (a ≡ b)
streq_iff a b = (streq→eq a b, λ e. rw e (streq_refl b))
