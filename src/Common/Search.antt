-- ===== src/Common/Search.antt =====
-- Searches through a singly linked list, as the source writes them:
-- `while (current != NULL) { if (test) { flag = 1; break; } current = current->next; }`.
pub mod Count
use team_c.Common.Tests.{if◌then◌else◌}
use mathlib.Core.Bool.{Bool}
use mathlib.Core.Option.{Option, none, some}
use mathlib.Core.List.{List, [], ◌∷◌}

module _ {ℓ} {A : Type ℓ} where
  -- The node at which the search stops; `none` is `current == NULL` with `flag == 0`.
  unfoldable pub find : (A → Bool) → List A → Option A
  find test [] = none
  find test (x ∷ xs) = if test x then some x else find test xs

  -- An assignment through the pointer that the search returns.
  unfoldable pub modify_first : (A → Bool) → (A → A) → List A → List A
  modify_first test f [] = []
  modify_first test f (x ∷ xs) = if test x then f x ∷ xs else x ∷ modify_first test f xs

  -- Unlinks the node at which the search stops.
  unfoldable pub delete_first : (A → Bool) → List A → List A
  delete_first test [] = []
  delete_first test (x ∷ xs) = if test x then xs else x ∷ delete_first test xs
