-- ===== src/Chat/Group/Members.antt =====
-- The rows of a group and of the other groups in the loop of break_group.
use team_c.Common.{
  true, false, not, none, ◌≡◌, List, [], ◌∷◌, ◌++◌, arith, Bool-cases, inl, inr, append_assoc,
  append-nil,
}
use team_c.Common.Lists.{filter}
use team_c.Common.Text.{CStr}
use team_c.Common.Search.{find}
use team_c.Common.Search.Count.{find-append}
use team_c.Chat.Msg.{MysqlGroupRelationship}
use team_c.Chat.Group.{in_group, remove_members}

-- The rows of other groups.
abbrev pub outside : CStr → List MysqlGroupRelationship → List MysqlGroupRelationship
outside group = filter (λ r. not (in_group group r))

-- The loop where what is kept in front of the row has no row of the group and is not empty.
remove_members_kept :
    (group : CStr) (b : MysqlGroupRelationship) (bs rest : List MysqlGroupRelationship)
    → find (in_group group) (b ∷ bs) ≡ none
    → remove_members group (b ∷ bs) rest ≡ (false, (b ∷ bs) ++ outside group rest)
unfolding remove_members find
remove_members_kept group b bs [] none_before = rw append-nil
remove_members_kept group b bs (r ∷ rest) none_before = elim (Bool-cases (in_group group r)) [
  | inl hit ↦ ground (arith, hit, none_before, remove_members_kept group b bs rest none_before)
  | inr miss ↦
      let still : find (in_group group) (b ∷ (bs ++ r ∷ [])) ≡ none =
        ground (arith, miss, none_before, find-append (in_group group) (b ∷ bs) (r ∷ [])) in
      ground (
        arith,
        miss,
        remove_members_kept group b (bs ++ r ∷ []) rest still,
        append_assoc bs (r ∷ []) (outside group rest),
      )
]

-- The loop of break_group leaves the rows of the other groups, in their order, if the first row of
-- the list is one of them.
pub remove_members-outside :
    (group : CStr) (r : MysqlGroupRelationship) (rest : List MysqlGroupRelationship)
    → in_group group r ≡ false
    → remove_members group [] (r ∷ rest) ≡ (false, outside group (r ∷ rest))
unfolding remove_members find
remove_members-outside group r rest miss =
    ground (arith, miss, remove_members_kept group r [] rest (ground arith))

-- If the first row of the list is of the group, the loop frees it and then reads its `next`.
pub remove_members-freed :
    (group : CStr) (r : MysqlGroupRelationship) (rest : List MysqlGroupRelationship)
    → in_group group r ≡ true
    → remove_members group [] (r ∷ rest) ≡ (true, rest)
unfolding remove_members find
remove_members-freed group r rest hit = ground arith
