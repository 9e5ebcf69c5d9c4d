-- ===== src/Chat/Invariant/GroupKeys.antt =====
-- The handlers for groups, and the keys of the tables.
use team_c.Common.{ℕ, ◌≡◌, refl, List, [], ◌∷◌, arith, Option-cases, Bool-cases, inl, inr, ◌∙◌}
use team_c.Common.Text.{CStr}
use team_c.Common.Search.{find, delete_first}
use team_c.Common.Search.Count.{count-delete_first-le}
use team_c.Chat.Msg.{Msg, MysqlGroupRelationship, MysqlUserGroups}
use team_c.Chat.Sql.{Env}
use team_c.Chat.World.{World, state, ◌>>=◌, query, query_unchecked}
use team_c.Chat.World.Tables.{
  Tables, tables, state_bind, tables-connect_mysql, tables-send_matching,
}
use team_c.Chat.Friend.{notify}
use team_c.Chat.Group.{
  is_group, in_group, has_user, is_receiver, fill_group, fill_member, create_group, view_group,
  view_group_member, add_group, deal_group_request_y, deal_group_request_n, leave_group, quit_group,
  break_group, set_manager, deliver, fan_out, public_chat,
}
use team_c.Chat.Invariant.{IsConsistent, new_group-IsConsistent}

delete_group-IsConsistent :
    (t : Tables) (name : CStr)
    → IsConsistent t
    → IsConsistent (record t { groups = delete_first (is_group name) t.groups })
delete_group-IsConsistent t name h = record {
  users = h.users;
  friends = h.friends;
  groups = λ g.
      let le = count-delete_first-le (is_group name) (is_group g) t.groups in
      let one = h.groups g in omega arith;
  statuses = h.statuses;
}

-- The handlers that only read the tables.
pub tables-view_group :
    (fd : ℕ) (m : Msg) (w : World) → tables (state (view_group fd m w)) ≡ tables w
unfolding view_group
tables-view_group fd m w = ground (
  arith,
  tables-send_matching fd (has_user m.user_infor.name) fill_group w.head_group_relationship m w,
)

pub tables-view_group_member :
    (fd : ℕ) (m : Msg) (w : World) → tables (state (view_group_member fd m w)) ≡ tables w
unfolding view_group_member
tables-view_group_member fd m w = ground (
  arith,
  tables-send_matching fd (in_group m.to_group_name) fill_member w.head_group_relationship m w,
)

pub tables-add_group :
    (env : Env) (fd : ℕ) (m : Msg) (w : World) → tables (state (add_group env fd m w)) ≡ tables w
unfolding add_group notify
tables-add_group env fd m w = ground arith

pub tables-deal_group_request_n :
    (fd : ℕ) (m : Msg) (w : World) → tables (state (deal_group_request_n fd m w)) ≡ tables w
unfolding deal_group_request_n notify
tables-deal_group_request_n fd m w = ground arith

module _ (env : Env) where
  tables-deliver : (m : Msg) (w : World) → tables (state (deliver env m w)) ≡ tables w
  unfolding deliver query ◌>>=◌
  tables-deliver m w = ground arith

  tables-fan_out :
      (rs : List MysqlGroupRelationship) (m : Msg) (w : World)
      → tables (state (fan_out env rs m w)) ≡ tables w
  unfolding fan_out
  tables-fan_out [] m w = refl
  tables-fan_out (r ∷ rest) m w = elim (Bool-cases (is_receiver m r)) [
    | inl yes_ ↦
        let m' = record m { to_name = r.user_name } in
        rw (yes_, fan_out)
          (state_bind (λ t. t ≡ tables w) (deliver env m' w) _ (tables-deliver m' w)
            (λ w1 h. tables-fan_out rest m' w1 ∙ h))
    | inr no_ ↦ rw (no_, fan_out) (tables-fan_out rest m w)
  ]

  pub tables-public_chat :
      (fd : ℕ) (m : Msg) (w : World) → tables (state (public_chat env fd m w)) ≡ tables w
  unfolding public_chat
  tables-public_chat fd m w =
      state_bind (λ t. t ≡ tables w) _ _ (tables-connect_mysql env w)
        (λ w1 h. ground (arith, tables-fan_out w1.head_group_relationship m w1))

  module _ (fd : ℕ) (m : Msg) (w : World) (h : IsConsistent (tables w)) where
    pub create_group-IsConsistent : IsConsistent (tables (state (create_group env fd m w)))
    unfolding create_group query ◌>>=◌
    create_group-IsConsistent =
        let group : MysqlUserGroups = record {
          name = m.group.group_name;
          owner = m.group.group_owner;
        } in
        ground (arith, new_group-IsConsistent (tables w) group)

    pub deal_group_request_y-IsConsistent :
        IsConsistent (tables (state (deal_group_request_y env fd m w)))
    unfolding deal_group_request_y notify query_unchecked
    deal_group_request_y-IsConsistent = ground arith

    leave_group-IsConsistent : IsConsistent (tables (state (leave_group env fd m w)))
    unfolding leave_group query notify ◌>>=◌
    leave_group-IsConsistent = ground arith

    pub set_manager-IsConsistent : IsConsistent (tables (state (set_manager env fd m w)))
    unfolding set_manager query ◌>>=◌
    set_manager-IsConsistent = ground arith

    pub break_group-IsConsistent : IsConsistent (tables (state (break_group env fd m w)))
    unfolding break_group query ◌>>=◌
    break_group-IsConsistent = ground (arith, delete_group-IsConsistent (tables w) m.to_group_name)

  pub quit_group-IsConsistent :
      (fd : ℕ) (m : Msg) (w : World)
      → IsConsistent (tables w)
      → IsConsistent (tables (state (quit_group env fd m w)))
  unfolding quit_group
  quit_group-IsConsistent fd m w h =
      elim (Option-cases (find (is_group m.to_group_name) w.head_user_groups)) [
        | inl e ↦ rw (e, quit_group) h
        | inr (g, e) ↦
            ground (arith, e, leave_group-IsConsistent fd (record m { to_name = g.owner }) w h)
      ]
