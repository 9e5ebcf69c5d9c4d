-- ===== src/Chat/Mirror/GroupRows.antt =====
-- The handlers of groups, against the database.
use team_c.Common.{ℕ, List, [], ◌∷◌, ◌++◌, arith, Option-cases, Bool-cases, inl, inr}
use team_c.Common.Search.{find, delete_first}
use team_c.Common.Search.Count.{delete_first-eq-filter}
use team_c.Chat.Msg.{Msg, MysqlUserGroups, MysqlGroupRelationship}
use team_c.Chat.Sql.{
  Env, insert_group, insert_owner, insert_member, delete_member, delete_members, delete_group,
  set_member_manager, insert_group_offline, insert_group_online,
}
use team_c.Chat.World.{World, ◌>>=◌, query, query_unchecked, connect_mysql, execute}
use team_c.Chat.World.Tables.{weicha_list-eq-append}
use team_c.Chat.Friend.{notify}
use team_c.Chat.Group.{
  is_group, in_group, has_user, fill_group, fill_member, view_group, view_group_member, is_receiver,
  group_answer, deal_group_request_n, create_group, add_group, deal_group_request_y, leave_group,
  quit_group, break_group, set_manager, deliver, fan_out, public_chat,
}
use team_c.Chat.Mirror.{Replayed, IsMirror, IsSynced, Returns, effect, stored-execute, Returns-bind}
use team_c.Chat.Mirror.FriendRows.{send_matching-IsMirror, notify-IsMirror}

module _ (db : Replayed) where
  pub view_group-IsMirror :
      (fd : ℕ) (m : Msg) (w : World) → IsMirror db w → Returns (IsMirror db) (view_group fd m w)
  unfolding view_group Returns
  view_group-IsMirror fd m w h = ground (
    arith,
    send_matching-IsMirror db fd (has_user m.user_infor.name) fill_group w.head_group_relationship m
        w h,
  )

  pub view_group_member-IsMirror :
      (fd : ℕ) (m : Msg) (w : World)
      → IsMirror db w
      → Returns (IsMirror db) (view_group_member fd m w)
  unfolding view_group_member Returns
  view_group_member-IsMirror fd m w h = ground (
    arith,
    send_matching-IsMirror db fd (in_group m.to_group_name) fill_member w.head_group_relationship m
        w h,
  )

  pub deal_group_request_n-IsMirror :
      (fd : ℕ) (m : Msg) (w : World)
      → IsMirror db w
      → Returns (IsMirror db) (deal_group_request_n fd m w)
  unfolding deal_group_request_n Returns
  deal_group_request_n-IsMirror fd m w h =
      notify-IsMirror db m.from_name (group_answer b'x' m) m w h

  module _ (env : Env) where
    pub add_group-IsMirror :
        (fd : ℕ) (m : Msg) (w : World)
        → IsMirror db w
        → Returns (IsMirror db) (add_group env fd m w)
    unfolding add_group notify Returns
    add_group-IsMirror fd m w h = ground arith

    pub create_group-IsMirror :
        (fd : ℕ) (m : Msg) (w : World)
        → IsMirror db w
        → Returns (IsMirror db) (create_group env fd m w)
    unfolding create_group query ◌>>=◌ Returns effect
    create_group-IsMirror fd m w h =
        let group : MysqlUserGroups = record {
          name = m.group.group_name;
          owner = m.group.group_owner;
        } in
        let named = record (execute (insert_group m.group.group_name m.group.group_owner) w) {
          head_user_groups = w.head_user_groups ++ group ∷ [];
        } in
        let stored = stored-execute db (insert_group m.group.group_name m.group.group_owner) w h in
        ground (
          arith,
          weicha_list-eq-append w.head_user_groups group,
          stored-execute db (insert_owner m.group.group_name m.group.group_owner) named stored,
        )

    pub deal_group_request_y-IsMirror :
        (fd : ℕ) (m : Msg) (w : World)
        → IsMirror db w
        → Returns (IsMirror db) (deal_group_request_y env fd m w)
    unfolding deal_group_request_y notify query_unchecked Returns effect
    deal_group_request_y-IsMirror fd m w h =
        ground (arith, stored-execute db (insert_member m.to_group_name m.from_name) w h)

    leave_group-IsMirror :
        (fd : ℕ) (m : Msg) (w : World)
        → IsMirror db w
        → Returns (IsMirror db) (leave_group env fd m w)
    unfolding leave_group notify query ◌>>=◌ Returns effect
    leave_group-IsMirror fd m w h =
        ground (arith, stored-execute db (delete_member m.to_group_name m.from_name) w h)

    pub quit_group-IsMirror :
        (fd : ℕ) (m : Msg) (w : World)
        → IsMirror db w
        → Returns (IsMirror db) (quit_group env fd m w)
    unfolding quit_group Returns
    quit_group-IsMirror fd m w h =
        elim (Option-cases (find (is_group m.to_group_name) w.head_user_groups)) [
          | inl e ↦ rw (e, quit_group) h
          | inr (g, e) ↦
              ground (arith, e, leave_group-IsMirror fd (record m { to_name = g.owner }) w h)
        ]

    pub set_manager-IsMirror :
        (fd : ℕ) (m : Msg) (w : World)
        → IsMirror db w
        → Returns (IsMirror db) (set_manager env fd m w)
    unfolding set_manager query ◌>>=◌ Returns effect
    set_manager-IsMirror fd m w h =
        ground (arith, stored-execute db (set_member_manager m.to_group_name m.to_name) w h)

    pub break_group-IsMirror :
        (fd : ℕ) (m : Msg) (w : World)
        → IsSynced db w
        → Returns (IsMirror db) (break_group env fd m w)
    unfolding break_group query ◌>>=◌ Returns effect
    break_group-IsMirror fd m w (c, h) =
        let dropped = record (execute (delete_group m.to_group_name) w) {
          head_user_groups = delete_first (is_group m.to_group_name) w.head_user_groups;
        } in
        let one =
          delete_first-eq-filter (is_group m.to_group_name) w.head_user_groups
            (c.groups m.to_group_name) in
        let stored : IsMirror db dropped =
          ground (arith, one, stored-execute db (delete_group m.to_group_name) w h) in
        ground (arith, stored-execute db (delete_members m.to_group_name) dropped stored)

    deliver-IsMirror :
        (m : Msg) (w : World) → IsMirror db w → Returns (IsMirror db) (deliver env m w)
    unfolding deliver query ◌>>=◌ Returns effect
    deliver-IsMirror m w h = ground (
      arith,
      stored-execute db (insert_group_offline m.news m.to_name m.from_name m.to_group_name m.time) w
          h,
      stored-execute db (insert_group_online m.news m.to_name m.from_name m.to_group_name m.time) w
          h,
    )

    fan_out-IsMirror :
        (rs : List MysqlGroupRelationship) (m : Msg) (w : World)
        → IsMirror db w
        → Returns (IsMirror db) (fan_out env rs m w)
    unfolding fan_out Returns
    fan_out-IsMirror [] m w h = h
    fan_out-IsMirror (r ∷ rest) m w h = elim (Bool-cases (is_receiver m r)) [
      | inl hit ↦
          let m' = record m { to_name = r.user_name } in
          rw (hit, fan_out)
            (Returns-bind (IsMirror db) (IsMirror db) _ _ (deliver-IsMirror m' w h)
              (λ w1 h1. fan_out-IsMirror rest m' w1 h1))
      | inr miss ↦ rw (miss, fan_out) (fan_out-IsMirror rest m w h)
    ]

    pub public_chat-IsMirror :
        (fd : ℕ) (m : Msg) (w : World)
        → IsMirror db w
        → Returns (IsMirror db) (public_chat env fd m w)
    unfolding public_chat connect_mysql ◌>>=◌ Returns
    public_chat-IsMirror fd m w h = ground (arith, fan_out-IsMirror w.head_group_relationship m w h)
