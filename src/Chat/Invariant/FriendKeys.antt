-- ===== src/Chat/Invariant/FriendKeys.antt =====
-- The handlers for friends, and the keys of the tables.
use team_c.Common.{
  ℕ, Bool, true, false, ◌≡◌, refl, none, some, List, [], ◌∷◌, arith, Option-cases, Bool-cases, inl,
  inr,
}
use team_c.Common.Int.{ℤ, pos, ◌==ℤ◌}
use team_c.Common.Text.{CStr}
use team_c.Common.Search.{find, delete_first}
use team_c.Common.Search.Count.{
  count-delete_first-le, count-modify_first, count-modify_first-le, find-fails_of_count,
}
use team_c.Chat.Msg.{Msg, MysqlFriend}
use team_c.Chat.Sql.{Env, clear_friend_status}
use team_c.Chat.World.{World, done, state, send, query, connect_mysql, ◌>>=◌, RequestNode}
use team_c.Chat.World.Tables.{Tables, tables, tables-send_matching, state_bind, state_query}
use team_c.Chat.Friend.{
  is_row, is_accepted, fill_friend, all_friends, send_online, online_friend, notify, private_chat,
  friend_node, request_friend, add_friend, drop_friend, set_status, write_status, delete_friend,
  accept_row, deal_friend_request_y, deal_friend_request_n,
}
use team_c.Common.Search.{modify_first}
use team_c.Common.Lists.{filter}
use team_c.Chat.Invariant.{IsConsistent, has_other_status, new_row-IsConsistent}

notify-IsConsistent :
    (name : CStr) (r : RequestNode) (m : Msg) (w : World)
    → IsConsistent (tables w)
    → IsConsistent (tables (notify name r m w))
unfolding notify
notify-IsConsistent name r m w h = ground arith

-- The handlers that only read the tables.
pub tables-all_friends :
    (fd : ℕ) (m : Msg) (w : World) → tables (state (all_friends fd m w)) ≡ tables w
unfolding all_friends
tables-all_friends fd m w =
    ground (
      arith,
      tables-send_matching fd (is_accepted m.user_infor.name) fill_friend w.head_friends m w,
    )

tables-send_online :
    (fd : ℕ) (flag : Bool) (fs : List MysqlFriend) (m : Msg) (w : World)
    → tables (send_online fd flag fs m w).2 ≡ tables w
unfolding send_online
tables-send_online fd flag [] m w = refl
tables-send_online fd flag (f ∷ rest) m w = ground (
  arith,
  tables-send_online fd true rest (fill_friend f m) (send fd (fill_friend f m) w),
  tables-send_online fd false rest m w,
)

pub tables-online_friend :
    (fd : ℕ) (m : Msg) (w : World) → tables (state (online_friend fd m w)) ≡ tables w
unfolding online_friend
tables-online_friend fd m w =
    ground (
      arith,
      tables-send_online fd true (filter (is_accepted m.user_infor.name) w.head_friends) m w,
    )

pub tables-private_chat :
    (env : Env) (fd : ℕ) (m : Msg) (w : World) → tables (state (private_chat env fd m w)) ≡ tables w
unfolding private_chat connect_mysql query ◌>>=◌
tables-private_chat env fd m w = ground arith

delete_row-IsConsistent :
    (t : Tables) (friend user : CStr)
    → IsConsistent t
    → IsConsistent (record t { friends = delete_first (is_row friend user) t.friends })
delete_row-IsConsistent t friend user h = record {
  users = h.users;
  friends = λ f u.
      let le = count-delete_first-le (is_row friend user) (is_row f u) t.friends in
      let one = h.friends f u in omega arith;
  groups = h.groups;
  statuses =
      omega
        (arith, h.statuses, count-delete_first-le (is_row friend user) has_other_status t.friends);
}

set_status-IsConsistent :
    (t : Tables) (s : ℤ) (friend user : CStr)
    → ((f : MysqlFriend) → has_other_status (set_status s f) ≡ false)
    → IsConsistent t
    → IsConsistent
        (record t { friends = modify_first (is_row friend user) (set_status s) t.friends })
set_status-IsConsistent t s friend user known h = record {
  users = h.users;
  friends = λ f u.
      rw (count-modify_first (is_row friend user) (is_row f u) (set_status s) t.friends (λ a. refl))
        (h.friends f u);
  groups = h.groups;
  statuses = omega (
    arith,
    h.statuses,
    count-modify_first-le (is_row friend user) has_other_status (set_status s) t.friends known,
  );
}

-- The first result of a search in a consistent table.
found_status :
    (t : Tables) (friend user : CStr) (f : MysqlFriend)
    → IsConsistent t
    → find (is_row friend user) t.friends ≡ some f
    → has_other_status f ≡ false
found_status t friend user f h e =
    find-fails_of_count (is_row friend user) has_other_status t.friends f h.statuses e

pub write_status-IsConsistent :
    (s : ℤ) (friend user : CStr) (w : World)
    → ((f : MysqlFriend) → has_other_status (set_status s f) ≡ false)
    → IsConsistent (tables w)
    → IsConsistent (tables (state (write_status s friend user w)))
unfolding write_status
write_status-IsConsistent s friend user w known h =
    ground (arith, set_status-IsConsistent (tables w) s friend user known h)

module _ (env : Env) (m : Msg) (w : World) (h : IsConsistent (tables w)) where
  pub request_friend-IsConsistent :
      find (is_row m.to_name m.from_name) w.head_friends ≡ none
      → IsConsistent (tables (state (request_friend env m w)))
  unfolding request_friend query notify ◌>>=◌
  request_friend-IsConsistent new =
      let row : MysqlFriend = record {
        f_friendname = m.to_name;
        f_username = m.from_name;
        type = pos 1;
        status = pos 0;
      } in
      ground (arith, new_row-IsConsistent (tables w) row)

  pub drop_friend-IsConsistent : IsConsistent (tables (state (drop_friend env m w)))
  unfolding drop_friend query ◌>>=◌
  drop_friend-IsConsistent =
      ground (arith, delete_row-IsConsistent (tables w) m.to_name m.from_name)

  pub accept_row-IsConsistent : IsConsistent (tables (state (accept_row env m w)))
  unfolding accept_row query write_status ◌>>=◌
  accept_row-IsConsistent =
      let row : MysqlFriend = record {
        f_friendname = m.from_name;
        f_username = m.to_name;
        type = pos 1;
        status = pos 1;
      } in
      ground (
        arith,
        new_row-IsConsistent (tables w) row,
        set_status-IsConsistent (tables w) (pos 1) m.from_name m.to_name (λ f. refl) h,
      )

  pub add_friend-IsConsistent : (fd : ℕ) → IsConsistent (tables (state (add_friend env fd m w)))
  unfolding add_friend
  add_friend-IsConsistent fd =
      elim (Option-cases (find (is_row m.to_name m.from_name) w.head_friends)) [
        | inl new ↦ ground (arith, request_friend-IsConsistent)
        | inr (f, e) ↦ ground (arith, found_status (tables w) m.to_name m.from_name f h e)
      ]

module _ (env : Env) (fd : ℕ) (m : Msg) (w : World) (h : IsConsistent (tables w)) where
  -- The second half of delete_friend, on the row of the other user.
  clear_row-IsConsistent : IsConsistent (
      tables (
        state (
          drop_friend env m w >>= λ w1.
          query env (clear_friend_status m.from_name m.to_name) w1 >>= λ w2.
          write_status (pos 0) m.from_name m.to_name w2 >>= λ w3. done (send fd m w3))))
  clear_row-IsConsistent = state_bind IsConsistent _ _ (drop_friend-IsConsistent env m w h) λ w1 h1.
      state_bind IsConsistent _ _ (state_query IsConsistent env _ w1 h1) λ w2 h2.
        state_bind IsConsistent _ _
          (write_status-IsConsistent (pos 0) m.from_name m.to_name w2 (λ f. refl) h2) (λ w3 h3. h3)

  pub delete_friend-IsConsistent : IsConsistent (tables (state (delete_friend env fd m w)))
  unfolding delete_friend
  delete_friend-IsConsistent =
      elim (Option-cases (find (is_row m.to_name m.from_name) w.head_friends)) [
        | inl e ↦ rw (e, delete_friend) h
        | inr (f, e) ↦ elim (Bool-cases (f.status ==ℤ pos 0)) [
          | inl pending ↦
              rw (e, delete_friend)
                (rw pending
                  (state_bind IsConsistent _ _ (drop_friend-IsConsistent env m w h) (λ w1 h1. h1)))
          | inr other ↦ rw (e, delete_friend) (rw other clear_row-IsConsistent)
        ]
      ]

  pub deal_friend_request_n-IsConsistent :
      IsConsistent (tables (state (deal_friend_request_n env fd m w)))
  unfolding deal_friend_request_n notify ◌>>=◌
  deal_friend_request_n-IsConsistent = ground (arith, drop_friend-IsConsistent env m w h)

  pub deal_friend_request_y-IsConsistent :
      IsConsistent (tables (state (deal_friend_request_y env fd m w)))
  unfolding deal_friend_request_y
  deal_friend_request_y-IsConsistent =
      state_bind IsConsistent _ _ (accept_row-IsConsistent env m w h) λ w1 h1.
        state_bind IsConsistent _ _ (state_query IsConsistent env _ w1 h1) λ w2 h2.
          state_bind IsConsistent _ _
            (write_status-IsConsistent (pos 1) m.to_name m.from_name w2 (λ f. refl) h2)
            (λ w3 h3. notify-IsConsistent m.from_name (friend_node env b'y' m) m w3 h3)
