-- ===== src/Chat/Mirror/FriendRows.antt =====
-- The handlers of friends and private chat, against the database.
use team_c.Common.{
  ℕ, Bool, true, false, ◌≡◌, refl, List, [], ◌∷◌, arith, Option-cases, Bool-cases, inl, inr,
}
use mathlib.Core.Path.{subst}
use team_c.Chat.World.Up.{bind_assoc}
use team_c.Common.Int.{ℤ, pos, ◌==ℤ◌}
use team_c.Common.Text.{CStr}
use team_c.Common.Lists.{filter}
use team_c.Common.Search.{find}
use team_c.Common.Search.Count.{delete_first-eq-filter, modify_first-eq-map}
use team_c.Chat.Msg.{Msg, MysqlFriend}
use team_c.Chat.Sql.{
  Env, Statement, insert_friend_request, insert_friend_accepted, delete_friend_row,
  clear_friend_status, set_friend_status, insert_chat_offline, insert_chat_online,
}
use team_c.Chat.World.{World, done, ◌>>=◌, RequestNode, send, query, connect_mysql, send_matching}
use team_c.Chat.World.Tables.{weicha_list-eq-append}
use team_c.Chat.Friend.{
  is_row, is_accepted, fill_friend, all_friends, send_online, online_friend, notify, private_chat,
  friend_node, request_friend, add_friend, drop_friend, set_status, write_status, delete_friend,
  accept_row, deal_friend_request_y, deal_friend_request_n,
}
use team_c.Chat.Friend.Rows.{friend_row}
use team_c.Chat.Invariant.FriendKeys.{drop_friend-IsConsistent, accept_row-IsConsistent}
use team_c.Chat.Mirror.{
  Replayed, IsMirror, IsSynced, Returns, effect, stored-execute, image, Returns-bind,
  Returns-IsSynced, set_rows,
}

module _ (db : Replayed) where
  pub send_matching-IsMirror {ℓ} :
      {A : Type ℓ} (fd : ℕ) (test : A → Bool) (fill : A → Msg → Msg) (xs : List A) (m : Msg)
      (w : World)
      → IsMirror db w
      → IsMirror db (send_matching fd test fill xs m w)
  unfolding send_matching
  send_matching-IsMirror fd test fill [] m w h = h
  send_matching-IsMirror fd test fill (x ∷ xs) m w h = elim (Bool-cases (test x)) [
    | inl hit ↦
        rw (hit, send_matching)
          (send_matching-IsMirror fd test fill xs (fill x m) (send fd (fill x m) w) h)
    | inr miss ↦ rw (miss, send_matching) (send_matching-IsMirror fd test fill xs m w h)
  ]

  pub all_friends-IsMirror :
      (fd : ℕ) (m : Msg) (w : World) → IsMirror db w → Returns (IsMirror db) (all_friends fd m w)
  unfolding all_friends Returns
  all_friends-IsMirror fd m w h = ground (
    arith,
    send_matching-IsMirror fd (is_accepted m.user_infor.name) fill_friend w.head_friends m w h,
  )

  send_online-IsMirror :
      (fd : ℕ) (flag : Bool) (fs : List MysqlFriend) (m : Msg) (w : World)
      → IsMirror db w
      → IsMirror db ((send_online fd flag fs m w).2)
  unfolding send_online
  send_online-IsMirror fd flag [] m w h = h
  send_online-IsMirror fd flag (f ∷ rest) m w h = ground (
    arith,
    send_online-IsMirror fd true rest (fill_friend f m) (send fd (fill_friend f m) w) h,
    send_online-IsMirror fd false rest m w h,
  )

  pub online_friend-IsMirror :
      (fd : ℕ) (m : Msg) (w : World) → IsMirror db w → Returns (IsMirror db) (online_friend fd m w)
  unfolding online_friend Returns
  online_friend-IsMirror fd m w h = ground (
    arith,
    send_online-IsMirror fd true (filter (is_accepted m.user_infor.name) w.head_friends) m w h,
  )

  pub notify-IsMirror :
      (name : CStr) (r : RequestNode) (m : Msg) (w : World)
      → IsMirror db w
      → IsMirror db (notify name r m w)
  unfolding notify
  notify-IsMirror name r m w h = ground arith

  module _ (env : Env) where
    pub private_chat-IsMirror :
        (fd : ℕ) (m : Msg) (w : World)
        → IsMirror db w
        → Returns (IsMirror db) (private_chat env fd m w)
    unfolding private_chat connect_mysql query ◌>>=◌ Returns effect
    private_chat-IsMirror fd m w h = ground (
      arith,
      stored-execute db (insert_chat_offline m.news m.to_name m.from_name m.time) w h,
      stored-execute db (insert_chat_online m.news m.to_name m.from_name m.time) w h,
    )

    request_friend-IsMirror :
        (m : Msg) (w : World) → IsMirror db w → Returns (IsMirror db) (request_friend env m w)
    unfolding request_friend query notify ◌>>=◌ Returns effect
    request_friend-IsMirror m w h = ground (
      arith,
      stored-execute db (insert_friend_request m.to_name m.from_name) w h,
      weicha_list-eq-append w.head_friends (friend_row m.to_name m.from_name (pos 0)),
    )

    pub add_friend-IsMirror :
        (fd : ℕ) (m : Msg) (w : World)
        → IsMirror db w
        → Returns (IsMirror db) (add_friend env fd m w)
    unfolding add_friend Returns
    add_friend-IsMirror fd m w h = ground (arith, request_friend-IsMirror m w h)

    drop_friend-IsMirror :
        (m : Msg) (w : World) → IsSynced db w → Returns (IsMirror db) (drop_friend env m w)
    unfolding drop_friend query ◌>>=◌ Returns effect
    drop_friend-IsMirror m w (c, h) = ground (
      arith,
      stored-execute db (delete_friend_row m.to_name m.from_name) w h,
      delete_first-eq-filter (is_row m.to_name m.from_name) w.head_friends
          (c.friends m.to_name m.from_name),
    )

    -- A statement that updates the status of a row, and the same in the list.
    write_status-IsMirror :
        (s : ℤ) (statement : Statement) (friend user : CStr) (w : World)
        → effect statement (image w)
          ≡ record (image w) { friends = set_rows s friend user w.head_friends }
        → IsSynced db w
        → Returns (IsMirror db) (query env statement w >>= write_status s friend user)
    unfolding write_status query ◌>>=◌ Returns
    write_status-IsMirror s statement friend user w same (c, h) = ground (
      arith,
      same,
      stored-execute db statement w h,
      modify_first-eq-map (is_row friend user) (set_status s) w.head_friends
          (c.friends friend user),
    )

    -- The same with a last step that keeps the mirror.
    set_status-IsMirror :
        (s : ℤ) (statement : Statement) (friend user : CStr) (last : World → World) (w : World)
        → effect statement (image w)
          ≡ record (image w) { friends = set_rows s friend user w.head_friends }
        → ((w3 : World) → IsMirror db w3 → IsMirror db (last w3))
        → IsSynced db w
        → Returns
            (IsMirror db)
            (query env statement w >>= λ w2. write_status s friend user w2 >>= λ w3. done (last w3))
    unfolding Returns
    set_status-IsMirror s statement friend user last w same keeps h =
        subst (Returns (IsMirror db))
          (bind_assoc (query env statement w) (write_status s friend user) (λ w3. done (last w3)))
          (Returns-bind (IsMirror db) (IsMirror db) _ _
            (write_status-IsMirror s statement friend user w same h) keeps)

    accept_row-IsMirror :
        (m : Msg) (w : World) → IsSynced db w → Returns (IsMirror db) (accept_row env m w)
    unfolding accept_row query write_status ◌>>=◌ Returns effect
    accept_row-IsMirror m w (c, h) = ground (
      arith,
      stored-execute db (insert_friend_accepted m.from_name m.to_name) w h,
      stored-execute db (set_friend_status m.from_name m.to_name) w h,
      weicha_list-eq-append w.head_friends (friend_row m.from_name m.to_name (pos 1)),
      modify_first-eq-map (is_row m.from_name m.to_name) (set_status (pos 1)) w.head_friends
          (c.friends m.from_name m.to_name),
    )

    pub delete_friend-IsMirror :
        (fd : ℕ) (m : Msg) (w : World)
        → IsSynced db w
        → Returns (IsMirror db) (delete_friend env fd m w)
    unfolding delete_friend Returns effect
    delete_friend-IsMirror fd m w h =
        let dropped = drop_friend-IsMirror m w h in
        let synced =
          Returns-IsSynced db (drop_friend env m w) (drop_friend-IsConsistent env m w h.0)
            dropped in
        elim (Option-cases (find (is_row m.to_name m.from_name) w.head_friends)) [
          | inl e ↦ rw (e, delete_friend) h.1
          | inr (f, e) ↦ elim (Bool-cases (f.status ==ℤ pos 0)) [
            | inl pending ↦
                rw (e, delete_friend)
                  (rw pending (Returns-bind (IsMirror db) (IsMirror db) _ _ dropped (λ w1 h1. h1)))
            | inr other ↦
                rw (e, delete_friend)
                  (rw other (
                    Returns-bind (IsSynced db) (IsMirror db) _ _ synced (λ w1 h1.
                      set_status-IsMirror (pos 0) (clear_friend_status m.from_name m.to_name)
                        m.from_name m.to_name (send fd m) w1 refl (λ w3 h3. h3) h1)))
          ]
        ]

    pub deal_friend_request_n-IsMirror :
        (fd : ℕ) (m : Msg) (w : World)
        → IsSynced db w
        → Returns (IsMirror db) (deal_friend_request_n env fd m w)
    unfolding deal_friend_request_n Returns
    deal_friend_request_n-IsMirror fd m w h =
        Returns-bind (IsMirror db) (IsMirror db) _ _ (drop_friend-IsMirror m w h)
          (λ w1 h1. notify-IsMirror m.from_name (friend_node env b'n' m) m w1 h1)

    pub deal_friend_request_y-IsMirror :
        (fd : ℕ) (m : Msg) (w : World)
        → IsSynced db w
        → Returns (IsMirror db) (deal_friend_request_y env fd m w)
    unfolding deal_friend_request_y effect
    deal_friend_request_y-IsMirror fd m w h =
        Returns-bind (IsSynced db) (IsMirror db) _ _
          (Returns-IsSynced db (accept_row env m w) (accept_row-IsConsistent env m w h.0)
            (accept_row-IsMirror m w h))
          (λ w1 h1.
            set_status-IsMirror (pos 1) (set_friend_status m.to_name m.from_name) m.to_name
              m.from_name (notify m.from_name (friend_node env b'y' m) m) w1 refl
              (notify-IsMirror m.from_name (friend_node env b'y' m) m) h1)
