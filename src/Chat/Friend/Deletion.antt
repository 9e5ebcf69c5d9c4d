-- ===== src/Chat/Friend/Deletion.antt =====
-- What deleting a friend does to the two rows, and to private chat.
use team_c.Common.{ℕ, ◌≤◌, none, some, ◌≡◌, ◌≢◌, refl, sym, ◌∙◌, arith, inl, inr, Option-cases}
use team_c.Common.Int.{ℤ, pos}
use team_c.Common.Text.{CStr}
use team_c.Common.Search.{find, modify_first, delete_first}
use team_c.Common.Search.Count.{
  count, find-passes, find-modify_first, find-delete_first_other, find-delete_first_unique,
  find-modify_first_other,
}
use team_c.Chat.Msg.{Msg, MysqlFriend, set_cmd}
use team_c.Chat.Sql.{Env, delete_friend_row, clear_friend_status}
use team_c.Chat.World.{World, done, send, execute, ◌>>=◌}
use team_c.Chat.World.Up.{IsUp, query-up}
use team_c.Chat.Friend.{is_row, private_chat, delete_friend, drop_friend, write_status, set_status}
use team_c.Chat.Friend.Rows.{rows_apart}
use team_c.Chat.Friend.Protocol.{status_of, private_chat_lem}

find_of_status_some :
    (friend user : CStr) (w : World) (s : ℤ)
    → status_of friend user w ≡ some s
    → (f : MysqlFriend) × (find (is_row friend user) w.head_friends ≡ some f) × (f.status ≡ s)
find_of_status_some friend user w s h =
    elim (Option-cases (find (is_row friend user) w.head_friends)) [
      | inl e ↦ absurd (ground (arith, e))
      | inr (f, e) ↦ (f, e, ground (arith, e))
    ]

-- The state after drop_friend, and after the status of the other row is cleared.
abbrev dropped : Msg → World → World
dropped m w = record (execute (delete_friend_row m.to_name m.from_name) w) {
  head_friends = delete_first (is_row m.to_name m.from_name) w.head_friends;
}

abbrev cleared : Msg → World → World
cleared m w = record (execute (clear_friend_status m.from_name m.to_name) (dropped m w)) {
  head_friends =
      modify_first (is_row m.from_name m.to_name) (set_status (pos 0)) (dropped m w).head_friends;
}

module _ (env : Env) (up : IsUp env) where
  drop_friend-up : (m : Msg) (w : World) → drop_friend env m w ≡ done (dropped m w)
  unfolding drop_friend ◌>>=◌
  drop_friend-up m w = ground (arith, query-up env (delete_friend_row m.to_name m.from_name) w up)

  delete_friend-up :
      (fd : ℕ) (m : Msg) (w : World) (f g : MysqlFriend)
      → m.from_name ≢ m.to_name
      → find (is_row m.to_name m.from_name) w.head_friends ≡ some f
      → f.status ≡ pos 1
      → find (is_row m.from_name m.to_name) w.head_friends ≡ some g
      → delete_friend env fd m w ≡ done (send fd m (cleared m w))
  unfolding delete_friend write_status ◌>>=◌
  delete_friend-up fd m w f g apart mine accepted theirs = ground (
    arith,
    mine,
    accepted,
    theirs,
    drop_friend-up m w,
    query-up env (clear_friend_status m.from_name m.to_name) (dropped m w) up,
    find-delete_first_other (is_row m.to_name m.from_name) (is_row m.from_name m.to_name)
        w.head_friends (rows_apart m.from_name m.to_name apart),
  )

  -- While the database executes every statement: a user deletes another user, about whom there is
  -- one row of the user's, with status 1, and who has a row about the user. The call returns, the
  -- user's row is gone, and the other's has status 0. A private message of the user to the other
  -- is then answered with number 130, one of the other to the user with number 131, and neither is
  -- recorded or changes anything else.
  pub deletion_ends_chat :
      (fd : ℕ) (m : Msg) (w : World) (s : ℤ) (fd1 fd2 : ℕ) (c1 c2 : Msg)
      → m.from_name ≢ m.to_name
      → count (is_row m.to_name m.from_name) w.head_friends ≤ 1
      → status_of m.to_name m.from_name w ≡ some (pos 1)
      → status_of m.from_name m.to_name w ≡ some s
      → c1.from_name ≡ m.from_name
      → c1.to_name ≡ m.to_name
      → c2.from_name ≡ m.to_name
      → c2.to_name ≡ m.from_name
      → (w1 : World) × (delete_friend env fd m w ≡ done w1)
        × (status_of m.to_name m.from_name w1 ≡ none)
        × (status_of m.from_name m.to_name w1 ≡ some (pos 0))
        × (private_chat env fd1 c1 w1 ≡ done (send fd1 (set_cmd (pos 130) c1) w1))
        × (private_chat env fd2 c2 w1 ≡ done (send fd2 (set_cmd (pos 131) c2) w1))
  deletion_ends_chat fd m w s fd1 fd2 c1 c2 apart one mine theirs f1 t1 f2 t2 =
      let a = m.from_name in
      let b = m.to_name in
      let (f, found, accepted) = find_of_status_some b a w (pos 1) mine in
      let (g, other, _) = find_of_status_some a b w s theirs in
      let w1 = send fd m (cleared m w) in
      let kept : find (is_row a b) (dropped m w).head_friends ≡ some g =
        find-delete_first_other (is_row b a) (is_row a b) w.head_friends (rows_apart a b apart)
        ∙ other in
      let gone : find (is_row b a) w1.head_friends ≡ none =
        find-modify_first_other (is_row a b) (is_row b a) (set_status (pos 0))
          (dropped m w).head_friends (rows_apart b a (λ p. apart (sym p))) (λ x. refl)
        ∙ find-delete_first_unique (is_row b a) w.head_friends one in
      let zero_ : find (is_row a b) w1.head_friends ≡ some (set_status (pos 0) g) =
        find-modify_first (is_row a b) (set_status (pos 0)) (dropped m w).head_friends g
          (find-passes (is_row a b) (dropped m w).head_friends g kept) kept in
      (
        w1,
        delete_friend-up fd m w f g apart found accepted other,
        ground (arith, gone),
        ground (arith, zero_),
        private_chat_lem env fd1 c1 w1 up ∙ rw (f1, t1) (ground (arith, gone)),
        private_chat_lem env fd2 c2 w1 up ∙ rw (f2, t2) (ground (arith, gone, zero_)),
      )
