-- ===== src/Chat/Friend/Friendship.antt =====
-- add_friend and deal_friend_request_y: a request with its acceptance, and a second request.
use team_c.Common.{ℕ, ◌<◌, none, some, ◌≡◌, ◌≢◌, refl, sym, ap₂, ◌∙◌, List, [], ◌∷◌, ◌++◌, arith}
use team_c.Common.Int.{ℤ, pos}
use team_c.Common.Text.{CStr, streq_iff}
use team_c.Common.Search.{find}
use team_c.Common.Search.Count.{count, count_of_find-none, find-append}
use team_c.Chat.Msg.{Msg, MysqlFriend}
use team_c.Chat.Sql.{Env}
use team_c.Chat.World.{World, done, crashed, state}
use team_c.Chat.World.Up.{IsUp}
use team_c.Chat.Online.{find_online, find_online-head}
use team_c.Chat.Account.{is_named}
use team_c.Chat.Friend.Rows.{friend_row, accepted, find-accepted, is_row_self}
use team_c.Chat.Friend.Protocol.{status_of, add_friend_linked, deal_friend_request_y_linked}
use team_c.Chat.Friend.{is_row, add_friend, deal_friend_request_y}

-- `status_of` and the search behind it.
pub find_of_status_none :
    (friend user : CStr) (w : World)
    → status_of friend user w ≡ none
    → find (is_row friend user) w.head_friends ≡ none
find_of_status_none friend user w h = ground arith

pub status_of-find :
    (friend user : CStr) (w : World) (fs : List MysqlFriend) (f : MysqlFriend) (s : ℤ)
    → w.head_friends ≡ fs
    → find (is_row friend user) fs ≡ some f
    → f.status ≡ s
    → status_of friend user w ≡ some s
status_of-find friend user w fs f s l e q = rw l (ground (arith, e, q))

-- The row that add_friend has linked at the end is the one that is found.
find-new_row :
    (friend user : CStr) (status : ℤ) (fs : List MysqlFriend)
    → find (is_row friend user) fs ≡ none
    → find (is_row friend user) (fs ++ friend_row friend user status ∷ [])
      ≡ some (friend_row friend user status)
unfolding find
find-new_row friend user status fs new =
    let row = friend_row friend user status in
    ground (arith, find-append (is_row friend user) fs (row ∷ []), new, is_row_self row)

module _ (env : Env) (up : IsUp env) where
  -- While the database executes every statement: a user sends a friend request to another user,
  -- who is registered and about whom the sender has no row, and the request is accepted, by a
  -- message with the same two names. Both calls return, and each of the two has a row about the
  -- other, with status 1.
  pub friends_after_acceptance :
      (fd fd' : ℕ) (m m' : Msg) (w : World)
      → m.from_name ≢ m.to_name
      → 0 < count (is_named m.to_name) w.head_user
      → status_of m.to_name m.from_name w ≡ none
      → m'.from_name ≡ m.from_name
      → m'.to_name ≡ m.to_name
      → (w1 : World) × (w2 : World) × (add_friend env fd m w ≡ done w1)
        × (deal_friend_request_y env fd' m' w1 ≡ done w2)
        × (status_of m.to_name m.from_name w2 ≡ some (pos 1))
        × (status_of m.from_name m.to_name w2 ≡ some (pos 1))
  friends_after_acceptance fd fd' m m' w apart registered new from to =
      let a = m.from_name in
      let b = m.to_name in
      let missing = find_of_status_none b a w new in
      let (requested, rows, _, _) =
        add_friend_linked env fd m w up (λ p. apart (sym p)) registered missing in
      let w1 = state (add_friend env fd m w) in
      let row = friend_row b a (pos 0) in
      let asked : find (is_row b a) w1.head_friends ≡ some row =
        rw rows (find-new_row b a (pos 0) w.head_friends missing) in
      let (w2, answered, rows') =
        deal_friend_request_y_linked env fd' m' w1 row up (rw (from, to) apart)
          (rw (from, to) asked) in
      let (mine, g, theirs, one) = find-accepted a b w1.head_friends row apart asked in
      let list : w2.head_friends ≡ accepted a b w1.head_friends =
        rows' ∙ ap₂ (λ x y. accepted x y w1.head_friends) from to in
      (
        w1,
        w2,
        requested,
        answered,
        status_of-find b a w2 _ _ (pos 1) list mine refl,
        status_of-find a b w2 _ g (pos 1) list theirs one,
      )

  -- While the database executes every statement: a user sends a friend request to another user,
  -- who is registered and not online, and about whom the sender has no row, and then sends it
  -- again. The first call returns, and the second one goes through a null pointer and leaves the
  -- state as it was.
  pub add_friend_twice :
      (fd : ℕ) (m : Msg) (w : World)
      → m.from_name ≢ m.to_name
      → 0 < count (is_named m.to_name) w.head_user
      → status_of m.to_name m.from_name w ≡ none
      → find_online m.to_name w ≡ none
      → (w1 : World) × (add_friend env fd m w ≡ done w1) × (add_friend env fd m w1 ≡ crashed w1)
  unfolding add_friend
  add_friend_twice fd m w apart registered new offline =
      let a = m.from_name in
      let b = m.to_name in
      let missing = find_of_status_none b a w new in
      let (requested, rows, users, online) =
        add_friend_linked env fd m w up (λ p. apart (sym p)) registered missing in
      let w1 = state (add_friend env fd m w) in
      let row = friend_row b a (pos 0) in
      let asked : find (is_row b a) w1.head_friends ≡ some row =
        rw rows (find-new_row b a (pos 0) w.head_friends missing) in
      (
        w1,
        requested,
        ground (
          arith,
          asked,
          users,
          streq_iff b a,
          count_of_find-none (is_named b) w.head_user,
          find_online-head b w1 w online,
        ),
      )
