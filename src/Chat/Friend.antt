-- ===== src/Chat/Friend.antt =====
-- Friends: all_friends, online_friend, private_chat, add_friend, delete_friend and the answers to a
-- friend request, deal_friend_request_y and deal_friend_request_n, of epoll.c.
pub mod Rows
pub mod Protocol
pub mod Friendship
pub mod Deletion
pub mod Listing
pub mod Waiting
use team_c.Common.{ℕ, Bool, true, false, ◌&&◌, none, some, List, [], ◌∷◌, if◌then◌else◌}
use team_c.Common.Int.{ℤ, pos, ◌==ℤ◌}
use team_c.Common.Lists.{filter}
use team_c.Common.Text.{CStr, streq}
use team_c.Common.Search.{find, modify_first, delete_first}
use team_c.Chat.Msg.{Msg, MysqlFriend, set_cmd}
use team_c.Chat.Sql.{
  Env, insert_friend_request, insert_friend_accepted, delete_friend_row, clear_friend_status,
  set_friend_status, insert_chat_offline, insert_chat_online,
}
use team_c.Chat.World.{
  World, Outcome, done, crashed, ◌>>=◌, RequestNode, send, query, connect_mysql, weicha_list,
  send_matching,
}
use team_c.Chat.Online.{find_online}
use team_c.Chat.Account.{is_named}

-- The row that says that `friend` is a friend of `user`.
abbrev pub is_row : CStr → CStr → MysqlFriend → Bool
is_row friend user f = streq f.f_friendname friend && streq f.f_username user

-- A row of the user that has been accepted.
abbrev pub is_accepted : CStr → MysqlFriend → Bool
is_accepted user f = streq f.f_username user && (f.status ==ℤ pos 1)

abbrev pub fill_friend : MysqlFriend → Msg → Msg
fill_friend f m = record m { friend_name = f.f_friendname }

unfoldable pub all_friends : ℕ → Msg → World → Outcome
all_friends fd m w =
    let mine = is_accepted m.user_infor.name in
    elim (find mine w.head_friends) [
      | none ↦ done (send fd (set_cmd (pos 111) m) w)
      | some _ ↦ done (send_matching fd mine fill_friend w.head_friends m w)
    ]

-- The last loop of online_friend, over the copied rows; `flag` is 1 after it if the last of them is
-- online.
unfoldable pub send_online : ℕ → Bool → List MysqlFriend → Msg → World → Bool × Msg × World
send_online fd flag [] m w = (flag, m, w)
send_online fd flag (f ∷ rest) m w = elim (find_online f.f_friendname w) [
  | some _ ↦ send_online fd true rest (fill_friend f m) (send fd (fill_friend f m) w)
  | none ↦ send_online fd false rest m w
]

abbrev after_online : ℕ → Bool × Msg × World → Outcome
after_online fd (true, m, w) = done w
after_online fd (false, m, w) = done (send fd (set_cmd (pos 122) m) w)

unfoldable pub online_friend : ℕ → Msg → World → Outcome
online_friend fd m w =
    let mine = is_accepted m.user_infor.name in
    elim (find mine w.head_friends) [
      | none ↦ done (send fd (set_cmd (pos 121) m) w)
      | some _ ↦ after_online fd (send_online fd true (filter mine w.head_friends) m w)
    ]

-- A request for a user who is not online: a new node at the tail of the request list.
abbrev pub leave_request : RequestNode → World → World
leave_request r w = record w { head_request = weicha_list w.head_request r }

-- `send` to the user if the user is online, a request node if not.
unfoldable pub notify : CStr → RequestNode → Msg → World → World
notify name r m w = elim (find_online name w) [
  | some u ↦ send u.socket m w
  | none ↦ leave_request r w
]

abbrev pub set_status : ℤ → MysqlFriend → MysqlFriend
set_status s f = record f { status = s }

-- `current_friend->item.friends.status = s` on the row found, a null pointer if there is none.
unfoldable pub write_status : ℤ → CStr → CStr → World → Outcome
write_status s friend user w = elim (find (is_row friend user) w.head_friends) [
  | none ↦ crashed w
  | some _ ↦
      done (record w {
        head_friends = modify_first (is_row friend user) (set_status s) w.head_friends;
      })
]

module _ (env : Env) where
  unfoldable pub private_chat : ℕ → Msg → World → Outcome
  private_chat fd m w = do
    w1 ← connect_mysql env w
    elim (find (is_row m.to_name m.from_name) w1.head_friends) [
      | none ↦ done (send fd (set_cmd (pos 130) m) w1)
      | some _ ↦ elim (find (is_row m.from_name m.to_name) w1.head_friends) [
        | none ↦ done (send fd (set_cmd (pos 131) m) w1)
        | some _ ↦ elim (find_online m.to_name w1) [
          | none ↦ query env (insert_chat_offline m.news m.to_name m.from_name m.time) w1
          | some u ↦ do
            w2 ← query env (insert_chat_online m.news m.to_name m.from_name m.time) w1
            done (send u.socket m w2)
        ]
      ]
    ]

  -- A request node for a friend request, or an answer to one; its group name is not initialised.
  unfoldable pub friend_node : ℕ → Msg → RequestNode
  friend_node type m = record {
    from_name = m.from_name;
    to_name = m.to_name;
    to_group_name = env.malloc_bytes;
    type = type;
  }

  -- The end of add_friend: the new row, and the request to the other user.
  unfoldable pub request_friend : Msg → World → Outcome
  unfolding friend_node
  request_friend m w = do
    w1 ← query env (insert_friend_request m.to_name m.from_name) w
    let row : MysqlFriend = record {
      f_friendname = m.to_name;
      f_username = m.from_name;
      type = pos 1;
      status = pos 0;
    }
    let w2 = record w1 { head_friends = weicha_list w1.head_friends row }
    done (notify m.to_name (friend_node b'f' m) m w2)

  -- add_friend. A request that is still pending is sent again, through `current` unchecked.
  unfoldable pub add_friend : ℕ → Msg → World → Outcome
  add_friend fd m w =
      if streq m.to_name m.from_name
      then done (send fd (set_cmd (pos 149) m) w)
      else elim (find (is_named m.to_name) w.head_user) [
        | none ↦ done (send fd (set_cmd (pos 141) m) w)
        | some _ ↦ elim (find (is_row m.to_name m.from_name) w.head_friends) [
          | none ↦ request_friend m w
          | some f ↦
              if f.status ==ℤ pos 1
              then done (send fd (set_cmd (pos 140) m) w)
              else if f.status ==ℤ pos 0
              then (elim (find_online m.to_name w) [
                | some u ↦ done (send u.socket m w)
                | none ↦ crashed w
              ])
              else request_friend m w
        ]
      ]

  -- Deletion from the table and from the list, as delete_friend and deal_friend_request_n have it.
  unfoldable pub drop_friend : Msg → World → Outcome
  drop_friend m w = do
    w1 ← query env (delete_friend_row m.to_name m.from_name) w
    done (record w1 { head_friends = delete_first (is_row m.to_name m.from_name) w1.head_friends })

  unfoldable pub delete_friend : ℕ → Msg → World → Outcome
  delete_friend fd m w = elim (find (is_row m.to_name m.from_name) w.head_friends) [
    | none ↦ done (send fd (set_cmd (pos 150) m) w)
    | some f ↦ if f.status ==ℤ pos 0 then (do w1 ← drop_friend m w; done (send fd m w1)) else do
      w1 ← drop_friend m w
      w2 ← query env (clear_friend_status m.from_name m.to_name) w1
      w3 ← write_status (pos 0) m.from_name m.to_name w2
      done (send fd m w3)
  ]

  -- The row of the user who accepts: inserted, or its status set.
  unfoldable pub accept_row : Msg → World → Outcome
  accept_row m w = elim (find (is_row m.from_name m.to_name) w.head_friends) [
    | none ↦ do
      w1 ← query env (insert_friend_accepted m.from_name m.to_name) w
      let row : MysqlFriend = record {
        f_friendname = m.from_name;
        f_username = m.to_name;
        type = pos 1;
        status = pos 1;
      }
      done (record w1 { head_friends = weicha_list w1.head_friends row })
    | some _ ↦ do
      w1 ← query env (set_friend_status m.from_name m.to_name) w
      write_status (pos 1) m.from_name m.to_name w1
  ]

  unfoldable pub deal_friend_request_y : ℕ → Msg → World → Outcome
  unfolding friend_node
  deal_friend_request_y fd m w = do
    w1 ← accept_row m w
    w2 ← query env (set_friend_status m.to_name m.from_name) w1
    w3 ← write_status (pos 1) m.to_name m.from_name w2
    done (notify m.from_name (friend_node b'y' m) m w3)

  unfoldable pub deal_friend_request_n : ℕ → Msg → World → Outcome
  unfolding friend_node
  deal_friend_request_n fd m w = do
    w1 ← drop_friend m w
    done (notify m.from_name (friend_node b'n' m) m w1)
