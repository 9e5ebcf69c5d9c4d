-- ===== src/Chat/Friend/Protocol.antt =====
-- private_chat, add_friend and deal_friend_request_y by the status of the rows.
use team_c.Common.{ℕ, Option, none, some, ◌≡◌, ◌≢◌, ap, ◌∙◌, [], ◌∷◌, ◌<◌, ◌++◌, arith}
use team_c.Common.Int.{ℤ, pos}
use team_c.Common.Text.{CStr, streq_iff}
use team_c.Common.Search.{find, modify_first}
use team_c.Common.Search.Count.{count, count_of_find-none}
use team_c.Chat.Msg.{Msg, MysqlFriend, set_cmd}
use team_c.Chat.Sql.{
  Env, render, insert_friend_request, insert_friend_accepted, set_friend_status, insert_chat_online,
  insert_chat_offline,
}
use team_c.Chat.World.{World, done, state, RequestNode, send, query, connect_mysql, ◌>>=◌, execute}
use team_c.Chat.World.Tables.{weicha_list-eq-append}
use team_c.Chat.World.Up.{IsUp, query-up}
use team_c.Chat.Online.{find_online}
use team_c.Chat.Account.{is_named}
use team_c.Chat.Friend.Rows.{friend_row, linked, accepted, find-linked_other}
use team_c.Chat.Friend.{
  is_row, notify, private_chat, friend_node, request_friend, add_friend, set_status, write_status,
  accept_row, deal_friend_request_y,
}

-- The row that says `friend` is a friend of `user`, and its status.
abbrev pub status_of : CStr → CStr → World → Option ℤ
status_of friend user w = elim (find (is_row friend user) w.head_friends) [
  | none ↦ none
  | some f ↦ some f.status
]

-- How a private message ends: refused by number 130 or 131 where a row is missing; else it is
-- recorded, and sent to the receiver who is online.
pub private_chat_lem :
    (env : Env) (fd : ℕ) (m : Msg) (w : World)
    → IsUp env
    → private_chat env fd m w
      ≡ done (elim (status_of m.to_name m.from_name w) [
        | none ↦ send fd (set_cmd (pos 130) m) w
        | some _ ↦ elim (status_of m.from_name m.to_name w) [
          | none ↦ send fd (set_cmd (pos 131) m) w
          | some _ ↦ elim (find_online m.to_name w) [
            | none ↦ execute (insert_chat_offline m.news m.to_name m.from_name m.time) w
            | some u ↦
                send u.socket m (execute (insert_chat_online m.news m.to_name m.from_name m.time) w)
          ]
        ]
      ])
unfolding private_chat connect_mysql query ◌>>=◌
private_chat_lem env fd m w up = ground (
  arith,
  up.1 w.executed,
  up.0 w.executed (render (insert_chat_offline m.news m.to_name m.from_name m.time)),
  up.0 w.executed (render (insert_chat_online m.news m.to_name m.from_name m.time)),
)

-- A request to a user who exists, where there is no row yet.
pub add_friend_linked :
    (env : Env) (fd : ℕ) (m : Msg) (w : World)
    → IsUp env
    → m.to_name ≢ m.from_name
    → 0 < count (is_named m.to_name) w.head_user
    → find (is_row m.to_name m.from_name) w.head_friends ≡ none
    → (add_friend env fd m w ≡ done (state (add_friend env fd m w)))
      × ((state (add_friend env fd m w)).head_friends
          ≡ w.head_friends ++ friend_row m.to_name m.from_name (pos 0) ∷ [])
      × ((state (add_friend env fd m w)).head_user ≡ w.head_user)
      × ((state (add_friend env fd m w)).head ≡ w.head)
unfolding add_friend request_friend query notify ◌>>=◌
add_friend_linked env fd m w up others registered new =
    let row = friend_row m.to_name m.from_name (pos 0) in
    ground (
      arith,
      up.0 w.executed (render (insert_friend_request m.to_name m.from_name)),
      streq_iff m.to_name m.from_name,
      count_of_find-none (is_named m.to_name) w.head_user,
      new,
      weicha_list-eq-append w.head_friends row,
    )

pub accept_row_lem :
    (env : Env) (m : Msg) (w : World)
    → IsUp env
    → (w1 : World) × (accept_row env m w ≡ done w1)
      × (w1.head_friends ≡ linked m.from_name m.to_name w.head_friends)
unfolding accept_row write_status ◌>>=◌
accept_row_lem env m w up = (
  state (accept_row env m w),
  ground (
    arith,
    query-up env (insert_friend_accepted m.from_name m.to_name) w up,
    query-up env (set_friend_status m.from_name m.to_name) w up,
  ),
  ground (
    arith,
    query-up env (insert_friend_accepted m.from_name m.to_name) w up,
    query-up env (set_friend_status m.from_name m.to_name) w up,
  ),
)

pub friends-notify :
    (name : CStr) (r : RequestNode) (m : Msg) (w : World)
    → (notify name r m w).head_friends ≡ w.head_friends
unfolding notify
friends-notify name r m w = ground arith

pub deal_friend_request_y_linked :
    (env : Env) (fd : ℕ) (m : Msg) (w : World) (f : MysqlFriend)
    → IsUp env
    → m.from_name ≢ m.to_name
    → find (is_row m.to_name m.from_name) w.head_friends ≡ some f
    → (w2 : World) × (deal_friend_request_y env fd m w ≡ done w2)
      × (w2.head_friends ≡ accepted m.from_name m.to_name w.head_friends)
unfolding deal_friend_request_y write_status ◌>>=◌
deal_friend_request_y_linked env fd m w f up others asked =
    let (w1, e, l) = accept_row_lem env m w up in
    let there = find-linked_other m.from_name m.to_name w.head_friends f others asked in
    let s = set_friend_status m.to_name m.from_name in
    let w' = record (execute s w1) {
      head_friends =
          modify_first (is_row m.to_name m.from_name) (set_status (pos 1)) w1.head_friends;
    } in
    (
      notify m.from_name (friend_node env b'y' m) m w',
      ground (arith, e, query-up env s w1 up, l, there),
      friends-notify m.from_name (friend_node env b'y' m) m w'
          ∙ ap (modify_first (is_row m.to_name m.from_name) (set_status (pos 1))) l,
    )
