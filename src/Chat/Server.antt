-- ===== src/Chat/Server.antt =====
-- The event loop of main and the dispatch of chuli_request of epoll.c.
pub mod Dispatch
pub mod Hangup
pub mod Start
use team_c.Common.{ℕ, List, [], ◌∷◌, if◌then◌else◌}
use team_c.Common.Int.{ℤ, pos, ◌==ℤ◌}
use team_c.Chat.Msg.{Msg}
use team_c.Chat.Sql.{Env}
use team_c.Chat.World.{World, Outcome, done, ◌>>=◌}
use team_c.Chat.Online.{del_node}
use team_c.Chat.Account.{reg, login, forget_password}
use team_c.Chat.Friend.{
  all_friends, online_friend, private_chat, add_friend, delete_friend, deal_friend_request_y,
  deal_friend_request_n,
}
use team_c.Chat.Group.{
  create_group, view_group, view_group_member, add_group, deal_group_request_y,
  deal_group_request_n, quit_group, break_group, set_manager, public_chat,
}
use team_c.Chat.File.{Received, send_file}
use team_c.Chat.Tables.{
  UserRow, FriendRow, GroupRow, RelationRow, read_mysql_user, read_mysql_friend,
  read_mysql_user_groups, read_mysql_group_relationship,
}

-- The cases of the `switch` on `message->cmd`.
pub data Command : Type 0 where
  forget_password_cmd reg_cmd login_cmd : Command
  all_friends_cmd online_friend_cmd private_chat_cmd add_friend_cmd delete_friend_cmd : Command
  view_group_cmd public_chat_cmd add_group_cmd quit_group_cmd : Command
  view_group_member_cmd break_group_cmd set_manager_cmd : Command
  deal_friend_request_y_cmd deal_friend_request_n_cmd : Command
  deal_group_request_y_cmd deal_group_request_n_cmd : Command
  create_group_cmd send_file_cmd other_cmd : Command

-- The labels of the cases, in the order of the source.
unfoldable pub command : ℤ → Command
command c =
    if c ==ℤ pos 0
    then forget_password_cmd
    else if c ==ℤ pos 1
    then reg_cmd
    else if c ==ℤ pos 2
    then login_cmd
    else if c ==ℤ pos 11
    then all_friends_cmd
    else if c ==ℤ pos 12
    then online_friend_cmd
    else if c ==ℤ pos 13
    then private_chat_cmd
    else if c ==ℤ pos 14
    then add_friend_cmd
    else if c ==ℤ pos 15
    then delete_friend_cmd
    else if c ==ℤ pos 21
    then view_group_cmd
    else if c ==ℤ pos 22
    then public_chat_cmd
    else if c ==ℤ pos 23
    then add_group_cmd
    else if c ==ℤ pos 24
    then quit_group_cmd
    else if c ==ℤ pos 251
    then view_group_member_cmd
    else if c ==ℤ pos 252
    then break_group_cmd
    else if c ==ℤ pos 253
    then set_manager_cmd
    else if c ==ℤ pos 311
    then deal_friend_request_y_cmd
    else if c ==ℤ pos 312
    then deal_friend_request_n_cmd
    else if c ==ℤ pos 321
    then deal_group_request_y_cmd
    else if c ==ℤ pos 322
    then deal_group_request_n_cmd
    else if c ==ℤ pos 5
    then create_group_cmd
    else if c ==ℤ pos 6
    then send_file_cmd
    else other_cmd

-- An event of epoll_wait on the socket of a client: the result of `recv` (0 when the client is
-- gone), the buffer `message` after it, and what the socket gives to the `recv` of send_file.
pub record Readable : Type 0 where
  pub fd : ℕ
  pub len : ℤ
  pub message : Msg
  pub incoming : List Received

module _ (env : Env) where
  unfoldable pub run_command : Command → ℕ → Msg → List Received → World → Outcome
  run_command forget_password_cmd fd m incoming = forget_password fd m
  run_command reg_cmd fd m incoming = reg env fd m
  run_command login_cmd fd m incoming = login fd m
  run_command all_friends_cmd fd m incoming = all_friends fd m
  run_command online_friend_cmd fd m incoming = online_friend fd m
  run_command private_chat_cmd fd m incoming = private_chat env fd m
  run_command add_friend_cmd fd m incoming = add_friend env fd m
  run_command delete_friend_cmd fd m incoming = delete_friend env fd m
  run_command view_group_cmd fd m incoming = view_group fd m
  run_command public_chat_cmd fd m incoming = public_chat env fd m
  run_command add_group_cmd fd m incoming = add_group env fd m
  run_command quit_group_cmd fd m incoming = quit_group env fd m
  run_command view_group_member_cmd fd m incoming = view_group_member fd m
  run_command break_group_cmd fd m incoming = break_group env fd m
  run_command set_manager_cmd fd m incoming = set_manager env fd m
  run_command deal_friend_request_y_cmd fd m incoming = deal_friend_request_y env fd m
  run_command deal_friend_request_n_cmd fd m incoming = deal_friend_request_n env fd m
  run_command deal_group_request_y_cmd fd m incoming = deal_group_request_y env fd m
  run_command deal_group_request_n_cmd fd m incoming = deal_group_request_n fd m
  run_command create_group_cmd fd m incoming = create_group env fd m
  run_command send_file_cmd fd m incoming = send_file fd m incoming
  run_command other_cmd fd m incoming = done

  unfoldable pub chuli_request : ℕ → Msg → List Received → World → Outcome
  chuli_request fd m incoming = run_command (command m.cmd) fd m incoming

  -- One round of the loop over the events. After a disconnection the buffer is handled all the same.
  unfoldable pub serve_event : Readable → World → Outcome
  serve_event e w =
      let w1 = if e.len ==ℤ pos 0 then record w { head = del_node e.fd w.head } else w in
      chuli_request e.fd e.message e.incoming w1

  unfoldable pub serve : List Readable → World → Outcome
  serve [] w = done w
  serve (e ∷ rest) w = do w1 ← serve_event e w; serve rest w1

-- The state with which main enters its loop: the tables as they are read, nobody online.
unfoldable pub start : List UserRow → List FriendRow → List GroupRow → List RelationRow → World
start users friends groups relations = record {
  head_user = read_mysql_user users;
  head_friends = read_mysql_friend friends;
  head_user_groups = read_mysql_user_groups groups;
  head_group_relationship = read_mysql_group_relationship relations;
  head = [];
  head_request = [];
  sent = [];
  executed = [];
}
