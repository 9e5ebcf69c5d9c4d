-- ===== src/Examples/Rooms.antt =====
-- The theorems about the chat room of Code/liuting1/chatroom at a database with three users, two of
-- them friends, and one group.
use team_c.Common.{◌≡◌, refl, ◌==◌, if◌then◌else◌, false, some, List, [], ◌∷◌, ◌++◌}
use team_c.Common.Lists.{All, filter}
use team_c.Common.Int.{ℤ, pos}
use team_c.Common.Text.{CStr, codes, streq}
use team_c.Chat.Tables.{atol}
use team_c.Room.Packet.{Pack, Person}
use team_c.Room.Machine.{Database, Off, ResultPtr, Server, index}
use team_c.Room.Mysql.{
  good, bad, mysql_find_frirela, mysql_init, mysql_close, query_rows, free_result, query_freed,
  mysql_find_fd, mysql_store_chat, change_once, query_change, mysql_exit,
}
use team_c.Room.Mysql.Answers.{opened, released}
use team_c.Room.Sql.{Tables, IsSql, apply, person_test, friend_test, club_test, member_test}
use team_c.Room.Offline.{pack_of, fri_off_of, deal_fri_off, off_of, deal_group_off}
use team_c.Room.Offline.Delivery.{waits_for}
use team_c.Room.Account.{all_online, login_answer, deal_login, hang_up}
use team_c.Room.Account.Login.{refused, refused_login_lem}
use team_c.Room.Account.Session.{rows_of, user_stays_online}
use team_c.Room.Groups.{mysql_store_group}
use team_c.Room.Friend.{
  accepted_pack, no_friend, recv_addfr_pack, deal_dele_fri, deal_chat_fri, send_or_keep,
}
use team_c.Room.Friend.Befriending.{success_befriends, deletion_refuses_chat}
use team_c.Room.Dispatch.{Arrival, recv_packs, recv_pack, deal, handler, run_handler}
use team_c.Room.Dispatch.Patience.{waiting_is_kept}
use team_c.Room.Dispatch.Rounds.{kept_chat_delivered}
use team_c.Room.ChatGroup.{
  deal_chat_group, say_in_group, look_up_name, pass_on, find_self, to_members, to_member,
}
use team_c.Room.ChatGroup.Delivery.{numbers, group_note, deal_chat_group_lem}
use team_c.Room.ChatGroup.Fault.{deal_chat_group-overruns}
use team_c.Room.Club.{
  invited, invited_pack, deal_dele_group, deal_set_up, deal_dele_user, deal_join_user,
}
use team_c.Room.Club.Authority.{has_row, invitation_goes_astray}
use team_c.Room.Club.Entitled.{Leaves, only_entitled_change}

abbrev user_of : ℤ → CStr → ℤ → Person
user_of id name online = record {
  id = id;
  name = name;
  passwd = codes "pw";
  online = online;
  sock_fd = pos 5;
}

abbrev tables : Tables
tables = record {
  user =
      user_of (pos 1) (codes "ann") (pos 1)
      ∷ user_of (pos 2) (codes "bob") (pos 0)
      ∷ user_of (pos 7) (codes "eve") (pos 1)
      ∷ [];
  friends = record { id1 = pos 1; id2 = pos 2 } ∷ record { id1 = pos 2; id2 = pos 1 } ∷ [];
  chat_fri = [];
  groups = record { id = pos 7; account = pos 1; group_name = codes "go" } ∷ [];
  g_meber = record { group_id = pos 7; group_member = pos 1; member_flag = pos 1 } ∷ [];
  chat_group = [];
  next_id = 8;
  newest_id = pos 7;
}

abbrev packet : ℤ → ℤ → ℤ → CStr → Pack
packet type account send_account mes = record {
  type = type;
  account = account;
  send_name = [];
  send_account = send_account;
  mes = mes;
  mes2 = [];
}

-- What was never written holds the number of bob.
abbrev sql_db : Database
sql_db = record {
  Store = Tables;
  change = λ c t. some (apply c t);
  last_insert_id = λ t. some (t.newest_id ∷ []);
  persons = λ q t. some (filter (person_test q) t.user);
  friendships = λ q t. some (filter (friend_test q) t.friends);
  chat_fri = λ a b t. some [];
  clubs = λ q t. some (filter (club_test q) t.groups);
  members = λ q t. some (filter (member_test q) t.g_meber);
  chat_group = λ a t. some [];
  junk = λ line. packet (pos 0) (pos 2) (pos 0) [];
  dead = λ line name. name;
  junk_int = λ line. pos 0;
}

abbrev sql_db_IsSql : IsSql sql_db
sql_db_IsSql = record {
  tables = λ t. t;
  changes = λ c t. (apply c t, refl, refl);
  finds_persons = λ q t. refl;
  finds_friendships = λ q t. refl;
  finds_clubs = λ q t. refl;
  finds_members = λ q t. refl;
}

abbrev quiet : Server Tables
quiet = record {
  store = tables;
  connected = false;
  result = ResultPtr.null;
  g = λ i. record {
    group_account = pos 0;
    use_account = λ j. pos 0;
    use_online = λ j. pos 0;
    use_fd = λ j. pos 0;
  };
  offline = [];
  group_send_account = pos 0;
  group_send_name = [];
  file_send_account = pos 0;
  file_socket = pos 0;
  sent = [];
  overruns = 0;
}

abbrev wrong_login : Pack
wrong_login = packet (pos 1) (pos 2) (pos 0) (codes "no")

refused_login_lem_example :
    deal_login sql_db (pos 9) wrong_login (opened quiet)
    ≡ some (
      tt,
      refused sql_db (pos 9) wrong_login 2 (user_of (pos 2) (codes "bob") (pos 0) ∷ []) quiet,
    )
refused_login_lem_example =
    refused_login_lem sql_db (pos 9) wrong_login (user_of (pos 2) (codes "bob") (pos 0) ∷ []) 2
      quiet refl (unfold streq in (refl, tt)) (unfold index in refl)

abbrev bob_login : Pack
bob_login = packet (pos 1) (pos 2) (pos 0) (codes "pw")

user_stays_online_example :
    (u : Server Tables) × (v : Server Tables) × (deal_login sql_db (pos 9) bob_login (opened quiet)
      ≡ some (tt, u))
    × (hang_up sql_db u ≡ some (tt, v))
    × All (λ p. p.online ≡ pos 1) (rows_of sql_db sql_db_IsSql (pos 2) v.store)
user_stays_online_example =
    user_stays_online sql_db sql_db_IsSql (pos 9) bob_login (user_of (pos 2) (codes "bob") (pos 0))
      [] 2 quiet refl (unfold streq in refl) (unfold index in refl) refl

abbrev hello : Pack
hello = packet (pos 7) (pos 1) (pos 2) (codes "hi")

kept_chat_delivered_example :
    (u : Server Tables) × (recv_packs sql_db
        (Arrival.packet (pos 5) hello ∷ Arrival.packet (pos 9) bob_login ∷ [])
        quiet
      ≡ some (tt, u))
    × (u.sent ≡ (pos 9, login_answer sql_db good) ∷ (pos 9, pack_of (fri_off_of sql_db hello)) ∷ [])
kept_chat_delivered_example =
    kept_chat_delivered sql_db sql_db_IsSql (pos 5) (pos 9) hello bob_login
      (record { id1 = pos 1; id2 = pos 2 }) [] (user_of (pos 2) (codes "bob") (pos 0)) [] 2 quiet
      refl refl refl refl refl refl (unfold streq in refl) (unfold index in refl)

abbrev yes : Pack
yes = packet (pos 41) (pos 1) (pos 7) (codes "success")

success_befriends_example :
    (t : Server Tables) × (recv_addfr_pack sql_db yes quiet ≡ some (tt, t))
    × (t.sent ≡ (pos 5, accepted_pack sql_db yes) ∷ [])
    × (mysql_find_frirela sql_db (pos 1) (pos 7) t ≡ some (good, released t))
    × (mysql_find_frirela sql_db (pos 7) (pos 1) t ≡ some (good, released t))
success_befriends_example = success_befriends sql_db sql_db_IsSql yes quiet refl refl

abbrev unfriend : Pack
unfriend = packet (pos 9) (pos 1) (pos 2) []

deletion_refuses_chat_example :
    (t : Server Tables) × (deal_dele_fri sql_db unfriend (opened quiet) ≡ some (tt, t))
    × (mysql_find_frirela sql_db (pos 1) (pos 2) t ≡ some (bad, released t))
    × (mysql_find_frirela sql_db (pos 2) (pos 1) t ≡ some (bad, released t))
    × (deal_chat_fri sql_db (pos 5) hello t
        ≡ some (tt, record (released t) { sent = t.sent ++ (pos 5, no_friend sql_db hello) ∷ [] }))
deletion_refuses_chat_example =
    deletion_refuses_chat sql_db sql_db_IsSql unfriend hello (pos 5) quiet refl refl

abbrev invite : Pack
invite = packet (pos 20) (pos 1) (pos 7) (codes "2")

abbrev joined : Tables
joined = record tables {
  g_meber =
      record { group_id = pos 7; group_member = pos 1; member_flag = pos 1 }
      ∷ record { group_id = pos 7; group_member = pos 2; member_flag = pos 0 }
      ∷ [];
}

-- ann owns the group, and bob is no member of it.
only_entitled_change_example :
    Leaves sql_db sql_db_IsSql
      (deal_dele_group sql_db (pos 5) invite)
      quiet
      (record tables { groups = []; g_meber = [] })
    × Leaves sql_db sql_db_IsSql (deal_set_up sql_db (pos 5) invite) quiet tables
    × Leaves sql_db sql_db_IsSql (deal_dele_user sql_db (pos 5) invite) quiet tables
    × Leaves sql_db sql_db_IsSql (deal_join_user sql_db (pos 5) invite) quiet joined
unfolding has_row apply atol
only_entitled_change_example = only_entitled_change sql_db sql_db_IsSql (pos 5) invite quiet

invitation_goes_astray_example :
    deal_join_user sql_db (pos 5) invite quiet
    ≡ some (
      tt,
      record (released quiet) {
        store = joined;
        sent = (pos 5, invited sql_db invite) ∷ (pos 5, invited_pack sql_db invite) ∷ [];
      },
    )
unfolding atol
invitation_goes_astray_example =
    invitation_goes_astray sql_db quiet (pos 5) invite
      (record { group_id = pos 7; group_member = pos 1; member_flag = pos 1 }) []
      (user_of (pos 7) (codes "eve") (pos 1)) [] joined refl refl (unfold apply in refl) refl refl

-- ann has sent a message to the group before.
abbrev talking : Server Tables
talking = record quiet {
  g = λ i. record (quiet.g i) { group_account = pos 1 };
  group_send_account = pos 7;
  group_send_name = codes "go";
}

abbrev say : Pack
say = packet (pos 15) (pos 1) (pos 7) (codes "hi")

deal_chat_group-overruns_example :
    (t : Server Tables) × (deal_chat_group sql_db (pos 5) say talking ≡ some (tt, t))
    × (t.overruns ≡ 50)
deal_chat_group-overruns_example =
    deal_chat_group-overruns sql_db (pos 5) 1 say talking (unfold index in refl) refl
      (unfold streq in refl) refl (unfold streq in refl)

-- bob is a member of the group, and not online.
abbrev talking_to_bob : Server Tables
talking_to_bob = record talking {
  g = λ i. record (talking.g i) { use_account = λ j. if j == 2 then pos 2 else pos 0 };
}

deal_chat_group_lem_example :
    (mes : CStr) × (t : Server Tables) × (deal_chat_group sql_db (pos 5) say talking_to_bob
      ≡ some (tt, t))
    × (t.sent ≡ [])
    × (t.offline
        ≡ off_of (record (group_note sql_db (pos 5) say (codes "go") mes) { send_account = pos 2 })
          ∷ [])
unfolding numbers
deal_chat_group_lem_example =
    deal_chat_group_lem sql_db (pos 5) 1 say talking_to_bob (unfold index in refl) refl
      (unfold streq in refl) refl (unfold streq in refl)

-- ann leaves a message for bob and one for the group, and goes.
abbrev ann_leaves : List Arrival
ann_leaves = Arrival.packet (pos 5) hello ∷ Arrival.packet (pos 5) say ∷ Arrival.gone (pos 5) ∷ []

abbrev waiting_for_bob : List Off
waiting_for_bob =
    fri_off_of sql_db hello
    ∷ off_of
        (record (packet (pos 15) (pos 7) (pos 2) []) { send_name = codes "go"; mes2 = codes "hi" })
    ∷ []

abbrev after_ann : Server Tables
after_ann = record talking_to_bob {
  store = record tables {
    chat_fri = record { id1 = pos 1; id2 = pos 2; mes = codes "hi" } ∷ [];
    chat_group = record { id1 = pos 1; id2 = pos 7; mes = codes "hi" } ∷ [];
  };
  result = ResultPtr.freed;
  g = all_online 2 (pos 0) talking_to_bob.g;
  offline = waiting_for_bob;
  overruns = 50;
}

ann_leaves_lem : recv_packs sql_db ann_leaves talking_to_bob ≡ some (tt, after_ann)
unfolding recv_packs recv_pack deal handler run_handler mysql_init mysql_close query_rows
    free_result query_freed mysql_find_frirela mysql_find_fd mysql_store_chat change_once
    query_change deal_chat_fri send_or_keep deal_fri_off deal_chat_group say_in_group
    mysql_store_group look_up_name pass_on find_self to_members to_member deal_group_off hang_up
    mysql_exit index apply streq
ann_leaves_lem = refl

waiting_is_kept_example :
    (ys : List Off) × (waits_for (pos 2) waiting_for_bob ≡ waits_for (pos 2) [] ++ ys)
unfolding handler
waiting_is_kept_example =
    waiting_is_kept (pos 2) sql_db ann_leaves talking_to_bob after_ann (refl, (refl, (refl, tt)))
      ann_leaves_lem
