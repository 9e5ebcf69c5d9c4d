-- ===== src/Room/Dispatch.antt =====
-- deal and recv_PACK of Code/liuting1/chatroom/server_deal.c.
pub mod Rounds
pub mod Patience
use team_c.Common.{◌==◌, List, [], ◌∷◌, if◌then◌else◌}
use team_c.Common.Int.{ℤ, pos, negsuc}
use team_c.Room.Packet.{Pack}
use team_c.Room.Machine.{Database, Run, pure, ◌>>◌}
use team_c.Room.Mysql.{mysql_init}
use team_c.Room.Account.{deal_login, deal_regist, deal_repass, hang_up}
use team_c.Room.Friend.{
  deal_addfriend, recv_addfr_pack, deal_list_fri, deal_online_fri, deal_chat_fri, deal_store_fri,
  deal_dele_fri, send_file_pack,
}
use team_c.Room.Club.{
  deal_creat_group, deal_join_group, deal_quit_group, deal_dele_group, deal_group_mes,
  deal_find_store_g, deal_set_up, deal_join_user, deal_dele_user,
}
use team_c.Room.ChatGroup.{deal_chat_group}

-- The cases of the switch.
pub data Handler : Type 0 where
  login regist repass addfriend answer_friend list_fri online_fri chat_fri store_fri dele_fri :
      Handler
  creat_group join_group quit_group dele_group group_mes chat_group find_store_g : Handler
  set_up file join_user dele_user ignored : Handler

unfoldable pub handler : ℤ → Handler
handler (negsuc n) = Handler.ignored
handler (pos n) =
    if n == 1
    then Handler.login
    else if n == 2
    then Handler.regist
    else if n == 3
    then Handler.repass
    else if n == 4
    then Handler.addfriend
    else if n == 41
    then Handler.answer_friend
    else if n == 5
    then Handler.list_fri
    else if n == 6
    then Handler.online_fri
    else if n == 7
    then Handler.chat_fri
    else if n == 8
    then Handler.store_fri
    else if n == 9
    then Handler.dele_fri
    else if n == 10
    then Handler.creat_group
    else if n == 11
    then Handler.join_group
    else if n == 12
    then Handler.quit_group
    else if n == 13
    then Handler.dele_group
    else if n == 14
    then Handler.group_mes
    else if n == 15
    then Handler.chat_group
    else if n == 16
    then Handler.find_store_g
    else if n == 17
    then Handler.set_up
    else if n == 18
    then Handler.file
    else if n == 20
    then Handler.join_user
    else if n == 21
    then Handler.dele_user
    else Handler.ignored

-- What a socket that is readable holds: a whole packet, or nothing as the client has gone.
pub data Arrival : Type 0 where
  packet : ℤ → Pack → Arrival
  gone : ℤ → Arrival

module _ (db : Database) where
  unfoldable pub run_handler : Handler → ℤ → Pack → Run db.Store (Unit {0})
  run_handler Handler.login fd pack = deal_login db fd pack
  run_handler Handler.regist fd pack = deal_regist db fd pack
  run_handler Handler.repass fd pack = deal_repass db fd pack
  run_handler Handler.addfriend fd pack = deal_addfriend db fd pack
  run_handler Handler.answer_friend fd pack = recv_addfr_pack db pack
  run_handler Handler.list_fri fd pack = deal_list_fri db fd pack
  run_handler Handler.online_fri fd pack = deal_online_fri db fd pack
  run_handler Handler.chat_fri fd pack = deal_chat_fri db fd pack
  run_handler Handler.store_fri fd pack = deal_store_fri db fd pack
  run_handler Handler.dele_fri fd pack = deal_dele_fri db pack
  run_handler Handler.creat_group fd pack = deal_creat_group db fd pack
  run_handler Handler.join_group fd pack = deal_join_group db fd pack
  run_handler Handler.quit_group fd pack = deal_quit_group db fd pack
  run_handler Handler.dele_group fd pack = deal_dele_group db fd pack
  run_handler Handler.group_mes fd pack = deal_group_mes db fd pack
  run_handler Handler.chat_group fd pack = deal_chat_group db fd pack
  run_handler Handler.find_store_g fd pack = deal_find_store_g db fd pack
  run_handler Handler.set_up fd pack = deal_set_up db fd pack
  run_handler Handler.file fd pack = send_file_pack db pack
  run_handler Handler.join_user fd pack = deal_join_user db fd pack
  run_handler Handler.dele_user fd pack = deal_dele_user db fd pack
  run_handler Handler.ignored fd pack = pure tt

  unfoldable pub deal : ℤ → Pack → Run db.Store (Unit {0})
  deal fd pack = do mysql_init db; run_handler (handler pack.type) fd pack

  unfoldable pub recv_pack : Arrival → Run db.Store (Unit {0})
  recv_pack (Arrival.packet fd pack) = deal fd pack
  recv_pack (Arrival.gone fd) = hang_up db

  -- The packets of a run of the server.
  unfoldable pub recv_packs : List Arrival → Run db.Store (Unit {0})
  recv_packs [] = pure tt
  recv_packs (a ∷ rest) = do recv_pack a; recv_packs rest
