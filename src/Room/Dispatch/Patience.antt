-- ===== src/Room/Dispatch/Patience.antt =====
-- The messages that wait, over any run of recv_PACK of Code/liuting1/chatroom/server_deal.c.
use team_c.Common.{Bool, true, false, ◌&&◌, some, List, [], ◌∷◌, ◌++◌, ◌≡◌}
use mathlib.Core.Path.{subst}
use team_c.Common.Lists.{All}
use team_c.Common.Int.{ℤ, ◌==ℤ◌}
use team_c.Room.Packet.{Pack}
use team_c.Room.Machine.{Database, Off, Server}
use team_c.Room.Offline.Delivery.{waits_for}
use team_c.Room.Waiting.{Grown}
use team_c.Room.Waiting.Queries.{Calm, Calm-pure, Calm-bind, mysql_init-Grows}
use team_c.Room.Waiting.Handlers.{
  deal_regist-Grows, deal_repass-Grows, hang_up-Grows, deal_list_fri-Grows, deal_online_fri-Grows,
  deal_chat_fri-Grows, deal_store_fri-Grows, deal_dele_fri-Grows, send_file_pack-Grows,
  deal_addfriend-Grows, recv_addfr_pack-Grows, deal_creat_group-Grows, deal_join_group-Grows,
  deal_quit_group-Grows, deal_dele_group-Grows, deal_group_mes-Grows, deal_find_store_g-Grows,
  deal_set_up-Grows, deal_join_user-Grows, deal_dele_user-Grows,
}
use team_c.Room.Waiting.Speech.{deal_chat_group-Grows, deal_login-Grows}
use team_c.Room.Dispatch.{Arrival, Handler, handler, run_handler, deal, recv_pack, recv_packs}

abbrev is_login : Handler → Bool
is_login Handler.login = true
is_login h = false

-- A login, by whatever password, of the user.
abbrev pub is_login_of : ℤ → Arrival → Bool
is_login_of account (Arrival.packet fd pack) =
    is_login (handler pack.type) && (pack.account ==ℤ account)
is_login_of account (Arrival.gone fd) = false

module _ (account : ℤ) (db : Database) where
  run_handler-Grows :
      (h : Handler) (fd : ℤ) (pack : Pack)
      → (is_login h && (pack.account ==ℤ account)) ≡ false
      → Calm account db (run_handler db h fd pack)
  unfolding run_handler
  run_handler-Grows Handler.login fd pack e = deal_login-Grows account db fd pack e
  run_handler-Grows Handler.regist fd pack e = deal_regist-Grows account db fd pack
  run_handler-Grows Handler.repass fd pack e = deal_repass-Grows account db fd pack
  run_handler-Grows Handler.addfriend fd pack e = deal_addfriend-Grows account db fd pack
  run_handler-Grows Handler.answer_friend fd pack e = recv_addfr_pack-Grows account db pack
  run_handler-Grows Handler.list_fri fd pack e = deal_list_fri-Grows account db fd pack
  run_handler-Grows Handler.online_fri fd pack e = deal_online_fri-Grows account db fd pack
  run_handler-Grows Handler.chat_fri fd pack e = deal_chat_fri-Grows account db fd pack
  run_handler-Grows Handler.store_fri fd pack e = deal_store_fri-Grows account db fd pack
  run_handler-Grows Handler.dele_fri fd pack e = deal_dele_fri-Grows account db pack
  run_handler-Grows Handler.creat_group fd pack e = deal_creat_group-Grows account db fd pack
  run_handler-Grows Handler.join_group fd pack e = deal_join_group-Grows account db fd pack
  run_handler-Grows Handler.quit_group fd pack e = deal_quit_group-Grows account db fd pack
  run_handler-Grows Handler.dele_group fd pack e = deal_dele_group-Grows account db fd pack
  run_handler-Grows Handler.group_mes fd pack e = deal_group_mes-Grows account db fd pack
  run_handler-Grows Handler.chat_group fd pack e = deal_chat_group-Grows account db fd pack
  run_handler-Grows Handler.find_store_g fd pack e = deal_find_store_g-Grows account db fd pack
  run_handler-Grows Handler.set_up fd pack e = deal_set_up-Grows account db fd pack
  run_handler-Grows Handler.file fd pack e = send_file_pack-Grows account db pack
  run_handler-Grows Handler.join_user fd pack e = deal_join_user-Grows account db fd pack
  run_handler-Grows Handler.dele_user fd pack e = deal_dele_user-Grows account db fd pack
  run_handler-Grows Handler.ignored fd pack e = Calm-pure account db tt

  recv_pack-Grows : (a : Arrival) → is_login_of account a ≡ false → Calm account db (recv_pack db a)
  unfolding recv_pack deal
  recv_pack-Grows (Arrival.packet fd pack) e =
      Calm-bind account db (mysql_init-Grows account db)
        λ u. run_handler-Grows (handler pack.type) fd pack e
  recv_pack-Grows (Arrival.gone fd) e = hang_up-Grows account db

  recv_packs-Grows :
      (arrivals : List Arrival)
      → All (λ a. is_login_of account a ≡ false) arrivals
      → Calm account db (recv_packs db arrivals)
  unfolding recv_packs
  recv_packs-Grows [] h = Calm-pure account db tt
  recv_packs-Grows (a ∷ arrivals) (h, hs) =
      Calm-bind account db (recv_pack-Grows a h) λ u. recv_packs-Grows arrivals hs

  -- Packets and clients that go, which the server has handled to the end without freeing memory twice
  -- or writing outside of an array, and in which the user has not tried to log in: whatever the
  -- database has answered, every message that waited for the user waits still, in the same order, and
  -- new ones have come behind them.
  pub waiting_is_kept :
      (arrivals : List Arrival) (s t : Server db.Store)
      → All (λ a. is_login_of account a ≡ false) arrivals
      → recv_packs db arrivals s ≡ some (tt, t)
      → (ys : List Off) × (waits_for account t.offline ≡ waits_for account s.offline ++ ys)
  waiting_is_kept arrivals s t h e =
      subst (λ o. Grown account db.Store s o) e ((recv_packs-Grows arrivals h).from_state s)
