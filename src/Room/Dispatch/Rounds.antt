-- ===== src/Room/Dispatch/Rounds.antt =====
-- Packets one after the other: recv_PACK of Code/liuting1/chatroom/server_deal.c.
use team_c.Common.{ℕ, ◌≡◌, refl, true, ◌∙◌, ap, some, List, [], ◌∷◌, ◌++◌}
use team_c.Common.Lists.{filter}
use team_c.Common.Int.{ℤ, pos}
use team_c.Common.Text.{streq}
use team_c.Room.Packet.{Pack, Person, Friendship}
use team_c.Room.Machine.{Database, Server, index}
use team_c.Room.Mysql.{good, mysql_init}
use team_c.Room.Mysql.Answers.{opened}
use team_c.Room.Offline.{pack_of, fri_off_of}
use team_c.Room.Offline.Delivery.{waits_for, deliveries}
use team_c.Room.Account.{login_answer}
use team_c.Room.Account.Session.{rows_of}
use team_c.Room.Friend.Kept.{offline_chat_reaches_login}
use team_c.Room.Sql.{IsSql, joins}
use team_c.Room.Dispatch.{Arrival, Handler, handler, run_handler, deal, recv_pack, recv_packs}

module _ (db : Database) (fd : ℤ) (pack : Pack) (s : Server db.Store) where
  -- The handler runs on an open connection.
  deal_lem :
      (h : Handler)
      → handler pack.type ≡ h
      → deal db fd pack s ≡ run_handler db h fd pack (opened s)
  unfolding deal mysql_init
  deal_lem h e = rw (deal, e) refl

module _ (db : Database) (sql : IsSql db) where
  -- With a database that does what its statements say, the server receives a chat message to a friend
  -- who is not online and whose number is below 100, and then the login of the friend with the right
  -- password: both are handled, and the message is sent to the socket of the login, behind the answer
  -- and the messages that have waited longer. Its fields send_name and mes2 are junk, the others are
  -- as they were written.
  pub kept_chat_delivered :
      (fd fd2 : ℤ) (chat login : Pack) (f : Friendship) (fs : List Friendship) (to : Person)
      (tos : List Person) (i : ℕ) (s : Server db.Store)
      → chat.type ≡ pos 7
      → login.type ≡ pos 1
      → filter (joins chat.account chat.send_account) (sql.tables s.store).friends ≡ f ∷ fs
      → rows_of db sql chat.send_account s.store ≡ to ∷ tos
      → to.online ≡ pos 0
      → login.account ≡ chat.send_account
      → streq login.mes to.passwd ≡ true
      → index chat.send_account ≡ some i
      → (u : Server db.Store) × (recv_packs db
            (Arrival.packet fd chat ∷ Arrival.packet fd2 login ∷ [])
            s
          ≡ some (tt, u))
        × (u.sent
            ≡ s.sent
              ++ (fd2, login_answer db good) ∷ []
              ++ (deliveries fd2 (waits_for chat.send_account s.offline)
                  ++ (fd2, pack_of (fri_off_of db chat)) ∷ []))
  unfolding recv_packs recv_pack run_handler handler
  kept_chat_delivered fd fd2 chat login f fs to tos i s ct lt qf qt off who w h =
      let (t, u, e, e', sends) =
        offline_chat_reaches_login db sql chat fd fd2 login f fs to tos i (opened s) qf qt off who w
          h in
      let first : deal db fd chat s ≡ some (tt, t) =
        deal_lem db fd chat s Handler.chat_fri (ap handler ct) ∙ e in
      let second : deal db fd2 login t ≡ some (tt, u) =
        deal_lem db fd2 login t Handler.login (ap handler lt) ∙ e' in
      (u, rw (recv_packs, recv_pack, first, recv_packs, recv_pack, second) refl, sends)
