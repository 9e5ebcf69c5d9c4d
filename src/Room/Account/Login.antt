-- ===== src/Room/Account/Login.antt =====
-- deal_login of Code/liuting1/chatroom/server_deal.c.
use team_c.Common.{ℕ, true, false, ◌≡◌, refl, some, List, [], ◌∷◌, ◌++◌}
use team_c.Common.Lists.{All}
use team_c.Common.Int.{ℤ, pos}
use team_c.Common.Text.{streq}
use team_c.Room.Packet.{Pack, Person, PersonQuery}
use team_c.Room.Machine.{Database, ResultPtr, Server, index}
use team_c.Room.Mysql.{bad, query_rows, login_rows, mysql_login, socket_of}
use team_c.Room.Mysql.Answers.{opened, released, mysql_find_fd_user_lem}
use team_c.Room.Offline.Delivery.{delivered, pro_off_lem}
use team_c.Room.Account.{all_online, all_fd, login_answer, note_online, deal_login}

module _ (db : Database) (fd : ℤ) (pack : Pack) where
  login_rows-bad :
      (rows : List Person) (s : Server db.Store)
      → All (λ row. streq pack.mes row.passwd ≡ false) rows
      → login_rows db pack.account pack.mes fd rows s ≡ some (bad, s)
  unfolding login_rows
  login_rows-bad [] s h = refl
  login_rows-bad (row ∷ rows) s (h, hs) = rw (login_rows, h) (login_rows-bad rows s hs)

  -- The server behind the select of MYSQL_login.
  abbrev asked : Server db.Store → Server db.Store
  asked s = record s { connected = true; result = ResultPtr.held }

  mysql_login-bad :
      (rows : List Person) (s : Server db.Store)
      → db.persons (PersonQuery.with_id pack.account) s.store ≡ some rows
      → All (λ row. streq pack.mes row.passwd ≡ false) rows
      → mysql_login db pack.account pack.mes fd (opened s) ≡ some (bad, asked s)
  unfolding mysql_login query_rows
  mysql_login-bad rows s q w = rw (q) (login_rows-bad rows (asked s) w)

  -- The server with the refusal sent.
  abbrev told : Server db.Store → Server db.Store
  told s = record (asked s) { sent = s.sent ++ (fd, login_answer db bad) ∷ [] }

  -- The server after a login that was refused.
  abbrev pub refused : ℕ → List Person → Server db.Store → Server db.Store
  refused i rows s =
      let t = delivered pack.account fd (told s) in
      record (released t) { g = all_fd i (socket_of db rows) (all_online i (pos 1) t.g) }

  -- A login with a wrong password, for a user whose number is below 100: after the refusal, the
  -- messages that wait for the user are sent to the socket all the same and are taken off the list,
  -- and the user counts as online in every group.
  pub refused_login_lem :
      (rows : List Person) (i : ℕ) (s : Server db.Store)
      → db.persons (PersonQuery.with_id pack.account) s.store ≡ some rows
      → All (λ row. streq pack.mes row.passwd ≡ false) rows
      → index pack.account ≡ some i
      → deal_login db fd pack (opened s) ≡ some (tt, refused i rows s)
  unfolding deal_login note_online
  refused_login_lem rows i s q w h =
      rw
        (
          deal_login,
          mysql_login-bad rows s q w,
          pro_off_lem pack.account fd (told s),
          mysql_find_fd_user_lem db (delivered pack.account fd (told s)) pack.account rows q,
          note_online,
          h,
        )
        refl
