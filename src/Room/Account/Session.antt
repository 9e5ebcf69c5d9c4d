-- ===== src/Room/Account/Session.antt =====
-- A user of Code/liuting1/chatroom/server_deal.c who logs in: what has waited, and what is left when
-- the client goes.
use mathlib.Core.Path.{subst}
use team_c.Common.{
  ℕ, true, ◌≡◌, refl, sym, ◌∙◌, ap, some, List, [], ◌∷◌, ◌++◌, Bool-cases, inl, inr,
}
use team_c.Common.Lists.{All, filter}
use team_c.Common.Int.{ℤ, pos}
use team_c.Common.Text.{streq}
use team_c.Room.Packet.{Pack, Person, PersonQuery, Change}
use team_c.Room.Machine.{Database, Server, index}
use team_c.Room.Mysql.{
  good, free_result, mysql_close, query_rows, query_change, login_rows, mysql_login, socket_of,
  mysql_exit,
}
use team_c.Room.Mysql.Answers.{
  opened, closed, released, unfreed, mysql_find_fd_user_lem, query_change_lem,
}
use team_c.Room.Offline.Delivery.{delivered, pro_off_lem}
use team_c.Room.Account.{all_online, all_fd, login_answer, note_online, deal_login, hang_up}
use team_c.Room.Sql.{Tables, IsSql, apply, has_id, update}

module _ (db : Database) (fd : ℤ) (pack : Pack) where
  -- The server with the answer to a login that is accepted.
  abbrev welcomed : db.Store → Server db.Store → Server db.Store
  welcomed t s = record (released s) { store = t; sent = s.sent ++ (fd, login_answer db good) ∷ [] }

  -- The server after a login that was accepted.
  abbrev pub accepted : ℕ → db.Store → List Person → Server db.Store → Server db.Store
  accepted i t rows s =
      let u = delivered pack.account fd (welcomed t s) in
      record u { g = all_fd i (socket_of db rows) (all_online i (pos 1) u.g) }

  mysql_login-good :
      (row : Person) (rows : List Person) (s : Server db.Store) (t : db.Store)
      → db.persons (PersonQuery.with_id pack.account) s.store ≡ some (row ∷ rows)
      → streq pack.mes row.passwd ≡ true
      → db.change (Change.update_online (pos 1) fd pack.account) s.store ≡ some t
      → mysql_login db pack.account pack.mes fd (opened s)
        ≡ some (good, record (released s) { store = t })
  unfolding mysql_login query_rows login_rows free_result mysql_close
  mysql_login-good row rows s t q w c =
      rw
        (
          mysql_login,
          q,
          w,
          query_change_lem db (unfreed s) (Change.update_online (pos 1) fd pack.account) t c,
        )
        refl

  -- A login with the right password, for a user whose number is below 100.
  pub accepted_login_lem :
      (row : Person) (rows rows' : List Person) (i : ℕ) (s : Server db.Store) (t : db.Store)
      → db.persons (PersonQuery.with_id pack.account) s.store ≡ some (row ∷ rows)
      → streq pack.mes row.passwd ≡ true
      → db.change (Change.update_online (pos 1) fd pack.account) s.store ≡ some t
      → db.persons (PersonQuery.with_id pack.account) t ≡ some rows'
      → index pack.account ≡ some i
      → deal_login db fd pack (opened s) ≡ some (tt, accepted i t rows' s)
  unfolding deal_login note_online
  accepted_login_lem row rows rows' i s t q w c q' h =
      rw
        (
          deal_login,
          mysql_login-good row rows s t q w c,
          pro_off_lem pack.account fd (welcomed t s),
          mysql_find_fd_user_lem db (delivered pack.account fd (welcomed t s)) pack.account rows'
              q',
          note_online,
          h,
        )
        refl

  -- recv_PACK of a closed socket on a closed connection: the statement that takes the user offline
  -- fails.
  pub hang_up-closed :
      (i : ℕ) (s : Server db.Store)
      → index (db.junk 62).account ≡ some i
      → hang_up db (closed s) ≡ some (tt, record (closed s) { g = all_online i (pos 0) s.g })
  unfolding hang_up mysql_exit query_change
  hang_up-closed i s h = rw (hang_up, h) refl

online_after_update :
    (fd id : ℤ) (rows : List Person)
    → All
        (λ p. p.online ≡ pos 1)
        (filter
          (has_id id)
          (update (has_id id) (λ p. record p { online = pos 1; sock_fd = fd }) rows))
online_after_update fd id [] = tt
online_after_update fd id (p ∷ rows) = elim (Bool-cases (has_id id p)) [
  | inl e ↦ rw (e, e) (refl, online_after_update fd id rows)
  | inr e ↦ rw (e, e) (online_after_update fd id rows)
]

module _ (db : Database) (sql : IsSql db) where
  -- The rows of a user.
  abbrev pub rows_of : ℤ → db.Store → List Person
  rows_of id s = filter (has_id id) (sql.tables s).user

module _ (db : Database) (sql : IsSql db) (fd : ℤ) (pack : Pack) where
  -- A user whose number is below 100 logs in with the right password and then closes the socket,
  -- with a database that does what its statements say, and where recv_PACK finds the user's number in
  -- the packet that it has not received: both calls return, and the user is still online in the
  -- database, as deal_login has closed the connection to it.
  pub user_stays_online :
      (row : Person) (rows : List Person) (i : ℕ) (s : Server db.Store)
      → rows_of db sql pack.account s.store ≡ row ∷ rows
      → streq pack.mes row.passwd ≡ true
      → index pack.account ≡ some i
      → (db.junk 62).account ≡ pack.account
      → (u : Server db.Store) × (v : Server db.Store) × (deal_login db fd pack (opened s)
          ≡ some (tt, u))
        × (hang_up db u ≡ some (tt, v))
        × All (λ p. p.online ≡ pos 1) (rows_of db sql pack.account v.store)
  user_stays_online row rows i s r w h j =
      let (t, e, m) = sql.changes (Change.update_online (pos 1) fd pack.account) s.store in
      let found = sql.finds_persons (PersonQuery.with_id pack.account) s.store in
      let u = accepted db fd pack i t (rows_of db sql pack.account t) s in
      (
        u,
        record (closed u) { g = all_online i (pos 0) u.g },
        accepted_login_lem db fd pack row rows _ i s t (found ∙ ap some r) w e
            (sql.finds_persons (PersonQuery.with_id pack.account) t) h,
        hang_up-closed db fd pack i u (ap index j ∙ h),
        subst (λ (x : Tables). All (λ p. p.online ≡ pos 1) (filter (has_id pack.account) x.user))
            (sym m) (unfold apply in online_after_update fd pack.account (sql.tables s.store).user),
      )
