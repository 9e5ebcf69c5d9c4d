-- ===== src/Room/Friend/Kept.antt =====
-- Messages to friends who are not online: deal_chat_fri and deal_login of
-- Code/liuting1/chatroom/server_deal.c.
use team_c.Common.{ℕ, true, ◌≡◌, refl, ◌∙◌, ap, some, List, [], ◌∷◌, ◌++◌, Bool-cases, inl, inr}
use team_c.Common.Lists.{filter}
use team_c.Common.Int.{ℤ, pos, ==ℤ_iff}
use team_c.Common.Text.{streq}
use team_c.Room.Packet.{Pack, Person, Friendship, PersonQuery, FriendQuery, Change}
use team_c.Room.Machine.{Database, Off, Server, index}
use team_c.Room.Mysql.{contact_of, good, mysql_store_chat}
use team_c.Room.Mysql.Answers.{
  opened, released, mysql_find_fd_lem, mysql_find_frirela_lem, change_once_lem,
}
use team_c.Room.Offline.{deal_fri_off, fri_off_of, pack_of}
use team_c.Room.Offline.Delivery.{is_for, waits_for, deliveries}
use team_c.Room.Account.{login_answer, deal_login}
use team_c.Room.Friend.{deal_chat_fri, send_or_keep}
use team_c.Room.Sql.{Tables, IsSql, apply, has_id, joins}
use team_c.Room.Account.Session.{rows_of, accepted, accepted_login_lem}

-- One more message waits.
deliveries-snoc :
    (fd account : ℤ) (offs : List Off) (p : Off)
    → is_for account p ≡ true
    → deliveries fd (waits_for account (offs ++ p ∷ []))
      ≡ deliveries fd (waits_for account offs) ++ (fd, pack_of p) ∷ []
deliveries-snoc fd account [] p e = rw (e) refl
deliveries-snoc fd account (q ∷ offs) p e = elim (Bool-cases (is_for account q)) [
  | inl h ↦ rw (h) (ap (λ r. (fd, pack_of q) ∷ r) (deliveries-snoc fd account offs p e))
  | inr h ↦ rw (h) (deliveries-snoc fd account offs p e)
]

module _ (db : Database) (sql : IsSql db) (chat : Pack) where
  -- The packet of a message, with the name of its sender.
  abbrev pub signed : List Person → Pack
  signed froms = record chat { send_name = (contact_of db froms).name }

  -- A message to a friend who is not online is stored and kept.
  chat_kept :
      (fd : ℤ) (f : Friendship) (fs : List Friendship) (to : Person) (tos froms : List Person)
      (s : Server db.Store) (t : db.Store)
      → db.friendships (FriendQuery.between chat.account chat.send_account) s.store ≡ some (f ∷ fs)
      → db.persons (PersonQuery.with_id chat.send_account) s.store ≡ some (to ∷ tos)
      → db.persons (PersonQuery.with_id chat.account) s.store ≡ some froms
      → db.change (Change.insert_chat_fri chat.account chat.send_account chat.mes) s.store ≡ some t
      → to.online ≡ pos 0
      → deal_chat_fri db fd chat s
        ≡ some (
          tt,
          record (released s) {
            store = t;
            offline = s.offline ++ fri_off_of db (signed froms) ∷ [];
          },
        )
  unfolding deal_chat_fri mysql_store_chat send_or_keep deal_fri_off
  chat_kept fd f fs to tos froms s t qf qt qa qc off =
      rw
        (
          deal_chat_fri,
          mysql_find_frirela_lem db s chat.account chat.send_account (f ∷ fs) qf,
          mysql_find_fd_lem db (released s) chat.send_account (to ∷ tos) qt,
          mysql_find_fd_lem db (released s) chat.account froms qa,
          mysql_store_chat,
          change_once_lem db (released s)
              (Change.insert_chat_fri chat.account chat.send_account chat.mes) t qc,
          send_or_keep,
          off,
          deal_fri_off,
        )
        refl

  -- With a database that does what its statements say: a message to a friend who is not online, and
  -- whose number is below 100, is sent to the socket at which the friend logs in with the right
  -- password, behind the answer to the login and the messages that have waited longer. Its fields
  -- send_name and mes2 are junk, the others are as they were written.
  pub offline_chat_reaches_login :
      (fd fd2 : ℤ) (login : Pack) (f : Friendship) (fs : List Friendship) (to : Person)
      (tos : List Person) (i : ℕ) (s : Server db.Store)
      → filter (joins chat.account chat.send_account) (sql.tables s.store).friends ≡ f ∷ fs
      → rows_of db sql chat.send_account s.store ≡ to ∷ tos
      → to.online ≡ pos 0
      → login.account ≡ chat.send_account
      → streq login.mes to.passwd ≡ true
      → index chat.send_account ≡ some i
      → (t : Server db.Store) × (u : Server db.Store) × (deal_chat_fri db fd chat s ≡ some (tt, t))
        × (deal_login db fd2 login (opened t) ≡ some (tt, u))
        × (u.sent
            ≡ s.sent
              ++ (fd2, login_answer db good) ∷ []
              ++ (deliveries fd2 (waits_for chat.send_account s.offline)
                  ++ (fd2, pack_of (fri_off_of db chat)) ∷ []))
  offline_chat_reaches_login fd fd2 login f fs to tos i s qf qt off who w h =
      let a = chat.account in
      let b = chat.send_account in
      let froms = rows_of db sql a s.store in
      let (t0, e0, m0) = sql.changes (Change.insert_chat_fri a b chat.mes) s.store in
      let (t1, e1, m1) = sql.changes (Change.update_online (pos 1) fd2 login.account) t0 in
      let same : rows_of db sql login.account t0 ≡ to ∷ tos =
        ap (λ (x : Tables). filter (has_id login.account) x.user) m0
        ∙ unfold apply in (ap (λ n. rows_of db sql n s.store) who ∙ qt) in
      let kept : deliveries fd2 (waits_for login.account (s.offline ++ fri_off_of db chat ∷ []))
          ≡ deliveries fd2 (waits_for b s.offline) ++ (fd2, pack_of (fri_off_of db chat)) ∷ [] =
        ap (λ n. deliveries fd2 (waits_for n (s.offline ++ fri_off_of db chat ∷ []))) who
        ∙ deliveries-snoc fd2 b s.offline (fri_off_of db chat) ((==ℤ_iff b b).1 refl) in
      let t : Server db.Store = record (released s) {
        store = t0;
        offline = s.offline ++ fri_off_of db (signed froms) ∷ [];
      } in
      (
        t,
        accepted db fd2 login i t1 (rows_of db sql login.account t1) t,
        chat_kept fd f fs to tos froms s t0
            (sql.finds_friendships (FriendQuery.between a b) s.store ∙ ap some qf)
            (sql.finds_persons (PersonQuery.with_id b) s.store ∙ ap some qt)
            (sql.finds_persons (PersonQuery.with_id a) s.store) e0 off,
        accepted_login_lem db fd2 login to tos _ i t t1
            (sql.finds_persons (PersonQuery.with_id login.account) t0 ∙ ap some same) w e1
            (sql.finds_persons (PersonQuery.with_id login.account) t1) (ap index who ∙ h),
        ap (λ xs. s.sent ++ (fd2, login_answer db good) ∷ [] ++ xs) kept,
      )
