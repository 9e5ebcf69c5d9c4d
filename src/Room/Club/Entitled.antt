-- ===== src/Room/Club/Entitled.antt =====
-- The tables after deal_dele_group, deal_set_up, deal_dele_user and deal_join_user of
-- Code/liuting1/chatroom/server_deal.c.
use team_c.Common.{
  true, false, not, ◌&&◌, ◌≡◌, refl, ◌∙◌, ap, some, [], ◌∷◌, ◌++◌, Bool-cases, inl, inr,
  if◌then◌else◌,
}
use team_c.Common.Lists.{filter}
use team_c.Common.Int.{ℤ, pos, ◌==ℤ◌}
use team_c.Common.Text.{codes}
use team_c.Chat.Tables.{atol}
use team_c.Room.Packet.{Pack, Change, PersonQuery}
use team_c.Room.Machine.{Database, ResultPtr, Server, Run, ◌>>=◌, ◌>>◌, send_other_pack}
use team_c.Room.Mysql.{contact_of, mysql_init, mysql_find_fd}
use team_c.Room.Mysql.Answers.{
  released, unfreed, mysql_find_fd_lem, change_once_lem, query_change_lem,
}
use team_c.Room.Groups.{mysql_join_group, mysql_quit_group, mysql_set_up}
use team_c.Room.Friend.{send_or_keep}
use team_c.Room.Sql.{Tables, IsSql, apply, person_test}
use team_c.Room.Club.{
  deal_dele_group, deal_set_up, deal_dele_user, deal_join_user, invited, invited_pack,
  expelled_pack, answer, delete_refused, set_up_refused, dele_user_refused, join_user_refused,
}
use team_c.Room.Club.Authority.{
  owns, is_club_member, is_flagged, send_or_keep_frame, gowner-owns, group_member-is_club_member,
  group_vip-is_flagged, dele_group-applies,
}

module _ (db : Database) (sql : IsSql db) where
  -- A program returns, and then the tables are these.
  abbrev pub Leaves : Run db.Store (Unit {0}) → Server db.Store → Tables → Type 0
  Leaves p s rows = (t : Server db.Store) × (p s ≡ some (tt, t)) × (sql.tables t.store ≡ rows)

  -- The last part of deal_join_user and deal_dele_user.
  notice-Leaves :
      (fd : ℤ) (reply notice : Pack) (account : ℤ) (s : Server db.Store)
      → Leaves
          (mysql_find_fd db account >>= λ f.
            send_other_pack reply fd
            >> send_or_keep db (if f.online ==ℤ pos 1 then false else true) notice f.account)
          s
          (sql.tables s.store)
  notice-Leaves fd reply notice account s =
      let rows = filter (person_test (PersonQuery.with_id account)) (sql.tables s.store).user in
      let f = contact_of db rows in
      let (t, e, o) =
        send_or_keep_frame db (record (released s) { sent = s.sent ++ (fd, reply) ∷ [] })
          (if f.online ==ℤ pos 1 then false else true) notice f.account in
      (
        t,
        rw
            (mysql_find_fd_lem db s account rows
              (sql.finds_persons (PersonQuery.with_id account) s.store))
            e,
        ap sql.tables o,
      )

  dele_group-Leaves :
      (fd : ℤ) (pack : Pack) (s : Server db.Store)
      → let rows = sql.tables s.store in
        Leaves (deal_dele_group db fd pack) s (
          if owns pack.account pack.send_account rows
          then apply
              (Change.delete_groups pack.send_account)
              (apply (Change.delete_all_g_meber pack.send_account) rows)
          else rows)
  unfolding deal_dele_group
  dele_group-Leaves fd pack s =
      let asked = gowner-owns db sql pack.account pack.send_account s in
      elim (Bool-cases (owns pack.account pack.send_account (sql.tables s.store))) [
        | inl e ↦
            let (t, r, m) = dele_group-applies db sql pack.send_account (unfreed s) in
            (
              record s {
                store = t;
                connected = false;
                result = ResultPtr.held;
                sent = s.sent ++ (fd, answer db (db.junk 369) (pos 13) (codes "删除群聊成功")) ∷ [];
              },
              rw (deal_dele_group, asked, e, r) refl,
              rw (e) m,
            )
        | inr e ↦ (
          record (unfreed s) { sent = s.sent ++ (fd, delete_refused db) ∷ [] },
          rw (deal_dele_group, asked, e) refl,
          rw (e) refl,
        )
      ]

  set_up-Leaves :
      (fd : ℤ) (pack : Pack) (s : Server db.Store)
      → let rows = sql.tables s.store in
        Leaves (deal_set_up db fd pack) s (
          if owns pack.account pack.send_account rows
            && is_club_member (atol pack.mes) pack.send_account rows
          then apply (Change.update_member_flag pack.send_account (atol pack.mes)) rows
          else rows)
  unfolding deal_set_up mysql_set_up mysql_init
  set_up-Leaves fd pack s =
      let rows = sql.tables s.store in
      let asked = gowner-owns db sql pack.account pack.send_account s in
      let target =
        group_member-is_club_member db sql (atol pack.mes) pack.send_account (unfreed s) in
      let c = Change.update_member_flag pack.send_account (atol pack.mes) in
      let (u, r, m) = sql.changes c s.store in
      elim (Bool-cases (owns pack.account pack.send_account rows)) [
        | inl e ↦ elim (Bool-cases (is_club_member (atol pack.mes) pack.send_account rows)) [
          | inl o ↦ (
            record s {
              store = u;
              connected = true;
              result = ResultPtr.held;
              sent = s.sent ++ (fd, record pack { mes = codes "设置成功,他已经是管理员了哦！！" }) ∷ [];
            },
            rw
                (
                  deal_set_up,
                  asked,
                  e,
                  target,
                  o,
                  mysql_set_up,
                  query_change_lem db (unfreed s) c u r,
                )
                refl,
            rw (e, o) m,
          )
          | inr o ↦ (
            record (unfreed s) {
              sent = s.sent ++ (fd, record pack { mes = codes "你要设置的并不是群成员，快去拉他进群吧!!!" }) ∷ [];
            },
            rw (deal_set_up, asked, e, target, o) refl,
            rw (e, o) refl,
          )
        ]
        | inr e ↦ (
          record (unfreed s) { sent = s.sent ++ (fd, set_up_refused db pack) ∷ [] },
          rw (deal_set_up, asked, e) refl,
          rw (e) refl,
        )
      ]

  dele_user-Leaves :
      (fd : ℤ) (pack : Pack) (s : Server db.Store)
      → let rows = sql.tables s.store in
        Leaves (deal_dele_user db fd pack) s (
          if is_flagged pack.account pack.send_account rows
          then apply (Change.delete_g_meber pack.send_account (atol pack.mes)) rows
          else rows)
  unfolding deal_dele_user mysql_quit_group
  dele_user-Leaves fd pack s =
      let rows = sql.tables s.store in
      let asked = group_vip-is_flagged db sql pack.account pack.send_account s in
      let c = Change.delete_g_meber pack.send_account (atol pack.mes) in
      let (u, r, m) = sql.changes c s.store in
      elim (Bool-cases (is_flagged pack.account pack.send_account rows)) [
        | inl e ↦
            let (t, q, o) =
              notice-Leaves fd (record pack { mes = codes "你已成功从群聊中删除他" }) (expelled_pack db pack)
                pack.send_account (record (unfreed s) { store = u }) in
            (
              t,
              rw (deal_dele_user, asked, e, mysql_quit_group, change_once_lem db (unfreed s) c u r)
                  q,
              rw (e) (o ∙ m),
            )
        | inr e ↦ (
          record (unfreed s) { sent = s.sent ++ (fd, dele_user_refused db pack) ∷ [] },
          rw (deal_dele_user, asked, e) refl,
          rw (e) refl,
        )
      ]

  join_user-Leaves :
      (fd : ℤ) (pack : Pack) (s : Server db.Store)
      → let rows = sql.tables s.store in
        Leaves (deal_join_user db fd pack) s (
          if is_club_member pack.account pack.send_account rows
            && not (is_club_member (atol pack.mes) pack.send_account rows)
          then apply (Change.insert_g_meber pack.send_account (atol pack.mes) (pos 0)) rows
          else rows)
  unfolding deal_join_user mysql_join_group
  join_user-Leaves fd pack s =
      let rows = sql.tables s.store in
      let asked = group_member-is_club_member db sql pack.account pack.send_account s in
      let target =
        group_member-is_club_member db sql (atol pack.mes) pack.send_account (unfreed s) in
      let c = Change.insert_g_meber pack.send_account (atol pack.mes) (pos 0) in
      let (u, r, m) = sql.changes c s.store in
      elim (Bool-cases (is_club_member pack.account pack.send_account rows)) [
        | inl e ↦ elim (Bool-cases (is_club_member (atol pack.mes) pack.send_account rows)) [
          | inl o ↦ (
            record (unfreed s) {
              sent = s.sent ++ (fd, record pack { mes = codes "他已经是该群成员，快去聊天吧！！" }) ∷ [];
            },
            rw (deal_join_user, asked, e, target, o) refl,
            rw (e, o) refl,
          )
          | inr o ↦
              let (t, q, n) =
                notice-Leaves fd (invited db pack) (invited_pack db pack) pack.send_account
                  (record (unfreed s) { store = u }) in
              (
                t,
                rw
                    (
                      deal_join_user,
                      asked,
                      e,
                      target,
                      o,
                      mysql_join_group,
                      change_once_lem db (unfreed s) c u r,
                    )
                    q,
                rw (e, o) (n ∙ m),
              )
        ]
        | inr e ↦ (
          record (unfreed s) { sent = s.sent ++ (fd, join_user_refused db pack) ∷ [] },
          rw (deal_join_user, asked, e) refl,
          rw (e) refl,
        )
      ]

  -- With a database that does what its statements say, four handlers return for any packet, and
  -- change the tables in no other way than this. Deleting a group deletes it and its members where
  -- the sender owns it, and nothing else; making a member a manager needs the owner, and a target who
  -- is a member; removing a member needs a sender with a flag other than 0; inviting needs a sender
  -- who is a member, and a target who is not. Otherwise the tables are as they were.
  pub only_entitled_change :
      (fd : ℤ) (pack : Pack) (s : Server db.Store)
      → let rows = sql.tables s.store in
        Leaves (deal_dele_group db fd pack) s (
          if owns pack.account pack.send_account rows
          then apply
              (Change.delete_groups pack.send_account)
              (apply (Change.delete_all_g_meber pack.send_account) rows)
          else rows)
        × Leaves (deal_set_up db fd pack) s (
            if owns pack.account pack.send_account rows
              && is_club_member (atol pack.mes) pack.send_account rows
            then apply (Change.update_member_flag pack.send_account (atol pack.mes)) rows
            else rows)
        × Leaves (deal_dele_user db fd pack) s (
            if is_flagged pack.account pack.send_account rows
            then apply (Change.delete_g_meber pack.send_account (atol pack.mes)) rows
            else rows)
        × Leaves (deal_join_user db fd pack) s (
            if is_club_member pack.account pack.send_account rows
              && not (is_club_member (atol pack.mes) pack.send_account rows)
            then apply (Change.insert_g_meber pack.send_account (atol pack.mes) (pos 0)) rows
            else rows)
  only_entitled_change fd pack s = (
    dele_group-Leaves fd pack s,
    set_up-Leaves fd pack s,
    dele_user-Leaves fd pack s,
    join_user-Leaves fd pack s,
  )
