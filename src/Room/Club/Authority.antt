-- ===== src/Room/Club/Authority.antt =====
-- Who may change a group: deal_dele_group, deal_set_up, deal_dele_user and deal_join_user of
-- Code/liuting1/chatroom/server_deal.c.
use team_c.Common.{
  Bool, true, false, ◌||◌, ◌≡◌, refl, ◌∙◌, ap, Option, some, List, [], ◌∷◌, ◌++◌, Bool-cases, inl,
  inr, if◌then◌else◌,
}
use team_c.Common.Lists.{filter}
use team_c.Common.Int.{ℤ, pos}
use team_c.Chat.Tables.{atol}
use team_c.Room.Packet.{Pack, Person, Member, Change, PersonQuery, ClubQuery, MemberQuery}
use team_c.Room.Machine.{Database, Server}
use team_c.Room.Mysql.{good, bad, any_row, mysql_init, mysql_close, query_rows}
use team_c.Room.Mysql.Answers.{
  released, unfreed, mysql_find_fd_lem, change_once_lem, query_change_lem,
}
use team_c.Room.Groups.{
  find_once, mysql_find_gowner, mysql_find_group_member, mysql_find_group_vip, mysql_join_group,
  mysql_dele_group,
}
use team_c.Room.Friend.{send_or_keep}
use team_c.Room.Offline.{deal_fri_off}
use team_c.Room.Sql.{Tables, IsSql, apply, club_test, member_test}
use team_c.Room.Club.{deal_join_user, invited_pack, invited}

-- Whether a row satisfies a condition.
unfoldable pub has_row : {A : Type 0} → (A → Bool) → List A → Bool
has_row test [] = false
has_row test (x ∷ xs) = test x || has_row test xs

any_row-has_row :
    {A : Type 0} (test : A → Bool) (rows : List A)
    → any_row (some (filter test rows)) ≡ (if has_row test rows then good else bad)
unfolding has_row
any_row-has_row test [] = refl
any_row-has_row test (x ∷ rows) = elim (Bool-cases (test x)) [
  | inl e ↦ rw (e) refl
  | inr e ↦ rw (e) (any_row-has_row test rows)
]

module _ (db : Database) (s : Server db.Store) where
  find_once_lem :
      {A : Type 0} (q : db.Store → Option (List A)) (rows : List A)
      → q s.store ≡ some rows
      → find_once db q s ≡ some (any_row (some rows), unfreed s)
  unfolding find_once mysql_init mysql_close query_rows
  find_once_lem q rows h = rw (h) refl

  pub send_or_keep_frame :
      (keep : Bool) (pack : Pack) (fd : ℤ)
      → (t : Server db.Store) × (send_or_keep db keep pack fd s ≡ some (tt, t))
        × (t.store ≡ s.store)
  unfolding send_or_keep deal_fri_off
  send_or_keep_frame true pack fd = (_, refl, refl)
  send_or_keep_frame false pack fd = (_, refl, refl)

module _ (db : Database) (s : Server db.Store) where
  -- A member of a group invites a user who is no member, with a database that stores the new member,
  -- and where some user has the number of the group as his own and is online: the handler returns, and
  -- the notice for the invited user goes to that other user.
  pub invitation_goes_astray :
      (fd : ℤ) (pack : Pack) (m : Member) (ms : List Member) (p : Person) (ps : List Person)
      (t : db.Store)
      → db.members (MemberQuery.who pack.account pack.send_account) s.store ≡ some (m ∷ ms)
      → db.members (MemberQuery.who (atol pack.mes) pack.send_account) s.store ≡ some []
      → db.change (Change.insert_g_meber pack.send_account (atol pack.mes) (pos 0)) s.store ≡ some t
      → db.persons (PersonQuery.with_id pack.send_account) t ≡ some (p ∷ ps)
      → p.online ≡ pos 1
      → deal_join_user db fd pack s
        ≡ some (
          tt,
          record (released s) {
            store = t;
            sent = s.sent ++ (fd, invited db pack) ∷ [] ++ (p.sock_fd, invited_pack db pack) ∷ [];
          },
        )
  unfolding deal_join_user mysql_find_group_member mysql_join_group send_or_keep
  invitation_goes_astray fd pack m ms p ps t qm qu qc qp on =
      rw
        (
          deal_join_user,
          mysql_find_group_member,
          find_once_lem db s (db.members (MemberQuery.who pack.account pack.send_account)) (m ∷ ms)
              qm,
          find_once_lem db (unfreed s)
              (db.members (MemberQuery.who (atol pack.mes) pack.send_account)) [] qu,
          mysql_join_group,
          change_once_lem db (unfreed s)
              (Change.insert_g_meber pack.send_account (atol pack.mes) (pos 0)) t qc,
          mysql_find_fd_lem db (record (unfreed s) { store = t }) pack.send_account (p ∷ ps) qp,
          send_or_keep,
          on,
        )
        refl

-- What the tables say of a user and a group.
abbrev pub owns : ℤ → ℤ → Tables → Bool
owns account group_id t = has_row (club_test (ClubQuery.owned group_id account)) t.groups

abbrev pub is_club_member : ℤ → ℤ → Tables → Bool
is_club_member account group_id t =
    has_row (member_test (MemberQuery.who account group_id)) t.g_meber

abbrev pub is_flagged : ℤ → ℤ → Tables → Bool
is_flagged account group_id t =
    has_row (member_test (MemberQuery.who_flagged account group_id)) t.g_meber

module _ (db : Database) (sql : IsSql db) where
  pub gowner-owns :
      (account id : ℤ) (s : Server db.Store)
      → mysql_find_gowner db account id s
        ≡ some (if owns account id (sql.tables s.store) then good else bad, unfreed s)
  unfolding mysql_find_gowner
  gowner-owns account id s =
      find_once_lem db s (db.clubs (ClubQuery.owned id account)) _
        (sql.finds_clubs (ClubQuery.owned id account) s.store)
      ∙ ap (λ r. some (r, unfreed s)) (any_row-has_row _ (sql.tables s.store).groups)

  pub group_member-is_club_member :
      (account id : ℤ) (s : Server db.Store)
      → mysql_find_group_member db account id s
        ≡ some (if is_club_member account id (sql.tables s.store) then good else bad, unfreed s)
  unfolding mysql_find_group_member
  group_member-is_club_member account id s =
      find_once_lem db s (db.members (MemberQuery.who account id)) _
        (sql.finds_members (MemberQuery.who account id) s.store)
      ∙ ap (λ r. some (r, unfreed s)) (any_row-has_row _ (sql.tables s.store).g_meber)

  pub group_vip-is_flagged :
      (account id : ℤ) (s : Server db.Store)
      → mysql_find_group_vip db account id s
        ≡ some (if is_flagged account id (sql.tables s.store) then good else bad, unfreed s)
  unfolding mysql_find_group_vip
  group_vip-is_flagged account id s =
      find_once_lem db s (db.members (MemberQuery.who_flagged account id)) _
        (sql.finds_members (MemberQuery.who_flagged account id) s.store)
      ∙ ap (λ r. some (r, unfreed s)) (any_row-has_row _ (sql.tables s.store).g_meber)

  pub dele_group-applies :
      (id : ℤ) (s : Server db.Store)
      → (t : db.Store) × (mysql_dele_group db id s
          ≡ some (good, record s { store = t; connected = false }))
        × (sql.tables t
            ≡ apply
                (Change.delete_groups id)
                (apply (Change.delete_all_g_meber id) (sql.tables s.store)))
  unfolding mysql_dele_group mysql_init mysql_close
  dele_group-applies id s =
      let (t1, e1, m1) = sql.changes (Change.delete_all_g_meber id) s.store in
      let (t2, e2, m2) = sql.changes (Change.delete_groups id) t1 in
      (
        t2,
        rw
            (
              mysql_dele_group,
              query_change_lem db s (Change.delete_all_g_meber id) t1 e1,
              query_change_lem db (record s { store = t1 }) (Change.delete_groups id) t2 e2,
            )
            refl,
        m2 ∙ ap (apply (Change.delete_groups id)) m1,
      )
