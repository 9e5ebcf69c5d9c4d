-- ===== src/Room/Waiting/Functions.antt =====
-- The functions of MYSQL.c (Code/liuting1/chatroom) that handlers call.
use team_c.Common.{Option, none, some, List, [], ◌∷◌, if◌then◌else◌}
use team_c.Common.Int.{ℤ}
use team_c.Common.Text.{CStr, streq}
use team_c.Room.Packet.{Change, Person}
use team_c.Room.Machine.{Database, Run, pure, ◌>>=◌, ◌>>◌}
use team_c.Room.Mysql.{
  bad, good, last_id, login_rows, repass_rows, mysql_init, mysql_login, mysql_regist, mysql_repass,
  mysql_exit, mysql_find_frirela, mysql_find_fd, mysql_find_fd_user, mysql_addfriend_store,
  rows_or_none, mysql_close, query_change,
}
use team_c.Room.Groups.{mysql_dele_group}
use team_c.Room.Waiting.Queries.{
  Calm, Calm-pure, Calm-bind, Calm-if, mysql_init-Grows, mysql_close-Grows, query_change-Grows,
  query_rows-Grows, free_result-Grows, query_freed-Grows,
}

module _ (account : ℤ) (db : Database) where
  login_rows-Grows :
      (a : ℤ) (w : CStr) (fd : ℤ) (rows : List Person) → Calm account db (login_rows db a w fd rows)
  unfolding login_rows
  login_rows-Grows a w fd [] = Calm-pure account db bad
  login_rows-Grows a w fd (row ∷ rows) =
      Calm-if account db (streq w row.passwd)
        (Calm-bind account db (query_change-Grows account db _) λ x.
          Calm-bind account db (free_result-Grows account db)
            λ y. Calm-bind account db (mysql_close-Grows account db) λ z. Calm-pure account db good)
        (login_rows-Grows a w fd rows)

  pub mysql_login-Grows : (a : ℤ) (w : CStr) (fd : ℤ) → Calm account db (mysql_login db a w fd)
  unfolding mysql_login
  mysql_login-Grows a w fd =
      Calm-bind account db (query_rows-Grows account db _)
        λ rows. login_rows-Grows a w fd (rows_or_none rows)

  repass_rows-Grows :
      (a : ℤ) (w v : CStr) (rows : List Person) → Calm account db (repass_rows db a w v rows)
  unfolding repass_rows
  repass_rows-Grows a w v [] = Calm-pure account db bad
  repass_rows-Grows a w v (row ∷ rows) =
      Calm-if account db (streq w row.passwd)
        (Calm-bind account db (query_change-Grows account db _) λ x.
          Calm-bind account db (free_result-Grows account db)
            λ y. Calm-bind account db (mysql_close-Grows account db) λ z. Calm-pure account db good)
        (repass_rows-Grows a w v rows)

  pub mysql_repass-Grows : (a : ℤ) (w v : CStr) → Calm account db (mysql_repass db a w v)
  unfolding mysql_repass
  mysql_repass-Grows a w v =
      Calm-bind account db (query_rows-Grows account db _)
        λ rows. repass_rows-Grows a w v (rows_or_none rows)

  closed_id-Grows :
      (x : ℤ) (id : Option ℤ)
      → Calm account db
          (elim id as (λ k. Run db.Store ℤ) [ none ↦ pure x | some i ↦ mysql_close db >> pure i ])
  closed_id-Grows x none = Calm-pure account db x
  closed_id-Grows x (some i) =
      Calm-bind account db (mysql_close-Grows account db) λ u. Calm-pure account db i

  pub mysql_regist-Grows : (v w : CStr) → Calm account db (mysql_regist db v w)
  unfolding mysql_regist
  mysql_regist-Grows v w = Calm-bind account db (query_change-Grows account db _) λ done.
      Calm-if account db done
        (Calm-bind account db (query_rows-Grows account db _)
          λ ids. closed_id-Grows (db.junk_int 105) (last_id db ids))
        (Calm-bind account db (mysql_close-Grows account db) λ u. Calm-pure account db bad)

  pub mysql_exit-Grows : (a : ℤ) → Calm account db (mysql_exit db a)
  unfolding mysql_exit
  mysql_exit-Grows a =
      Calm-bind account db (query_change-Grows account db _) λ u. Calm-pure account db tt

  pub mysql_find_frirela-Grows : (a b : ℤ) → Calm account db (mysql_find_frirela db a b)
  unfolding mysql_find_frirela
  mysql_find_frirela-Grows a b =
      Calm-bind account db (mysql_init-Grows account db)
        λ u. Calm-bind account db (query_freed-Grows account db _) λ rows. Calm-pure account db _

  pub mysql_find_fd-Grows : (a : ℤ) → Calm account db (mysql_find_fd db a)
  unfolding mysql_find_fd
  mysql_find_fd-Grows a =
      Calm-bind account db (mysql_init-Grows account db)
        λ u. Calm-bind account db (query_freed-Grows account db _) λ rows. Calm-pure account db _

  pub mysql_find_fd_user-Grows : (a : ℤ) → Calm account db (mysql_find_fd_user db a)
  unfolding mysql_find_fd_user
  mysql_find_fd_user-Grows a =
      Calm-bind account db (mysql_init-Grows account db)
        λ u. Calm-bind account db (query_freed-Grows account db _) λ rows. Calm-pure account db _

  -- Two statements, the second one where the first succeeds.
  two_changes-Grows :
      (c d : Change)
      → Calm account db (
          mysql_init db >>= λ u. query_change db c >>= λ first.
          (if first
            then (query_change db d >>= λ second.
                mysql_close db >> pure (if second then good else bad))
            else (mysql_close db >> pure bad)))
  two_changes-Grows c d = Calm-bind account db (mysql_init-Grows account db) λ u.
      Calm-bind account db (query_change-Grows account db c) λ first.
        Calm-if account db first
          (Calm-bind account db (query_change-Grows account db d) λ second.
            Calm-bind account db (mysql_close-Grows account db) λ v. Calm-pure account db _)
          (Calm-bind account db (mysql_close-Grows account db) λ v. Calm-pure account db bad)

  pub mysql_addfriend_store-Grows : (a b : ℤ) → Calm account db (mysql_addfriend_store db a b)
  unfolding mysql_addfriend_store
  mysql_addfriend_store-Grows a b =
      two_changes-Grows (Change.insert_friends a b) (Change.insert_friends b a)

  pub mysql_dele_group-Grows : (a : ℤ) → Calm account db (mysql_dele_group db a)
  unfolding mysql_dele_group
  mysql_dele_group-Grows a =
      two_changes-Grows (Change.delete_all_g_meber a) (Change.delete_groups a)
