-- ===== src/Room/Waiting/Lists.antt =====
-- The functions of MYSQL.c (Code/liuting1/chatroom) that return lists, and those about groups.
use team_c.Common.{Option, none, some, List, [], ◌∷◌}
use team_c.Common.Int.{ℤ, pos}
use team_c.Common.Text.{CStr}
use team_c.Room.Packet.{Change, Friendship, Club}
use team_c.Room.Machine.{Database, Run, pure, ◌>>◌}
use team_c.Room.Mysql.{
  Entry, bad, last_id, list_names, mysql_list_fri, online_names, mysql_online_fri, mysql_store_chat,
  mysql_find_chat, mysql_dele_fri, mysql_close, query_change,
}
use team_c.Room.Groups.{
  mysql_creat_group, mysql_find_group_member, mysql_find_group, mysql_join_group, mysql_quit_group,
  mysql_find_gowner, mysql_group_name, mysql_group_mes, find_users, mysql_find_user,
  mysql_store_group, mysql_find_chat_group, mysql_set_up, mysql_find_group_vip,
}
use team_c.Room.Waiting.Queries.{
  Calm, Calm-pure, Calm-bind, Calm-if, mysql_init-Grows, mysql_close-Grows, query_change-Grows,
  query_rows-Grows, fitting-Grows, change_once-Grows, find_once-Grows,
}

module _ (account : ℤ) (db : Database) where
  list_names-Grows : (fs : List Friendship) → Calm account db (list_names db fs)
  unfolding list_names
  list_names-Grows [] = Calm-pure account db []
  list_names-Grows (f ∷ fs) =
      Calm-bind account db (query_rows-Grows account db _)
        λ rows. Calm-bind account db (list_names-Grows fs) λ others. Calm-pure account db _

  pub mysql_list_fri-Grows : (a : ℤ) → Calm account db (mysql_list_fri db a)
  unfolding mysql_list_fri
  mysql_list_fri-Grows a = Calm-bind account db (mysql_init-Grows account db) λ u.
      Calm-bind account db (query_rows-Grows account db _) λ rows.
        Calm-bind account db (fitting-Grows account db 50 _) λ fs.
          Calm-bind account db (list_names-Grows fs)
            λ p. Calm-bind account db (mysql_close-Grows account db) λ v. Calm-pure account db p

  online_names-Grows : (fs : List Friendship) → Calm account db (online_names db fs)
  unfolding online_names
  online_names-Grows [] = Calm-pure account db []
  online_names-Grows (f ∷ fs) =
      Calm-bind account db (query_rows-Grows account db _)
        λ rows. Calm-bind account db (online_names-Grows fs) λ others. Calm-pure account db _

  pub mysql_online_fri-Grows : (a : ℤ) → Calm account db (mysql_online_fri db a)
  unfolding mysql_online_fri
  mysql_online_fri-Grows a = Calm-bind account db (mysql_init-Grows account db) λ u.
      Calm-bind account db (query_rows-Grows account db _) λ rows.
        Calm-bind account db (fitting-Grows account db 50 _) λ fs.
          Calm-bind account db (online_names-Grows fs)
            λ p. Calm-bind account db (mysql_close-Grows account db) λ v. Calm-pure account db p

  pub mysql_store_chat-Grows :
      (a b : ℤ) (mes : CStr) → Calm account db (mysql_store_chat db a b mes)
  unfolding mysql_store_chat
  mysql_store_chat-Grows a b mes = change_once-Grows account db _

  pub mysql_find_chat-Grows : (a b : ℤ) → Calm account db (mysql_find_chat db a b)
  unfolding mysql_find_chat
  mysql_find_chat-Grows a b =
      Calm-bind account db (query_rows-Grows account db _) λ rows. fitting-Grows account db 100 _

  pub mysql_dele_fri-Grows : (a b : ℤ) → Calm account db (mysql_dele_fri db a b)
  unfolding mysql_dele_fri
  mysql_dele_fri-Grows a b =
      Calm-bind account db (query_change-Grows account db _) λ u. Calm-pure account db tt

  new_group-Grows :
      (a x : ℤ) (id : Option ℤ)
      → Calm account db (elim id as (λ k. Run db.Store ℤ) [
        | none ↦ pure x
        | some i ↦ query_change db (Change.insert_g_meber i a (pos 1)) >> (mysql_close db >> pure i)
      ])
  new_group-Grows a x none = Calm-pure account db x
  new_group-Grows a x (some i) =
      Calm-bind account db (query_change-Grows account db _)
        λ u. Calm-bind account db (mysql_close-Grows account db) λ v. Calm-pure account db i

  pub mysql_creat_group-Grows : (a : ℤ) (mes : CStr) → Calm account db (mysql_creat_group db a mes)
  unfolding mysql_creat_group
  mysql_creat_group-Grows a mes = Calm-bind account db (query_change-Grows account db _) λ done.
      Calm-if account db done
        (Calm-bind account db (query_rows-Grows account db _)
          λ ids. new_group-Grows a (db.junk_int 411) (last_id db ids))
        (Calm-bind account db (mysql_close-Grows account db) λ u. Calm-pure account db bad)

  pub mysql_find_group_member-Grows : (a b : ℤ) → Calm account db (mysql_find_group_member db a b)
  unfolding mysql_find_group_member
  mysql_find_group_member-Grows a b = find_once-Grows account db _

  pub mysql_find_group-Grows : (a : ℤ) → Calm account db (mysql_find_group db a)
  unfolding mysql_find_group
  mysql_find_group-Grows a = find_once-Grows account db _

  pub mysql_find_gowner-Grows : (a b : ℤ) → Calm account db (mysql_find_gowner db a b)
  unfolding mysql_find_gowner
  mysql_find_gowner-Grows a b = find_once-Grows account db _

  pub mysql_find_group_vip-Grows : (a b : ℤ) → Calm account db (mysql_find_group_vip db a b)
  unfolding mysql_find_group_vip
  mysql_find_group_vip-Grows a b = find_once-Grows account db _

  pub mysql_join_group-Grows : (a b : ℤ) → Calm account db (mysql_join_group db a b)
  unfolding mysql_join_group
  mysql_join_group-Grows a b = change_once-Grows account db _

  pub mysql_quit_group-Grows : (a b : ℤ) → Calm account db (mysql_quit_group db a b)
  unfolding mysql_quit_group
  mysql_quit_group-Grows a b = change_once-Grows account db _

  pub mysql_store_group-Grows :
      (a b : ℤ) (mes : CStr) → Calm account db (mysql_store_group db a b mes)
  unfolding mysql_store_group
  mysql_store_group-Grows a b mes = change_once-Grows account db _

  group_row-Grows :
      (rows : List Club)
      → Calm account db (elim rows as (λ k. Run db.Store (Option CStr)) [
        | [] ↦ mysql_close db >> pure none
        | row ∷ rest ↦ pure (some row.group_name)
      ])
  group_row-Grows [] =
      Calm-bind account db (mysql_close-Grows account db) λ u. Calm-pure account db none
  group_row-Grows (row ∷ rest) = Calm-pure account db _

  pub mysql_group_name-Grows : (a : ℤ) → Calm account db (mysql_group_name db a)
  unfolding mysql_group_name
  mysql_group_name-Grows a =
      Calm-bind account db (mysql_init-Grows account db)
        λ u. Calm-bind account db (query_rows-Grows account db _) λ rows. group_row-Grows _

  pub mysql_group_mes-Grows : (a : ℤ) → Calm account db (mysql_group_mes db a)
  unfolding mysql_group_mes
  mysql_group_mes-Grows a = Calm-bind account db (mysql_init-Grows account db) λ u.
      Calm-bind account db (query_rows-Grows account db _)
        λ rows. Calm-bind account db (fitting-Grows account db 50 _) λ ms. Calm-pure account db _

  find_users-Grows : (es : List Entry) → Calm account db (find_users db es)
  unfolding find_users
  find_users-Grows [] = Calm-pure account db []
  find_users-Grows (e ∷ es) =
      Calm-bind account db (query_rows-Grows account db _)
        λ rows. Calm-bind account db (find_users-Grows es) λ others. Calm-pure account db _

  pub mysql_find_user-Grows : (es : List Entry) → Calm account db (mysql_find_user db es)
  unfolding mysql_find_user
  mysql_find_user-Grows es =
      Calm-bind account db (find_users-Grows es)
        λ p. Calm-bind account db (mysql_close-Grows account db) λ u. Calm-pure account db p

  pub mysql_find_chat_group-Grows : (a : ℤ) → Calm account db (mysql_find_chat_group db a)
  unfolding mysql_find_chat_group
  mysql_find_chat_group-Grows a =
      Calm-bind account db (query_rows-Grows account db _) λ rows. fitting-Grows account db 100 _

  pub mysql_set_up-Grows : (a b : ℤ) → Calm account db (mysql_set_up db a b)
  unfolding mysql_set_up
  mysql_set_up-Grows a b =
      Calm-bind account db (mysql_init-Grows account db)
        λ u. Calm-bind account db (query_change-Grows account db _) λ v. Calm-pure account db tt
