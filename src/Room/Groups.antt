-- ===== src/Room/Groups.antt =====
-- The functions of MYSQL.c (Code/liuting1/chatroom) about groups.
use team_c.Common.{ℕ, Option, none, some, List, [], ◌∷◌, if◌then◌else◌}
use team_c.Common.Int.{ℤ, pos}
use team_c.Common.Text.{CStr, codes}
use team_c.Room.Packet.{Person, Chatting, Member, Change, PersonQuery, ClubQuery, MemberQuery}
use team_c.Room.Machine.{Database, Run, pure, ◌>>=◌, ◌>>◌}
use team_c.Room.Mysql.{
  Entry, bad, or_bad, any_row, rows_or_none, fitting, mysql_init, mysql_close, query_change,
  query_rows, last_id, change_once,
}

module _ (db : Database) where
  unfoldable pub mysql_creat_group : ℤ → CStr → Run db.Store ℤ
  mysql_creat_group account mes = do
    done ← query_change db (Change.insert_groups account mes)
    if done
        then (do
          ids ← query_rows db db.last_insert_id
          elim (last_id db ids) [
            | none ↦ pure (db.junk_int 411)
            | some id ↦ do
              query_change db (Change.insert_g_meber id account (pos 1))
              mysql_close db
              pure id
          ])
        else (do mysql_close db; pure bad)

  -- A select on a connection of its own: 0 if there is a row.
  unfoldable pub find_once : {A : Type 0} → (db.Store → Option (List A)) → Run db.Store ℤ
  find_once q = do mysql_init db; rows ← query_rows db q; mysql_close db; pure (any_row rows)

  unfoldable pub mysql_find_group_member : ℤ → ℤ → Run db.Store ℤ
  mysql_find_group_member account group_account =
      find_once (db.members (MemberQuery.who account group_account))

  unfoldable pub mysql_find_group : ℤ → Run db.Store ℤ
  mysql_find_group group_account = find_once (db.clubs (ClubQuery.numbered group_account))

  unfoldable pub mysql_join_group : ℤ → ℤ → Run db.Store ℤ
  mysql_join_group account group_id =
      change_once db (Change.insert_g_meber group_id account (pos 0))

  unfoldable pub mysql_quit_group : ℤ → ℤ → Run db.Store ℤ
  mysql_quit_group account group_id = change_once db (Change.delete_g_meber group_id account)

  unfoldable pub mysql_find_gowner : ℤ → ℤ → Run db.Store ℤ
  mysql_find_gowner account id = find_once (db.clubs (ClubQuery.owned id account))

  unfoldable pub mysql_dele_group : ℤ → Run db.Store ℤ
  mysql_dele_group group_id = do
    mysql_init db
    first ← query_change db (Change.delete_all_g_meber group_id)
    if first
        then (do
          second ← query_change db (Change.delete_groups group_id)
          mysql_close db
          pure (or_bad second))
        else (do mysql_close db; pure bad)

  -- The name of a group, in the array of a function that has returned; `none` is the literal "fail".
  -- The connection stays open where there is a row.
  unfoldable pub mysql_group_name : ℤ → Run db.Store (Option CStr)
  mysql_group_name id = do
    mysql_init db
    rows ← query_rows db (db.clubs (ClubQuery.numbered id))
    elim (rows_or_none rows) [
      | [] ↦ do mysql_close db; pure none
      | row ∷ rest ↦ pure (some row.group_name)
    ]

  -- What a read at a line finds behind the pointer.
  abbrev pub read_name : ℕ → Option CStr → CStr
  read_name line none = codes "fail"
  read_name line (some name) = db.dead line name

  abbrev member_entry : Member → Entry
  member_entry m = record {
    account = m.group_member;
    name = (db.junk 558).send_name;
    online = db.junk_int 558;
    cli_fd = db.junk_int 558;
    flag = m.member_flag;
  }

  abbrev pub entries : List Member → List Entry
  entries [] = []
  entries (m ∷ ms) = member_entry m ∷ entries ms

  -- GROUP has room for 50 accounts, with the -1 behind them. The connection stays open.
  unfoldable pub mysql_group_mes : ℤ → Run db.Store (List Entry)
  mysql_group_mes group_id = do
    mysql_init db
    rows ← query_rows db (db.members (MemberQuery.in_club group_id))
    ms ← fitting 50 (rows_or_none rows)
    pure (entries ms)

  -- The last row of a user goes into an entry.
  abbrev pub fill_entry : Entry → List Person → Entry
  fill_entry e [] = e
  fill_entry e (row ∷ rest) =
      fill_entry (record e { name = row.name; online = row.online; cli_fd = row.sock_fd }) rest

  unfoldable pub find_users : List Entry → Run db.Store (List Entry)
  find_users [] = pure []
  find_users (e ∷ es) = do
    rows ← query_rows db (db.persons (PersonQuery.with_id e.account))
    others ← find_users es
    pure (fill_entry e (rows_or_none rows) ∷ others)

  unfoldable pub mysql_find_user : List Entry → Run db.Store (List Entry)
  mysql_find_user p = do es ← find_users p; mysql_close db; pure es

  unfoldable pub mysql_store_group : ℤ → ℤ → CStr → Run db.Store ℤ
  mysql_store_group group_id group_member mes =
      change_once db (Change.insert_chat_group group_id group_member mes)

  -- The number that sprintf prints has no argument: it is junk.
  unfoldable pub mysql_find_chat_group : ℤ → Run db.Store (List Chatting)
  mysql_find_chat_group account = do
    rows ← query_rows db (db.chat_group (db.junk_int 630))
    fitting 100 (rows_or_none rows)

  -- The connection stays open.
  unfoldable pub mysql_set_up : ℤ → ℤ → Run db.Store (Unit {0})
  mysql_set_up group_id set_account = do
    mysql_init db
    query_change db (Change.update_member_flag group_id set_account)
    pure tt

  unfoldable pub mysql_find_group_vip : ℤ → ℤ → Run db.Store ℤ
  mysql_find_group_vip account group_id =
      find_once (db.members (MemberQuery.who_flagged account group_id))
