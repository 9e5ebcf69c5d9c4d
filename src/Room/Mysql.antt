-- ===== src/Room/Mysql.antt =====
-- MYSQL.c of Code/liuting1/chatroom: what is asked of the database, and what is returned. mysql_query
-- fails on a connection that is closed.
pub mod Answers
use team_c.Common.{
  ℕ, ◌==◌, ltb, Bool, true, false, Option, none, some, List, [], ◌∷◌, if◌then◌else◌,
}
use team_c.Common.Lists.{length}
use team_c.Common.Int.{ℤ, pos, negsuc}
use team_c.Common.Text.{CStr, codes, streq}
use team_c.Room.Packet.{
  Person, Friendship, Chatting, Club, Member, Change, PersonQuery, FriendQuery, ClubQuery,
  MemberQuery,
}
use team_c.Room.Machine.{Database, ResultPtr, Server, Run, pure, crash, ◌>>=◌, ◌>>◌, modify}

-- fri, one entry of it: account is the socket where MYSQL_find_fd fills it.
pub record Contact : Type 0 where
  pub account : ℤ
  pub online : ℤ
  pub name : CStr

-- GROUP, one entry of it.
pub record Entry : Type 0 where
  pub account : ℤ
  pub name : CStr
  pub online : ℤ
  pub cli_fd : ℤ
  pub flag : ℤ

-- The results 0 and -1.
abbrev pub good : ℤ
good = pos 0

abbrev pub bad : ℤ
bad = negsuc 0

abbrev pub or_bad : Bool → ℤ
or_bad b = if b then good else bad

-- The result of a search for a row.
abbrev pub any_row {ℓ} : {A : Type ℓ} → Option (List A) → ℤ
any_row none = bad
any_row (some []) = bad
any_row (some (x ∷ xs)) = good

abbrev pub rows_or_none {ℓ} : {A : Type ℓ} → Option (List A) → List A
rows_or_none none = []
rows_or_none (some rows) = rows

-- Elements for an array of `n`, of which the last is the mark behind them.
abbrev pub fitting {ℓ} : {S : Type 0} {A : Type ℓ} → ℕ → List A → Run S (List A)
fitting n xs = if ltb (length xs) n then pure xs else crash

module _ (db : Database) where
  -- MYSQL_init, with a server that accepts the connection
  unfoldable pub mysql_init : Run db.Store (Unit {0})
  mysql_init = modify λ s. record s { connected = true }

  -- mysql_close
  unfoldable pub mysql_close : Run db.Store (Unit {0})
  mysql_close = modify λ s. record s { connected = false }

  abbrev stored : Server db.Store → Option db.Store → Option (Bool × Server db.Store)
  stored s none = some (false, s)
  stored s (some t) = some (true, record s { store = t })

  -- mysql_query on a statement that changes a table: whether it succeeds.
  unfoldable pub query_change : Change → Run db.Store Bool
  query_change c s = if s.connected then stored s (db.change c s.store) else some (false, s)

  abbrev store_result :
      {A : Type 0} → Server db.Store → Option (List A) → Option (Option (List A) × Server db.Store)
  store_result s none = some (none, s)
  store_result s (some rows) = some (some rows, record s { result = ResultPtr.held })

  -- mysql_query on a select, and mysql_store_result into `result` where it succeeds.
  unfoldable pub query_rows :
      {A : Type 0} → (db.Store → Option (List A)) → Run db.Store (Option (List A))
  query_rows q s = if s.connected then store_result s (q s.store) else some (none, s)

  -- mysql_free_result(result): NULL is let be, and freed memory must not be freed again.
  unfoldable pub free_result : Run db.Store (Unit {0})
  free_result s = elim (s.result) [
    | ResultPtr.null ↦ some (tt, s)
    | ResultPtr.held ↦ some (tt, record s { result = ResultPtr.freed })
    | ResultPtr.freed ↦ none
  ]

  unfoldable pub mysql_main_init : Run db.Store (Unit {0})
  mysql_main_init = do mysql_init; query_change Change.update_all_offline; mysql_close

  -- The loop over the rows in MYSQL_login.
  unfoldable pub login_rows : ℤ → CStr → ℤ → List Person → Run db.Store ℤ
  login_rows account password cli_fd [] = pure bad
  login_rows account password cli_fd (row ∷ rest) =
      let next = login_rows account password cli_fd rest in
      if streq password row.passwd
      then (do
        query_change (Change.update_online (pos 1) cli_fd account)
        free_result
        mysql_close
        pure good)
      else next

  unfoldable pub mysql_login : ℤ → CStr → ℤ → Run db.Store ℤ
  mysql_login account password cli_fd = do
    rows ← query_rows (db.persons (PersonQuery.with_id account))
    login_rows account password cli_fd (rows_or_none rows)

  -- The first row of `select LAST_INSERT_ID()`; without one, the function ends without a result.
  abbrev pub last_id : Option (List ℤ) → Option ℤ
  last_id none = none
  last_id (some []) = none
  last_id (some (id ∷ ids)) = some id

  unfoldable pub mysql_regist : CStr → CStr → Run db.Store ℤ
  mysql_regist mes mes2 = do
    done ← query_change (Change.insert_user mes mes2)
    if done
        then (do
          ids ← query_rows db.last_insert_id
          elim (last_id ids) [ none ↦ pure (db.junk_int 105) | some id ↦ do mysql_close; pure id ])
        else (do mysql_close; pure bad)

  -- The loop over the rows in MYSQL_repass.
  unfoldable pub repass_rows : ℤ → CStr → CStr → List Person → Run db.Store ℤ
  repass_rows account old_passwd new_passwd [] = pure bad
  repass_rows account old_passwd new_passwd (row ∷ rest) =
      let next = repass_rows account old_passwd new_passwd rest in
      if streq old_passwd row.passwd
      then (do
        query_change (Change.update_passwd new_passwd account)
        free_result
        mysql_close
        pure good)
      else next

  unfoldable pub mysql_repass : ℤ → CStr → CStr → Run db.Store ℤ
  mysql_repass account old_passwd new_passwd = do
    rows ← query_rows (db.persons (PersonQuery.with_id account))
    repass_rows account old_passwd new_passwd (rows_or_none rows)

  unfoldable pub mysql_exit : ℤ → Run db.Store (Unit {0})
  mysql_exit account = do query_change (Change.update_offline account); pure tt

  -- A select, behind which `result` is freed also where it failed, and is an older pointer.
  unfoldable pub query_freed :
      {A : Type 0} → (db.Store → Option (List A)) → Run db.Store (Option (List A))
  query_freed q = do rows ← query_rows q; free_result; mysql_close; pure rows

  unfoldable pub mysql_find_frirela : ℤ → ℤ → Run db.Store ℤ
  mysql_find_frirela id1 id2 = do
    mysql_init
    rows ← query_freed (db.friendships (FriendQuery.between id1 id2))
    pure (any_row rows)

  -- The first row of a user, or -1 as the socket; junk where the select failed.
  abbrev pub contact_of : List Person → Contact
  contact_of [] = record { account = bad; online = db.junk_int 177; name = (db.junk 177).send_name }
  contact_of (row ∷ rest) = record { account = row.sock_fd; online = row.online; name = row.name }

  abbrev pub contact_or_junk : Option (List Person) → Contact
  contact_or_junk none = record {
    account = db.junk_int 177;
    online = db.junk_int 177;
    name = (db.junk 177).send_name;
  }
  contact_or_junk (some rows) = contact_of rows

  unfoldable pub mysql_find_fd : ℤ → Run db.Store Contact
  mysql_find_fd account = do
    mysql_init
    rows ← query_freed (db.persons (PersonQuery.with_id account))
    pure (contact_or_junk rows)

  abbrev pub socket_of : List Person → ℤ
  socket_of [] = db.junk_int 203
  socket_of (row ∷ rest) = row.sock_fd

  unfoldable pub mysql_find_fd_user : ℤ → Run db.Store ℤ
  mysql_find_fd_user account = do
    mysql_init
    rows ← query_freed (db.persons (PersonQuery.with_id account))
    pure (socket_of (rows_or_none rows))

  unfoldable pub mysql_addfriend_store : ℤ → ℤ → Run db.Store ℤ
  mysql_addfriend_store account send_account = do
    mysql_init
    first ← query_change (Change.insert_friends account send_account)
    if first
        then (do
          second ← query_change (Change.insert_friends send_account account)
          mysql_close
          pure (or_bad second))
        else (do mysql_close; pure bad)

  -- The name in the last row, or what stood in the array.
  abbrev pub last_name : CStr → List Person → CStr
  last_name name [] = name
  last_name name (row ∷ rest) = last_name row.name rest

  unfoldable pub list_names : List Friendship → Run db.Store (List Contact)
  list_names [] = pure []
  list_names (f ∷ fs) = do
    rows ← query_rows (db.persons (PersonQuery.with_id f.id2))
    let name = last_name (db.junk 251).send_name (rows_or_none rows)
    others ← list_names fs
    pure (record { account = f.id2; online = db.junk_int 251; name = name } ∷ others)

  -- fri has room for 50 accounts, with the -1 behind them.
  unfoldable pub mysql_list_fri : ℤ → Run db.Store (List Contact)
  mysql_list_fri account = do
    mysql_init
    rows ← query_rows (db.friendships (FriendQuery.of_user account))
    fs ← fitting 50 (rows_or_none rows)
    p ← list_names fs
    mysql_close
    pure p

  -- An entry of MYSQL_online_fri: 0 as the account of a friend who is not online.
  abbrev pub online_entry : ℤ → Option (List Person) → Contact
  online_entry account none = record {
    account = account;
    online = db.junk_int 292;
    name = (db.junk 292).send_name;
  }
  online_entry account (some []) = record {
    account = pos 0;
    online = db.junk_int 292;
    name = (db.junk 292).send_name;
  }
  online_entry account (some (row ∷ rest)) = record {
    account = account;
    online = db.junk_int 292;
    name = row.name;
  }

  unfoldable pub online_names : List Friendship → Run db.Store (List Contact)
  online_names [] = pure []
  online_names (f ∷ fs) = do
    rows ← query_rows (db.persons (PersonQuery.with_id_online f.id2))
    others ← online_names fs
    pure (online_entry f.id2 rows ∷ others)

  unfoldable pub mysql_online_fri : ℤ → Run db.Store (List Contact)
  mysql_online_fri account = do
    mysql_init
    rows ← query_rows (db.friendships (FriendQuery.of_user account))
    fs ← fitting 50 (rows_or_none rows)
    p ← online_names fs
    mysql_close
    pure p

  -- A statement on a connection of its own.
  unfoldable pub change_once : Change → Run db.Store ℤ
  change_once c = do mysql_init; done ← query_change c; mysql_close; pure (or_bad done)

  unfoldable pub mysql_store_chat : ℤ → ℤ → CStr → Run db.Store ℤ
  mysql_store_chat account send_account mes =
      change_once (Change.insert_chat_fri account send_account mes)

  -- STR has room for 100 messages, with the -1 behind them.
  unfoldable pub mysql_find_chat : ℤ → ℤ → Run db.Store (List Chatting)
  mysql_find_chat account send_account = do
    rows ← query_rows (db.chat_fri account send_account)
    fitting 100 (rows_or_none rows)

  unfoldable pub mysql_dele_fri : ℤ → ℤ → Run db.Store (Unit {0})
  mysql_dele_fri account send_account = do
    query_change (Change.delete_friends account send_account)
    pure tt
