-- ===== src/Room/Mysql/Answers.antt =====
-- The functions of MYSQL.c (Code/liuting1/chatroom) where the database answers.
use team_c.Common.{true, false, ◌≡◌, refl, some, List}
use team_c.Common.Int.{ℤ}
use team_c.Room.Packet.{Person, Friendship, PersonQuery, FriendQuery, Change}
use team_c.Room.Machine.{Database, ResultPtr, Server}
use team_c.Room.Mysql.{
  any_row, contact_of, socket_of, mysql_init, mysql_close, query_rows, free_result, query_freed,
  query_change, mysql_find_fd_user, mysql_find_fd, mysql_find_frirela, change_once, good,
}

abbrev pub opened : {S : Type 0} → Server S → Server S
opened s = record s { connected = true }

abbrev pub closed : {S : Type 0} → Server S → Server S
closed s = record s { connected = false }

-- Behind a select whose result is freed, and behind one whose result is not.
abbrev pub released : {S : Type 0} → Server S → Server S
released s = record s { connected = false; result = ResultPtr.freed }

abbrev pub unfreed : {S : Type 0} → Server S → Server S
unfreed s = record s { connected = false; result = ResultPtr.held }

module _ (db : Database) (s : Server db.Store) where
  pub mysql_find_fd_user_lem :
      (account : ℤ) (rows : List Person)
      → db.persons (PersonQuery.with_id account) s.store ≡ some rows
      → mysql_find_fd_user db account s ≡ some (socket_of db rows, released s)
  unfolding mysql_find_fd_user mysql_init query_freed query_rows free_result mysql_close
  mysql_find_fd_user_lem account rows q = rw (q) refl

  pub mysql_find_fd_lem :
      (account : ℤ) (rows : List Person)
      → db.persons (PersonQuery.with_id account) s.store ≡ some rows
      → mysql_find_fd db account s ≡ some (contact_of db rows, released s)
  unfolding mysql_find_fd mysql_init query_freed query_rows free_result mysql_close
  mysql_find_fd_lem account rows q = rw (q) refl

  pub mysql_find_frirela_lem :
      (id1 id2 : ℤ) (rows : List Friendship)
      → db.friendships (FriendQuery.between id1 id2) s.store ≡ some rows
      → mysql_find_frirela db id1 id2 s ≡ some (any_row (some rows), released s)
  unfolding mysql_find_frirela mysql_init query_freed query_rows free_result mysql_close
  mysql_find_frirela_lem id1 id2 rows q = rw (q) refl

  pub query_change_lem :
      (c : Change) (t : db.Store)
      → db.change c s.store ≡ some t
      → query_change db c (opened s) ≡ some (true, record (opened s) { store = t })
  unfolding query_change
  query_change_lem c t q = rw (query_change, q) refl

  pub change_once_lem :
      (c : Change) (t : db.Store)
      → db.change c s.store ≡ some t
      → change_once db c s ≡ some (good, record s { store = t; connected = false })
  unfolding change_once mysql_init mysql_close
  change_once_lem c t q = rw (change_once, query_change_lem c t q) refl
