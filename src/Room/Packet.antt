-- ===== src/Room/Packet.antt =====
-- The structs of dfi.h in Code/liuting1/chatroom, the rows of the tables that MYSQL.c asks for, and
-- its statements. The columns are what atoi makes of them. An array with its length is a list.
use team_c.Common.Int.{ℤ}
use team_c.Common.Text.{CStr}

-- PACK, without the field time, which the server never reads.
pub record Pack : Type 0 where
  pub type : ℤ
  pub account : ℤ
  pub send_name : CStr
  pub send_account : ℤ
  pub mes : CStr
  pub mes2 : CStr

-- A row of user: id, name, passwd, online, sock_fd.
pub record Person : Type 0 where
  pub id : ℤ
  pub name : CStr
  pub passwd : CStr
  pub online : ℤ
  pub sock_fd : ℤ

-- A row of friends.
pub record Friendship : Type 0 where
  pub id1 : ℤ
  pub id2 : ℤ

-- A row of chat_fri, and a row of chat_group, whose columns are group_id, group_member and mes.
pub record Chatting : Type 0 where
  pub id1 : ℤ
  pub id2 : ℤ
  pub mes : CStr

-- A row of groups.
pub record Club : Type 0 where
  pub id : ℤ
  pub account : ℤ
  pub group_name : CStr

-- A row of g_meber.
pub record Member : Type 0 where
  pub group_id : ℤ
  pub group_member : ℤ
  pub member_flag : ℤ

-- The statements that change a table.
pub data Change : Type 0 where
  update_online : ℤ → ℤ → ℤ → Change
  update_offline : ℤ → Change
  update_all_offline : Change
  insert_user : CStr → CStr → Change
  update_passwd : CStr → ℤ → Change
  insert_friends : ℤ → ℤ → Change
  delete_friends : ℤ → ℤ → Change
  insert_chat_fri : ℤ → ℤ → CStr → Change
  insert_groups : ℤ → CStr → Change
  insert_g_meber : ℤ → ℤ → ℤ → Change
  delete_g_meber : ℤ → ℤ → Change
  delete_all_g_meber : ℤ → Change
  delete_groups : ℤ → Change
  insert_chat_group : ℤ → ℤ → CStr → Change
  update_member_flag : ℤ → ℤ → Change

-- The conditions behind `where`.
pub data PersonQuery : Type 0 where
  with_id : ℤ → PersonQuery
  with_id_online : ℤ → PersonQuery

pub data FriendQuery : Type 0 where
  between : ℤ → ℤ → FriendQuery
  of_user : ℤ → FriendQuery

pub data ClubQuery : Type 0 where
  numbered : ℤ → ClubQuery
  owned : ℤ → ℤ → ClubQuery

pub data MemberQuery : Type 0 where
  who : ℤ → ℤ → MemberQuery
  in_club : ℤ → MemberQuery
  who_flagged : ℤ → ℤ → MemberQuery
