-- ===== src/Chat/Msg.antt =====
-- The message of chat.h, which a client sends and the server fills in and sends back, and the rows
-- of the tables. A `char` array is the C string in it, an `int` is a signed integer.
use team_c.Common.Int.{ℤ}
use team_c.Common.Text.{CStr}

-- struct yonghu_infor
pub record YonghuInfor : Type 0 where
  pub name : CStr
  pub login_id : CStr
  pub nickname : CStr
  pub sex : CStr
  pub password : CStr
  pub telephone : CStr

-- struct group
pub record GroupInfor : Type 0 where
  pub group_name : CStr
  pub group_owner : CStr
  pub member_num : ℤ

-- MSG; the field `type` is `msg_type` here.
pub record Msg : Type 0 where
  pub user_infor : YonghuInfor
  pub to_name : CStr
  pub to_group_name : CStr
  pub from_name : CStr
  pub time : CStr
  pub group : GroupInfor
  pub news : CStr
  pub file_len : ℤ
  pub once_len : ℤ
  pub file_path : CStr
  pub file_name : CStr
  pub send_end : ℤ
  pub friend_num : ℤ
  pub friend_name : CStr
  pub cmd : ℤ
  pub msg_type : ℤ

-- mysql_user
pub record MysqlUser : Type 0 where
  pub u_name : CStr
  pub u_nickname : CStr
  pub u_sex : CStr
  pub u_passworld : CStr
  pub telephone : CStr

-- mysql_user_groups
pub record MysqlUserGroups : Type 0 where
  pub name : CStr
  pub owner : CStr

-- mysql_friend
pub record MysqlFriend : Type 0 where
  pub f_friendname : CStr
  pub f_username : CStr
  pub type : ℤ
  pub status : ℤ

-- mysql_group_relationship
pub record MysqlGroupRelationship : Type 0 where
  pub group_name : CStr
  pub user_name : CStr
  pub type : ℤ

-- message->cmd = c
abbrev pub set_cmd : ℤ → Msg → Msg
set_cmd c m = record m { cmd = c }
