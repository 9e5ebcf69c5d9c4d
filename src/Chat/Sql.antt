-- ===== src/Chat/Sql.antt =====
-- The statements that epoll.c sends to MySQL, with the text that each `sprintf` builds. The client
-- library is not part of the repository: `Env` is what the server sees of it.
use team_c.Common.{Bool, List, ◌++◌}
use team_c.Common.Text.{CStr, codes}

pub data Statement : Type 0 where
  insert_user : (name nickname sex passworld telephone : CStr) → Statement
  insert_friend_request : (friendname username : CStr) → Statement
  insert_friend_accepted : (friendname username : CStr) → Statement
  delete_friend_row : (friendname username : CStr) → Statement
  clear_friend_status : (friendname username : CStr) → Statement
  set_friend_status : (friendname username : CStr) → Statement
  insert_chat_offline : (news to from time : CStr) → Statement
  insert_chat_online : (news to from time : CStr) → Statement
  insert_group_offline : (news to from group time : CStr) → Statement
  insert_group_online : (news to from group time : CStr) → Statement
  insert_group : (name owner : CStr) → Statement
  delete_group : (name : CStr) → Statement
  insert_owner : (group user : CStr) → Statement
  insert_member : (group user : CStr) → Statement
  delete_member : (group user : CStr) → Statement
  delete_members : (group : CStr) → Statement
  set_member_manager : (group user : CStr) → Statement

-- "'%s','%s'", as the statements below join their arguments.
infixr 66 ◌<>◌
abbrev ◌<>◌ : CStr → CStr → CStr
a <> b = a ++ (codes "','" ++ b)

abbrev where_friend : CStr → CStr → CStr
where_friend f u =
    codes " where f_friendname = '" ++ (f ++ (codes "' and f_username = '" ++ (u ++ codes "'")))

abbrev where_member : CStr → CStr → CStr
where_member g u =
    codes " where group_name = '" ++ (g ++ (codes "' and user_name = '" ++ (u ++ codes "'")))

-- The text of a statement, as `sprintf` leaves it in `str`.
unfoldable pub render : Statement → CStr
render (insert_user n k s p t) =
    codes "insert into user values(NULL, '" ++ ((n <> k <> s <> p <> t) ++ codes "')")
render (insert_friend_request f u) =
    codes "insert into friend values(NULL,'" ++ ((f <> u) ++ codes "', 1, 0)")
render (insert_friend_accepted f u) =
    codes "insert into friend values(NULL,'" ++ ((f <> u) ++ codes "',1,1)")
render (delete_friend_row f u) = codes "delete from friend" ++ where_friend f u
render (clear_friend_status f u) = codes "update friend set status = 0" ++ where_friend f u
render (set_friend_status f u) = codes "update friend set status = 1" ++ where_friend f u
render (insert_chat_offline n t f d) =
    codes "insert into chat_record values(NULL,'"
    ++ ((n <> t <> f) ++ (codes "',0,'" ++ (d ++ codes "')")))
render (insert_chat_online n t f d) =
    codes "insert into chat_record values(NULL,'"
    ++ ((n <> t <> f) ++ (codes "',1,'" ++ (d ++ codes "')")))
render (insert_group_offline n t f g d) =
    codes "insert into group_record values(NULL,'"
    ++ ((n <> t <> f <> g) ++ (codes "',0,'" ++ (d ++ codes "')")))
render (insert_group_online n t f g d) =
    codes "insert into group_record values(NULL,'"
    ++ ((n <> t <> f <> g) ++ (codes "',1,'" ++ (d ++ codes "')")))
render (insert_group n o) = codes "insert into user_groups values('" ++ ((n <> o) ++ codes "')")
render (delete_group n) = codes "delete from user_groups where name = '" ++ (n ++ codes "'")
render (insert_owner g u) =
    codes "insert into group_relationship values('" ++ ((g <> u) ++ codes "',1)")
render (insert_member g u) =
    codes "insert into group_relationship values('" ++ ((g <> u) ++ codes "',3)")
render (delete_member g u) = codes "delete from group_relationship" ++ where_member g u
render (delete_members g) =
    codes "delete from group_relationship where group_name = '" ++ (g ++ codes "'")
render (set_member_manager g u) =
    codes "update group_relationship set user_type = 2" ++ where_member g u

-- What the server depends on and does not implement.
pub record Env : Type 0 where
  -- mysql_real_query after the statements that have been executed: true for a nonzero result.
  pub mysql_real_query : List Statement → CStr → Bool
  -- mysql_init: true for NULL.
  pub mysql_init : List Statement → Bool
  -- The string in a field of fresh memory from malloc that is not initialised.
  pub malloc_bytes : CStr
