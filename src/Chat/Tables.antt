-- ===== src/Chat/Tables.antt =====
-- What the server reads at its start: read_mysql_user, read_mysql_friend, read_mysql_user_groups and
-- read_mysql_group_relationship of epoll.c, and free_list. A row is the list of its columns.
use team_c.Common.{
  ℕ, ◌+◌, ◌-◌, ◌*◌, ◌==◌, ltb, not, ◌&&◌, ◌||◌, Bool, true, false, List, [], ◌∷◌, if◌then◌else◌,
}
use team_c.Common.Int.{ℤ, pos, negsuc}
use team_c.Common.Text.{CStr}
use team_c.Chat.Msg.{MysqlUser, MysqlFriend, MysqlUserGroups, MysqlGroupRelationship}
use team_c.Chat.Account.{sex_text}
use team_c.Chat.World.{weicha_list}

-- atol: blanks, a sign, digits. Values outside of `int` are not modelled.
abbrev is_digit : ℕ → Bool
is_digit c = not (ltb c b'0') && not (ltb b'9' c)

unfoldable pub digits_value : ℕ → CStr → ℕ
digits_value acc [] = acc
digits_value acc (c ∷ cs) = elim (is_digit c) [
  | true ↦ digits_value (acc * 10 + (c - b'0')) cs
  | false ↦ acc
]

abbrev negate : ℕ → ℤ
negate n = if n == 0 then pos 0 else negsuc (n - 1)

unfoldable pub atol : CStr → ℤ
unfolding digits_value
atol [] = pos 0
atol (c ∷ cs) = elim (c == b' ' || (ltb 8 c && ltb c 14)) [
  | true ↦ atol cs
  | false ↦
      if c == b'-'
      then negate (digits_value 0 cs)
      else if c == b'+'
      then pos (digits_value 0 cs)
      else pos (digits_value 0 (c ∷ cs))
]

-- The columns of a row, by the names of the tables.
pub record UserRow : Type 0 where
  pub name : CStr
  pub nickname : CStr
  pub sex : CStr
  pub passworld : CStr
  pub telephone : CStr

pub record FriendRow : Type 0 where
  pub friendname : CStr
  pub username : CStr
  pub type : CStr
  pub status : CStr

pub record GroupRow : Type 0 where
  pub name : CStr
  pub owner : CStr

pub record RelationRow : Type 0 where
  pub group_name : CStr
  pub user_name : CStr
  pub type : CStr

abbrev pub user_node : UserRow → MysqlUser
user_node row = record {
  u_name = row.name;
  u_nickname = row.nickname;
  u_sex = sex_text row.sex row.passworld;
  u_passworld = row.passworld;
  telephone = row.telephone;
}

abbrev pub friend_row_node : FriendRow → MysqlFriend
friend_row_node row = record {
  f_friendname = row.friendname;
  f_username = row.username;
  type = atol row.type;
  status = atol row.status;
}

abbrev pub group_row_node : GroupRow → MysqlUserGroups
group_row_node row = record { name = row.name; owner = row.owner }

abbrev pub relation_node : RelationRow → MysqlGroupRelationship
relation_node row = record {
  group_name = row.group_name;
  user_name = row.user_name;
  type = atol row.type;
}

-- The loop that the four functions share: each row makes a node, linked behind the last one
-- (`current`), or at the head of an empty list.
unfoldable pub read_rows {ℓ κ} : {R : Type ℓ} {A : Type κ} → (R → A) → List A → List R → List A
read_rows node linked [] = linked
read_rows node linked (row ∷ rest) = read_rows node (weicha_list linked (node row)) rest

unfoldable pub read_mysql_user : List UserRow → List MysqlUser
read_mysql_user = read_rows user_node []

unfoldable pub read_mysql_friend : List FriendRow → List MysqlFriend
read_mysql_friend = read_rows friend_row_node []

unfoldable pub read_mysql_user_groups : List GroupRow → List MysqlUserGroups
read_mysql_user_groups = read_rows group_row_node []

unfoldable pub read_mysql_group_relationship : List RelationRow → List MysqlGroupRelationship
read_mysql_group_relationship = read_rows relation_node []

-- free_list: the list is unlinked from its head, node by node.
unfoldable pub free_list {ℓ} : {A : Type ℓ} → List A → List A
free_list [] = []
free_list (node ∷ rest) = free_list rest
