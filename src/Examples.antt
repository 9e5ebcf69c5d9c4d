-- ===== src/Examples.antt =====
-- Concrete inputs: a small town of users and groups, a database that executes everything, and
-- messages. The children hold the theorems at these inputs, and tests.
pub mod Accounts
pub mod Files
pub mod Friends
pub mod Groups
pub mod Joining
pub mod Mirrors
pub mod Pools
pub mod Serving
pub mod Shells
pub mod Rooms
pub mod Listings
pub mod Waiting
pub mod Texts
use team_c.Common.{ℕ, false, ◌≢◌, refl, List, [], ◌∷◌, arith}
use team_c.Common.Int.{ℤ, pos}
use team_c.Common.Text.{CStr, codes}
use team_c.Chat.Msg.{
  Msg, MysqlUser, MysqlFriend, MysqlUserGroups, MysqlGroupRelationship, YonghuInfor,
}
use team_c.Chat.Sql.{Env}
use team_c.Chat.World.{World, UserDate}
use team_c.Chat.World.Up.{IsUp}

abbrev pub up_env : Env
up_env = record {
  mysql_real_query = λ l s. false;
  mysql_init = λ l. false;
  malloc_bytes = codes "junk";
}

pub up_env-IsUp : IsUp up_env
up_env-IsUp = (λ l s. refl, λ l. refl)

abbrev pub ann : CStr
ann = codes "ann"

abbrev pub bob : CStr
bob = codes "bob"

abbrev pub cat : CStr
cat = codes "cat"

abbrev pub chess : CStr
chess = codes "chess"

abbrev pub tea : CStr
tea = codes "tea"

-- A message of a user to a user, about a group, with a number.
abbrev pub message : ℕ → CStr → CStr → CStr → Msg
message cmd from to group = record {
  user_infor = record {
    name = from;
    login_id = [];
    nickname = [];
    sex = codes "f";
    password = codes "pw";
    telephone = codes "123";
  };
  to_name = to;
  to_group_name = group;
  from_name = from;
  time = [];
  group = record { group_name = group; group_owner = from; member_num = pos 0 };
  news = codes "hi";
  file_len = pos 0;
  once_len = pos 0;
  file_path = [];
  file_name = [];
  send_end = pos 0;
  friend_num = pos 0;
  friend_name = [];
  cmd = pos cmd;
  msg_type = pos 0;
}

abbrev pub user : CStr → MysqlUser
user name = record {
  u_name = name;
  u_nickname = [];
  u_sex = codes "f";
  u_passworld = codes "pw";
  telephone = codes "123";
}

abbrev pub row : CStr → CStr → ℕ → MysqlFriend
row friend name status = record {
  f_friendname = friend;
  f_username = name;
  type = pos 1;
  status = pos status;
}

abbrev pub group : CStr → CStr → MysqlUserGroups
group name owner = record { name = name; owner = owner }

abbrev pub member : CStr → CStr → ℕ → MysqlGroupRelationship
member name who type = record { group_name = name; user_name = who; type = pos type }

abbrev pub at : CStr → ℕ → UserDate
at name socket = record { name = name; socket = socket }

-- ann owns the tea group, where bob is a member; cat owns the chess group. bob is online.
abbrev pub town : World
town = record {
  head_user = user ann ∷ user bob ∷ [];
  head_friends = [];
  head_user_groups = group tea ann ∷ [];
  head_group_relationship = member chess cat 1 ∷ member tea ann 1 ∷ member tea bob 3 ∷ [];
  head = at bob 5 ∷ [];
  head_request = record { from_name = bob; to_name = ann; to_group_name = []; type = b'f' } ∷ [];
  sent = [];
  executed = [];
}

pub ann-ne-bob : ann ≢ bob
ann-ne-bob e = ground arith
