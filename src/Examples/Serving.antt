-- ===== src/Examples/Serving.antt =====
-- The theorems about the whole server at concrete inputs.
use team_c.Common.{◌≤◌, refl, List, [], ◌∷◌, arith, inl, inr}
use team_c.Common.Int.{pos}
use team_c.Common.Text.{CStr, codes, streq_iff}
use team_c.Common.Search.Count.{count}
use team_c.Chat.World.{state}
use team_c.Chat.World.Tables.{tables}
use team_c.Chat.Server.{Readable, serve, start}
use team_c.Chat.Tables.{UserRow, FriendRow, GroupRow, RelationRow}
use team_c.Chat.Server.Start.{serve-start-IsConsistent, is_user_row, is_pair_row, is_group_row}
use team_c.Chat.Invariant.{IsConsistent}
use team_c.Chat.Invariant.ServerKeys.{serve-IsConsistent}
use team_c.Examples.{up_env, ann, bob, tea, message, town}

-- ann registers, makes the tea group and hangs up.
abbrev events : List Readable
events =
    record { fd = 4; len = pos 1776; message = message 1 ann bob tea; incoming = [] }
    ∷ record { fd = 4; len = pos 1776; message = message 5 ann bob tea; incoming = [] }
    ∷ record { fd = 4; len = pos 0; message = message 5 ann bob tea; incoming = [] }
    ∷ []

pub town-IsConsistent : IsConsistent (tables town)
unfolding count
town-IsConsistent = record {
  users = λ name. ground (arith, streq_iff ann name, streq_iff bob name);
  friends = λ friend name. omega arith;
  groups = λ name. ground arith;
  statuses = refl;
}

serve-IsConsistent_example : IsConsistent (tables (state (serve up_env events town)))
serve-IsConsistent_example = serve-IsConsistent up_env events town town-IsConsistent

-- A database with two users who are friends, and a request that is pending.
abbrev user_rows : List UserRow
user_rows =
    record {
      name = ann;
      nickname = [];
      sex = codes "f";
      passworld = codes "pw";
      telephone = codes "123";
    }
    ∷ record {
      name = bob;
      nickname = [];
      sex = codes "m";
      passworld = codes "pw";
      telephone = codes "456";
    }
    ∷ []

abbrev friend_rows : List FriendRow
friend_rows =
    record { friendname = bob; username = ann; type = codes "1"; status = codes "1" }
    ∷ record { friendname = ann; username = bob; type = codes "1"; status = codes "0" }
    ∷ []

abbrev group_rows : List GroupRow
group_rows = record { name = tea; owner = ann } ∷ []

abbrev relation_rows : List RelationRow
relation_rows = record { group_name = tea; user_name = ann; type = codes "1" } ∷ []

one_user : (name : CStr) → count (is_user_row name) user_rows ≤ 1
unfolding count
one_user name = ground (arith, streq_iff ann name, streq_iff bob name)

one_pair : (friend user : CStr) → count (is_pair_row friend user) friend_rows ≤ 1
unfolding count
one_pair friend user = ground (arith, streq_iff bob friend, streq_iff ann friend)

one_group : (name : CStr) → count (is_group_row name) group_rows ≤ 1
unfolding count
one_group name = ground arith

serve-start-IsConsistent_example :
    IsConsistent
      (tables (state (serve up_env events (start user_rows friend_rows group_rows relation_rows))))
serve-start-IsConsistent_example =
    serve-start-IsConsistent user_rows friend_rows group_rows relation_rows up_env events one_user
      one_pair one_group (inr refl, (inl refl, tt))

-- bob, a member of the tea group who is not its owner, makes ann a manager.
abbrev bob_promotes : Readable
bob_promotes = record { fd = 5; len = pos 1776; message = message 253 bob ann tea; incoming = [] }
