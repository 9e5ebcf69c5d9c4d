-- ===== src/Chat/Mirror.antt =====
-- The lists in memory against the effects of the statements of epoll.c, one after the other. The
-- children have a file for the handlers of each part; Texts has the database, which reads the texts.
pub mod AccountRows
pub mod FriendRows
pub mod GroupRows
pub mod ServerRows
pub mod Texts
use team_c.Common.{
  ℕ, Bool, true, false, not, ◌≡◌, refl, ap, ◌∙◌, List, [], ◌∷◌, ◌++◌, map, arith, if◌then◌else◌,
}
use team_c.Common.Int.{ℤ, pos}
use team_c.Common.Lists.{filter}
use team_c.Common.Text.{CStr}
use team_c.Chat.Msg.{MysqlUser, MysqlFriend, MysqlUserGroups}
use team_c.Chat.Sql.{
  Env, Statement, insert_user, insert_friend_request, insert_friend_accepted, delete_friend_row,
  clear_friend_status, set_friend_status, insert_group, delete_group,
}
use team_c.Chat.World.{
  World, Outcome, done, exited, crashed, ◌>>=◌, query, execute, connect_mysql, state,
}
use team_c.Chat.World.Tables.{Tables, tables}
use team_c.Chat.Friend.{is_row, set_status}
use team_c.Chat.Friend.Rows.{friend_row}
use team_c.Chat.Group.{is_group}
use team_c.Chat.Invariant.{IsConsistent}

-- The tables user, friend and user_groups of the database, as far as the columns are read.
pub record Stored : Type 0 where
  pub users : List MysqlUser
  pub friends : List MysqlFriend
  pub groups : List MysqlUserGroups

-- `update friend set status = s where f_friendname = friend and f_username = user`
abbrev pub set_rows : ℤ → CStr → CStr → List MysqlFriend → List MysqlFriend
set_rows s friend user = map (λ f. if is_row friend user f then set_status s f else f)

-- What a statement means: an insertion adds a row, a deletion takes out all rows of its condition,
-- and an update changes all of them. The other statements are about group_relationship and the
-- records of messages. MySQL does this with texts of plain words only: see Texts.
unfoldable pub effect : Statement → Stored → Stored
effect (insert_user n k s p t) d = record d {
  users =
      d.users
      ++ record { u_name = n; u_nickname = k; u_sex = s; u_passworld = p; telephone = t } ∷ [];
}
effect (insert_friend_request f u) d = record d {
  friends = d.friends ++ friend_row f u (pos 0) ∷ [];
}
effect (insert_friend_accepted f u) d = record d {
  friends = d.friends ++ friend_row f u (pos 1) ∷ [];
}
effect (delete_friend_row f u) d = record d {
  friends = filter (λ row. not (is_row f u row)) d.friends;
}
effect (clear_friend_status f u) d = record d { friends = set_rows (pos 0) f u d.friends }
effect (set_friend_status f u) d = record d { friends = set_rows (pos 1) f u d.friends }
effect (insert_group n o) d = record d { groups = d.groups ++ record { name = n; owner = o } ∷ [] }
effect (delete_group n) d = record d { groups = filter (λ g. not (is_group n g)) d.groups }
effect _ d = d

-- The tables after a sequence of statements, oldest first, each of which does what it means.
pub record Replayed : Type 0 where
  pub stored : List Statement → Stored
  pub executes : (l : List Statement) (s : Statement) → stored (l ++ s ∷ []) ≡ effect s (stored l)

-- The three lists in memory.
abbrev pub image : World → Stored
image w = record { users = w.head_user; friends = w.head_friends; groups = w.head_user_groups }

abbrev pub IsMirror : Replayed → World → Type 0
IsMirror db w = db.stored w.executed ≡ image w

-- A property of the state in which a call returns.
unfoldable pub Returns : (World → Type 0) → Outcome → Type 0
Returns P (done w) = P w
Returns P (exited w) = Unit
Returns P (crashed w) = Unit

pub Returns-bind :
    (P Q : World → Type 0) (o : Outcome) (f : World → Outcome)
    → Returns P o
    → ((w : World) → P w → Returns Q (f w))
    → Returns Q (o >>= f)
unfolding Returns ◌>>=◌
Returns-bind P Q (done w) f h k = k w h
Returns-bind P Q (exited w) f h k = tt
Returns-bind P Q (crashed w) f h k = tt

-- The two invariants together.
abbrev pub IsSynced : Replayed → World → Type 0
IsSynced db w = IsConsistent (tables w) × IsMirror db w

pub Returns-IsSynced :
    (db : Replayed) (o : Outcome)
    → IsConsistent (tables (state o))
    → Returns (IsMirror db) o
    → Returns (IsSynced db) o
unfolding Returns
Returns-IsSynced db (done w) c h = (c, h)
Returns-IsSynced db (exited w) c h = tt
Returns-IsSynced db (crashed w) c h = tt

-- One more statement behind those whose effects are the lists.
pub stored-execute :
    (db : Replayed) (s : Statement) (w : World)
    → IsMirror db w
    → db.stored (w.executed ++ s ∷ []) ≡ effect s (image w)
stored-execute db s w h = db.executes w.executed s ∙ ap (effect s) h
