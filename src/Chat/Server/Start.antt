-- ===== src/Chat/Server/Start.antt =====
-- The start of main: the tables that are read, and a run from there.
use team_c.Common.{
  ◌≤◌, Bool, false, ◌≡◌, refl, sym, ◌∙◌, List, [], ◌∷◌, ◌++◌, map, append-nil, append_assoc, arith,
  ◌⊎◌, inl, inr, ◌&&◌,
}
use mathlib.Core.Path.{subst}
use team_c.Common.Lists.{All}
use team_c.Common.Search.Count.{count}
use team_c.Common.Text.{CStr, codes, streq}
use team_c.Chat.World.{state}
use team_c.Chat.World.Tables.{tables, weicha_list-eq-append}
use team_c.Chat.World.{weicha_list}
use team_c.Chat.Sql.{Env}
use team_c.Chat.Tables.{
  UserRow, FriendRow, GroupRow, RelationRow, user_node, friend_row_node, group_row_node,
  relation_node, read_rows, read_mysql_user, read_mysql_friend, read_mysql_user_groups,
  read_mysql_group_relationship, atol, digits_value,
}
use team_c.Chat.Server.{Readable, serve, start}
use team_c.Chat.Account.{is_named}
use team_c.Chat.Friend.{is_row}
use team_c.Chat.Group.{is_group}
use team_c.Chat.Invariant.{IsConsistent, has_other_status}
use team_c.Chat.Invariant.ServerKeys.{serve-IsConsistent}

read_rows-eq-map {ℓ κ} :
    {R : Type ℓ} {A : Type κ} (node : R → A) (linked : List A) (rows : List R)
    → read_rows node linked rows ≡ linked ++ map node rows
unfolding read_rows
read_rows-eq-map node linked [] = rw append-nil
read_rows-eq-map node linked (row ∷ rest) =
    read_rows-eq-map node (weicha_list linked (node row)) rest
    ∙ rw (weicha_list-eq-append linked (node row), append_assoc) refl

-- The server starts with one node for each row of the four tables, in the order of the rows.
pub tables-start :
    (users : List UserRow) (friends : List FriendRow) (groups : List GroupRow)
    (relations : List RelationRow)
    → tables (start users friends groups relations) ≡ record {
      users = map user_node users;
      friends = map friend_row_node friends;
      groups = map group_row_node groups;
      relations = map relation_node relations;
    }
unfolding start read_mysql_user read_mysql_friend read_mysql_user_groups
    read_mysql_group_relationship
tables-start users friends groups relations = rw (
  read_rows-eq-map user_node [] users,
  read_rows-eq-map friend_row_node [] friends,
  read_rows-eq-map group_row_node [] groups,
  read_rows-eq-map relation_node [] relations,
)

count-map {ℓ κ} :
    {R : Type ℓ} {A : Type κ} (test : A → Bool) (node : R → A) (rows : List R)
    → count test (map node rows) ≡ count (λ row. test (node row)) rows
unfolding count
count-map test node [] = refl
count-map test node (row ∷ rest) = ground (arith, count-map test node rest)

-- The tests of the keys, and of the column `status`, on the rows of the database.
abbrev pub is_user_row : CStr → UserRow → Bool
is_user_row name row = streq row.name name

abbrev pub is_pair_row : CStr → CStr → FriendRow → Bool
is_pair_row friend user row = streq row.friendname friend && streq row.username user

abbrev pub is_group_row : CStr → GroupRow → Bool
is_group_row name row = streq row.name name

abbrev pub HasStatus : FriendRow → Type 0
HasStatus row = (row.status ≡ codes "0") ⊎ (row.status ≡ codes "1")

status_of_row : (row : FriendRow) → HasStatus row → has_other_status (friend_row_node row) ≡ false
unfolding atol digits_value
status_of_row row (inl e) = rw e refl
status_of_row row (inr e) = rw e refl

no_other_status :
    (rows : List FriendRow)
    → All HasStatus rows
    → count (λ row. has_other_status (friend_row_node row)) rows ≡ 0
unfolding count
no_other_status [] h = refl
no_other_status (row ∷ rest) h = rw (status_of_row row h.0) (no_other_status rest h.1)

-- The server is started on a database whose users have different names, whose groups have different
-- names, where no pair of users has two friend rows, and every status is 0 or 1. Then its tables
-- are consistent after any sequence of messages, whatever the database answers, also when it ends
-- by exit or by a fault.
pub serve-start-IsConsistent :
    (users : List UserRow) (friends : List FriendRow) (groups : List GroupRow)
    (relations : List RelationRow) (env : Env) (events : List Readable)
    → ((name : CStr) → count (is_user_row name) users ≤ 1)
    → ((friend user : CStr) → count (is_pair_row friend user) friends ≤ 1)
    → ((name : CStr) → count (is_group_row name) groups ≤ 1)
    → All HasStatus friends
    → IsConsistent (tables (state (serve env events (start users friends groups relations))))
serve-start-IsConsistent users friends groups relations env events us fs gs status =
    serve-IsConsistent env events (start users friends groups relations) (
      subst IsConsistent (sym (tables-start users friends groups relations)) (record {
        users = λ name. rw (count-map (is_named name) user_node users) (us name);
        friends = λ friend user.
            rw (count-map (is_row friend user) friend_row_node friends) (fs friend user);
        groups = λ name. rw (count-map (is_group name) group_row_node groups) (gs name);
        statuses =
            rw (count-map has_other_status friend_row_node friends)
              (no_other_status friends status);
      }))
