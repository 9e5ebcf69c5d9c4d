-- ===== src/Chat/Group/Creation.antt =====
-- create_group: the new group, its owner, and a second group of the name.
use team_c.Common.{ℕ, ◌<◌, some, ◌≡◌, [], ◌∷◌, arith}
use team_c.Common.Int.{pos}
use team_c.Common.Text.{streq_refl}
use team_c.Common.Search.{find}
use team_c.Common.Search.Count.{count, find-none_of_count, find-append, count-append}
use team_c.Chat.Msg.{Msg, MysqlUserGroups, MysqlGroupRelationship, set_cmd}
use team_c.Chat.Sql.{Env, insert_group, insert_owner}
use team_c.Chat.World.{World, done, send, execute, ◌>>=◌, weicha_list}
use team_c.Chat.World.Tables.{weicha_list-eq-append}
use team_c.Chat.World.Up.{IsUp, query-up}
use team_c.Chat.Group.{is_group, is_owner, create_group}

abbrev group_of : Msg → MysqlUserGroups
group_of m = record { name = m.group.group_name; owner = m.group.group_owner }

abbrev owner_row : Msg → MysqlGroupRelationship
owner_row m = record {
  group_name = m.group.group_name;
  user_name = m.group.group_owner;
  type = pos 1;
}

abbrev named : Msg → World → World
named m w = record (execute (insert_group m.group.group_name m.group.group_owner) w) {
  head_user_groups = weicha_list w.head_user_groups (group_of m);
}

abbrev created : Msg → World → World
created m w = record (execute (insert_owner m.group.group_name m.group.group_owner) (named m w)) {
  head_group_relationship = weicha_list w.head_group_relationship (owner_row m);
}

create_group-up :
    (env : Env) (fd : ℕ) (m : Msg) (w : World)
    → IsUp env
    → count (is_group m.group.group_name) w.head_user_groups ≡ 0
    → create_group env fd m w ≡ done (send fd m (created m w))
unfolding create_group ◌>>=◌
create_group-up env fd m w up new = ground (
  arith,
  find-none_of_count (is_group m.group.group_name) w.head_user_groups new,
  query-up env (insert_group m.group.group_name m.group.group_owner) w up,
  query-up env (insert_owner m.group.group_name m.group.group_owner) (named m w) up,
)

find-created :
    (m : Msg) (w : World)
    → count (is_group m.group.group_name) w.head_user_groups ≡ 0
    → find (is_group m.group.group_name) (created m w).head_user_groups ≡ some (group_of m)
unfolding find
find-created m w new = rw (weicha_list-eq-append w.head_user_groups (group_of m)) (
    ground (
      arith,
      find-append (is_group m.group.group_name) w.head_user_groups (group_of m ∷ []),
      find-none_of_count (is_group m.group.group_name) w.head_user_groups new,
      streq_refl m.group.group_name,
    ))

owner-created :
    (m : Msg) (w : World)
    → 0
      < count
          (is_owner m.group.group_name m.group.group_owner)
          (created m w).head_group_relationship
unfolding count
owner-created m w =
    let test = is_owner m.group.group_name m.group.group_owner in
    rw (weicha_list-eq-append w.head_group_relationship (owner_row m)) (
      ground (
        arith,
        count-append test w.head_group_relationship (owner_row m ∷ []),
        streq_refl m.group.group_name,
        streq_refl m.group.group_owner,
      ))

-- While the database executes every statement: a group of a new name is created. The call returns,
-- the group is found under its name with its owner, who has an owner's row in it, and whoever asks
-- for a group of that name next is refused by number 50, and nothing else changes.
pub create_group_twice :
    (env : Env) (fd fd' : ℕ) (m m' : Msg) (w : World)
    → IsUp env
    → count (is_group m.group.group_name) w.head_user_groups ≡ 0
    → m'.group.group_name ≡ m.group.group_name
    → (w' : World) × (create_group env fd m w ≡ done w')
      × (find (is_group m.group.group_name) w'.head_user_groups ≡ some (group_of m))
      × (0 < count (is_owner m.group.group_name m.group.group_owner) w'.head_group_relationship)
      × (create_group env fd' m' w' ≡ done (send fd' (set_cmd (pos 50) m') w'))
unfolding create_group
create_group_twice env fd fd' m m' w up new same =
    let there = find-created m w new in
    (
      send fd m (created m w),
      create_group-up env fd m w up new,
      there,
      owner-created m w,
      rw same (ground (arith, there)),
    )
