-- ===== src/Chat/Group/Quit.antt =====
-- quit_group, and view_group_member after it.
use team_c.Common.{ℕ, not, some, none, ◌≡◌, ◌≢◌, ap, ◌∙◌, arith}
use team_c.Common.Int.{pos}
use team_c.Common.Text.{CStr, streq_iff}
use team_c.Common.Search.{find, delete_first}
use team_c.Common.Search.Count.{
  count, find-some_of_count, find-delete_first_unique, delete_first-eq-filter,
}
use team_c.Chat.Msg.{Msg, MysqlUserGroups, MysqlGroupRelationship, set_cmd}
use team_c.Chat.Sql.{Env, delete_member}
use team_c.Chat.World.{World, RequestNode, done, send, execute, ◌>>=◌}
use team_c.Chat.World.Tables.{Tables, tables}
use team_c.Common.Lists.{filter}
use team_c.Chat.World.Up.{IsUp, query-up}
use team_c.Chat.Friend.{notify}
use team_c.Chat.Group.{is_group, is_member, quit_group, leave_group, view_group_member}

-- The message with the owner in it, the request for an owner who is not online, and the state at
-- the end.
abbrev to_owner : CStr → Msg → Msg
to_owner owner m = record m { to_name = owner }

abbrev quit_node : CStr → Msg → RequestNode
quit_node owner m = record {
  from_name = m.from_name;
  to_name = owner;
  to_group_name = m.to_group_name;
  type = b'q';
}

abbrev without_member : Msg → World → World
without_member m w = record (execute (delete_member m.to_group_name m.from_name) w) {
  head_group_relationship =
      delete_first (is_member m.to_group_name m.from_name) w.head_group_relationship;
}

abbrev after_quit : ℕ → CStr → Msg → World → World
after_quit fd owner m w =
    notify owner (quit_node owner m) (set_cmd (pos 24) (to_owner owner m))
      (send fd (set_cmd (pos 243) (to_owner owner m)) (without_member m w))

tables-after_quit :
    (fd : ℕ) (owner : CStr) (m : Msg) (w : World)
    → tables (after_quit fd owner m w) ≡ tables (without_member m w)
unfolding notify
tables-after_quit fd owner m w = ground arith

quit_group-up :
    (env : Env) (fd : ℕ) (m : Msg) (w : World) (g : MysqlUserGroups) (r : MysqlGroupRelationship)
    → IsUp env
    → find (is_group m.to_group_name) w.head_user_groups ≡ some g
    → g.owner ≢ m.from_name
    → find (is_member m.to_group_name m.from_name) w.head_group_relationship ≡ some r
    → quit_group env fd m w ≡ done (after_quit fd g.owner m w)
unfolding quit_group leave_group ◌>>=◌
quit_group-up env fd m w g r up exists other member = ground (
  arith,
  exists,
  streq_iff g.owner m.from_name,
  member,
  query-up env (delete_member m.to_group_name m.from_name) w up,
)

-- While the database executes every statement: a member with one row in an existing group, who is
-- not its owner, quits. The call returns, the rows of the relations are left without the member's,
-- in their order, and a request of the former member for the list of members is refused, by number
-- 2511.
pub quit_group_lem :
    (env : Env) (fd fd' : ℕ) (m m' : Msg) (w : World) (g : MysqlUserGroups)
    → IsUp env
    → find (is_group m.to_group_name) w.head_user_groups ≡ some g
    → g.owner ≢ m.from_name
    → count (is_member m.to_group_name m.from_name) w.head_group_relationship ≡ 1
    → m'.to_group_name ≡ m.to_group_name
    → m'.from_name ≡ m.from_name
    → (w' : World) × (quit_group env fd m w ≡ done w')
      × (view_group_member fd' m' w' ≡ done (send fd' (set_cmd (pos 2511) m') w'))
      × (w'.head_group_relationship
          ≡ filter (λ r. not (is_member m.to_group_name m.from_name r)) w.head_group_relationship)
unfolding view_group_member
quit_group_lem env fd fd' m m' w g up exists other one group user =
    let test = is_member m.to_group_name m.from_name in
    let rows = w.head_group_relationship in
    let (r, member) = find-some_of_count test rows (omega arith) in
    let w' = after_quit fd g.owner m w in
    let same = tables-after_quit fd g.owner m w in
    let gone : find test (delete_first test rows) ≡ none =
      find-delete_first_unique test rows (omega arith) in
    (
      w',
      quit_group-up env fd m w g r up exists other member,
      rw (group, user)
          (ground (
            arith,
            ap (λ (t : Tables). t.relations) same,
            ap (λ (t : Tables). t.groups) same,
            exists,
            gone,
          )),
      ap (λ (t : Tables). t.relations) same ∙ delete_first-eq-filter test rows (omega arith),
    )
