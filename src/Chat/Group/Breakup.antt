-- ===== src/Chat/Group/Breakup.antt =====
-- break_group by the owner, by whether the first row of the relations is one of the group's.
use team_c.Common.{
  ℕ, ◌≤◌, true, false, some, none, ◌≡◌, refl, sym, append_assoc, ap, List, [], ◌∷◌, ◌++◌, arith,
}
use team_c.Common.Text.{CStr, streq_refl}
use team_c.Common.Search.{find, delete_first}
use team_c.Common.Search.Count.{count, find-delete_first_unique}
use team_c.Chat.Msg.{Msg, MysqlUserGroups, MysqlGroupRelationship}
use team_c.Chat.Sql.{Env, delete_group, delete_members}
use team_c.Chat.World.{World, done, crashed, send, execute, ◌>>=◌}
use team_c.Chat.World.Up.{IsUp, query-up}
use team_c.Chat.Group.{is_group, in_group, break_group}
use team_c.Chat.Group.Members.{outside, remove_members-outside, remove_members-freed}

-- The state after the two statements and the deletion of the group, and then with other rows.
abbrev broken : CStr → World → List MysqlGroupRelationship → World
broken name w rows =
    let w1 = execute (delete_group name) w in
    record (execute (delete_members name)
      (record w1 { head_user_groups = delete_first (is_group name) w1.head_user_groups })) {
        head_group_relationship = rows;
      }

module _ (env : Env) (up : IsUp env) (fd : ℕ) (m : Msg) (w : World) (g : MysqlUserGroups)
    (exists : find (is_group m.to_group_name) w.head_user_groups ≡ some g)
    (owner : g.owner ≡ m.from_name) (r : MysqlGroupRelationship)
    (rest : List MysqlGroupRelationship) (rows : w.head_group_relationship ≡ r ∷ rest) where
  break_group-outside :
      in_group m.to_group_name r ≡ false
      → break_group env fd m w
        ≡ done (send fd m (broken m.to_group_name w (outside m.to_group_name (r ∷ rest))))
  unfolding break_group ◌>>=◌
  break_group-outside other = ground (
    arith,
    exists,
    owner,
    streq_refl m.from_name,
    rows,
    query-up env (delete_group m.to_group_name) w up,
    query-up env (delete_members m.to_group_name)
        (record (execute (delete_group m.to_group_name) w) {
          head_user_groups = delete_first (is_group m.to_group_name) w.head_user_groups;
        })
        up,
    remove_members-outside m.to_group_name r rest other,
  )

  break_group-freed :
      in_group m.to_group_name r ≡ true
      → break_group env fd m w ≡ crashed (broken m.to_group_name w rest)
  unfolding break_group ◌>>=◌
  break_group-freed hit = ground (
    arith,
    exists,
    owner,
    streq_refl m.from_name,
    rows,
    query-up env (delete_group m.to_group_name) w up,
    query-up env (delete_members m.to_group_name)
        (record (execute (delete_group m.to_group_name) w) {
          head_user_groups = delete_first (is_group m.to_group_name) w.head_user_groups;
        })
        up,
    remove_members-freed m.to_group_name r rest hit,
  )

-- While the database executes every statement: the owner breaks up a group, whose name no other
-- group has, and the first row of the relations is of another group. The call returns, no group of
-- that name is found, the rows of the other groups are left in their order and no row of this one,
-- and the owner is sent the message back.
pub break_group_lem :
    (env : Env) (fd : ℕ) (m : Msg) (w : World) (g : MysqlUserGroups) (r : MysqlGroupRelationship)
    (rest : List MysqlGroupRelationship)
    → IsUp env
    → find (is_group m.to_group_name) w.head_user_groups ≡ some g
    → g.owner ≡ m.from_name
    → count (is_group m.to_group_name) w.head_user_groups ≤ 1
    → w.head_group_relationship ≡ r ∷ rest
    → in_group m.to_group_name r ≡ false
    → (w' : World) × (break_group env fd m w ≡ done w')
      × (find (is_group m.to_group_name) w'.head_user_groups ≡ none)
      × (w'.head_group_relationship ≡ outside m.to_group_name w.head_group_relationship)
      × (w'.sent ≡ w.sent ++ (fd, m) ∷ [])
break_group_lem env fd m w g r rest up exists owner one rows other = (
  send fd m (broken m.to_group_name w (outside m.to_group_name (r ∷ rest))),
  break_group-outside env up fd m w g exists owner r rest rows other,
  find-delete_first_unique (is_group m.to_group_name) w.head_user_groups one,
  ap (outside m.to_group_name) (sym rows),
  refl,
)

-- While the database executes every statement: the owner breaks up a group, and the first row of
-- the relations is of this group. The call reads that row after it was freed. The statements that
-- delete the group and its rows have been executed by then, and nothing has been sent.
pub break_group_crashes :
    (env : Env) (fd : ℕ) (m : Msg) (w : World) (g : MysqlUserGroups) (r : MysqlGroupRelationship)
    (rest : List MysqlGroupRelationship)
    → IsUp env
    → find (is_group m.to_group_name) w.head_user_groups ≡ some g
    → g.owner ≡ m.from_name
    → w.head_group_relationship ≡ r ∷ rest
    → in_group m.to_group_name r ≡ true
    → (w' : World) × (break_group env fd m w ≡ crashed w')
      × (w'.executed
          ≡ w.executed ++ delete_group m.to_group_name ∷ delete_members m.to_group_name ∷ [])
      × (w'.sent ≡ w.sent)
break_group_crashes env fd m w g r rest up exists owner rows hit = (
  broken m.to_group_name w rest,
  break_group-freed env up fd m w g exists owner r rest rows hit,
  append_assoc w.executed _ _,
  refl,
)
