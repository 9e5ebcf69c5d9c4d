-- ===== src/Chat/Group/Manager.antt =====
-- set_manager, for the owner and for other callers.
use team_c.Common.{ℕ, ◌<◌, some, ◌≡◌, refl, arith}
use team_c.Common.Int.{pos}
use team_c.Common.Text.{CStr}
use team_c.Common.Search.{find, modify_first}
use team_c.Common.Search.Count.{
  count, find-some_of_count, find-none_of_count, count-modify_first, find-modify_first, find-passes,
}
use team_c.Chat.Msg.{Msg, MysqlGroupRelationship}
use team_c.Chat.Sql.{Env, set_member_manager}
use team_c.Chat.World.{World, done, crashed, send, execute, ◌>>=◌}
use team_c.Chat.World.Up.{IsUp, query-up}
use team_c.Chat.Group.{is_member, is_owner, make_manager, set_manager}

-- A caller of set_manager without an owner's row in the group goes through a null pointer, before
-- anything is sent or changed.
pub set_manager_crashes :
    (env : Env) (fd : ℕ) (m : Msg) (w : World)
    → count (is_owner m.to_group_name m.from_name) w.head_group_relationship ≡ 0
    → set_manager env fd m w ≡ crashed w
unfolding set_manager
set_manager_crashes env fd m w h = rw (
  find-none_of_count (is_owner m.to_group_name m.from_name) w.head_group_relationship h,
  set_manager,
)

abbrev promoted : Msg → World → World
promoted m w = record (execute (set_member_manager m.to_group_name m.to_name) w) {
  head_group_relationship =
      modify_first (is_member m.to_group_name m.to_name) make_manager w.head_group_relationship;
}

-- While the database executes every statement: a user with an owner's row in a group makes a user
-- with a row in it a manager. The call returns, the first row of the new manager has type 2, and
-- any user has as many rows in any group as before.
pub set_manager_lem :
    (env : Env) (fd : ℕ) (m : Msg) (w : World) (group user : CStr)
    → IsUp env
    → 0 < count (is_owner m.to_group_name m.from_name) w.head_group_relationship
    → 0 < count (is_member m.to_group_name m.to_name) w.head_group_relationship
    → (w' : World) × (r : MysqlGroupRelationship) × (set_manager env fd m w ≡ done w')
      × (find (is_member m.to_group_name m.to_name) w'.head_group_relationship ≡ some r)
      × (r.type ≡ pos 2)
      × (count (is_member group user) w'.head_group_relationship
          ≡ count (is_member group user) w.head_group_relationship)
unfolding set_manager ◌>>=◌
set_manager_lem env fd m w group user up owner member =
    let rows = w.head_group_relationship in
    let test = is_member m.to_group_name m.to_name in
    let (o, found_owner) = find-some_of_count (is_owner m.to_group_name m.from_name) rows owner in
    let (r, found) = find-some_of_count test rows member in
    (
      send fd m (promoted m w),
      make_manager r,
      ground (
        arith,
        found_owner,
        found,
        query-up env (set_member_manager m.to_group_name m.to_name) w up,
      ),
      find-modify_first test make_manager rows r (find-passes test rows r found) found,
      refl,
      count-modify_first test (is_member group user) make_manager rows (λ a. refl),
    )
