-- ===== src/Chat/Group.antt =====
-- Groups: create_group, view_group, view_group_member, add_group and the answers to a request to
-- join, quit_group, set_manager, break_group and public_chat of epoll.c.
pub mod Members
pub mod Breakup
pub mod Quit
pub mod Creation
pub mod Joining
pub mod Manager
pub mod Broadcast
use team_c.Common.{ℕ, Bool, true, false, not, ◌&&◌, none, some, List, [], ◌∷◌, ◌++◌, if◌then◌else◌}
use team_c.Common.Int.{pos, ◌==ℤ◌}
use team_c.Common.Text.{CStr, streq}
use team_c.Common.Search.{find, modify_first, delete_first}
use team_c.Chat.Msg.{Msg, MysqlUserGroups, MysqlGroupRelationship, set_cmd}
use team_c.Chat.Sql.{
  Env, insert_group, insert_owner, insert_member, delete_member, delete_members, delete_group,
  set_member_manager, insert_group_offline, insert_group_online,
}
use team_c.Chat.World.{
  World, Outcome, done, crashed, ◌>>=◌, RequestNode, send, query, query_unchecked, connect_mysql,
  weicha_list, send_matching,
}
use team_c.Chat.Online.{find_online}
use team_c.Chat.Friend.{notify}

abbrev pub is_group : CStr → MysqlUserGroups → Bool
is_group name g = streq g.name name

abbrev pub in_group : CStr → MysqlGroupRelationship → Bool
in_group group r = streq r.group_name group

abbrev pub is_member : CStr → CStr → MysqlGroupRelationship → Bool
is_member group user r = in_group group r && streq r.user_name user

abbrev pub is_owner : CStr → CStr → MysqlGroupRelationship → Bool
is_owner group user r = is_member group user r && (r.type ==ℤ pos 1)

abbrev pub has_user : CStr → MysqlGroupRelationship → Bool
has_user user r = streq r.user_name user

abbrev pub fill_group : MysqlGroupRelationship → Msg → Msg
fill_group r m = record m { group = record (m.group) { group_name = r.group_name } }

abbrev pub fill_member : MysqlGroupRelationship → Msg → Msg
fill_member r m = record m { to_name = r.user_name; friend_num = r.type }

unfoldable pub view_group : ℕ → Msg → World → Outcome
view_group fd m w =
    let mine = has_user m.user_infor.name in
    elim (find mine w.head_group_relationship) [
      | none ↦ done (send fd (set_cmd (pos 211) m) w)
      | some _ ↦ done (send_matching fd mine fill_group w.head_group_relationship m w)
    ]

unfoldable pub view_group_member : ℕ → Msg → World → Outcome
view_group_member fd m w = elim (find (is_group m.to_group_name) w.head_user_groups) [
  | none ↦ done (send fd (set_cmd (pos 2510) m) w)
  | some _ ↦ elim (find (is_member m.to_group_name m.from_name) w.head_group_relationship) [
    | none ↦ done (send fd (set_cmd (pos 2511) m) w)
    | some _ ↦
        done (send_matching fd (in_group m.to_group_name) fill_member w.head_group_relationship m w)
  ]
]

-- The loop of break_group. `before` is what is kept of the list in front of `current`; the inner
-- loop unlinks the first row of the group in the list as it is. If that row is `current` at the
-- head of the list it is freed, and `current->next` reads freed memory: the first result.
unfoldable pub remove_members :
    CStr
    → List MysqlGroupRelationship
    → List MysqlGroupRelationship
    → Bool × List MysqlGroupRelationship
remove_members group before [] = (false, before)
remove_members group before (current ∷ rest) = elim (in_group group current) [
  | false ↦ remove_members group (before ++ current ∷ []) rest
  | true ↦ elim (find (in_group group) before) [
    | some _ ↦ remove_members group (delete_first (in_group group) before ++ current ∷ []) rest
    | none ↦ elim before [ [] ↦ (true, rest) | b ∷ bs ↦ remove_members group (b ∷ bs) rest ]
  ]
]

-- The end of break_group: the answer, unless the loop has read freed memory.
abbrev after_break : ℕ → Msg → World → Bool × List MysqlGroupRelationship → Outcome
after_break fd m w (true, l) = crashed (record w { head_group_relationship = l })
after_break fd m w (false, l) = done (send fd m (record w { head_group_relationship = l }))

-- A member of the group of the message, and not the sender.
abbrev pub is_receiver : Msg → MysqlGroupRelationship → Bool
is_receiver m r = in_group m.to_group_name r && not (streq r.user_name m.from_name)

-- An answer that waits; the name of the group stands in `to_name` too.
unfoldable pub group_answer : ℕ → Msg → RequestNode
group_answer type m = record {
  from_name = m.from_name;
  to_name = m.to_group_name;
  to_group_name = m.to_group_name;
  type = type;
}

abbrev pub make_manager : MysqlGroupRelationship → MysqlGroupRelationship
make_manager r = record r { type = pos 2 }

unfoldable pub deal_group_request_n : ℕ → Msg → World → Outcome
unfolding group_answer
deal_group_request_n fd m w = done (notify m.from_name (group_answer b'x' m) m w)

module _ (env : Env) where
  unfoldable pub create_group : ℕ → Msg → World → Outcome
  create_group fd m w =
      let name = m.group.group_name in
      let owner = m.group.group_owner in
      elim (find (is_group name) w.head_user_groups) [
        | some _ ↦ done (send fd (set_cmd (pos 50) m) w)
        | none ↦ do
          w1 ← query env (insert_group name owner) w
          let group : MysqlUserGroups = record { name = name; owner = owner }
          w2 ←
              query env (insert_owner name owner)
                (record w1 { head_user_groups = weicha_list w1.head_user_groups group })
          let row : MysqlGroupRelationship = record {
            group_name = name;
            user_name = owner;
            type = pos 1;
          }
          done (
              send fd m (record w2 {
                head_group_relationship = weicha_list w2.head_group_relationship row;
              }))
      ]

  -- add_group: the request goes to the owner, whose name is written into the message.
  unfoldable pub add_group : ℕ → Msg → World → Outcome
  add_group fd m w = elim (find (is_member m.to_group_name m.from_name) w.head_group_relationship) [
    | some _ ↦ done (send fd (set_cmd (pos 230) m) w)
    | none ↦ elim (find (is_group m.to_group_name) w.head_user_groups) [
      | none ↦ done (send fd (set_cmd (pos 231) m) w)
      | some g ↦
          let node : RequestNode = record {
            from_name = m.from_name;
            to_name = g.owner;
            to_group_name = env.malloc_bytes;
            type = b'g';
          } in
          done (notify g.owner node (record m { to_name = g.owner }) w)
    ]
  ]

  -- deal_group_request_y: a failed insertion is not noticed, and the row is linked all the same.
  unfoldable pub deal_group_request_y : ℕ → Msg → World → Outcome
  unfolding group_answer
  deal_group_request_y fd m w =
      let w1 = query_unchecked env (insert_member m.to_group_name m.from_name) w in
      let row : MysqlGroupRelationship = record {
        group_name = m.to_group_name;
        user_name = m.from_name;
        type = pos 3;
      } in
      let w2 = record w1 { head_group_relationship = weicha_list w1.head_group_relationship row } in
      done (notify m.from_name (group_answer b'o' m) m w2)

  -- The end of quit_group, for a member who is not the owner; `m` has the owner in `to_name`.
  unfoldable pub leave_group : ℕ → Msg → World → Outcome
  leave_group fd m w = do
    w1 ← query env (delete_member m.to_group_name m.from_name) w
    let w2 = record w1 {
      head_group_relationship =
          delete_first (is_member m.to_group_name m.from_name) w1.head_group_relationship;
    }
    let w3 = send fd (set_cmd (pos 243) m) w2
    let node : RequestNode = record {
      from_name = m.from_name;
      to_name = m.to_name;
      to_group_name = m.to_group_name;
      type = b'q';
    }
    done (notify m.to_name node (set_cmd (pos 24) m) w3)

  unfoldable pub quit_group : ℕ → Msg → World → Outcome
  quit_group fd m w = elim (find (is_group m.to_group_name) w.head_user_groups) [
    | none ↦ done (send fd (set_cmd (pos 240) m) w)
    | some g ↦
        if streq g.owner m.from_name
        then done (send fd (set_cmd (pos 241) m) w)
        else (let m' = record m { to_name = g.owner } in
            elim (find (is_member m.to_group_name m.from_name) w.head_group_relationship) [
              | none ↦ done (send fd (set_cmd (pos 242) m') w)
              | some _ ↦ leave_group fd m' w
            ])
  ]

  unfoldable pub break_group : ℕ → Msg → World → Outcome
  break_group fd m w = elim (find (is_group m.to_group_name) w.head_user_groups) [
    | none ↦ done (send fd (set_cmd (pos 2520) m) w)
    | some g ↦
        if not (streq g.owner m.from_name) then done (send fd (set_cmd (pos 2521) m) w) else do
          w1 ← query env (delete_group m.to_group_name) w
          w2 ← query env (delete_members m.to_group_name) (record w1 {
            head_user_groups = delete_first (is_group m.to_group_name) w1.head_user_groups;
          })
          after_break fd m w2 (remove_members m.to_group_name [] w2.head_group_relationship)
  ]

  -- set_manager: the `printf` in front of the test of `flag` reads the row that was searched for.
  unfoldable pub set_manager : ℕ → Msg → World → Outcome
  set_manager fd m w =
      elim (find (is_owner m.to_group_name m.from_name) w.head_group_relationship) [
        | none ↦ crashed w
        | some _ ↦ elim (find (is_member m.to_group_name m.to_name) w.head_group_relationship) [
          | none ↦ done (send fd (set_cmd (pos 2531) m) w)
          | some _ ↦ do
            w1 ← query env (set_member_manager m.to_group_name m.to_name) w
            done (
                send fd m (record w1 {
                  head_group_relationship =
                      modify_first (is_member m.to_group_name m.to_name) make_manager
                        w1.head_group_relationship;
                }))
        ]
      ]

  -- One member in the loop of public_chat, who is not the sender; `m` has the name in `to_name`.
  unfoldable pub deliver : Msg → World → Outcome
  deliver m w = elim (find_online m.to_name w) [
    | none ↦ query env (insert_group_offline m.news m.to_name m.from_name m.to_group_name m.time) w
    | some u ↦ do
      w1 ← query env (insert_group_online m.news m.to_name m.from_name m.to_group_name m.time) w
      done (send u.socket m w1)
  ]

  -- The loop of public_chat; the message keeps the name of the last receiver.
  unfoldable pub fan_out : List MysqlGroupRelationship → Msg → World → Outcome
  fan_out [] m w = done w
  fan_out (r ∷ rest) m w = elim (is_receiver m r) [
    | false ↦ fan_out rest m w
    | true ↦ let m' = record m { to_name = r.user_name } in do w1 ← deliver m' w; fan_out rest m' w1
  ]

  unfoldable pub public_chat : ℕ → Msg → World → Outcome
  public_chat fd m w = do
    w1 ← connect_mysql env w
    elim (find (is_member m.to_group_name m.from_name) w1.head_group_relationship) [
      | none ↦ done (send fd (set_cmd (pos 220) m) w1)
      | some _ ↦ fan_out w1.head_group_relationship m w1
    ]
