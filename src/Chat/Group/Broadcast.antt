-- ===== src/Chat/Group/Broadcast.antt =====
-- public_chat: what is recorded of a group message, and who is sent it.
use team_c.Common.{
  ℕ, ◌<◌, some, none, ◌≡◌, refl, List, [], ◌∷◌, ◌++◌, arith, Bool-cases, inl, inr, append_assoc,
  append-nil, map,
}
use team_c.Common.Lists.{filter, flat_map}
use team_c.Common.Search.Count.{count, find-some_of_count}
use team_c.Chat.Msg.{Msg, MysqlGroupRelationship}
use team_c.Chat.Sql.{Env, Statement, insert_group_offline, insert_group_online}
use team_c.Chat.World.{World, done, ◌>>=◌}
use team_c.Chat.World.Tables.{tables}
use team_c.Chat.World.Up.{IsUp, done-bind, query-up, connect_mysql-up}
use team_c.Chat.Online.{find_online}
use team_c.Chat.Group.{is_member, is_receiver, deliver, fan_out, public_chat}

-- The message as a receiver gets it.
abbrev pub addressed : Msg → MysqlGroupRelationship → Msg
addressed m r = record m { to_name = r.user_name }

-- What one receiver is sent, and the record that is kept of it.
abbrev pub copies : Msg → World → MysqlGroupRelationship → List (ℕ × Msg)
copies m w r = elim (find_online r.user_name w) [
  | none ↦ []
  | some u ↦ (u.socket, addressed m r) ∷ []
]

abbrev pub record_of : Msg → World → MysqlGroupRelationship → Statement
record_of m w r = elim (find_online r.user_name w) [
  | none ↦ insert_group_offline m.news r.user_name m.from_name m.to_group_name m.time
  | some _ ↦ insert_group_online m.news r.user_name m.from_name m.to_group_name m.time
]

-- The receivers: the members of the group but the sender.
abbrev pub receivers : Msg → List MysqlGroupRelationship → List MysqlGroupRelationship
receivers m = filter (is_receiver m)

abbrev broadcast : Msg → List MysqlGroupRelationship → World → World
broadcast m rs w = record w {
  sent = w.sent ++ flat_map (copies m w) (receivers m rs);
  executed = w.executed ++ map (record_of m w) (receivers m rs);
}

-- One round of the loop, for a receiver.
abbrev delivered : Msg → World → MysqlGroupRelationship → World
delivered m w r = record w {
  sent = w.sent ++ copies m w r;
  executed = w.executed ++ record_of m w r ∷ [];
}

deliver-up :
    (env : Env) (m : Msg) (w : World) (r : MysqlGroupRelationship)
    → IsUp env
    → deliver env (addressed m r) w ≡ done (delivered m w r)
unfolding deliver ◌>>=◌
deliver-up env m w r up = ground (
  arith,
  append-nil w.sent,
  query-up env (insert_group_offline m.news r.user_name m.from_name m.to_group_name m.time) w up,
  query-up env (insert_group_online m.news r.user_name m.from_name m.to_group_name m.time) w up,
)

fan_out-up :
    (env : Env) (rs : List MysqlGroupRelationship) (m : Msg) (w : World)
    → IsUp env
    → fan_out env rs m w ≡ done (broadcast m rs w)
unfolding fan_out find_online
fan_out-up env [] m w up = rw (append-nil, append-nil)
fan_out-up env (r ∷ rest) m w up = elim (Bool-cases (is_receiver m r)) [
  | inl hit ↦
      rw (hit, fan_out)
        (rw (deliver-up env m w r up) (
          rw (done-bind (delivered m w r)) (
            rw (fan_out-up env rest (addressed m r) (delivered m w r) up)
              (rw (append_assoc w.sent, append_assoc w.executed)))))
  | inr miss ↦ rw (miss, fan_out) (rw (fan_out-up env rest m w up))
]

-- While the database executes every statement: a user with a row in a group sends a message to the
-- group. The call returns, and for each row of the group that is not the sender's, in order, the
-- message is recorded, as sent or as waiting, and sent to the user if online. Nothing else is sent
-- or executed, and the tables and the list of requests stay as they are.
pub public_chat_lem :
    (env : Env) (fd : ℕ) (m : Msg) (w : World)
    → IsUp env
    → 0 < count (is_member m.to_group_name m.from_name) w.head_group_relationship
    → (w' : World) × (public_chat env fd m w ≡ done w')
      × (w'.sent ≡ w.sent ++ flat_map (copies m w) (receivers m w.head_group_relationship))
      × (w'.executed ≡ w.executed ++ map (record_of m w) (receivers m w.head_group_relationship))
      × (tables w' ≡ tables w)
      × (w'.head_request ≡ w.head_request)
unfolding public_chat
public_chat_lem env fd m w up member =
    let (r, e) =
      find-some_of_count (is_member m.to_group_name m.from_name) w.head_group_relationship member in
    (
      broadcast m w.head_group_relationship w,
      rw (connect_mysql-up env w up)
          (rw (done-bind w) (rw e (fan_out-up env w.head_group_relationship m w up))),
      refl,
      refl,
      refl,
      refl,
    )
