-- ===== src/Chat/World.antt =====
-- The state of the server: the global lists of epoll.c, what it has sent, and what the database has
-- executed. A handler returns, or ends the process by exit(1), or by a fault.
pub mod Tables
pub mod Sends
pub mod Up
use team_c.Common.{ℕ, Bool, true, false, List, [], ◌∷◌, ◌++◌, if◌then◌else◌}
use team_c.Common.Text.{CStr}
use team_c.Chat.Msg.{Msg, MysqlUser, MysqlUserGroups, MysqlFriend, MysqlGroupRelationship}
use team_c.Chat.Sql.{Statement, Env, render}

-- user_date, and with `next` the node of the list of users online
pub record UserDate : Type 0 where
  pub name : CStr
  pub socket : ℕ

-- request_node; the `char` in `type` is its code.
pub record RequestNode : Type 0 where
  pub from_name : CStr
  pub to_name : CStr
  pub to_group_name : CStr
  pub type : ℕ

pub record World : Type 0 where
  pub head_user : List MysqlUser
  pub head_friends : List MysqlFriend
  pub head_user_groups : List MysqlUserGroups
  pub head_group_relationship : List MysqlGroupRelationship
  pub head : List UserDate
  pub head_request : List RequestNode
  -- each `send`, oldest first, with its socket
  pub sent : List (ℕ × Msg)
  -- each statement that the database has executed, oldest first
  pub executed : List Statement

pub data Outcome : Type 0 where
  -- the handler returned
  done : World → Outcome
  -- exit(1)
  exited : World → Outcome
  -- a null pointer or freed memory was dereferenced, or an array was read out of its bounds
  crashed : World → Outcome

infixl 5 ◌>>=◌
unfoldable pub ◌>>=◌ : Outcome → (World → Outcome) → Outcome
done w >>= f = f w
exited w >>= f = exited w
crashed w >>= f = crashed w

-- The state in which the call ended, however it ended.
abbrev pub state : Outcome → World
state (done w) = w
state (exited w) = w
state (crashed w) = w

-- send(fd, message, sizeof(MSG), 0); its result is not used.
abbrev pub send : ℕ → Msg → World → World
send fd m w = record w { sent = w.sent ++ (fd, m) ∷ [] }

abbrev pub execute : Statement → World → World
execute s w = record w { executed = w.executed ++ s ∷ [] }

module _ (env : Env) where
  -- `mysql_real_query` with the test `if (ret) exit(1)`
  unfoldable pub query : Statement → World → Outcome
  query s w = if env.mysql_real_query w.executed (render s) then exited w else done (execute s w)

  -- `mysql_real_query` with its result dropped
  unfoldable pub query_unchecked : Statement → World → World
  query_unchecked s w = if env.mysql_real_query w.executed (render s) then w else execute s w

  -- connect_mysql: a failure of mysql_real_connect is printed only.
  unfoldable pub connect_mysql : World → Outcome
  connect_mysql w = if env.mysql_init w.executed then exited w else done w

-- weicha_list, charu_list, and the same loop written out for the requests: insertion at the tail.
unfoldable pub weicha_list {ℓ} : {A : Type ℓ} → List A → A → List A
weicha_list [] new_node = new_node ∷ []
weicha_list (current ∷ rest) new_node = current ∷ weicha_list rest new_node

-- `while (current) { if (test) { fill the message; send(fd, message); } current = current->next; }`
unfoldable pub send_matching {ℓ} :
    {A : Type ℓ} → ℕ → (A → Bool) → (A → Msg → Msg) → List A → Msg → World → World
send_matching fd test fill [] m w = w
send_matching fd test fill (x ∷ xs) m w = elim (test x) [
  | true ↦ send_matching fd test fill xs (fill x m) (send fd (fill x m) w)
  | false ↦ send_matching fd test fill xs m w
]
