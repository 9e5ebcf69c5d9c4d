-- ===== src/Chat/World/Up.antt =====
-- A database that is up: what the handlers do when no statement fails.
use team_c.Common.{false, ◌≡◌, refl, List, arith}
use team_c.Common.Text.{CStr}
use team_c.Chat.Sql.{Statement, Env, render}
use team_c.Chat.World.{World, Outcome, done, exited, crashed, ◌>>=◌, execute, query, connect_mysql}

-- Every statement is executed, and every connection is made.
abbrev pub IsUp : Env → Type 0
IsUp env =
    ((l : List Statement) (s : CStr) → env.mysql_real_query l s ≡ false)
    × ((l : List Statement) → env.mysql_init l ≡ false)

-- A call that has returned goes on.
pub done-bind : (w : World) (f : World → Outcome) → (done w >>= f) ≡ f w
unfolding ◌>>=◌
done-bind w f = refl

pub bind_assoc : (o : Outcome) (f g : World → Outcome) → ((o >>= f) >>= g) ≡ (o >>= λ w. f w >>= g)
unfolding ◌>>=◌
bind_assoc (done w) f g = refl
bind_assoc (exited w) f g = refl
bind_assoc (crashed w) f g = refl

pub query-up :
    (env : Env) (s : Statement) (w : World) → IsUp env → query env s w ≡ done (execute s w)
unfolding query
query-up env s w up = ground (arith, up.0 w.executed (render s))

pub connect_mysql-up : (env : Env) (w : World) → IsUp env → connect_mysql env w ≡ done w
unfolding connect_mysql
connect_mysql-up env w up = ground (arith, up.1 w.executed)
