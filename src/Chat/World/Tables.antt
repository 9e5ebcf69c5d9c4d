-- ===== src/Chat/World/Tables.antt =====
-- The tables of a state, apart from what is sent and executed, and the steps that keep them.
use team_c.Common.{ℕ, Bool, ◌≡◌, refl, List, [], ◌∷◌, ◌++◌, arith}
use team_c.Chat.Msg.{Msg, MysqlUser, MysqlUserGroups, MysqlFriend, MysqlGroupRelationship}
use team_c.Chat.Sql.{Statement, Env}
use team_c.Chat.World.{
  World, Outcome, done, exited, crashed, ◌>>=◌, state, send, query, query_unchecked, connect_mysql,
  weicha_list, send_matching,
}

-- The copies of the four database tables.
pub record Tables : Type 0 where
  pub users : List MysqlUser
  pub friends : List MysqlFriend
  pub groups : List MysqlUserGroups
  pub relations : List MysqlGroupRelationship

abbrev pub tables : World → Tables
tables w = record {
  users = w.head_user;
  friends = w.head_friends;
  groups = w.head_user_groups;
  relations = w.head_group_relationship;
}

pub weicha_list-eq-append {ℓ} : {A : Type ℓ} (xs : List A) (x : A) → weicha_list xs x ≡ xs ++ x ∷ []
unfolding weicha_list
weicha_list-eq-append [] x = refl
weicha_list-eq-append (y ∷ ys) x = rw (weicha_list-eq-append ys x)

pub tables-query :
    (env : Env) (s : Statement) (w : World) → tables (state (query env s w)) ≡ tables w
unfolding query
tables-query env s w = ground arith

pub tables-query_unchecked :
    (env : Env) (s : Statement) (w : World) → tables (query_unchecked env s w) ≡ tables w
unfolding query_unchecked
tables-query_unchecked env s w = ground arith

pub tables-connect_mysql : (env : Env) (w : World) → tables (state (connect_mysql env w)) ≡ tables w
unfolding connect_mysql
tables-connect_mysql env w = ground arith

pub tables-send_matching {ℓ} :
    {A : Type ℓ} (fd : ℕ) (test : A → Bool) (fill : A → Msg → Msg) (xs : List A) (m : Msg)
    (w : World)
    → tables (send_matching fd test fill xs m w) ≡ tables w
unfolding send_matching
tables-send_matching fd test fill [] m w = refl
tables-send_matching fd test fill (x ∷ xs) m w = ground (
  arith,
  tables-send_matching fd test fill xs m w,
  tables-send_matching fd test fill xs (fill x m) (send fd (fill x m) w),
)

-- A property of the tables goes through a sequence: the end of one step is where the next begins, or
-- the end of both.
pub state_bind :
    (P : Tables → Type 0) (o : Outcome) (f : World → Outcome)
    → P (tables (state o))
    → ((w : World) → P (tables w) → P (tables (state (f w))))
    → P (tables (state (o >>= f)))
unfolding ◌>>=◌
state_bind P (done w) f h k = k w h
state_bind P (exited w) f h k = h
state_bind P (crashed w) f h k = h

pub state_query :
    (P : Tables → Type 0) (env : Env) (s : Statement) (w : World)
    → P (tables w)
    → P (tables (state (query env s w)))
state_query P env s w h = rw (tables-query env s w) h
