-- ===== src/Chat/Invariant/AccountKeys.antt =====
-- reg, login and forget_password, and the keys of the tables.
use team_c.Common.{ℕ, ◌≡◌, refl, List, [], ◌∷◌, arith, Option-cases, inl, inr}
use team_c.Common.Int.{pos}
use team_c.Chat.Msg.{Msg, set_cmd}
use team_c.Chat.Sql.{Env}
use team_c.Chat.World.{World, query, ◌>>=◌, state, send, RequestNode}
use team_c.Chat.World.Tables.{tables}
use team_c.Chat.Online.{charu_list}
use team_c.Chat.Account.{new_user, reg, waiting, send_offline, login, forget_password}
use team_c.Chat.Invariant.{IsConsistent, new_user-IsConsistent}

pub tables-send_offline :
    (fd : ℕ) (requests : List RequestNode) (m : Msg) (w : World)
    → tables (send_offline fd requests m w) ≡ tables w
unfolding send_offline
tables-send_offline fd [] m w = refl
tables-send_offline fd (r ∷ rest) m w = elim (Option-cases (waiting m.user_infor.name r m)) [
  | inl e ↦ rw (e, send_offline) (tables-send_offline fd rest m w)
  | inr (m', e) ↦ rw (e, send_offline) (tables-send_offline fd rest m' (send fd m' w))
]

-- login and forget_password leave the tables as they are.
pub tables-login : (fd : ℕ) (m : Msg) (w : World) → tables (state (login fd m w)) ≡ tables w
unfolding login charu_list
tables-login fd m w =
    let m' = set_cmd (pos 1002) m in
    ground (
      arith,
      tables-send_offline fd w.head_request m'
          (send fd m' (charu_list (record { name = m.user_infor.name; socket = fd }) w)),
    )

pub tables-forget_password :
    (fd : ℕ) (m : Msg) (w : World) → tables (state (forget_password fd m w)) ≡ tables w
unfolding forget_password
tables-forget_password fd m w = ground arith

pub reg-IsConsistent :
    (env : Env) (fd : ℕ) (m : Msg) (w : World)
    → IsConsistent (tables w)
    → IsConsistent (tables (state (reg env fd m w)))
unfolding reg query ◌>>=◌
reg-IsConsistent env fd m w h = ground (arith, new_user-IsConsistent (tables w) (new_user m))
