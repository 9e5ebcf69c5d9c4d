-- ===== src/Chat/Mirror/AccountRows.antt =====
-- reg, login and forget_password, against the database.
use team_c.Common.{ℕ, List, [], ◌∷◌, arith, Option-cases, inl, inr}
use team_c.Common.Int.{pos}
use team_c.Chat.Msg.{Msg, set_cmd}
use team_c.Chat.Sql.{Env, insert_user}
use team_c.Chat.World.{World, query, ◌>>=◌, send, RequestNode}
use team_c.Chat.World.Tables.{weicha_list-eq-append}
use team_c.Chat.Online.{charu_list}
use team_c.Chat.Account.{new_user, reg, waiting, send_offline, login, forget_password}
use team_c.Chat.Mirror.{Replayed, IsMirror, Returns, effect, stored-execute}

module _ (db : Replayed) where
  pub reg-IsMirror :
      (env : Env) (fd : ℕ) (m : Msg) (w : World)
      → IsMirror db w
      → Returns (IsMirror db) (reg env fd m w)
  unfolding reg query ◌>>=◌ Returns effect
  reg-IsMirror env fd m w h =
      let u = new_user m in
      ground (
        arith,
        stored-execute db (insert_user u.u_name u.u_nickname u.u_sex u.u_passworld u.telephone) w h,
        weicha_list-eq-append w.head_user u,
      )

  send_offline-IsMirror :
      (fd : ℕ) (requests : List RequestNode) (m : Msg) (w : World)
      → IsMirror db w
      → IsMirror db (send_offline fd requests m w)
  unfolding send_offline
  send_offline-IsMirror fd [] m w h = h
  send_offline-IsMirror fd (r ∷ rest) m w h = elim (Option-cases (waiting m.user_infor.name r m)) [
    | inl e ↦ rw (e, send_offline) (send_offline-IsMirror fd rest m w h)
    | inr (m', e) ↦ rw (e, send_offline) (send_offline-IsMirror fd rest m' (send fd m' w) h)
  ]

  pub login-IsMirror :
      (fd : ℕ) (m : Msg) (w : World) → IsMirror db w → Returns (IsMirror db) (login fd m w)
  unfolding login charu_list Returns
  login-IsMirror fd m w h =
      let m' = set_cmd (pos 1002) m in
      ground (
        arith,
        send_offline-IsMirror fd w.head_request m'
            (send fd m' (charu_list (record { name = m.user_infor.name; socket = fd }) w)) h,
      )

  pub forget_password-IsMirror :
      (fd : ℕ) (m : Msg) (w : World)
      → IsMirror db w
      → Returns (IsMirror db) (forget_password fd m w)
  unfolding forget_password Returns
  forget_password-IsMirror fd m w h = ground arith
