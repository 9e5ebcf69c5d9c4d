-- ===== src/Chat/Account.antt =====
-- Accounts: reg, login, forget_password of epoll.c.
pub mod Login
use team_c.Common.{ℕ, ◌==◌, ltb, Bool, ◌&&◌, Option, none, some, List, [], ◌∷◌, ◌++◌, if◌then◌else◌}
use team_c.Common.Int.{pos, negsuc}
use team_c.Common.Lists.{length, take}
use team_c.Common.Text.{CStr, streq}
use team_c.Common.Search.{find}
use team_c.Chat.Msg.{Msg, MysqlUser, set_cmd}
use team_c.Chat.Sql.{Env, insert_user}
use team_c.Chat.World.{World, Outcome, done, ◌>>=◌, UserDate, RequestNode, send, query, weicha_list}
use team_c.Chat.Online.{charu_list}

-- What `u_sex` reads as after `strcpy` of `sex` and then of the password: its array has 2 bytes,
-- a longer string runs into `u_passworld`, which is written next, so no zero byte ends `u_sex`.
unfoldable pub sex_text : CStr → CStr → CStr
sex_text sex password = if ltb (length sex) 2 then sex else take 2 sex ++ password

-- The node that reg allocates.
unfoldable pub new_user : Msg → MysqlUser
new_user m = record {
  u_name = m.user_infor.name;
  u_nickname = m.user_infor.nickname;
  u_sex = sex_text m.user_infor.sex m.user_infor.password;
  u_passworld = m.user_infor.password;
  telephone = m.user_infor.telephone;
}

abbrev pub is_named : CStr → MysqlUser → Bool
is_named name u = streq u.u_name name

abbrev pub has_password : CStr → CStr → MysqlUser → Bool
has_password name password u = streq u.u_name name && streq u.u_passworld password

abbrev pub has_telephone : CStr → CStr → MysqlUser → Bool
has_telephone name telephone u = streq u.u_name name && streq u.telephone telephone

module _ (env : Env) where
  unfoldable pub reg : ℕ → Msg → World → Outcome
  reg fd m w =
      let user = new_user m in
      elim (find (is_named user.u_name) w.head_user) [
        | some _ ↦ done (send fd (set_cmd (negsuc 0) m) w)
        | none ↦ do
          w1 ←
              query env
                (insert_user user.u_name user.u_nickname user.u_sex user.u_passworld user.telephone)
                (record w { head_user = weicha_list w.head_user user })
          done (send fd (set_cmd (pos 1001) m) w1)
      ]

-- The `switch` of login on a request that waits for the user: the message that is sent, if any.
unfoldable pub offline_message : RequestNode → Msg → Option Msg
offline_message r m =
    if r.type == b'f'
    then some (record m { from_name = r.from_name; to_name = r.to_name; cmd = pos 14 })
    else if r.type == b'y'
    then some (record m { from_name = r.from_name; to_name = r.to_name; cmd = pos 311 })
    else if r.type == b'n'
    then some (record m { from_name = r.from_name; to_name = r.to_name; cmd = pos 312 })
    else if r.type == b'g'
    then some (record m { from_name = r.from_name; to_name = r.to_name; cmd = pos 23 })
    else if r.type == b'o'
    then some (record m { from_name = r.from_name; to_group_name = r.to_group_name; cmd = pos 321 })
    else if r.type == b'x'
    then some (record m {
      from_name = r.from_name;
      to_name = r.to_name;
      to_group_name = r.to_group_name;
      cmd = pos 322;
    })
    else if r.type == b'q'
    then some (record m {
      from_name = r.from_name;
      to_name = r.to_name;
      to_group_name = r.to_group_name;
      cmd = pos 24;
    })
    else none

-- The request is for the user, and its type is known.
unfoldable pub waiting : CStr → RequestNode → Msg → Option Msg
unfolding offline_message
waiting name r m = if streq r.to_name name then offline_message r m else none

-- The loop over the requests; the message keeps what one round writes into it.
unfoldable pub send_offline : ℕ → List RequestNode → Msg → World → World
send_offline fd [] m w = w
send_offline fd (r ∷ rest) m w = elim (waiting m.user_infor.name r m) [
  | none ↦ send_offline fd rest m w
  | some m' ↦ send_offline fd rest m' (send fd m' w)
]

unfoldable pub login : ℕ → Msg → World → Outcome
login fd m w =
    let name = m.user_infor.name in
    elim (find (has_password name m.user_infor.password) w.head_user) [
      | none ↦ done (send fd (set_cmd (negsuc 1) m) w)
      | some _ ↦
          let m' = set_cmd (pos 1002) m in
          let date : UserDate = record { name = name; socket = fd } in
          done (send_offline fd w.head_request m' (send fd m' (charu_list date w)))
    ]

-- The password that is sent back is copied from `telephone`.
unfoldable pub forget_password : ℕ → Msg → World → Outcome
forget_password fd m w =
    let name = m.user_infor.name in
    elim (find (is_named name) w.head_user) [
      | none ↦ done (send fd (set_cmd (pos 1) m) w)
      | some _ ↦ elim (find (has_telephone name m.user_infor.telephone) w.head_user) [
        | none ↦ done (send fd (set_cmd (pos 2) m) w)
        | some u ↦ done (
            send fd
              (record m {
                cmd = pos 3;
                user_infor = record (m.user_infor) { password = u.telephone };
              })
              w)
      ]
    ]
