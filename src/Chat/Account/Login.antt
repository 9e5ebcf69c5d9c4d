-- ===== src/Chat/Account/Login.antt =====
-- Registration, login with the requests that wait, and the forgotten password.
use team_c.Common.{
  ℕ, ◌<◌, ◌==◌, true, Option, none, some, ◌≡◌, refl, ap, ◌∙◌, List, [], ◌∷◌, ◌++◌, map, arith,
  append_assoc, append-nil, Option-cases, inl, inr, if◌then◌else◌,
}
use team_c.Common.Int.{ℤ, pos}
use team_c.Common.Text.{CStr, streq, streq_refl, streq_iff}
use team_c.Common.Search.{find}
use team_c.Common.Search.Count.{
  count, find-some_of_count, count-append, find-none_of_count, count_of_find-none, find-passes,
}
use team_c.Chat.Msg.{Msg, MysqlUser, set_cmd}
use team_c.Chat.Sql.{Env}
use team_c.Chat.World.{World, done, state, UserDate, RequestNode, send, query, ◌>>=◌}
use team_c.Chat.World.Tables.{weicha_list-eq-append}
use team_c.Chat.Online.{charu_list}
use team_c.Chat.Account.{
  is_named, has_password, has_telephone, new_user, reg, waiting, send_offline, login,
  forget_password,
}

-- What a waiting request tells the user: the number of the message and who it is from.
abbrev pub notice_cmd : ℕ → Option ℤ
notice_cmd type =
    if type == b'f'
    then some (pos 14)
    else if type == b'y'
    then some (pos 311)
    else if type == b'n'
    then some (pos 312)
    else if type == b'g'
    then some (pos 23)
    else if type == b'o'
    then some (pos 321)
    else if type == b'x'
    then some (pos 322)
    else if type == b'q'
    then some (pos 24)
    else none

abbrev notice_to : ℕ → CStr → RequestNode → List (ℕ × ℤ × CStr)
notice_to fd name r =
    if streq r.to_name name
    then elim (notice_cmd r.type) [ none ↦ [] | some c ↦ (fd, c, r.from_name) ∷ [] ]
    else []

unfoldable pub notices : ℕ → CStr → List RequestNode → List (ℕ × ℤ × CStr)
notices fd name [] = []
notices fd name (r ∷ rest) = notice_to fd name r ++ notices fd name rest

-- What a message that has been sent tells: its socket, its number, who it is from.
abbrev pub gist : ℕ × Msg → ℕ × ℤ × CStr
gist (fd, m) = (fd, m.cmd, m.from_name)

map-append_gist : (xs ys : List (ℕ × Msg)) → map gist (xs ++ ys) ≡ map gist xs ++ map gist ys
map-append_gist [] ys = refl
map-append_gist (x ∷ xs) ys = rw (map-append_gist xs ys)

waiting_name :
    (name : CStr) (r : RequestNode) (m m' : Msg)
    → waiting name r m ≡ some m'
    → m'.user_infor.name ≡ m.user_infor.name
unfolding waiting
waiting_name name r m m' h = ground arith

waiting-gist :
    (fd : ℕ) (name : CStr) (r : RequestNode) (m m' : Msg)
    → waiting name r m ≡ some m'
    → notice_to fd name r ≡ gist (fd, m') ∷ []
unfolding waiting
waiting-gist fd name r m m' h = ground arith

waiting-none :
    (fd : ℕ) (name : CStr) (r : RequestNode) (m : Msg)
    → waiting name r m ≡ none
    → notice_to fd name r ≡ []
unfolding waiting
waiting-none fd name r m h = ground arith

-- The loop of login over the requests.
pub gist-send_offline :
    (fd : ℕ) (requests : List RequestNode) (m : Msg) (w : World)
    → map gist (send_offline fd requests m w).sent
      ≡ map gist w.sent ++ notices fd m.user_infor.name requests
unfolding send_offline notices
gist-send_offline fd [] m w = rw append-nil
gist-send_offline fd (r ∷ rest) m w = elim (Option-cases (waiting m.user_infor.name r m)) [
  | inl e ↦
      rw (e, send_offline)
        (rw (waiting-none fd m.user_infor.name r m e) (gist-send_offline fd rest m w))
  | inr (m', e) ↦
      rw (e, send_offline)
        (rw (waiting-gist fd m.user_infor.name r m m' e) (
          rw (gist-send_offline fd rest m' (send fd m' w)) (
            rw (map-append_gist w.sent ((fd, m') ∷ []))
              (rw (append_assoc, waiting_name m.user_infor.name r m m' e)))))
]

-- The loop leaves the lists of the server alone.
lists-send_offline :
    (fd : ℕ) (requests : List RequestNode) (m : Msg) (w : World)
    → ((send_offline fd requests m w).head ≡ w.head)
      × ((send_offline fd requests m w).head_request ≡ w.head_request)
      × ((send_offline fd requests m w).executed ≡ w.executed)
unfolding send_offline
lists-send_offline fd [] m w = (refl, refl, refl)
lists-send_offline fd (r ∷ rest) m w = elim (Option-cases (waiting m.user_infor.name r m)) [
  | inl e ↦ rw (e, send_offline) (lists-send_offline fd rest m w)
  | inr (m', e) ↦ rw (e, send_offline) (lists-send_offline fd rest m' (send fd m' w))
]

-- The client is in the list of users online, behind those who were there.
abbrev pub entered : ℕ → CStr → World → List UserDate
entered fd name w = w.head ++ record { name = name; socket = fd } ∷ []

-- A login with a name and a password for which there is a user. The call returns, the client is
-- online behind those who were, and is sent number 1002 and then a message for each request that
-- waits for the name, in their order, with the number for the kind of the request and the name of
-- its sender; the requests stay in the list, and nothing is executed.
pub login_accepted :
    (fd : ℕ) (m : Msg) (w : World)
    → 0 < count (has_password m.user_infor.name m.user_infor.password) w.head_user
    → (w' : World) × (login fd m w ≡ done w')
      × (w'.head ≡ entered fd m.user_infor.name w)
      × (map gist w'.sent
          ≡ map gist w.sent
            ++ ((fd, pos 1002, m.from_name) ∷ notices fd m.user_infor.name w.head_request))
      × (w'.head_request ≡ w.head_request)
      × (w'.executed ≡ w.executed)
unfolding login charu_list
login_accepted fd m w h =
    let known = has_password m.user_infor.name m.user_infor.password in
    let (u, e) = find-some_of_count known w.head_user h in
    let m' = set_cmd (pos 1002) m in
    let date : UserDate = record { name = m.user_infor.name; socket = fd } in
    let w1 = send fd m' (charu_list date w) in
    let same = lists-send_offline fd w.head_request m' w1 in
    (
      send_offline fd w.head_request m' w1,
      rw (e, login),
      same.0 ∙ weicha_list-eq-append w.head date,
      rw (gist-send_offline fd w.head_request m' w1)
          (rw (map-append_gist w.sent ((fd, m') ∷ [])) (rw append_assoc)),
      same.1,
      same.2,
    )

-- What reg has done when it returns for a new name.
reg_linked :
    (env : Env) (fd : ℕ) (m : Msg) (w w' : World)
    → count (is_named m.user_infor.name) w.head_user ≡ 0
    → reg env fd m w ≡ done w'
    → w'.head_user ≡ w.head_user ++ new_user m ∷ []
unfolding reg query ◌>>=◌ new_user
reg_linked env fd m w w' new registered = ground (
  arith,
  find-none_of_count (is_named m.user_infor.name) w.head_user new,
  weicha_list-eq-append w.head_user (new_user m),
)

new_user-has_password :
    (m : Msg) → has_password m.user_infor.name m.user_infor.password (new_user m) ≡ true
unfolding new_user
new_user-has_password m =
    ground (arith, streq_refl m.user_infor.name, streq_refl m.user_infor.password)

-- A user whose name is new registers, and the call returns. Then after a login with the same name
-- and password, from any socket, the client is online, behind those who were.
pub login-reg :
    (env : Env) (fd fd' : ℕ) (m m' : Msg) (w w' : World)
    → count (is_named m.user_infor.name) w.head_user ≡ 0
    → reg env fd m w ≡ done w'
    → m'.user_infor.name ≡ m.user_infor.name
    → m'.user_infor.password ≡ m.user_infor.password
    → (state (login fd' m' w')).head ≡ entered fd' m.user_infor.name w'
unfolding count
login-reg env fd fd' m m' w w' new registered same_name same_password =
    let accepted = login_accepted fd' m' w' known in
    rw (accepted.1) (accepted.2 ∙ ap (λ n. entered fd' n w') same_name)
  where
    known : 0 < count (has_password m'.user_infor.name m'.user_infor.password) w'.head_user
    known =
        rw (same_name, same_password)
          (rw (reg_linked env fd m w w' new registered) (
            ground (
              arith,
              new_user-has_password m,
              count-append (has_password m.user_infor.name m.user_infor.password) w.head_user
                  (new_user m ∷ []),
            )))

found_telephone :
    (name telephone : CStr) (us : List MysqlUser) (u : MysqlUser)
    → find (has_telephone name telephone) us ≡ some u
    → u.telephone ≡ telephone
found_telephone name telephone us u e =
    ground
      (arith, find-passes (has_telephone name telephone) us u e, streq_iff u.telephone telephone)

-- forget_password returns, with one message sent. It has number 1 if there is no user of the name,
-- else number 2 if there is none of the name and the telephone number, and else number 3, and then
-- its password is the telephone number that the client has sent itself. The rest of the message is
-- the client's.
pub forget_password_lem :
    (fd : ℕ) (m : Msg) (w : World)
    → forget_password fd m w
      ≡ done (
          send fd
            (if count (is_named m.user_infor.name) w.head_user == 0
              then set_cmd (pos 1) m
              else if count (has_telephone m.user_infor.name m.user_infor.telephone) w.head_user
                  == 0
              then set_cmd (pos 2) m
              else record m {
                cmd = pos 3;
                user_infor = record (m.user_infor) { password = m.user_infor.telephone };
              })
            w)
unfolding forget_password
forget_password_lem fd m w =
    let named = is_named m.user_infor.name in
    let owned = has_telephone m.user_infor.name m.user_infor.telephone in
    elim (Option-cases (find owned w.head_user)) [
      | inl e ↦ ground (
        arith,
        e,
        count_of_find-none named w.head_user,
        find-none_of_count named w.head_user,
        count_of_find-none owned w.head_user e,
      )
      | inr (u, e) ↦ ground (
        arith,
        e,
        count_of_find-none named w.head_user,
        find-none_of_count named w.head_user,
        find-none_of_count owned w.head_user,
        found_telephone m.user_infor.name m.user_infor.telephone w.head_user u e,
      )
    ]
