-- ===== src/Chat/Friend/Waiting.antt =====
-- Requests and answers for a user who is not online: whom the list of requests brings them to.
use team_c.Common.{
  ℕ, ◌<◌, ◌≤◌, Bool, true, none, some, ◌≡◌, ◌≢◌, refl, ap, ◌∙◌, List, [], ◌∷◌, ◌++◌, map, arith,
  append_assoc, append-nil, ◌⊎◌, inl, inr,
}
use team_c.Common.Int.{ℤ, pos}
use team_c.Common.Text.{CStr, streq_iff}
use team_c.Common.Search.{find}
use team_c.Common.Search.Count.{count, count_of_find-none}
use team_c.Chat.Msg.{Msg, MysqlFriend}
use team_c.Chat.Sql.{
  Env, insert_friend_request, insert_friend_accepted, set_friend_status, delete_friend_row,
}
use team_c.Chat.World.{World, RequestNode, done, state, ◌>>=◌}
use team_c.Chat.World.Tables.{weicha_list-eq-append}
use team_c.Chat.World.Up.{IsUp, query-up}
use team_c.Chat.Online.{find_online}
use team_c.Chat.Account.{is_named, has_password, login}
use team_c.Chat.Account.Login.{gist, notices, login_accepted}
use team_c.Chat.Friend.{
  is_row, notify, friend_node, request_friend, add_friend, drop_friend, write_status, accept_row,
  deal_friend_request_y, deal_friend_request_n,
}
use team_c.Chat.Friend.Protocol.{status_of, add_friend_linked, accept_row_lem}
use team_c.Chat.Friend.Rows.{find-linked_other}
use team_c.Chat.Friend.Friendship.{find_of_status_none}

pub notices-append :
    (fd : ℕ) (name : CStr) (xs ys : List RequestNode)
    → notices fd name (xs ++ ys) ≡ notices fd name xs ++ notices fd name ys
unfolding notices
notices-append fd name [] ys = refl
notices-append fd name (x ∷ xs) ys = rw (notices-append fd name xs ys, append_assoc)

count_mono {ℓ} :
    {A : Type ℓ} (p q : A → Bool) (xs : List A)
    → ((a : A) → p a ≡ true → q a ≡ true)
    → count p xs ≤ count q xs
unfolding count
count_mono p q [] h = omega arith
count_mono p q (x ∷ xs) h = ground (arith, h x, count_mono p q xs h)

-- What a friend request for a user who is not online leaves.
waiting-add_friend :
    (env : Env) (fd : ℕ) (m : Msg) (w : World)
    → IsUp env
    → m.to_name ≢ m.from_name
    → 0 < count (is_named m.to_name) w.head_user
    → find (is_row m.to_name m.from_name) w.head_friends ≡ none
    → find_online m.to_name w ≡ none
    → (state (add_friend env fd m w)).head_request ≡ w.head_request ++ friend_node env b'f' m ∷ []
unfolding add_friend request_friend friend_node notify find_online ◌>>=◌
waiting-add_friend env fd m w up others registered new offline = ground (
  arith,
  offline,
  query-up env (insert_friend_request m.to_name m.from_name) w up,
  streq_iff m.to_name m.from_name,
  count_of_find-none (is_named m.to_name) w.head_user,
  new,
  weicha_list-eq-append w.head_request (friend_node env b'f' m),
)

notice_of_request :
    (env : Env) (fd : ℕ) (m : Msg)
    → notices fd m.to_name (friend_node env b'f' m ∷ []) ≡ (fd, pos 14, m.from_name) ∷ []
unfolding notices friend_node
notice_of_request env fd m = ground (arith, streq_iff m.to_name m.to_name)

-- While the database executes every statement: a user sends a friend request to another user, who
-- is registered and not online, and about whom the sender has no row; then that user logs in with
-- the right password. Both calls return, and behind the answer to the login and the requests that
-- waited before, the user is sent the request, under number 14 with the name of the sender.
pub request_reaches_login :
    (env : Env) (fd fd' : ℕ) (m m' : Msg) (w : World)
    → IsUp env
    → m.to_name ≢ m.from_name
    → status_of m.to_name m.from_name w ≡ none
    → find_online m.to_name w ≡ none
    → m'.user_infor.name ≡ m.to_name
    → 0 < count (has_password m.to_name m'.user_infor.password) w.head_user
    → (w1 : World) × (w2 : World) × (add_friend env fd m w ≡ done w1)
      × (login fd' m' w1 ≡ done w2)
      × (map gist w2.sent
          ≡ map gist w1.sent
            ++ ((fd', pos 1002, m'.from_name)
                ∷ (notices fd' m.to_name w.head_request ++ (fd', pos 14, m.from_name) ∷ [])))
request_reaches_login env fd fd' m m' w up others new offline same known =
    let missing = find_of_status_none m.to_name m.from_name w new in
    let named : 0 < count (is_named m.to_name) w.head_user = omega (
      arith,
      count_mono (has_password m.to_name m'.user_infor.password) (is_named m.to_name) w.head_user
          (λ u h. ground arith),
    ) in
    let (requested, rows, users, online) = add_friend_linked env fd m w up others named missing in
    let waits = waiting-add_friend env fd m w up others named missing offline in
    let w1 = state (add_friend env fd m w) in
    let (w2, accepted, _, told, _, _) = login_accepted fd' m' w1 (rw (users, same) known) in
    (
      w1,
      w2,
      requested,
      accepted,
      told
          ∙ ap (λ l. map gist w1.sent ++ ((fd', pos 1002, m'.from_name) ∷ l))
              (rw (same, waits)
                (notices-append fd' m.to_name w.head_request (friend_node env b'f' m ∷ [])
                  ∙ rw (notice_of_request env fd' m) refl)),
    )

-- The notices that an answer to a request makes.
notices_of_answer :
    (env : Env) (fd : ℕ) (type : ℕ) (c : ℤ) (m : Msg)
    → m.from_name ≢ m.to_name
    → ((type ≡ b'y') × (c ≡ pos 311)) ⊎ ((type ≡ b'n') × (c ≡ pos 312))
    → (notices fd m.from_name (friend_node env type m ∷ []) ≡ [])
      × (notices fd m.to_name (friend_node env type m ∷ []) ≡ (fd, c, m.from_name) ∷ [])
unfolding notices friend_node
notices_of_answer env fd type c m apart known = (
  ground (arith, streq_iff m.to_name m.from_name, known),
  ground (arith, streq_iff m.to_name m.to_name, known),
)

-- The effect of an answer on what waits for the one who asked and the one who answers.
answer_waits :
    (env : Env) (fd type : ℕ) (c : ℤ) (m : Msg) (w w' : World)
    → m.from_name ≢ m.to_name
    → ((type ≡ b'y') × (c ≡ pos 311)) ⊎ ((type ≡ b'n') × (c ≡ pos 312))
    → w'.head_request ≡ w.head_request ++ friend_node env type m ∷ []
    → (notices fd m.from_name w'.head_request ≡ notices fd m.from_name w.head_request)
      × (notices fd m.to_name w'.head_request
          ≡ notices fd m.to_name w.head_request ++ (fd, c, m.from_name) ∷ [])
answer_waits env fd type c m w w' apart known left =
    let node = friend_node env type m in
    let (none_for_asker, one_for_answerer) = notices_of_answer env fd type c m apart known in
    (
      rw left (
          notices-append fd m.from_name w.head_request (node ∷ [])
          ∙ rw (none_for_asker, append-nil)),
      rw left (notices-append fd m.to_name w.head_request (node ∷ []) ∙ rw one_for_answerer refl),
    )

module _ (env : Env) (up : IsUp env) (fd fd' : ℕ) (m : Msg) (w : World) where
  requests-accept_row :
      ((state (accept_row env m w)).head_request ≡ w.head_request)
      × ((state (accept_row env m w)).head ≡ w.head)
  unfolding accept_row write_status ◌>>=◌
  requests-accept_row = (
    ground (
      arith,
      query-up env (insert_friend_accepted m.from_name m.to_name) w up,
      query-up env (set_friend_status m.from_name m.to_name) w up,
    ),
    ground (
      arith,
      query-up env (insert_friend_accepted m.from_name m.to_name) w up,
      query-up env (set_friend_status m.from_name m.to_name) w up,
    ),
  )

  -- While the database executes every statement: a user refuses the friend request of another, who
  -- is not online. The call returns. What waits for the user who asked, to be sent at login, is
  -- what waited before; and for the user who has refused there waits the refusal too, under number
  -- 312.
  pub refusal_misses_requester :
      m.from_name ≢ m.to_name
      → find_online m.from_name w ≡ none
      → (w' : World) × (deal_friend_request_n env fd m w ≡ done w')
        × (notices fd' m.from_name w'.head_request ≡ notices fd' m.from_name w.head_request)
        × (notices fd' m.to_name w'.head_request
            ≡ notices fd' m.to_name w.head_request ++ (fd', pos 312, m.from_name) ∷ [])
  unfolding deal_friend_request_n drop_friend friend_node notify find_online ◌>>=◌
  refusal_misses_requester apart offline =
      let w' = state (deal_friend_request_n env fd m w) in
      let executed = query-up env (delete_friend_row m.to_name m.from_name) w up in
      let left : w'.head_request ≡ w.head_request ++ friend_node env b'n' m ∷ [] =
        ground (
          arith,
          offline,
          executed,
          weicha_list-eq-append w.head_request (friend_node env b'n' m),
        ) in
      let (asker, answerer) =
        answer_waits env fd' b'n' (pos 312) m w w' apart (inr (refl, refl)) left in
      (w', ground (arith, offline, executed), asker, answerer)

  -- While the database executes every statement: a user accepts the friend request of another, who
  -- is not online, and who has a row about the user. The call returns. What waits for the user who
  -- asked, to be sent at login, is what waited before; and for the user who has accepted there
  -- waits the acceptance too, under number 311.
  pub acceptance_misses_requester :
      m.from_name ≢ m.to_name
      → find_online m.from_name w ≡ none
      → (f : MysqlFriend) → find (is_row m.to_name m.from_name) w.head_friends ≡ some f
      → (w' : World) × (deal_friend_request_y env fd m w ≡ done w')
        × (notices fd' m.from_name w'.head_request ≡ notices fd' m.from_name w.head_request)
        × (notices fd' m.to_name w'.head_request
            ≡ notices fd' m.to_name w.head_request ++ (fd', pos 311, m.from_name) ∷ [])
  unfolding deal_friend_request_y write_status friend_node notify find_online ◌>>=◌
  acceptance_misses_requester apart offline f asked =
      let w' = state (deal_friend_request_y env fd m w) in
      let (w1, e, l) = accept_row_lem env m w up in
      let there = find-linked_other m.from_name m.to_name w.head_friends f apart asked in
      let executed = query-up env (set_friend_status m.to_name m.from_name) w1 up in
      let (requests, online) = requests-accept_row in
      let left : w'.head_request ≡ w.head_request ++ friend_node env b'y' m ∷ [] = ground (
        arith,
        offline,
        e,
        executed,
        l,
        there,
        requests,
        online,
        weicha_list-eq-append w.head_request (friend_node env b'y' m),
      ) in
      let (asker, answerer) =
        answer_waits env fd' b'y' (pos 311) m w w' apart (inl (refl, refl)) left in
      (w', ground (arith, offline, e, executed, l, there, online), asker, answerer)
