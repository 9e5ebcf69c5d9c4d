-- ===== src/Chat/Group/Joining.antt =====
-- deal_group_request_y and view_group_member: joining a group, once and twice, and the list of its
-- members.
use team_c.Common.{
  ℕ, suc, ◌+◌, ◌<◌, Bool, Bool-cases, inl, inr, some, ◌≡◌, ◌≢◌, refl, sym, ap, ap₂, ◌∙◌, List, [],
  ◌∷◌, ◌++◌, arith,
}
use team_c.Common.Int.{pos}
use team_c.Common.Lists.{filter}
use team_c.Common.Text.{CStr, streq_refl, streq_iff}
use team_c.Common.Search.{find, delete_first}
use team_c.Common.Search.Count.{count, count-append, find-some_of_count}
use team_c.Chat.Msg.{Msg, MysqlUserGroups, MysqlGroupRelationship}
use team_c.Chat.Sql.{Env, delete_member}
use team_c.Chat.World.{World, done, ◌>>=◌, query_unchecked, state}
use team_c.Chat.World.Tables.{weicha_list-eq-append}
use team_c.Chat.World.Sends.{messages, send_matching_lem}
use team_c.Chat.World.Up.{IsUp, query-up}
use team_c.Chat.Friend.{notify}
use team_c.Chat.Group.{
  is_group, in_group, is_member, fill_member, view_group_member, deal_group_request_y, quit_group,
  leave_group,
}

-- A user with a row in an existing group asks for its members: the call returns, the user is sent
-- one message for each row of the group, in the order of the rows, with the name and the rank of
-- the row in it, and nothing else changes.
pub view_group_member_lem :
    (fd : ℕ) (m : Msg) (w : World)
    → 0 < count (is_group m.to_group_name) w.head_user_groups
    → 0 < count (is_member m.to_group_name m.from_name) w.head_group_relationship
    → view_group_member fd m w
      ≡ done (record w {
        sent =
            w.sent
            ++ messages fd
                (λ r. fill_member r m)
                (filter (in_group m.to_group_name) w.head_group_relationship);
      })
unfolding view_group_member
view_group_member_lem fd m w exists member =
    let (g, e) = find-some_of_count (is_group m.to_group_name) w.head_user_groups exists in
    let (r, e') =
      find-some_of_count (is_member m.to_group_name m.from_name) w.head_group_relationship member in
    rw (e, view_group_member)
      (rw e' (
        ap done (
          send_matching_lem fd (in_group m.to_group_name) fill_member (λ x y n. refl)
            w.head_group_relationship m w)))

-- The row that an acceptance links.
abbrev pub member_row : CStr → CStr → MysqlGroupRelationship
member_row group user = record { group_name = group; user_name = user; type = pos 3 }

-- What an acceptance does to the tables.
deal_group_request_y_linked :
    (env : Env) (fd : ℕ) (m : Msg) (w : World)
    → (w1 : World) × (deal_group_request_y env fd m w ≡ done w1)
      × (w1.head_group_relationship
          ≡ w.head_group_relationship ++ member_row m.to_group_name m.from_name ∷ [])
      × (w1.head_user_groups ≡ w.head_user_groups)
unfolding deal_group_request_y notify query_unchecked
deal_group_request_y_linked env fd m w =
    let w1 = state (deal_group_request_y env fd m w) in
    let linked =
      weicha_list-eq-append w.head_group_relationship (member_row m.to_group_name m.from_name) in
    (w1, refl, ground (arith, linked), ground arith)

count_joined :
    (group user : CStr) (rows : List MysqlGroupRelationship)
    → count (is_member group user) (rows ++ member_row group user ∷ [])
      ≡ count (is_member group user) rows + 1
unfolding count
count_joined group user rows = ground (
  arith,
  count-append (is_member group user) rows (member_row group user ∷ []),
  streq_refl group,
  streq_refl user,
)

-- The request of a user to join an existing group is accepted, and then the user asks for the
-- members. The first call returns, whatever the database answers, and so does the second, which
-- sends the user one message for each row of the group, in order, the user's own row being the
-- last.
pub joining_shows_members :
    (env : Env) (fd fd' : ℕ) (m m' : Msg) (w : World)
    → 0 < count (is_group m.to_group_name) w.head_user_groups
    → m'.to_group_name ≡ m.to_group_name
    → m'.from_name ≡ m.from_name
    → (w1 : World) × (deal_group_request_y env fd m w ≡ done w1)
      × (view_group_member fd' m' w1
          ≡ done (record w1 {
            sent =
                w1.sent
                ++ messages fd'
                    (λ r. fill_member r m')
                    (filter
                      (in_group m.to_group_name)
                      (w.head_group_relationship ++ member_row m.to_group_name m.from_name ∷ []));
          }))
joining_shows_members env fd fd' m m' w exists group user =
    let (w1, accepted, rows, groups) = deal_group_request_y_linked env fd m w in
    let named : 0 < count (is_group m'.to_group_name) w1.head_user_groups =
      rw (group, groups) exists in
    let member : 0 < count (is_member m'.to_group_name m'.from_name) w1.head_group_relationship =
      rw (group, user, rows)
        (omega (arith, count_joined m.to_group_name m.from_name w.head_group_relationship)) in
    (
      w1,
      accepted,
      view_group_member_lem fd' m' w1 named member
          ∙ ap (λ l. done (record w1 { sent = w1.sent ++ messages fd' (λ r. fill_member r m') l }))
              (rw (group, rows) refl),
    )

count-delete_first {ℓ} :
    {A : Type ℓ} (test : A → Bool) (xs : List A) (n : ℕ)
    → count test xs ≡ suc n
    → count test (delete_first test xs) ≡ n
unfolding count delete_first
count-delete_first test [] n h = absurd (ground arith)
count-delete_first test (x ∷ xs) n h = elim (Bool-cases (test x)) [
  | inl hit ↦ ground (arith, hit)
  | inr miss ↦ ground (arith, miss, count-delete_first test xs n)
]

-- One row less after a member has left.
quit_group-count :
    (env : Env) (fd : ℕ) (m : Msg) (w : World) (g : MysqlUserGroups) (n : ℕ)
    → IsUp env
    → find (is_group m.to_group_name) w.head_user_groups ≡ some g
    → g.owner ≢ m.from_name
    → count (is_member m.to_group_name m.from_name) w.head_group_relationship ≡ suc n
    → (w' : World) × (quit_group env fd m w ≡ done w')
      × (count (is_member m.to_group_name m.from_name) w'.head_group_relationship ≡ n)
unfolding quit_group leave_group notify ◌>>=◌
quit_group-count env fd m w g n up exists other rows =
    let test = is_member m.to_group_name m.from_name in
    let (r, member) = find-some_of_count test w.head_group_relationship (omega arith) in
    let executed = query-up env (delete_member m.to_group_name m.from_name) w up in
    (
      state (quit_group env fd m w),
      ground (arith, exists, member, executed, streq_iff g.owner m.from_name),
      ground (
        arith,
        exists,
        member,
        executed,
        streq_iff g.owner m.from_name,
        count-delete_first test w.head_group_relationship n rows,
      ),
    )

-- While the database executes every statement: the request of a user to join a group is accepted
-- twice, as it can be sent again while it is pending; the group exists, and the user had no row in
-- it and is not its owner. Then the user quits the group. All calls return, and the user has one
-- row in the group still.
pub quitting_once_of_two :
    (env : Env) (fd fd' fd'' : ℕ) (m q : Msg) (w : World) (g : MysqlUserGroups)
    → IsUp env
    → find (is_group m.to_group_name) w.head_user_groups ≡ some g
    → g.owner ≢ m.from_name
    → count (is_member m.to_group_name m.from_name) w.head_group_relationship ≡ 0
    → q.to_group_name ≡ m.to_group_name
    → q.from_name ≡ m.from_name
    → (w1 : World) × (w2 : World) × (w3 : World) × (deal_group_request_y env fd m w ≡ done w1)
      × (deal_group_request_y env fd' m w1 ≡ done w2)
      × (quit_group env fd'' q w2 ≡ done w3)
      × (count (is_member m.to_group_name m.from_name) w3.head_group_relationship ≡ 1)
quitting_once_of_two env fd fd' fd'' m q w g up exists other outsider group user =
    let name = m.to_group_name in
    let a = m.from_name in
    let (w1, first, rows1, groups1) = deal_group_request_y_linked env fd m w in
    let (w2, second, rows2, groups2) = deal_group_request_y_linked env fd' m w1 in
    let two : count (is_member name a) w2.head_group_relationship ≡ 2 =
      rw (rows2, rows1)
        (omega (
          arith,
          outsider,
          count_joined name a w.head_group_relationship,
          count_joined name a (w.head_group_relationship ++ member_row name a ∷ []),
        )) in
    let (w3, left, one) =
      quit_group-count env fd'' q w2 g 1 up (rw (group, groups2, groups1) exists) (rw user other)
        (rw (group, user) two) in
    (
      w1,
      w2,
      w3,
      first,
      second,
      left,
      ap₂ (λ x y. count (is_member x y) w3.head_group_relationship) (sym group) (sym user) ∙ one,
    )
