-- ===== src/Chat/Friend/Rows.antt =====
-- The friend rows that a request and its acceptance link and change.
use team_c.Common.{
  true, false, none, some, ◌≡◌, ◌≢◌, refl, sym, ◌∙◌, List, [], ◌∷◌, arith, Option-cases, inl, inr,
}
use team_c.Common.Int.{ℤ, pos}
use team_c.Common.Text.{CStr, streq_refl, streq_iff}
use team_c.Common.Search.{find, modify_first}
use team_c.Common.Search.Count.{
  find-append, find-passes, find-modify_first, find-modify_first_other,
}
use team_c.Chat.Msg.{MysqlFriend}
use team_c.Chat.World.{weicha_list}
use team_c.Chat.World.Tables.{weicha_list-eq-append}
use team_c.Chat.Friend.{is_row, set_status}

pub is_row_self : (f : MysqlFriend) → is_row f.f_friendname f.f_username f ≡ true
is_row_self f = ground (arith, streq_refl f.f_friendname, streq_refl f.f_username)

-- The row that add_friend links, and the one that deal_friend_request_y links.
abbrev pub friend_row : CStr → CStr → ℤ → MysqlFriend
friend_row friend user status = record {
  f_friendname = friend;
  f_username = user;
  type = pos 1;
  status = status;
}

-- The rows of `a` about `b` and of `b` about `a` are not the same.
pub rows_apart :
    (a b : CStr) → a ≢ b → (f : MysqlFriend) → is_row b a f ≡ true → is_row a b f ≡ false
rows_apart a b n f h = ground (
  arith,
  streq_iff f.f_friendname b,
  streq_iff f.f_friendname a,
  streq_iff f.f_username a,
  streq_iff f.f_username b,
)

-- The list after `b` has accepted the request of `a`.
abbrev pub linked : CStr → CStr → List MysqlFriend → List MysqlFriend
linked a b fs = elim (find (is_row a b) fs) [
  | none ↦ weicha_list fs (friend_row a b (pos 1))
  | some _ ↦ modify_first (is_row a b) (set_status (pos 1)) fs
]

abbrev pub accepted : CStr → CStr → List MysqlFriend → List MysqlFriend
accepted a b fs = modify_first (is_row b a) (set_status (pos 1)) (linked a b fs)

-- The row of `b` about `a` is there and has status 1, whether it was linked or changed.
find-linked :
    (a b : CStr) (fs : List MysqlFriend)
    → (f : MysqlFriend) × (find (is_row a b) (linked a b fs) ≡ some f) × (f.status ≡ pos 1)
unfolding find
find-linked a b fs = elim (Option-cases (find (is_row a b) fs)) [
  | inl e ↦ (
    friend_row a b (pos 1),
    rw (e, linked)
        (rw (weicha_list-eq-append fs (friend_row a b (pos 1))) (
          ground (
            arith,
            find-append (is_row a b) fs (friend_row a b (pos 1) ∷ []),
            e,
            is_row_self (friend_row a b (pos 1)),
          ))),
    refl,
  )
  | inr (g, e) ↦ (
    set_status (pos 1) g,
    rw (e, linked)
        (find-modify_first (is_row a b) (set_status (pos 1)) fs g (find-passes (is_row a b) fs g e)
          e),
    refl,
  )
]

-- The row of `a` about `b` is not touched by it.
pub find-linked_other :
    (a b : CStr) (fs : List MysqlFriend) (f : MysqlFriend)
    → a ≢ b
    → find (is_row b a) fs ≡ some f
    → find (is_row b a) (linked a b fs) ≡ some f
find-linked_other a b fs f n asked = elim (Option-cases (find (is_row a b) fs)) [
  | inl e ↦
      rw (e, linked)
        (rw (weicha_list-eq-append fs (friend_row a b (pos 1)))
          (ground (arith, find-append (is_row b a) fs (friend_row a b (pos 1) ∷ []), asked)))
  | inr (g, e) ↦
      rw (e, linked)
        (find-modify_first_other (is_row a b) (is_row b a) (set_status (pos 1)) fs
            (rows_apart b a (λ p. n (sym p))) (λ x. refl)
          ∙ asked)
]

pub find-accepted :
    (a b : CStr) (fs : List MysqlFriend) (f : MysqlFriend)
    → a ≢ b
    → find (is_row b a) fs ≡ some f
    → (find (is_row b a) (accepted a b fs) ≡ some (set_status (pos 1) f))
      × (g : MysqlFriend) × (find (is_row a b) (accepted a b fs) ≡ some g)
      × (g.status ≡ pos 1)
find-accepted a b fs f n asked =
    let (g, e, s) = find-linked a b fs in
    let there = find-linked_other a b fs f n asked in
    (
      find-modify_first (is_row b a) (set_status (pos 1)) (linked a b fs) f
          (find-passes (is_row b a) (linked a b fs) f there) there,
      g,
      find-modify_first_other (is_row b a) (is_row a b) (set_status (pos 1)) (linked a b fs)
            (rows_apart a b n) (λ x. refl)
          ∙ e,
      s,
    )
