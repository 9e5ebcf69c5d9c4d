-- ===== src/Chat/Friend/Listing.antt =====
-- all_friends and online_friend: which friends a user is told.
use team_c.Common.{
  ℕ, ◌<◌, Bool, true, false, none, some, ◌≡◌, refl, ap, ◌∙◌, List, [], ◌∷◌, ◌++◌, map, arith,
  append_assoc, append-nil, Option-cases, Bool-cases, inl, inr,
}
use team_c.Common.Int.{ℤ, pos}
use team_c.Common.Lists.{filter}
use team_c.Common.Search.{find}
use team_c.Common.Search.Count.{count, find-some_of_count}
use team_c.Chat.Msg.{Msg, MysqlFriend, set_cmd}
use team_c.Chat.World.{World, done, send}
use team_c.Chat.World.Sends.{messages, send_matching_lem}
use team_c.Chat.Online.{find_online}
use team_c.Chat.Friend.{is_accepted, fill_friend, all_friends, send_online, online_friend}

-- The message with the name of a friend.
abbrev pub naming : Msg → MysqlFriend → Msg
naming m f = fill_friend f m

-- A user with an accepted row asks for all friends: the call returns, the user is sent one message
-- for each accepted row, in the order of the rows, with the name of the friend in it, and nothing
-- else changes.
pub all_friends_lem :
    (fd : ℕ) (m : Msg) (w : World)
    → 0 < count (is_accepted m.user_infor.name) w.head_friends
    → all_friends fd m w
      ≡ done (record w {
        sent =
            w.sent
            ++ messages fd (naming m) (filter (is_accepted m.user_infor.name) w.head_friends);
      })
unfolding all_friends
all_friends_lem fd m w some_friend =
    let (f, e) = find-some_of_count (is_accepted m.user_infor.name) w.head_friends some_friend in
    rw (e, all_friends)
      (ap done (
        send_matching_lem fd (is_accepted m.user_infor.name) fill_friend (λ x y n. refl)
          w.head_friends m w))

-- The friend of a row is online.
abbrev pub is_online : World → MysqlFriend → Bool
is_online w f = elim (find_online f.f_friendname w) [ none ↦ false | some _ ↦ true ]

-- The test of the last element; `flag` for the empty list.
unfoldable last_passes {ℓ} : {A : Type ℓ} → (A → Bool) → Bool → List A → Bool
last_passes test flag [] = flag
last_passes test flag (x ∷ xs) = last_passes test (test x) xs

last_passes-append {ℓ} :
    {A : Type ℓ} (test : A → Bool) (flag : Bool) (xs : List A) (x : A)
    → last_passes test flag (xs ++ x ∷ []) ≡ test x
unfolding last_passes
last_passes-append test flag [] x = refl
last_passes-append test flag (y ∷ ys) x = last_passes-append test (test y) ys x

-- The messages of the loop of online_friend.
abbrev told : ℕ → List MysqlFriend → Msg → World → List (ℕ × Msg)
told fd fs m w = messages fd (naming m) (filter (is_online w) fs)

send_online_lem :
    (fd : ℕ) (flag : Bool) (fs : List MysqlFriend) (m : Msg) (w : World)
    → ((send_online fd flag fs m w).0 ≡ last_passes (is_online w) flag fs)
      × ((send_online fd flag fs m w).2 ≡ record w { sent = w.sent ++ told fd fs m w })
unfolding send_online find_online last_passes
send_online_lem fd flag [] m w = (refl, rw append-nil)
send_online_lem fd flag (f ∷ rest) m w = elim (Option-cases (find_online f.f_friendname w)) [
  | inl e ↦
      let h = send_online_lem fd false rest m w in (ground (arith, e, h.0), ground (arith, e, h.1))
  | inr (u, e) ↦
      let h = send_online_lem fd true rest (fill_friend f m) (send fd (fill_friend f m) w) in
      (
        ground (arith, e, h.0),
        ground (arith, e, h.1, append_assoc w.sent ((fd, fill_friend f m) ∷ []) (told fd rest m w)),
      )
]

-- The socket and the number of a message.
abbrev pub number : ℕ × Msg → ℕ × ℤ
number (fd, m) = (fd, m.cmd)

find_of_filter :
    (test : MysqlFriend → Bool) (xs fs : List MysqlFriend) (f : MysqlFriend)
    → filter test xs ≡ fs ++ f ∷ []
    → (a : MysqlFriend) × (find test xs ≡ some a)
unfolding find
find_of_filter test [] [] f h = absurd (ground arith)
find_of_filter test [] (g ∷ fs) f h = absurd (ground arith)
find_of_filter test (x ∷ xs) fs f h = elim (Bool-cases (test x)) [
  | inl hit ↦ (x, ground (arith, hit))
  | inr miss ↦
      let (a, e) = find_of_filter test xs fs f (ground (arith, h, miss)) in
      (a, ground (arith, miss, e))
]

-- A user with an accepted row asks which friends are online. The call returns, and the user is
-- sent one message for each accepted row whose friend is online, in the order of the rows, with
-- the name of the friend in it. If the friend of the last accepted row is not online, one more
-- message follows, of number 122, however many of the others are online; else none does.
pub online_friend_lem :
    (fd : ℕ) (m : Msg) (w : World) (fs : List MysqlFriend) (f : MysqlFriend)
    → filter (is_accepted m.user_infor.name) w.head_friends ≡ fs ++ f ∷ []
    → (w' : World) × (end : List (ℕ × Msg)) × (online_friend fd m w ≡ done w')
      × (w'.sent ≡ w.sent ++ (messages fd (naming m) (filter (is_online w) (fs ++ f ∷ [])) ++ end))
      × (map number end
          ≡ (elim (find_online f.f_friendname w) [ none ↦ (fd, pos 122) ∷ [] | some _ ↦ [] ]))
unfolding online_friend
online_friend_lem fd m w fs f rows =
    let mine = filter (is_accepted m.user_infor.name) w.head_friends in
    let (a, e) = find_of_filter (is_accepted m.user_infor.name) w.head_friends fs f rows in
    let run = send_online fd true mine m w in
    let (flag, sent) = send_online_lem fd true mine m w in
    let last : run.0 ≡ is_online w f =
      flag ∙ rw rows (last_passes-append (is_online w) true fs f) in
    elim (Option-cases (find_online f.f_friendname w)) [
      | inl off ↦ (
        record w {
          sent = w.sent ++ (told fd (fs ++ f ∷ []) m w ++ (fd, set_cmd (pos 122) run.1) ∷ []);
        },
        (fd, set_cmd (pos 122) run.1) ∷ [],
        ground (
          arith,
          e,
          last,
          off,
          sent,
          rows,
          append_assoc w.sent (told fd (fs ++ f ∷ []) m w) ((fd, set_cmd (pos 122) run.1) ∷ []),
        ),
        refl,
        rw off refl,
      )
      | inr (u, on) ↦ (
        record w { sent = w.sent ++ (told fd (fs ++ f ∷ []) m w ++ []) },
        [],
        ground (arith, e, last, on, sent, rows, append-nil (told fd (fs ++ f ∷ []) m w)),
        refl,
        rw on refl,
      )
    ]
