-- ===== src/Chat/Invariant.antt =====
-- The keys of the tables in memory. The source looks for a row by its key before it links a new
-- one; the children have a file for the handlers of each part.
pub mod AccountKeys
pub mod FriendKeys
pub mod GroupKeys
pub mod ServerKeys
use team_c.Common.{
  ℕ, ◌+◌, ◌≤◌, Bool, true, false, ◌≡◌, Option, none, List, [], ◌∷◌, arith, not, ◌||◌,
}
use team_c.Common.Int.{pos, ◌==ℤ◌}
use team_c.Common.Text.{CStr, streq_iff, streq}
use team_c.Common.Search.{find}
use team_c.Common.Search.Count.{count, count_of_find-none, count-append}
use team_c.Chat.Msg.{MysqlUser, MysqlFriend, MysqlUserGroups}
use team_c.Chat.World.{weicha_list}
use team_c.Chat.World.Tables.{Tables, weicha_list-eq-append}
use team_c.Chat.Account.{is_named}
use team_c.Chat.Friend.{is_row}
use team_c.Chat.Group.{is_group}

-- The status is neither that of a request nor that of a friend.
abbrev pub has_other_status : MysqlFriend → Bool
has_other_status f = not (f.status ==ℤ pos 0 || (f.status ==ℤ pos 1))

-- No two users have one name, no two friend rows one pair of names, no two groups one name, and
-- the status of a friend row is 0 or 1.
pub record HasKeys (user_list : List MysqlUser) (friend_list : List MysqlFriend)
    (group_list : List MysqlUserGroups) : Type 0 where
  pub users : (name : CStr) → count (is_named name) user_list ≤ 1
  pub friends : (friend user : CStr) → count (is_row friend user) friend_list ≤ 1
  pub groups : (name : CStr) → count (is_group name) group_list ≤ 1
  pub statuses : count has_other_status friend_list ≡ 0

-- The relations are not part of it.
abbrev pub IsConsistent : Tables → Type 0
IsConsistent t = HasKeys t.users t.friends t.groups

count-weicha_list {ℓ} :
    {A : Type ℓ} (test : A → Bool) (xs : List A) (x : A)
    → (test x ≡ true → count test xs ≡ 0)
    → count test xs ≤ 1
    → count test (weicha_list xs x) ≤ 1
unfolding count
count-weicha_list test xs x fresh h =
    rw (weicha_list-eq-append xs x) (ground (arith, count-append test xs (x ∷ []), fresh))

-- A user whose name a search has not found.
pub new_user-IsConsistent :
    (t : Tables) (u : MysqlUser)
    → find (is_named u.u_name) t.users ≡ none
    → IsConsistent t
    → IsConsistent (record t { users = weicha_list t.users u })
new_user-IsConsistent t u new h = record {
  users = λ name.
      count-weicha_list (is_named name) t.users u
        (λ hit. rw (← (streq_iff u.u_name name).0 hit) (count_of_find-none _ t.users new))
        (h.users name);
  friends = h.friends;
  groups = h.groups;
  statuses = h.statuses;
}

pub new_group-IsConsistent :
    (t : Tables) (g : MysqlUserGroups)
    → find (is_group g.name) t.groups ≡ none
    → IsConsistent t
    → IsConsistent (record t { groups = weicha_list t.groups g })
new_group-IsConsistent t g new h = record {
  users = h.users;
  friends = h.friends;
  groups = λ name.
      count-weicha_list (is_group name) t.groups g
        (λ hit. rw (← (streq_iff g.name name).0 hit) (count_of_find-none _ t.groups new))
        (h.groups name);
  statuses = h.statuses;
}

-- The two names of a row that passes the test of a pair.
pub is_row-names :
    (friend user : CStr) (f : MysqlFriend)
    → is_row friend user f ≡ true
    → (f.f_friendname ≡ friend) × (f.f_username ≡ user)
is_row-names friend user f h =
    ground (arith, streq_iff f.f_friendname friend, streq_iff f.f_username user)

pub new_row-IsConsistent :
    (t : Tables) (f : MysqlFriend)
    → find (is_row f.f_friendname f.f_username) t.friends ≡ none
    → has_other_status f ≡ false
    → IsConsistent t
    → IsConsistent (record t { friends = weicha_list t.friends f })
new_row-IsConsistent t f new known h = record {
  users = h.users;
  friends = λ friend user.
      count-weicha_list (is_row friend user) t.friends f
        (λ hit.
          let names = is_row-names friend user f hit in
          rw (← names.0, ← names.1) (count_of_find-none _ t.friends new))
        (h.friends friend user);
  groups = h.groups;
  statuses =
      unfold count in
      rw (weicha_list-eq-append t.friends f)
        (ground (arith, h.statuses, count-append has_other_status t.friends (f ∷ [])));
}
