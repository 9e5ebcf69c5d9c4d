-- ===== src/Room/Sql.antt =====
-- What MySQL is taken to do with the statements of MYSQL.c (Code/liuting1/chatroom): tables as lists
-- of rows, and a database that answers by them.
use team_c.Common.{
  ℕ, ◌+◌, Bool, true, not, ◌&&◌, ◌||◌, ◌≡◌, some, List, [], ◌∷◌, ◌++◌, map, if◌then◌else◌,
}
use team_c.Common.Lists.{filter}
use team_c.Common.Int.{ℤ, pos, ◌==ℤ◌}
use team_c.Room.Packet.{
  Person, Friendship, Chatting, Club, Member, Change, PersonQuery, FriendQuery, ClubQuery,
  MemberQuery,
}
use team_c.Room.Machine.{Database}

pub record Tables : Type 0 where
  pub user : List Person
  pub friends : List Friendship
  pub chat_fri : List Chatting
  pub groups : List Club
  pub g_meber : List Member
  pub chat_group : List Chatting
  -- the number that an insert gives out next, and the last one
  pub next_id : ℕ
  pub newest_id : ℤ

-- An update of the rows that satisfy a condition.
abbrev pub update : {A : Type 0} → (A → Bool) → (A → A) → List A → List A
update test f rows = map (λ x. if test x then f x else x) rows

abbrev pub has_id : ℤ → Person → Bool
has_id id p = p.id ==ℤ id

abbrev pub joins : ℤ → ℤ → Friendship → Bool
joins a b f = (f.id1 ==ℤ a) && (f.id2 ==ℤ b)

abbrev pub is_in : ℤ → ℤ → Member → Bool
is_in account group_id m = (m.group_member ==ℤ account) && (m.group_id ==ℤ group_id)

-- The effect of a statement.
unfoldable pub apply : Change → Tables → Tables
apply (Change.update_online online fd id) t = record t {
  user = update (has_id id) (λ p. record p { online = online; sock_fd = fd }) t.user;
}
apply (Change.update_offline id) t = record t {
  user = update (has_id id) (λ p. record p { online = pos 0 }) t.user;
}
apply Change.update_all_offline t = record t {
  user = update (λ p. true) (λ p. record p { online = pos 0 }) t.user;
}
apply (Change.insert_user name passwd) t = record t {
  user =
      t.user
      ++ record {
        id = pos t.next_id;
        name = name;
        passwd = passwd;
        online = pos 0;
        sock_fd = pos 0;
      }
        ∷ [];
  next_id = t.next_id + 1;
  newest_id = pos t.next_id;
}
apply (Change.update_passwd passwd id) t = record t {
  user = update (has_id id) (λ p. record p { passwd = passwd }) t.user;
}
apply (Change.insert_friends a b) t = record t {
  friends = t.friends ++ record { id1 = a; id2 = b } ∷ [];
}
apply (Change.delete_friends a b) t = record t {
  friends = filter (λ f. not (joins a b f || joins b a f)) t.friends;
}
apply (Change.insert_chat_fri a b mes) t = record t {
  chat_fri = t.chat_fri ++ record { id1 = a; id2 = b; mes = mes } ∷ [];
}
apply (Change.insert_groups account name) t = record t {
  groups = t.groups ++ record { id = pos t.next_id; account = account; group_name = name } ∷ [];
  next_id = t.next_id + 1;
  newest_id = pos t.next_id;
}
apply (Change.insert_g_meber group_id account flag) t = record t {
  g_meber =
      t.g_meber ++ record { group_id = group_id; group_member = account; member_flag = flag } ∷ [];
}
apply (Change.delete_g_meber group_id account) t = record t {
  g_meber = filter (λ m. not (is_in account group_id m)) t.g_meber;
}
apply (Change.delete_all_g_meber group_id) t = record t {
  g_meber = filter (λ m. not (m.group_id ==ℤ group_id)) t.g_meber;
}
apply (Change.delete_groups group_id) t = record t {
  groups = filter (λ c. not (c.id ==ℤ group_id)) t.groups;
}
apply (Change.insert_chat_group group_id account mes) t = record t {
  chat_group = t.chat_group ++ record { id1 = group_id; id2 = account; mes = mes } ∷ [];
}
apply (Change.update_member_flag group_id account) t = record t {
  g_meber = update (is_in account group_id) (λ m. record m { member_flag = pos 2 }) t.g_meber;
}

-- The conditions.
abbrev pub person_test : PersonQuery → Person → Bool
person_test (PersonQuery.with_id id) p = has_id id p
person_test (PersonQuery.with_id_online id) p = has_id id p && (p.online ==ℤ pos 1)

abbrev pub friend_test : FriendQuery → Friendship → Bool
friend_test (FriendQuery.between a b) f = joins a b f
friend_test (FriendQuery.of_user a) f = f.id1 ==ℤ a

abbrev pub club_test : ClubQuery → Club → Bool
club_test (ClubQuery.numbered id) c = c.id ==ℤ id
club_test (ClubQuery.owned id account) c = (c.id ==ℤ id) && (c.account ==ℤ account)

abbrev pub member_test : MemberQuery → Member → Bool
member_test (MemberQuery.who account group_id) m = is_in account group_id m
member_test (MemberQuery.in_club group_id) m = m.group_id ==ℤ group_id
member_test (MemberQuery.who_flagged account group_id) m =
    is_in account group_id m && not (m.member_flag ==ℤ pos 0)

-- A database whose statements succeed, and do with its tables what they say.
pub record IsSql (db : Database) : Type 0 where
  pub tables : db.Store → Tables
  pub changes :
      (c : Change) (s : db.Store)
      → (t : db.Store) × (db.change c s ≡ some t) × (tables t ≡ apply c (tables s))
  pub finds_persons :
      (q : PersonQuery) (s : db.Store)
      → db.persons q s ≡ some (filter (person_test q) (tables s).user)
  pub finds_friendships :
      (q : FriendQuery) (s : db.Store)
      → db.friendships q s ≡ some (filter (friend_test q) (tables s).friends)
  pub finds_clubs :
      (q : ClubQuery) (s : db.Store) → db.clubs q s ≡ some (filter (club_test q) (tables s).groups)
  pub finds_members :
      (q : MemberQuery) (s : db.Store)
      → db.members q s ≡ some (filter (member_test q) (tables s).g_meber)
