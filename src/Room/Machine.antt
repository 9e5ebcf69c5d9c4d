-- ===== src/Room/Machine.antt =====
-- The state of the server in Code/liuting1/chatroom/server_deal.c, the database of MYSQL.c, and
-- programs that change both. A program has no result where it reads freed or null memory, or writes
-- outside of an array; the reads of deal_chat_group behind its arrays find what stands there.
use team_c.Common.{
  ℕ, zero, suc, ◌+◌, ◌/◌, ◌%◌, ltb, Bool, Option, none, some, List, [], ◌∷◌, ◌++◌, if◌then◌else◌,
}
use team_c.Common.Int.{ℤ, pos, negsuc}
use team_c.Common.Text.{CStr}
use team_c.Room.Packet.{
  Pack, Person, Friendship, Chatting, Club, Member, Change, PersonQuery, FriendQuery, ClubQuery,
  MemberQuery,
}

-- The database as mysql_query answers: `none` where it fails. `junk` is what stands in a variable
-- that was never written, by the line of its declaration.
pub record Database : Type 1 where
  pub Store : Type 0
  pub change : Change → Store → Option Store
  pub last_insert_id : Store → Option (List ℤ)
  pub persons : PersonQuery → Store → Option (List Person)
  pub friendships : FriendQuery → Store → Option (List Friendship)
  pub chat_fri : ℤ → ℤ → Store → Option (List Chatting)
  pub clubs : ClubQuery → Store → Option (List Club)
  pub members : MemberQuery → Store → Option (List Member)
  pub chat_group : ℤ → Store → Option (List Chatting)
  pub junk : ℕ → Pack
  -- what a read at a line finds where a string stood in the array of a function that has returned
  pub dead : ℕ → CStr → CStr
  pub junk_int : ℕ → ℤ

-- g[i]: what deal_chat_group keeps for the user i, by the numbers of the members.
pub record Cache : Type 0 where
  pub group_account : ℤ
  pub use_account : ℕ → ℤ
  pub use_online : ℕ → ℤ
  pub use_fd : ℕ → ℤ

-- OFF
pub record Off : Type 0 where
  pub mes : CStr
  pub account : ℤ
  pub send_name : CStr
  pub send_account : ℤ
  pub type : ℤ
  pub mes2 : CStr

-- `result` of MYSQL.c
pub data ResultPtr : Type 0 where
  null held freed : ResultPtr

-- The variables of server_deal.c, `mysql` and `result`. `offline` is the list behind phead, whose last node is
-- pend; a header without nodes and no header are the same. `sent` has each send, oldest first, with
-- its socket, and `overruns` counts the rounds that have read behind the end of an array.
pub record Server (Store : Type 0) : Type 0 where
  pub store : Store
  pub connected : Bool
  pub result : ResultPtr
  pub g : ℕ → Cache
  pub offline : List Off
  pub group_send_account : ℤ
  pub group_send_name : CStr
  pub file_send_account : ℤ
  pub file_socket : ℤ
  pub sent : List (ℤ × Pack)
  pub overruns : ℕ

abbrev pub Run {ℓ} : Type 0 → Type ℓ → Type ℓ
Run S A = Server S → Option (A × Server S)

module _ {ℓ} {S : Type 0} {A : Type ℓ} where
  abbrev pub pure : A → Run S A
  pure a s = some (a, s)

  abbrev pub crash : Run S A
  crash s = none

module _ {ℓ κ} {S : Type 0} {A : Type ℓ} {B : Type κ} where
  abbrev pub go_on : (A → Run S B) → Option (A × Server S) → Option (B × Server S)
  go_on f none = none
  go_on f (some r) = f (r.0) (r.1)

  infixl 1 ◌>>=◌
  abbrev pub ◌>>=◌ : Run S A → (A → Run S B) → Run S B
  p >>= f = λ s. go_on f (p s)

infixl 1 ◌>>◌
abbrev pub ◌>>◌ {ℓ κ} : {S : Type 0} {A : Type ℓ} {B : Type κ} → Run S A → Run S B → Run S B
p >> q = p >>= λ _. q

abbrev pub modify : {S : Type 0} → (Server S → Server S) → Run S (Unit {0})
modify f s = some (tt, f s)

-- send(fd, &pack, sizeof(PACK), 0); its result is not used.
abbrev pub send_other_pack : {S : Type 0} → Pack → ℤ → Run S (Unit {0})
send_other_pack pack fd = modify λ s. record s { sent = s.sent ++ (fd, pack) ∷ [] }

-- An index of an array with 100 elements.
unfoldable pub index : ℤ → Option ℕ
index (pos n) = if ltb n 100 then some n else none
index (negsuc n) = none

-- The digits of a number below 10 ^ 20, before `rest`.
unfoldable pub digits : ℕ → ℕ → CStr → CStr
digits zero n rest = rest
digits (suc places) n rest =
    let more = digits places (n / 10) ((b'0' + n % 10) ∷ rest) in
    if ltb n 10 then (b'0' + n) ∷ rest else more

-- %d of sprintf
unfoldable pub decimal : ℤ → CStr
unfolding digits
decimal (pos n) = digits 20 n []
decimal (negsuc n) = b'-' ∷ digits 20 (n + 1) []
