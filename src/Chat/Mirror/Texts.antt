-- ===== src/Chat/Mirror/Texts.antt =====
-- The database behind epoll.c, a parameter that reads the texts of the statements.
use team_c.Common.{
  ℕ, Bool, true, false, not, ◌&&◌, ◌||◌, ◌==◌, ltb, ◌≤◌, ◌≡◌, refl, sym, ◌∙◌, ap, List, [], ◌∷◌,
  ◌++◌, map, append-nil, append_assoc, if◌then◌else◌,
}
use mathlib.Core.Path.{subst}
use team_c.Common.Int.{ℤ, pos}
use team_c.Common.Lists.{All, All-append, length, filter}
use team_c.Common.Text.{CStr}
use team_c.Chat.Msg.{MysqlUser, MysqlFriend, MysqlUserGroups}
use team_c.Chat.Sql.{
  Env, Statement, insert_user, insert_friend_request, insert_friend_accepted, delete_friend_row,
  clear_friend_status, set_friend_status, insert_chat_offline, insert_chat_online,
  insert_group_offline, insert_group_online, insert_group, delete_group, insert_owner,
  insert_member, delete_member, delete_members, set_member_manager, render,
}
use team_c.Chat.World.{World, done}
use team_c.Chat.World.Tables.{tables}
use team_c.Chat.Friend.{is_row, set_status}
use team_c.Chat.Server.{Readable, serve}
use team_c.Chat.Invariant.{IsConsistent}
use team_c.Chat.Mirror.{Stored, Replayed, effect, image, set_rows}
use team_c.Chat.Mirror.ServerRows.{serve-replays}

-- Small letters and digits: no two words of these are equal to MySQL and differ to strcmp.
abbrev pub is_key_byte : ℕ → Bool
is_key_byte c = (ltb 96 c && ltb c 123) || (ltb 47 c && ltb c 58)

-- Printable ASCII but for ' and \, with which a text between quotes is what was written.
abbrev pub is_text_byte : ℕ → Bool
is_text_byte c = ltb 31 c && ltb c 127 && not (c == 39) && not (c == 92)

-- Blanks at the end of a column may be lost.
abbrev pub is_word_byte : ℕ → Bool
is_word_byte c = is_text_byte c && not (c == 32)

abbrev pub all_bytes : (ℕ → Bool) → CStr → Bool
all_bytes test [] = true
all_bytes test (c ∷ cs) = test c && all_bytes test cs

-- A name that conditions compare, a word in another column of the same width, and any other text.
abbrev pub IsKey : ℕ → CStr → Type 0
IsKey width f = (all_bytes is_key_byte f ≡ true) × (length f ≤ width)

abbrev pub IsWord : ℕ → CStr → Type 0
IsWord width f = (all_bytes is_word_byte f ≡ true) × (length f ≤ width)

abbrev pub IsText : CStr → Type 0
IsText f = all_bytes is_text_byte f ≡ true

-- The statements whose texts MySQL takes as they are meant, with columns of a width.
abbrev pub IsPlain : ℕ → Statement → Type 0
IsPlain k (insert_user n c s p t) = IsKey k n × IsWord k c × IsWord k s × IsWord k p × IsWord k t
IsPlain k (insert_friend_request f u) = IsKey k f × IsKey k u
IsPlain k (insert_friend_accepted f u) = IsKey k f × IsKey k u
IsPlain k (delete_friend_row f u) = IsKey k f × IsKey k u
IsPlain k (clear_friend_status f u) = IsKey k f × IsKey k u
IsPlain k (set_friend_status f u) = IsKey k f × IsKey k u
IsPlain k (insert_chat_offline n t f d) = IsText n × IsText t × IsText f × IsText d
IsPlain k (insert_chat_online n t f d) = IsText n × IsText t × IsText f × IsText d
IsPlain k (insert_group_offline n t f g d) = IsText n × IsText t × IsText f × IsText g × IsText d
IsPlain k (insert_group_online n t f g d) = IsText n × IsText t × IsText f × IsText g × IsText d
IsPlain k (insert_group n o) = IsKey k n × IsKey k o
IsPlain k (delete_group n) = IsKey k n
IsPlain k (insert_owner g u) = IsKey k g × IsKey k u
IsPlain k (insert_member g u) = IsKey k g × IsKey k u
IsPlain k (delete_member g u) = IsKey k g × IsKey k u
IsPlain k (delete_members g) = IsKey k g
IsPlain k (set_member_manager g u) = IsKey k g × IsKey k u

-- Rows whose names are such keys.
abbrev KeyUser : ℕ → MysqlUser → Type 0
KeyUser k u = IsKey k u.u_name

abbrev KeyFriend : ℕ → MysqlFriend → Type 0
KeyFriend k f = IsKey k f.f_friendname × IsKey k f.f_username

abbrev KeyGroup : ℕ → MysqlUserGroups → Type 0
KeyGroup k g = IsKey k g.name × IsKey k g.owner

abbrev pub HasKeys : ℕ → Stored → Type 0
HasKeys k d = All (KeyUser k) d.users × All (KeyFriend k) d.friends × All (KeyGroup k) d.groups

-- MySQL behind the connection: what the tables hold after texts that it has executed without an
-- error, oldest first, with the rows in the order of their insertion, and the width of the columns.
-- A plain text does what it means to tables with plain names; of other texts nothing is said, as a
-- quote or a backslash ends or changes a word, MySQL compares without regard to case, and a word
-- that is too long for its column is cut.
pub record Mysql : Type 0 where
  pub width : ℕ
  pub stored : List CStr → Stored
  pub executes :
      (l : List CStr) (s : Statement)
      → IsPlain width s
      → HasKeys width (stored l)
      → stored (l ++ render s ∷ []) ≡ effect s (stored l)

All-filter :
    {A : Type 0} (P : A → Type 0) (test : A → Bool) (xs : List A)
    → All P xs
    → All P (filter test xs)
All-filter P test [] h = tt
All-filter P test (x ∷ xs) (h, hs) = kept (test x) h (All-filter P test xs hs)
  where
    kept :
        (b : Bool)
        → P x
        → All P (filter test xs)
        → All P (if b then x ∷ filter test xs else filter test xs)
    kept true p ps = (p, ps)
    kept false p ps = ps

set_rows-KeyFriend :
    (k : ℕ) (status : ℤ) (friend user : CStr) (rows : List MysqlFriend)
    → All (KeyFriend k) rows
    → All (KeyFriend k) (set_rows status friend user rows)
set_rows-KeyFriend k status friend user [] h = tt
set_rows-KeyFriend k status friend user (f ∷ rows) (h, hs) =
    (kept (is_row friend user f), set_rows-KeyFriend k status friend user rows hs)
  where
    kept : (b : Bool) → KeyFriend k (if b then set_status status f else f)
    kept true = h
    kept false = h

effect-HasKeys :
    (k : ℕ) (s : Statement) (d : Stored) → IsPlain k s → HasKeys k d → HasKeys k (effect s d)
unfolding effect
effect-HasKeys k (insert_user n c s p t) d q (u, f, g) =
    (All-append (KeyUser k) d.users _ u (q.0, tt), f, g)
effect-HasKeys k (insert_friend_request a b) d q (u, f, g) =
    (u, All-append (KeyFriend k) d.friends _ f (q, tt), g)
effect-HasKeys k (insert_friend_accepted a b) d q (u, f, g) =
    (u, All-append (KeyFriend k) d.friends _ f (q, tt), g)
effect-HasKeys k (delete_friend_row a b) d q (u, f, g) =
    (u, All-filter (KeyFriend k) _ d.friends f, g)
effect-HasKeys k (clear_friend_status a b) d q (u, f, g) =
    (u, set_rows-KeyFriend k (pos 0) a b d.friends f, g)
effect-HasKeys k (set_friend_status a b) d q (u, f, g) =
    (u, set_rows-KeyFriend k (pos 1) a b d.friends f, g)
effect-HasKeys k (insert_chat_offline _ _ _ _) d q h = h
effect-HasKeys k (insert_chat_online _ _ _ _) d q h = h
effect-HasKeys k (insert_group_offline _ _ _ _ _) d q h = h
effect-HasKeys k (insert_group_online _ _ _ _ _) d q h = h
effect-HasKeys k (insert_group n o) d q (u, f, g) =
    (u, f, All-append (KeyGroup k) d.groups _ g (q, tt))
effect-HasKeys k (delete_group n) d q (u, f, g) = (u, f, All-filter (KeyGroup k) _ d.groups g)
effect-HasKeys k (insert_owner _ _) d q h = h
effect-HasKeys k (insert_member _ _) d q h = h
effect-HasKeys k (delete_member _ _) d q h = h
effect-HasKeys k (delete_members _) d q h = h
effect-HasKeys k (set_member_manager _ _) d q h = h

-- The effects one after the other.
abbrev replay : Stored → List Statement → Stored
replay d [] = d
replay d (s ∷ l) = replay (effect s d) l

replay-append :
    (d : Stored) (l : List Statement) (s : Statement)
    → replay d (l ++ s ∷ []) ≡ effect s (replay d l)
replay-append d [] s = refl
replay-append d (t ∷ l) s = replay-append (effect t d) l s

stored-replay :
    (m : Mysql) (done_ : List CStr) (l : List Statement)
    → All (IsPlain m.width) l
    → HasKeys m.width (m.stored done_)
    → m.stored (done_ ++ map render l) ≡ replay (m.stored done_) l
stored-replay m done_ [] h k = ap m.stored (append-nil done_)
stored-replay m done_ (s ∷ l) (h, hs) k =
    let e = m.executes done_ s h k in
    ap m.stored (sym (append_assoc done_ (render s ∷ []) (map render l)))
    ∙ stored-replay m (done_ ++ render s ∷ []) l hs
        (subst (HasKeys m.width) (sym e) (effect-HasKeys m.width s (m.stored done_) h k))
    ∙ ap (λ d. replay d l) e

-- The lists refine the database, which reads the texts that the server builds. From a state in which
-- nothing has been executed yet, no two users or groups have one name, no two friend rows one pair of
-- names, every status is 0 or 1, the lists are the tables user, friend and user_groups, and all names
-- in them are keys: after any sequence of messages that the server has handled to their ends, and in
-- which each statement that was executed is plain, the lists are the tables again, rows and order. A
-- statement is plain where the names are keys (small letters and digits), the other words of a user
-- have no blanks, both fit into the columns, and all texts are printable ASCII without a quote or a
-- backslash.
pub serve-IsMirror :
    (mysql : Mysql) (env : Env) (events : List Readable) (w w' : World)
    → IsConsistent (tables w)
    → w.executed ≡ []
    → mysql.stored [] ≡ image w
    → HasKeys mysql.width (image w)
    → serve env events w ≡ done w'
    → All (IsPlain mysql.width) w'.executed
    → mysql.stored (map render w'.executed) ≡ image w'
serve-IsMirror mysql env events w w' c none_yet loaded keys returned plain =
    let replayed : Replayed = record {
      stored = replay (image w);
      executes = replay-append (image w);
    } in
    stored-replay mysql [] w'.executed plain (subst (HasKeys mysql.width) (sym loaded) keys)
    ∙ ap (λ d. replay d w'.executed) loaded
    ∙ serve-replays replayed env events w w' c (ap (replay (image w)) none_yet) returned
