-- ===== src/Examples/Texts.antt =====
-- A database that reads the texts of the statements of epoll.c: it cuts them at the quotes.
use team_c.Common.{
  ℕ, zero, suc, Bool, true, false, not, ◌==◌, ◌≡◌, refl, ◌∙◌, ap, List, [], ◌∷◌, ◌++◌, append_assoc,
  if◌then◌else◌, Bool-cases, inl, inr, arith,
}
use team_c.Common.Lists.{All}
use team_c.Common.Text.{CStr, codes, streq}
use team_c.Chat.Sql.{
  Statement, insert_user, insert_friend_request, insert_friend_accepted, delete_friend_row,
  clear_friend_status, set_friend_status, insert_chat_offline, insert_chat_online,
  insert_group_offline, insert_group_online, insert_group, delete_group, insert_owner,
  insert_member, delete_member, delete_members, set_member_manager, render,
}
use team_c.Chat.Mirror.{Stored, effect}
use team_c.Chat.Mirror.Texts.{is_key_byte, is_word_byte, all_bytes, IsPlain, Mysql}

abbrev onto : ℕ → List CStr → List CStr
onto c [] = (c ∷ []) ∷ []
onto c (x ∷ xs) = (c ∷ x) ∷ xs

abbrev cut_at : Bool → ℕ → List CStr → List CStr
cut_at true c pieces = [] ∷ pieces
cut_at false c pieces = onto c pieces

-- The pieces between the quotes of a text.
unfoldable pub pieces : CStr → List CStr
pieces [] = [] ∷ []
pieces (c ∷ cs) = cut_at (c == 39) c (pieces cs)

abbrev piece : ℕ → List CStr → CStr
piece i [] = []
piece zero (x ∷ xs) = x
piece (suc i) (x ∷ xs) = piece i xs

-- What a text does: the words between the quotes are the arguments of a statement.
abbrev run_pieces : List CStr → Stored → Stored
run_pieces l d =
    let head = piece 0 l in
    if streq head (codes "insert into user values(NULL, ")
    then effect (insert_user (piece 1 l) (piece 3 l) (piece 5 l) (piece 7 l) (piece 9 l)) d
    else if streq head (codes "insert into friend values(NULL,")
    then (if streq (piece 4 l) (codes ", 1, 0)")
        then effect (insert_friend_request (piece 1 l) (piece 3 l)) d
        else effect (insert_friend_accepted (piece 1 l) (piece 3 l)) d)
    else if streq head (codes "delete from friend where f_friendname = ")
    then effect (delete_friend_row (piece 1 l) (piece 3 l)) d
    else if streq head (codes "update friend set status = 0 where f_friendname = ")
    then effect (clear_friend_status (piece 1 l) (piece 3 l)) d
    else if streq head (codes "update friend set status = 1 where f_friendname = ")
    then effect (set_friend_status (piece 1 l) (piece 3 l)) d
    else if streq head (codes "insert into user_groups values(")
    then effect (insert_group (piece 1 l) (piece 3 l)) d
    else if streq head (codes "delete from user_groups where name = ")
    then effect (delete_group (piece 1 l)) d
    else d

-- A text without a quote.
abbrev is_unquoted : CStr → Bool
is_unquoted f = all_bytes (λ c. not (c == 39)) f

key-is_unquoted : (f : CStr) → all_bytes is_key_byte f ≡ true → is_unquoted f ≡ true
key-is_unquoted [] h = refl
key-is_unquoted (c ∷ cs) h = ground (arith, key-is_unquoted cs)

word-is_unquoted : (f : CStr) → all_bytes is_word_byte f ≡ true → is_unquoted f ≡ true
word-is_unquoted [] h = refl
word-is_unquoted (c ∷ cs) h = ground (arith, word-is_unquoted cs)

pieces-quote : (f rest : CStr) → is_unquoted f ≡ true → pieces (f ++ 39 ∷ rest) ≡ f ∷ pieces rest
unfolding pieces
pieces-quote [] rest h = refl
pieces-quote (c ∷ cs) rest h = elim (Bool-cases (c == 39)) [
  | inl e ↦ absurd (ground (arith, e))
  | inr e ↦ rw (e, pieces-quote cs rest (ground arith)) refl
]

pieces-between :
    (f more tail : CStr)
    → is_unquoted f ≡ true
    → pieces ((f ++ 39 ∷ more) ++ tail) ≡ f ∷ pieces (more ++ tail)
pieces-between f more tail h =
    ap pieces (append_assoc f (39 ∷ more) tail) ∙ pieces-quote f (more ++ tail) h

run_pieces-insert_user :
    (n k s p t : CStr) (d : Stored)
    → IsPlain 50 (insert_user n k s p t)
    → run_pieces (pieces (render (insert_user n k s p t))) d ≡ effect (insert_user n k s p t) d
unfolding pieces render streq
run_pieces-insert_user n k s p t d (hn, hk, hs, hp, ht) =
    rw
      (
        pieces,
        pieces-between n _ _ (key-is_unquoted n (hn.0)),
        pieces-between k _ _ (word-is_unquoted k (hk.0)),
        pieces-between s _ _ (word-is_unquoted s (hs.0)),
        pieces-between p _ _ (word-is_unquoted p (hp.0)),
        pieces-quote t _ (word-is_unquoted t (ht.0)),
      )
      refl

-- The two words of a statement about a friend or a group.
run_pieces-two :
    (a b : CStr) (d : Stored)
    → is_unquoted a ≡ true
    → is_unquoted b ≡ true
    → All
        (λ t. run_pieces (pieces (render t)) d ≡ effect t d)
        (insert_friend_request a b
          ∷ insert_friend_accepted a b
          ∷ delete_friend_row a b
          ∷ clear_friend_status a b
          ∷ set_friend_status a b
          ∷ insert_group a b
          ∷ [])
unfolding pieces render streq
run_pieces-two a b d ha hb = (
  rw (pieces, pieces-between a _ _ ha, pieces-quote b _ hb) refl,
  (
    rw (pieces, pieces-between a _ _ ha, pieces-quote b _ hb) refl,
    (
      rw (pieces, pieces-quote a _ ha, pieces-quote b _ hb) refl,
      (
        rw (pieces, pieces-quote a _ ha, pieces-quote b _ hb) refl,
        (
          rw (pieces, pieces-quote a _ ha, pieces-quote b _ hb) refl,
          (rw (pieces, pieces-between a _ _ ha, pieces-quote b _ hb) refl, tt),
        ),
      ),
    ),
  ),
)

pub run_pieces-render :
    (s : Statement) (d : Stored) → IsPlain 50 s → run_pieces (pieces (render s)) d ≡ effect s d
unfolding pieces render streq effect
run_pieces-render (insert_user n k s p t) d h = run_pieces-insert_user n k s p t d h
run_pieces-render (insert_friend_request f u) d (hf, hu) =
    (run_pieces-two f u d (key-is_unquoted f (hf.0)) (key-is_unquoted u (hu.0))).0
run_pieces-render (insert_friend_accepted f u) d (hf, hu) =
    (run_pieces-two f u d (key-is_unquoted f (hf.0)) (key-is_unquoted u (hu.0))).1.0
run_pieces-render (delete_friend_row f u) d (hf, hu) =
    (run_pieces-two f u d (key-is_unquoted f (hf.0)) (key-is_unquoted u (hu.0))).1.1.0
run_pieces-render (clear_friend_status f u) d (hf, hu) =
    (run_pieces-two f u d (key-is_unquoted f (hf.0)) (key-is_unquoted u (hu.0))).1.1.1.0
run_pieces-render (set_friend_status f u) d (hf, hu) =
    (run_pieces-two f u d (key-is_unquoted f (hf.0)) (key-is_unquoted u (hu.0))).1.1.1.1.0
run_pieces-render (insert_chat_offline _ _ _ _) d h = refl
run_pieces-render (insert_chat_online _ _ _ _) d h = refl
run_pieces-render (insert_group_offline _ _ _ _ _) d h = refl
run_pieces-render (insert_group_online _ _ _ _ _) d h = refl
run_pieces-render (insert_group n o) d (hn, ho) =
    (run_pieces-two n o d (key-is_unquoted n (hn.0)) (key-is_unquoted o (ho.0))).1.1.1.1.1.0
run_pieces-render (delete_group n) d h =
    rw (pieces, pieces-quote n _ (key-is_unquoted n (h.0))) refl
run_pieces-render (insert_owner _ _) d h = refl
run_pieces-render (insert_member _ _) d h = refl
run_pieces-render (delete_member _ _) d h = refl
run_pieces-render (delete_members _) d h = refl
run_pieces-render (set_member_manager _ _) d h = refl

abbrev run_texts : Stored → List CStr → Stored
run_texts d [] = d
run_texts d (t ∷ l) = run_texts (run_pieces (pieces t) d) l

pub run_texts-append :
    (d : Stored) (l : List CStr) (t : CStr)
    → run_texts d (l ++ t ∷ []) ≡ run_pieces (pieces t) (run_texts d l)
run_texts-append d [] t = refl
run_texts-append d (x ∷ l) t = run_texts-append (run_pieces (pieces x) d) l t

-- The database that starts with some tables, with columns of 50 bytes.
abbrev pub reading : Stored → Mysql
reading d = record {
  width = 50;
  stored = run_texts d;
  executes = λ l s h k. run_texts-append d l (render s) ∙ run_pieces-render s (run_texts d l) h;
}
