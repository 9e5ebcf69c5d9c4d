-- ===== src/Room/Friend/Befriending.antt =====
-- Friendships in Code/liuting1/chatroom/server_deal.c: recv_addfr_PACK, deal_chat_fri,
-- deal_dele_fri.
use team_c.Common.{
  Bool, true, false, not, ◌||◌, ◌≡◌, refl, ◌∙◌, ap, some, List, [], ◌∷◌, ◌++◌, if◌then◌else◌, arith,
}
use team_c.Common.Lists.{filter}
use team_c.Common.Int.{ℤ, pos, ◌==ℤ◌, ==ℤ_iff}
use team_c.Common.Text.{codes, streq, streq_refl}
use team_c.Room.Packet.{Pack, Friendship, Change, PersonQuery, FriendQuery}
use team_c.Room.Machine.{Database, ResultPtr, Server}
use team_c.Room.Mysql.{
  good, bad, any_row, mysql_init, mysql_close, contact_of, mysql_dele_fri, mysql_find_frirela,
  mysql_addfriend_store,
}
use team_c.Room.Mysql.Answers.{
  opened, released, mysql_find_fd_lem, mysql_find_frirela_lem, query_change_lem,
}
use team_c.Room.Friend.{recv_addfr_pack, deal_dele_fri, deal_chat_fri, no_friend, accepted_pack}
use team_c.Room.Sql.{Tables, IsSql, apply, joins, person_test}

==ℤ_refl : (a : ℤ) → (a ==ℤ a) ≡ true
==ℤ_refl a = (==ℤ_iff a a).1 refl

-- Whether a row joins two users.
abbrev pub are_friends : ℤ → ℤ → List Friendship → Bool
are_friends a b rows = elim (filter (joins a b) rows) [ [] ↦ false | f ∷ fs ↦ true ]

are_friends-snoc :
    (a b : ℤ) (rows : List Friendship) (f : Friendship)
    → are_friends a b (rows ++ f ∷ []) ≡ are_friends a b rows || joins a b f
are_friends-snoc a b [] f = ground arith
are_friends-snoc a b (g ∷ rows) f = ground (arith, are_friends-snoc a b rows f)

are_friends-deleted :
    (a b : ℤ) (rows : List Friendship)
    → are_friends a b (filter (λ f. not (joins a b f || joins b a f)) rows) ≡ false
are_friends-deleted a b [] = refl
are_friends-deleted a b (f ∷ rows) = ground (arith, are_friends-deleted a b rows)

are_friends-deleted_back :
    (a b : ℤ) (rows : List Friendship)
    → are_friends b a (filter (λ f. not (joins a b f || joins b a f)) rows) ≡ false
are_friends-deleted_back a b [] = refl
are_friends-deleted_back a b (f ∷ rows) = ground (arith, are_friends-deleted_back a b rows)

any_row-friends :
    (a b : ℤ) (rows : List Friendship)
    → any_row (some (filter (joins a b) rows)) ≡ (if are_friends a b rows then good else bad)
any_row-friends a b rows = ground arith

module _ (db : Database) (sql : IsSql db) where
  -- MYSQL_find_frirela says whether a row joins the users.
  find_frirela-are_friends :
      (a b : ℤ) (s : Server db.Store)
      → mysql_find_frirela db a b s
        ≡ some (if are_friends a b (sql.tables s.store).friends then good else bad, released s)
  find_frirela-are_friends a b s =
      mysql_find_frirela_lem db s a b _ (sql.finds_friendships (FriendQuery.between a b) s.store)
      ∙ ap (λ r. some (r, released s)) (any_row-friends a b (sql.tables s.store).friends)

  -- The tables after a friendship is stored.
  abbrev befriended : ℤ → ℤ → Tables → Tables
  befriended a b t = apply (Change.insert_friends b a) (apply (Change.insert_friends a b) t)

  addfriend_store-befriended :
      (a b : ℤ) (s : Server db.Store)
      → (t : db.Store) × (mysql_addfriend_store db a b s
          ≡ some (good, record s { store = t; connected = false }))
        × (sql.tables t ≡ befriended a b (sql.tables s.store))
  unfolding mysql_addfriend_store mysql_init mysql_close
  addfriend_store-befriended a b s =
      let (t1, e1, m1) = sql.changes (Change.insert_friends a b) s.store in
      let (t2, e2, m2) = sql.changes (Change.insert_friends b a) t1 in
      (
        t2,
        rw
            (
              mysql_addfriend_store,
              query_change_lem db s (Change.insert_friends a b) t1 e1,
              query_change_lem db (record s { store = t1 }) (Change.insert_friends b a) t2 e2,
            )
            refl,
        m2 ∙ ap (apply (Change.insert_friends b a)) m1,
      )

  befriended-are_friends :
      (a b : ℤ) (t : Tables)
      → (are_friends a b (befriended a b t).friends ≡ true)
        × (are_friends b a (befriended a b t).friends ≡ true)
  unfolding apply
  befriended-are_friends a b t =
      let row : Friendship = record { id1 = a; id2 = b } in
      let back : Friendship = record { id1 = b; id2 = a } in
      (
        ground (
          arith,
          are_friends-snoc a b (t.friends ++ row ∷ []) back,
          are_friends-snoc a b t.friends row,
          ==ℤ_refl a,
          ==ℤ_refl b,
        ),
        ground (arith, are_friends-snoc b a (t.friends ++ row ∷ []) back, ==ℤ_refl a, ==ℤ_refl b),
      )

  are_friends-found :
      (a b : ℤ) (t : Server db.Store)
      → are_friends a b (sql.tables t.store).friends ≡ true
      → mysql_find_frirela db a b t ≡ some (good, released t)
  are_friends-found a b t h = find_frirela-are_friends a b t ∙ rw (h) refl

  are_friends-missing :
      (a b : ℤ) (t : Server db.Store)
      → are_friends a b (sql.tables t.store).friends ≡ false
      → mysql_find_frirela db a b t ≡ some (bad, released t)
  are_friends-missing a b t h = find_frirela-are_friends a b t ∙ rw (h) refl

  -- A packet of type 41 with the text "success", with a database that does what its statements say:
  -- recv_addfr_PACK returns, the answer goes to the socket of the user who had asked, and then
  -- MYSQL_find_frirela finds each of the two users among the friends of the other.
  pub success_befriends :
      (pack : Pack) (s : Server db.Store)
      → pack.type ≡ pos 41
      → pack.mes ≡ codes "success"
      → (t : Server db.Store) × (recv_addfr_pack db pack s ≡ some (tt, t))
        × (t.sent
            ≡ s.sent
              ++ (
                (contact_of db (
                    filter
                      (person_test (PersonQuery.with_id pack.send_account))
                      (sql.tables s.store).user)).account,
                accepted_pack db pack,
              )
                ∷ [])
        × (mysql_find_frirela db pack.account pack.send_account t ≡ some (good, released t))
        × (mysql_find_frirela db pack.send_account pack.account t ≡ some (good, released t))
  unfolding recv_addfr_pack
  success_befriends pack s h m =
      let a = pack.account in
      let b = pack.send_account in
      let asks : (pack.type ==ℤ pos 41) ≡ true = (==ℤ_iff pack.type (pos 41)).1 h in
      let agrees : streq pack.mes (codes "success") ≡ true =
        ap (λ w. streq w (codes "success")) m ∙ streq_refl (codes "success") in
      let rows = filter (person_test (PersonQuery.with_id b)) (sql.tables s.store).user in
      let (t, e, n) = addfriend_store-befriended a b (released s) in
      let found = befriended-are_friends a b (sql.tables s.store) in
      let end_state : Server db.Store = record s {
        store = t;
        connected = false;
        result = ResultPtr.freed;
        sent = s.sent ++ ((contact_of db rows).account, accepted_pack db pack) ∷ [];
      } in
      (
        end_state,
        rw
            (
              recv_addfr_pack,
              asks,
              mysql_find_fd_lem db s b rows (sql.finds_persons (PersonQuery.with_id b) s.store),
              agrees,
              e,
            )
            refl,
        refl,
        are_friends-found a b end_state (ap (λ u. are_friends a b u.friends) n ∙ found.0),
        are_friends-found b a end_state (ap (λ u. are_friends b a u.friends) n ∙ found.1),
      )

  -- deal_dele_fri, with a database that does what its statements say: MYSQL_find_frirela finds
  -- neither of the two users among the friends of the other then, and a message from the first one to
  -- the second one is answered with a refusal, and is neither stored, nor sent, nor kept.
  pub deletion_refuses_chat :
      (pack : Pack) (chat : Pack) (fd : ℤ) (s : Server db.Store)
      → chat.account ≡ pack.account
      → chat.send_account ≡ pack.send_account
      → (t : Server db.Store) × (deal_dele_fri db pack (opened s) ≡ some (tt, t))
        × (mysql_find_frirela db pack.account pack.send_account t ≡ some (bad, released t))
        × (mysql_find_frirela db pack.send_account pack.account t ≡ some (bad, released t))
        × (deal_chat_fri db fd chat t
            ≡ some (tt, record (released t) { sent = t.sent ++ (fd, no_friend db chat) ∷ [] }))
  unfolding deal_dele_fri mysql_dele_fri deal_chat_fri apply
  deletion_refuses_chat pack chat fd s ha hb =
      let a = pack.account in
      let b = pack.send_account in
      let (u, e, n) = sql.changes (Change.delete_friends a b) s.store in
      let t : Server db.Store = record (opened s) { store = u } in
      let no_row = ap (λ v. are_friends a b v.friends) n ∙ are_friends-deleted a b _ in
      let no_back = ap (λ v. are_friends b a v.friends) n ∙ are_friends-deleted_back a b _ in
      (
        t,
        rw (deal_dele_fri, mysql_dele_fri, query_change_lem db s (Change.delete_friends a b) u e)
            refl,
        are_friends-missing a b t no_row,
        are_friends-missing b a t no_back,
        rw (deal_chat_fri, ha, hb, are_friends-missing a b t no_row) refl,
      )
