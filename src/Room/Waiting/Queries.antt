-- ===== src/Room/Waiting/Queries.antt =====
-- The functions of MYSQL.c (Code/liuting1/chatroom) do not touch the messages that wait.
use team_c.Common.{
  Option, List, [], refl, Bool, ℕ, ltb, if◌then◌else◌, Bool-cases, Option-cases, inl, inr, ◌≡◌, sym,
  append-nil,
}
use team_c.Common.Lists.{length}
use team_c.Common.Int.{ℤ}
use team_c.Room.Packet.{Change}
use team_c.Room.Machine.{Database, ResultPtr, Server, Run, pure, ◌>>=◌}
use team_c.Room.Mysql.{
  or_bad, fitting, mysql_init, mysql_close, query_change, query_rows, query_freed, free_result,
  change_once,
}
use team_c.Room.Groups.{find_once}
use team_c.Room.Waiting.{Grown, Grows, Grows-bind, Grows-same, Grows-pure, Grows-crash, Grows-if}

module _ (account : ℤ) (db : Database) where
  abbrev pub Calm : {A : Type 0} → Run db.Store A → Type 0
  Calm p = Grows account db.Store p

  pub Calm-pure : {A : Type 0} (x : A) → Calm (pure x)
  Calm-pure x = Grows-pure account db.Store x

  pub Calm-bind :
      {A B : Type 0} {p : Run db.Store A} {f : A → Run db.Store B}
      → Calm p
      → ((x : A) → Calm (f x))
      → Calm (p >>= f)
  Calm-bind h k = Grows-bind account db.Store h k

  pub Calm-if :
      {A : Type 0} {p q : Run db.Store A} (b : Bool) → Calm p → Calm q → Calm (if b then p else q)
  Calm-if b h k = Grows-if account db.Store b h k

  pub mysql_init-Grows : Calm (mysql_init db)
  unfolding mysql_init
  mysql_init-Grows = Grows-same account db.Store tt _ (λ s. refl)

  pub mysql_close-Grows : Calm (mysql_close db)
  unfolding mysql_close
  mysql_close-Grows = Grows-same account db.Store tt _ (λ s. refl)

  pub query_change-Grows : (c : Change) → Calm (query_change db c)
  unfolding query_change
  query_change-Grows c = record {
    from_state = λ s. elim (Bool-cases s.connected) [
      | inl e ↦ elim (Option-cases (db.change c s.store)) [
        | inl h ↦ rw (query_change, e, h) ([], sym (append-nil _))
        | inr (t, h) ↦ rw (query_change, e, h) ([], sym (append-nil _))
      ]
      | inr e ↦ rw (query_change, e) ([], sym (append-nil _))
    ];
  }

  pub query_rows-Grows : {A : Type 0} (q : db.Store → Option (List A)) → Calm (query_rows db q)
  unfolding query_rows
  query_rows-Grows q = record {
    from_state = λ s. elim (Bool-cases s.connected) [
      | inl e ↦ elim (Option-cases (q s.store)) [
        | inl h ↦ rw (query_rows, e, h) ([], sym (append-nil _))
        | inr (t, h) ↦ rw (query_rows, e, h) ([], sym (append-nil _))
      ]
      | inr e ↦ rw (query_rows, e) ([], sym (append-nil _))
    ];
  }

  pub fitting-Grows : {A : Type 0} (n : ℕ) (xs : List A) → Calm (fitting n xs)
  fitting-Grows n xs =
      Grows-if account db.Store (ltb (length xs) n) (Calm-pure xs) (Grows-crash account db.Store)

  freed-Grown :
      (s : Server db.Store) (r : ResultPtr)
      → s.result ≡ r
      → Grown account db.Store s (free_result db s)
  unfolding free_result
  freed-Grown s ResultPtr.null h = rw (free_result, h) ([], sym (append-nil _))
  freed-Grown s ResultPtr.held h = rw (free_result, h) ([], sym (append-nil _))
  freed-Grown s ResultPtr.freed h = rw (free_result, h) tt

  pub free_result-Grows : Calm (free_result db)
  free_result-Grows = record { from_state = λ s. freed-Grown s s.result refl }

  pub query_freed-Grows : {A : Type 0} (q : db.Store → Option (List A)) → Calm (query_freed db q)
  unfolding query_freed
  query_freed-Grows q =
      Calm-bind (query_rows-Grows q)
        λ rows. Calm-bind free_result-Grows λ u. Calm-bind mysql_close-Grows λ v. Calm-pure rows

  pub change_once-Grows : (c : Change) → Calm (change_once db c)
  unfolding change_once
  change_once-Grows c = Calm-bind mysql_init-Grows λ u.
      Calm-bind (query_change-Grows c)
        λ done. Calm-bind mysql_close-Grows λ v. Calm-pure (or_bad done)

  pub find_once-Grows : {A : Type 0} (q : db.Store → Option (List A)) → Calm (find_once db q)
  unfolding find_once
  find_once-Grows q =
      Calm-bind mysql_init-Grows
        λ u. Calm-bind (query_rows-Grows q) λ rows. Calm-bind mysql_close-Grows λ v. Calm-pure _
