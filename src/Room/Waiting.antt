-- ===== src/Room/Waiting.antt =====
-- What a program of Code/liuting1/chatroom/server_deal.c does to the messages that wait for a user.
pub mod Queries
pub mod Functions
pub mod Lists
pub mod Handlers
pub mod Speech
use team_c.Common.{
  ℕ, Bool, true, false, not, ◌≡◌, refl, sym, ◌∙◌, ap, Option, none, some, List, [], ◌∷◌, ◌++◌,
  append-nil, append_assoc, Bool-cases, inl, inr, if◌then◌else◌, arith,
}
use team_c.Common.Int.{ℤ}
use team_c.Room.Packet.{Pack}
use team_c.Room.Machine.{Off, Server, Run, pure, crash, go_on, ◌>>=◌, modify, send_other_pack}
use team_c.Room.Offline.{off_of, deal_group_off}
use team_c.Room.Offline.Delivery.{is_for, waits_for}

waits_for-append :
    (account : ℤ) (xs ys : List Off)
    → waits_for account (xs ++ ys) ≡ waits_for account xs ++ waits_for account ys
waits_for-append account [] ys = refl
waits_for-append account (x ∷ xs) ys = elim (Bool-cases (is_for account x)) [
  | inl e ↦ rw (e) (ap (λ l. x ∷ l) (waits_for-append account xs ys))
  | inr e ↦ rw (e) (waits_for-append account xs ys)
]

-- None of the messages that wait for the user is taken off, and new ones come behind them.
module _ (account : ℤ) (S : Type 0) where
  abbrev pub Grown : {A : Type 0} → Server S → Option (A × Server S) → Type 0
  Grown s none = Unit
  Grown s (some r) =
      (ys : List Off) × (waits_for account (r.1).offline ≡ waits_for account s.offline ++ ys)

  pub record Grows {A : Type 0} (p : Run S A) : Type 0 where
    pub from_state : (s : Server S) → Grown s (p s)

  Grown-later :
      {A : Type 0} (s t : Server S) (ys : List Off) (o : Option (A × Server S))
      → waits_for account t.offline ≡ waits_for account s.offline ++ ys
      → Grown t o
      → Grown s o
  Grown-later s t ys none e h = tt
  Grown-later s t ys (some r) e (zs, e') = (ys ++ zs, e' ∙ rw (e) (append_assoc _ ys zs))

  Grown-go_on :
      {A B : Type 0} (s : Server S) (f : A → Run S B) (o : Option (A × Server S))
      → Grown s o
      → ((x : A) → Grows (f x))
      → Grown s (go_on f o)
  Grown-go_on s f none h k = tt
  Grown-go_on s f (some (x, t)) (ys, e) k = Grown-later s t ys (f x t) e ((k x).from_state t)

  pub Grows-bind :
      {A B : Type 0} {p : Run S A} {f : A → Run S B}
      → Grows p
      → ((x : A) → Grows (f x))
      → Grows (p >>= f)
  Grows-bind {p = p} {f = f} h k = record {
    from_state = λ s. Grown-go_on s f (p s) (h.from_state s) k;
  }

  pub Grows-same :
      {A : Type 0} (x : A) (f : Server S → Server S)
      → ((s : Server S) → (f s).offline ≡ s.offline)
      → Grows (λ s. some (x, f s))
  Grows-same x f h = record {
    from_state = λ s. ([], ap (waits_for account) (h s) ∙ sym (append-nil _));
  }

  pub Grows-pure : {A : Type 0} (x : A) → Grows (pure x)
  Grows-pure x = Grows-same x (λ s. s) (λ s. refl)

  pub Grows-crash : {A : Type 0} → Grows {A = A} crash
  Grows-crash = record { from_state = λ s. tt }

  pub Grows-send : (pack : Pack) (fd : ℤ) → Grows (send_other_pack pack fd)
  Grows-send pack fd =
      Grows-same tt (λ s. record s { sent = s.sent ++ (fd, pack) ∷ [] }) (λ s. refl)

  pub Grows-if :
      {A : Type 0} {p q : Run S A} (b : Bool) → Grows p → Grows q → Grows (if b then p else q)
  Grows-if true h k = h
  Grows-if false h k = k

  -- A node behind the others.
  pub Grows-keep : (p : Off) → Grows (modify λ s. record s { offline = s.offline ++ p ∷ [] })
  Grows-keep p = record {
    from_state = λ s. (waits_for account (p ∷ []), waits_for-append account s.offline (p ∷ []));
  }
