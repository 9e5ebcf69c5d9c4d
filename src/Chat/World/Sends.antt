-- ===== src/Chat/World/Sends.antt =====
-- What the loops that send have sent.
use team_c.Common.{
  ℕ, Bool, ◌≡◌, List, [], ◌∷◌, ◌++◌, map, append-nil, append_assoc, Bool-cases, inl, inr,
}
use team_c.Common.Lists.{filter}
use team_c.Chat.Msg.{Msg}
use team_c.Chat.World.{World, send, send_matching}

-- One message for each element, to one socket.
abbrev pub messages {ℓ} : {A : Type ℓ} → ℕ → (A → Msg) → List A → List (ℕ × Msg)
messages fd f xs = map (λ x. (fd, f x)) xs

-- The loop sends one message for each element that passes, in the order of the list, and does
-- nothing else, where filling the message overwrites what the round before wrote.
pub send_matching_lem {ℓ} :
    {A : Type ℓ} (fd : ℕ) (test : A → Bool) (fill : A → Msg → Msg)
    → ((x y : A) (m : Msg) → fill y (fill x m) ≡ fill y m)
    → (xs : List A) (m : Msg) (w : World)
    → send_matching fd test fill xs m w
      ≡ record w { sent = w.sent ++ messages fd (λ x. fill x m) (filter test xs) }
unfolding send_matching
send_matching_lem fd test fill over [] m w = rw append-nil
send_matching_lem fd test fill over (x ∷ xs) m w = elim (Bool-cases (test x)) [
  | inl hit ↦
      rw (hit, send_matching)
        (rw (send_matching_lem fd test fill over xs (fill x m) (send fd (fill x m) w))
          (simp (over, append_assoc)))
  | inr miss ↦ rw (miss, send_matching) (send_matching_lem fd test fill over xs m w)
]
