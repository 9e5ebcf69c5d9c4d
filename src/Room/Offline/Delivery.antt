-- ===== src/Room/Offline/Delivery.antt =====
-- What pro_off of Code/liuting1/chatroom/server_deal.c sends and keeps.
use team_c.Common.{
  Bool, not, ◌≡◌, refl, List, [], ◌∷◌, ◌++◌, map, append-nil, append_assoc, some, Bool-cases, inl,
  inr,
}
use team_c.Common.Lists.{filter}
use team_c.Common.Int.{ℤ, ◌==ℤ◌}
use team_c.Room.Packet.{Pack}
use team_c.Room.Machine.{Off, Server}
use team_c.Room.Offline.{pack_of, note_sent, unlink_sent, pro_off}

-- The messages that wait for a user, and those that wait for others.
abbrev pub is_for : ℤ → Off → Bool
is_for account p = p.send_account ==ℤ account

abbrev pub waits_for : ℤ → List Off → List Off
waits_for account offs = filter (is_for account) offs

abbrev pub waits_for_others : ℤ → List Off → List Off
waits_for_others account offs = filter (λ p. not (is_for account p)) offs

abbrev pub deliveries : ℤ → List Off → List (ℤ × Pack)
deliveries fd offs = map (λ p. (fd, pack_of p)) offs

-- The server after the messages for a user have gone to a socket.
abbrev pub delivered : {S : Type 0} → ℤ → ℤ → Server S → Server S
delivered account fd s = record s {
  offline = waits_for_others account s.offline;
  sent = s.sent ++ deliveries fd (waits_for account s.offline);
}

unlink_sent_lem :
    {S : Type 0} (account fd : ℤ) (offs : List Off) (s : Server S)
    → unlink_sent account fd offs s ≡ (
      waits_for_others account offs,
      record s { sent = s.sent ++ deliveries fd (waits_for account offs) },
    )
unfolding unlink_sent
unlink_sent_lem account fd [] s = rw append-nil refl
unlink_sent_lem account fd (p ∷ offs) s = elim (Bool-cases (is_for account p)) [
  | inl e ↦
      rw (unlink_sent, e, unlink_sent_lem account fd offs (note_sent fd p s), append_assoc) refl
  | inr e ↦ rw (unlink_sent, e, unlink_sent_lem account fd offs s) refl
]

-- pro_off sends the messages that wait for a user to the socket, in the order in which they came,
-- takes them off the list, and leaves the others in their order.
pub pro_off_lem :
    {S : Type 0} (account fd : ℤ) (s : Server S)
    → pro_off account fd s ≡ some (tt, delivered account fd s)
unfolding pro_off
pro_off_lem account fd s = rw (unlink_sent_lem account fd s.offline s) refl
