-- ===== src/Chat/File/Relay.antt =====
-- send_file, for a receiver who is online and for one who is not, however the socket splits the
-- messages of the sender.
use team_c.Common.{
  ℕ, ◌+◌, ◌<◌, ◌≡◌, ◌≢◌, refl, ap, ◌∙◌, List, [], ◌∷◌, ◌++◌, map, append_assoc, arith, none, some,
  Option, true, false, ltb, ◌==◌,
}
use team_c.Common.Lists.{All, flat_map}
use team_c.Common.Text.{CStr}
use team_c.Chat.Msg.{Msg}
use team_c.Chat.World.{World, UserDate, done, crashed, send}
use team_c.Chat.Online.{find_online}
use team_c.Chat.File.{Received, relay, msg_size, ntohs, notify_receiver, send_file, get_file_name}
use team_c.Chat.File.Names.{get_file_name_lem}

-- With `sum` bytes there already, the pieces complete the message m, and only the last one does.
unfoldable pub IsArrival : ℕ → Msg → List Received → Type 0
IsArrival sum m [] = ⊥
IsArrival sum m (r ∷ []) = (sum + r.size ≡ msg_size) × (r.buffer ≡ m)
IsArrival sum m (r ∷ (s ∷ rs)) = (sum + r.size < msg_size) × IsArrival (sum + r.size) m (s ∷ rs)

-- A message and the pieces in which it arrives.
abbrev pub Transfer : Type 0
Transfer = Msg × List Received

-- A message behind which more of the file follows.
abbrev pub IsFull : Transfer → Type 0
IsFull t = (IsArrival 0 t.0 t.1) × (ltb (ntohs t.0.once_len) 1024 ≡ false)

abbrev pub IsLast : Transfer → Type 0
IsLast t = (IsArrival 0 t.0 t.1) × (ltb (ntohs t.0.once_len) 1024 ≡ true)

abbrev pub pieces : List Transfer → List Received
pieces = flat_map (λ t. t.1)

-- The messages of the transfers, sent to a user.
abbrev pub forwarded : UserDate → List Transfer → List (ℕ × Msg)
forwarded u ts = map (λ t. (u.socket, t.0)) ts

relay-piece :
    (to : Option UserDate) (sum : ℕ) (r : Received) (rest : List Received) (w : World)
    → sum + r.size < msg_size
    → relay to sum (r ∷ rest) w ≡ relay to (sum + r.size) rest w
unfolding relay
relay-piece to sum r rest w lt = ground arith

relay-whole :
    (u : UserDate) (sum : ℕ) (m : Msg) (r : Received) (rest : List Received) (w : World)
    → (sum + r.size ≡ msg_size) × (r.buffer ≡ m)
    → relay (some u) sum (r ∷ rest) w ≡ (elim (ltb (ntohs m.once_len) 1024) [
      | true ↦ done (send u.socket m w)
      | false ↦ relay (some u) 0 rest (send u.socket m w)
    ])
unfolding relay
relay-whole u sum m r rest w h =
    let end : (sum + r.size == msg_size) ≡ true = ground (arith, h.0) in
    rw (end, relay)
      (ap
        (λ b. elim (ltb (ntohs b.once_len) 1024) [
          | true ↦ done (send u.socket b w)
          | false ↦ relay (some u) 0 rest (send u.socket b w)
        ])
        h.1)

relay-full :
    (u : UserDate) (sum : ℕ) (m : Msg) (rs rest : List Received) (w : World)
    → IsArrival sum m rs
    → ltb (ntohs m.once_len) 1024 ≡ false
    → relay (some u) sum (rs ++ rest) w ≡ relay (some u) 0 rest (send u.socket m w)
unfolding IsArrival
relay-full u sum m [] rest w h full = absurd h
relay-full u sum m (r ∷ []) rest w h full = relay-whole u sum m r rest w h ∙ rw full
relay-full u sum m (r ∷ (s ∷ rs)) rest w h full =
    relay-piece (some u) sum r (s ∷ (rs ++ rest)) w h.0
    ∙ relay-full u (sum + r.size) m (s ∷ rs) rest w h.1 full

relay-last :
    (u : UserDate) (sum : ℕ) (m : Msg) (rs rest : List Received) (w : World)
    → IsArrival sum m rs
    → ltb (ntohs m.once_len) 1024 ≡ true
    → relay (some u) sum (rs ++ rest) w ≡ done (send u.socket m w)
unfolding IsArrival
relay-last u sum m [] rest w h last = absurd h
relay-last u sum m (r ∷ []) rest w h last = relay-whole u sum m r rest w h ∙ rw last
relay-last u sum m (r ∷ (s ∷ rs)) rest w h last =
    relay-piece (some u) sum r (s ∷ (rs ++ rest)) w h.0
    ∙ relay-last u (sum + r.size) m (s ∷ rs) rest w h.1 last

relay-offline :
    (sum : ℕ) (m : Msg) (rs rest : List Received) (w : World)
    → IsArrival sum m rs
    → relay none sum (rs ++ rest) w ≡ crashed w
unfolding relay IsArrival
relay-offline sum m [] rest w h = absurd h
relay-offline sum m (r ∷ []) rest w h = ground arith
relay-offline sum m (r ∷ (s ∷ rs)) rest w h =
    relay-piece none sum r (s ∷ (rs ++ rest)) w h.0
    ∙ relay-offline (sum + r.size) m (s ∷ rs) rest w h.1

relay_lem :
    (u : UserDate) (ts : List Transfer) (last : Transfer) (rest : List Received) (w : World)
    → All IsFull ts
    → IsLast last
    → relay (some u) 0 (pieces ts ++ (last.1 ++ rest)) w
      ≡ done (record w { sent = w.sent ++ (forwarded u ts ++ (u.socket, last.0) ∷ []) })
relay_lem u [] last rest w h end = relay-last u 0 last.0 last.1 rest w end.0 end.1
relay_lem u (t ∷ ts) last rest w h end =
    ap (λ l. relay (some u) 0 l w) (append_assoc t.1 (pieces ts) (last.1 ++ rest))
    ∙ relay-full u 0 t.0 t.1 (pieces ts ++ (last.1 ++ rest)) w h.0.0 h.0.1
    ∙ relay_lem u ts last rest (send u.socket t.0 w) h.1 end
    ∙ rw append_assoc refl

-- The transfer of a file to a user who is online, whose path ends in a '/' and a name whose
-- characters before its last are no '/'. The messages arrive one behind the other, each in pieces
-- cut in any way, and exactly the last one has a `once_len` below 1024 in network order. Then the call returns. The
-- receiver has been sent the request with the name filled in, and each of the messages, in order.
-- Nobody else was sent anything, what arrives behind the last message is not read, and nothing else
-- of the state has changed.
pub send_file_lem :
    (fd : ℕ) (m : Msg) (u : UserDate) (dir stem : CStr) (c : ℕ) (ts : List Transfer)
    (last : Transfer) (rest : List Received) (w : World)
    → m.file_path ≡ (dir ++ b'/' ∷ []) ++ (stem ++ c ∷ [])
    → All (λ d. d ≢ b'/') stem
    → find_online m.to_name w ≡ some u
    → All IsFull ts
    → IsLast last
    → send_file fd m (pieces ts ++ (last.1 ++ rest)) w
      ≡ done (record w {
        sent =
            w.sent
            ++ ((u.socket, record m { file_name = stem ++ c ∷ [] }) ∷ forwarded u ts
                ++ (u.socket, last.0) ∷ []);
      })
unfolding send_file notify_receiver
send_file_lem fd m u dir stem c ts last rest w path plain online full end =
    let name : get_file_name m.file_path ≡ some (stem ++ c ∷ []) =
      ap get_file_name path ∙ get_file_name_lem dir stem c plain in
    rw (name, send_file)
      (rw (online, notify_receiver)
        (relay_lem u ts last rest (send u.socket (record m { file_name = stem ++ c ∷ [] }) w) full
            end
          ∙ rw append_assoc refl))

-- The transfer of a file to a user who is not online, whose path ends in a '/' and a name whose
-- characters before its last are no '/': nothing is sent, and the server crashes on the first
-- message that arrives completely, in pieces cut in any way, whatever follows it.
pub send_file-crashes :
    (fd : ℕ) (m piece : Msg) (dir stem : CStr) (c : ℕ) (rs rest : List Received) (w : World)
    → m.file_path ≡ (dir ++ b'/' ∷ []) ++ (stem ++ c ∷ [])
    → All (λ d. d ≢ b'/') stem
    → find_online m.to_name w ≡ none
    → IsArrival 0 piece rs
    → send_file fd m (rs ++ rest) w ≡ crashed w
unfolding send_file notify_receiver
send_file-crashes fd m piece dir stem c rs rest w path plain offline arrival =
    let name : get_file_name m.file_path ≡ some (stem ++ c ∷ []) =
      ap get_file_name path ∙ get_file_name_lem dir stem c plain in
    rw (name, send_file) (rw (offline, notify_receiver) (relay-offline 0 piece rs rest w arrival))
