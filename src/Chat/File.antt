-- ===== src/Chat/File.antt =====
-- Files: get_file_name and send_file of epoll.c. The buffer of the received message is a `Msg`; the
-- bytes that have arrived of it are counted.
pub mod Names
pub mod Relay
use team_c.Common.{
  ℕ, zero, suc, ◌+◌, ◌-◌, ◌*◌, ◌/◌, ◌%◌, ◌==◌, ltb, true, false, Option, none, some, List, [], ◌∷◌,
}
use team_c.Common.Int.{ℤ, pos, negsuc}
use team_c.Common.Lists.{length, get_elem?, drop}
use team_c.Common.Text.{CStr}
use team_c.Chat.Msg.{Msg}
use team_c.Chat.World.{World, Outcome, done, crashed, UserDate, send}
use team_c.Chat.Online.{find_online}

-- `for (j = len - 1; file_path[j - 1] != '/'; j--)`: the index at which the loop stops. At j = 0 it
-- reads in front of the array: `none`.
unfoldable pub name_start : CStr → ℕ → Option ℕ
name_start path zero = none
name_start path (suc j) = elim (get_elem? path j) [
  | none ↦ name_start path j
  | some c ↦ elim (c == b'/') [ true ↦ some (suc j) | false ↦ name_start path j ]
]

-- get_file_name. The empty path is read out of bounds at once.
unfoldable pub get_file_name : CStr → Option CStr
get_file_name path = elim (name_start path (length path - 1)) [
  | none ↦ none
  | some j ↦ some (drop j path)
]

-- sizeof(MSG)
abbrev pub msg_size : ℕ
msg_size = 1776

-- The low 16 bits of an `int`, and `ntohs` of them.
unfoldable pub low_half : ℤ → ℕ
low_half (pos n) = n % 65536
low_half (negsuc n) = 65535 - n % 65536

unfoldable pub ntohs : ℤ → ℕ
unfolding low_half
ntohs n = (low_half n % 256) * 256 + low_half n / 256

-- A `recv` on the sender's socket: how many bytes it returned, and the buffer after it.
pub record Received : Type 0 where
  pub size : ℕ
  pub buffer : Msg

-- The loop of send_file. The list is what the socket still gives; at its end `recv` returns 0 or
-- an error, and the loop stops. A receiver who is not online is a null pointer.
unfoldable pub relay : Option UserDate → ℕ → List Received → World → Outcome
relay to sum [] w = done w
relay to sum (r ∷ rest) w = elim (sum + r.size == msg_size) [
  | false ↦ relay to (sum + r.size) rest w
  | true ↦ elim to [
    | none ↦ crashed w
    | some u ↦ elim (ltb (ntohs r.buffer.once_len) 1024) [
      | true ↦ done (send u.socket r.buffer w)
      | false ↦ relay (some u) 0 rest (send u.socket r.buffer w)
    ]
  ]
]

-- `if (current != NULL) send(current->date.socket, message, ...)`
unfoldable pub notify_receiver : Option UserDate → Msg → World → World
notify_receiver to m w = elim to [ none ↦ w | some u ↦ send u.socket m w ]

unfoldable pub send_file : ℕ → Msg → List Received → World → Outcome
send_file fd m incoming w = elim (get_file_name m.file_path) [
  | none ↦ crashed w
  | some name ↦
      let m' = record m { file_name = name } in
      let to = find_online m.to_name w in relay to 0 incoming (notify_receiver to m' w)
]
