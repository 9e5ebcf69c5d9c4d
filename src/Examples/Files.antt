-- ===== src/Examples/Files.antt =====
-- The theorems about files at concrete inputs: a file in two messages, cut into three pieces.
use team_c.Common.{◌≡◌, ◌≢◌, refl, none, some, [], ◌∷◌, ◌++◌, arith}
use team_c.Common.Int.{pos}
use team_c.Common.Lists.{All}
use team_c.Common.Text.{CStr, codes, streq}
use team_c.Common.Search.{find}
use team_c.Chat.Msg.{Msg}
use team_c.Chat.World.{done}
use team_c.Chat.Online.{find_online}
use team_c.Chat.File.{send_file, ntohs, low_half}
use team_c.Chat.File.Relay.{IsArrival, Transfer, IsFull, IsLast, pieces, forwarded, send_file_lem}
use team_c.Examples.{ann, bob, cat, message, at, town}

abbrev home : CStr
home = codes "/home"

abbrev note : CStr
note = codes "note"

note-plain : All (λ d. d ≢ b'/') note
note-plain = (λ e. ground arith, (λ e. ground arith, (λ e. ground arith, (λ e. ground arith, tt))))

-- 1024 and 3 in network order.
abbrev first_part : Msg
first_part = record (message 6 ann bob []) { once_len = pos 4 }

abbrev last_part : Msg
last_part = record (message 6 ann bob []) { once_len = pos 768 }

abbrev request : CStr → Msg
request to = record (message 6 ann to []) { file_path = (home ++ b'/' ∷ []) ++ (note ++ b's' ∷ []) }

abbrev first : Transfer
first = (
  first_part,
  record { size = 1000; buffer = request bob } ∷ record { size = 776; buffer = first_part } ∷ [],
)

abbrev last : Transfer
last = (last_part, record { size = 1776; buffer = last_part } ∷ [])

first-IsFull : IsFull first
unfolding IsArrival ntohs low_half
first-IsFull = ((omega arith, (refl, refl)), refl)

last-IsLast : IsLast last
unfolding IsArrival ntohs low_half
last-IsLast = ((refl, refl), refl)

bob-online : find_online bob town ≡ some (at bob 5)
unfolding find_online find streq
bob-online = refl

cat-offline : find_online cat town ≡ none
unfolding find_online find streq
cat-offline = refl

send_file_lem_example :
    send_file 4 (request bob) (pieces (first ∷ []) ++ (last.1 ++ [])) town
    ≡ done (record town {
      sent =
          []
          ++ ((5, record (request bob) { file_name = note ++ b's' ∷ [] })
                ∷ forwarded (at bob 5) (first ∷ [])
              ++ (5, last_part) ∷ []);
    })
send_file_lem_example =
    send_file_lem 4 (request bob) (at bob 5) home note b's' (first ∷ []) last [] town refl
      note-plain bob-online (first-IsFull, tt) last-IsLast
