-- ===== src/Examples/Friends.antt =====
-- The theorems about friends at concrete inputs.
use team_c.Common.{none, some, ◌≡◌, refl, [], ◌∷◌, arith}
use team_c.Common.Int.{pos}
use team_c.Common.Text.{streq}
use team_c.Common.Search.{find}
use team_c.Common.Search.Count.{count}
use team_c.Chat.Msg.{Msg, set_cmd}
use team_c.Chat.World.{World, done, send}
use team_c.Chat.Friend.{private_chat, add_friend, delete_friend, deal_friend_request_y}
use team_c.Chat.Friend.Protocol.{status_of}
use team_c.Chat.Friend.Friendship.{friends_after_acceptance}
use team_c.Chat.Friend.Deletion.{deletion_ends_chat}
use team_c.Examples.{up_env, up_env-IsUp, ann, bob, tea, message, row, town, ann-ne-bob}

abbrev pub request : Msg
request = message 14 ann bob tea

abbrev answer : Msg
answer = message 311 ann bob tea

friends_after_acceptance_example :
    (w1 : World) × (w2 : World) × (add_friend up_env 4 request town ≡ done w1)
    × (deal_friend_request_y up_env 5 answer w1 ≡ done w2)
    × (status_of bob ann w2 ≡ some (pos 1))
    × (status_of ann bob w2 ≡ some (pos 1))
unfolding find count streq
friends_after_acceptance_example =
    friends_after_acceptance up_env up_env-IsUp 4 5 request answer town ann-ne-bob (omega arith)
      refl refl refl

-- Nobody is online.
abbrev pub quiet : World
quiet = record town { head = [] }

abbrev friendly : World
friendly = record town { head_friends = row bob ann 1 ∷ row ann bob 1 ∷ [] }

deletion_ends_chat_example :
    (w1 : World) × (delete_friend up_env 4 (message 15 ann bob tea) friendly ≡ done w1)
    × (status_of bob ann w1 ≡ none)
    × (status_of ann bob w1 ≡ some (pos 0))
    × (private_chat up_env 4 (message 13 ann bob tea) w1
        ≡ done (send 4 (set_cmd (pos 130) (message 13 ann bob tea)) w1))
    × (private_chat up_env 5 (message 13 bob ann tea) w1
        ≡ done (send 5 (set_cmd (pos 131) (message 13 bob ann tea)) w1))
unfolding find count streq
deletion_ends_chat_example =
    deletion_ends_chat up_env up_env-IsUp 4 (message 15 ann bob tea) friendly (pos 1) 4 5
      (message 13 ann bob tea) (message 13 bob ann tea) ann-ne-bob (omega arith) refl refl refl refl
      refl refl
