-- ===== src/Examples/Waiting.antt =====
-- Requests and answers that wait, lists of friends and hangups, at concrete inputs.
use team_c.Common.{◌≡◌, refl, sym, [], ◌∷◌, ◌++◌, map, arith}
use team_c.Common.Int.{pos}
use team_c.Common.Text.{streq}
use team_c.Common.Search.{find}
use team_c.Common.Search.Count.{count}
use team_c.Chat.Msg.{Msg}
use team_c.Chat.World.{World, done}
use team_c.Chat.Online.{find_online}
use team_c.Chat.Account.{login}
use team_c.Chat.Account.Login.{gist, notices}
use team_c.Chat.Friend.{add_friend}
use team_c.Chat.Friend.Waiting.{request_reaches_login}
use team_c.Examples.{up_env, up_env-IsUp, ann, bob, cat, tea, message, row, town, ann-ne-bob}
use team_c.Examples.Friends.{request, quiet}

abbrev bob_login : Msg
bob_login = message 2 bob ann tea

request_reaches_login_example :
    (w1 : World) × (w2 : World) × (add_friend up_env 4 request quiet ≡ done w1)
    × (login 5 bob_login w1 ≡ done w2)
    × (map gist w2.sent ≡ map gist w1.sent ++ ((5, pos 1002, bob) ∷ (5, pos 14, ann) ∷ []))
unfolding find count streq find_online notices
request_reaches_login_example =
    request_reaches_login up_env 4 5 request bob_login quiet up_env-IsUp (λ e. ann-ne-bob (sym e))
      refl refl refl (omega arith)

-- ann has asked bob.
abbrev asked : World
asked = record town { head_friends = row bob ann 0 ∷ [] }

-- ann has two friends, of whom bob is online and cat, the last one, is not.
abbrev social : World
social = record town { head_friends = row bob ann 1 ∷ row ann bob 1 ∷ row cat ann 1 ∷ [] }
