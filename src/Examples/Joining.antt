-- ===== src/Examples/Joining.antt =====
-- Joining a group, at concrete inputs.
use team_c.Common.{◌≡◌, refl, [], ◌∷◌, ◌++◌, arith}
use team_c.Common.Text.{streq}
use team_c.Common.Search.Count.{count}
use team_c.Chat.Msg.{Msg}
use team_c.Chat.World.{World, done}
use team_c.Chat.World.Sends.{messages}
use team_c.Chat.Group.{fill_member, view_group_member, deal_group_request_y}
use team_c.Chat.Group.Joining.{joining_shows_members}
use team_c.Examples.{up_env, ann, bob, cat, tea, message, member, town}

abbrev look : Msg
look = message 251 bob ann tea

-- ann accepts cat.
abbrev accept : Msg
accept = message 321 cat ann tea

joining_shows_members_example :
    (w1 : World) × (deal_group_request_y up_env 4 accept town ≡ done w1)
    × (view_group_member 6 (message 251 cat ann tea) w1
        ≡ done (record w1 {
          sent =
              w1.sent
              ++ messages 6
                  (λ r. fill_member r (message 251 cat ann tea))
                  (member tea ann 1 ∷ member tea bob 3 ∷ member tea cat 3 ∷ []);
        }))
unfolding count streq
joining_shows_members_example =
    joining_shows_members up_env 4 6 accept (message 251 cat ann tea) town (omega arith) refl refl
