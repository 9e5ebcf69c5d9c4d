-- ===== src/Examples/Groups.antt =====
-- The theorems about groups at concrete inputs.
use team_c.Common.{none, ◌≡◌, refl, [], ◌∷◌, arith}
use team_c.Common.Int.{pos}
use team_c.Common.Text.{streq, codes}
use team_c.Common.Search.{find}
use team_c.Common.Search.Count.{count}
use team_c.Chat.Msg.{Msg, set_cmd}
use team_c.Chat.Sql.{insert_group_online}
use team_c.Chat.World.{World, done, send}
use team_c.Chat.World.Tables.{tables}
use team_c.Chat.Online.{find_online}
use team_c.Chat.Group.{is_group, break_group, quit_group, view_group_member, public_chat}
use team_c.Chat.Group.Breakup.{break_group_lem}
use team_c.Chat.Group.Quit.{quit_group_lem}
use team_c.Chat.Group.Broadcast.{public_chat_lem}
use team_c.Examples.{
  up_env, up_env-IsUp, ann, bob, cat, tea, chess, message, group, member, town, ann-ne-bob,
}

abbrev breakup : Msg
breakup = message 252 ann bob tea

break_group_lem_example :
    (w' : World) × (break_group up_env 4 breakup town ≡ done w')
    × (find (is_group tea) w'.head_user_groups ≡ none)
    × (w'.head_group_relationship ≡ member chess cat 1 ∷ [])
    × (w'.sent ≡ (4, breakup) ∷ [])
unfolding find count streq
break_group_lem_example =
    break_group_lem up_env 4 breakup town (group tea ann) (member chess cat 1)
      (member tea ann 1 ∷ member tea bob 3 ∷ []) up_env-IsUp refl refl (omega arith) refl refl

-- The tea group alone.
abbrev tea_only : World
tea_only = record town { head_group_relationship = member tea ann 1 ∷ member tea bob 3 ∷ [] }

quit_group_lem_example :
    (w' : World) × (quit_group up_env 5 (message 24 bob ann tea) town ≡ done w')
    × (view_group_member 5 (message 251 bob ann tea) w'
        ≡ done (send 5 (set_cmd (pos 2511) (message 251 bob ann tea)) w'))
    × (w'.head_group_relationship ≡ member chess cat 1 ∷ member tea ann 1 ∷ [])
unfolding find count streq
quit_group_lem_example =
    quit_group_lem up_env 5 5 (message 24 bob ann tea) (message 251 bob ann tea) town
      (group tea ann) up_env-IsUp refl ann-ne-bob refl refl refl

abbrev greeting : Msg
greeting = message 22 ann cat tea

public_chat_lem_example :
    (w' : World) × (public_chat up_env 4 greeting town ≡ done w')
    × (w'.sent ≡ (5, record greeting { to_name = bob }) ∷ [])
    × (w'.executed ≡ insert_group_online (codes "hi") bob ann tea [] ∷ [])
    × (tables w' ≡ tables town)
    × (w'.head_request ≡ town.head_request)
unfolding count find streq find_online
public_chat_lem_example = public_chat_lem up_env 4 greeting town up_env-IsUp (omega arith)
