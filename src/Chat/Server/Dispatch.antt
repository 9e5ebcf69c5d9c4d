-- ===== src/Chat/Server/Dispatch.antt =====
-- chuli_request through the event loop: a message that a handler does not survive.
use team_c.Common.{◌≡◌, ◌≢◌, List, ◌∷◌, arith}
use team_c.Common.Int.{pos}
use team_c.Common.Search.Count.{count}
use team_c.Chat.Sql.{Env}
use team_c.Chat.World.{World, crashed, ◌>>=◌}
use team_c.Chat.Group.{is_owner}
use team_c.Chat.Group.Manager.{set_manager_crashes}
use team_c.Chat.Server.{Readable, command, run_command, chuli_request, serve_event, serve}

-- Any client, logged in or not, sends the request for a new manager of a group, number 253, in a name
-- without an owner's row in the group: the server goes through a null pointer, with the state as it
-- was, and handles none of the events behind it.
pub set_manager_ends_serve :
    (env : Env) (e : Readable) (rest : List Readable) (w : World)
    → e.len ≢ pos 0
    → e.message.cmd ≡ pos 253
    → count (is_owner e.message.to_group_name e.message.from_name) w.head_group_relationship ≡ 0
    → serve env (e ∷ rest) w ≡ crashed w
unfolding serve serve_event chuli_request command run_command ◌>>=◌
set_manager_ends_serve env e rest w alive request stranger =
    ground (arith, alive, request, set_manager_crashes env e.fd e.message w stranger)
