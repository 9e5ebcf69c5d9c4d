-- ===== src/Chat/Server/Hangup.antt =====
-- A client that hangs up: main takes it off the list of users online and then handles the buffer all
-- the same. `recv` has written nothing into it, and main does not initialise it: it holds what was
-- on the stack, in practice the message before.
use team_c.Common.{ℕ, ◌<◌, ◌≡◌, [], ◌∷◌, ◌++◌, arith}
use team_c.Common.Int.{pos}
use team_c.Common.Search.Count.{count}
use team_c.Chat.Msg.{Msg}
use team_c.Chat.Sql.{Env}
use team_c.Chat.World.{World, done}
use team_c.Chat.Online.{del_node}
use team_c.Chat.Account.{has_password}
use team_c.Chat.Account.Login.{login_accepted}
use team_c.Chat.Server.{Readable, command, run_command, chuli_request, serve_event}

-- The end of a connection: `recv` returns 0, and `m` is what the buffer holds.
abbrev pub hangup : ℕ → Msg → Readable
hangup fd m = record { fd = fd; len = pos 0; message = m; incoming = [] }

-- A client hangs up while the buffer of main holds a login with a name and a password for which
-- there is a user. The call returns, and after it that user is online on the closed socket, at the
-- end of what del_node has left of the list.
pub hangup_logs_in :
    (env : Env) (fd : ℕ) (m : Msg) (w : World)
    → m.cmd ≡ pos 2
    → 0 < count (has_password m.user_infor.name m.user_infor.password) w.head_user
    → (w' : World) × (serve_event env (hangup fd m) w ≡ done w')
      × (w'.head ≡ del_node fd w.head ++ record { name = m.user_infor.name; socket = fd } ∷ [])
unfolding serve_event chuli_request command run_command
hangup_logs_in env fd m w is_login known =
    let w1 = record w { head = del_node fd w.head } in
    let (w', accepted, online, _, _, _) = login_accepted fd m w1 known in
    (w', ground (arith, is_login, accepted), online)
