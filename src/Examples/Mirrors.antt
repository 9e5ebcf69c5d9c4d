-- ===== src/Examples/Mirrors.antt =====
-- The refinement of the database of epoll.c at a database that reads the texts.
use team_c.Common.{◌≡◌, refl, [], ◌∷◌, ◌++◌, arith}
use team_c.Common.Lists.{All}
use team_c.Common.Int.{pos}
use team_c.Common.Text.{codes, streq}
use team_c.Common.Search.{find}
use team_c.Chat.Msg.{set_cmd}
use team_c.Chat.Sql.{insert_user, render}
use team_c.Chat.World.{World, done, send, execute, query, ◌>>=◌, weicha_list}
use team_c.Chat.Account.{sex_text, new_user, reg}
use team_c.Chat.Server.{Readable, command, run_command, chuli_request, serve_event, serve}
use team_c.Chat.Mirror.{image}
use team_c.Chat.Mirror.Texts.{HasKeys, IsPlain, serve-IsMirror}
use team_c.Examples.Texts.{reading}
use team_c.Examples.{up_env, bob, cat, tea, message, user, town}
use team_c.Examples.Serving.{town-IsConsistent}

abbrev cat_registers : Readable
cat_registers = record { fd = 8; len = pos 1776; message = message 1 cat bob tea; incoming = [] }

abbrev registered : World
registered = send 8 (set_cmd (pos 1001) (message 1 cat bob tea)) (
    execute (insert_user cat [] (codes "f") (codes "pw") (codes "123"))
      (record town { head_user = town.head_user ++ user cat ∷ [] }))

town-HasKeys : HasKeys 50 (image town)
town-HasKeys = (
  ((refl, omega arith), ((refl, omega arith), tt)),
  tt,
  (((refl, omega arith), (refl, omega arith)), tt),
)

cat-IsPlain : All (IsPlain 50) registered.executed
cat-IsPlain = (
  (
    (refl, omega arith),
    (refl, omega arith),
    (refl, omega arith),
    (refl, omega arith),
    (refl, omega arith),
  ),
  tt,
)

served : serve up_env (cat_registers ∷ []) town ≡ done registered
unfolding serve serve_event chuli_request command run_command reg new_user sex_text query ◌>>=◌
    weicha_list find streq
served = refl

serve-IsMirror_example :
    (reading (image town)).stored
      (render (insert_user cat [] (codes "f") (codes "pw") (codes "123")) ∷ [])
    ≡ image registered
serve-IsMirror_example =
    serve-IsMirror (reading (image town)) up_env (cat_registers ∷ []) town registered
      town-IsConsistent refl refl town-HasKeys served cat-IsPlain
