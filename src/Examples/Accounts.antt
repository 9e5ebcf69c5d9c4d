-- ===== src/Examples/Accounts.antt =====
-- The theorems about accounts and the list of users online, at concrete inputs.
use team_c.Common.{◌≡◌, refl, map, [], ◌∷◌, arith}
use team_c.Common.Int.{pos}
use team_c.Common.Text.{codes, streq}
use team_c.Common.Search.{find}
use team_c.Common.Search.Count.{count}
use team_c.Chat.Msg.{Msg, set_cmd}
use team_c.Chat.Sql.{insert_user}
use team_c.Chat.World.{World, done, state, send, execute, query, ◌>>=◌, weicha_list}
use team_c.Chat.Account.{sex_text, reg, new_user, login}
use team_c.Chat.Account.Login.{gist, notices, login_accepted, login-reg}
use team_c.Examples.{up_env, ann, bob, cat, tea, message, town, at, user}

-- The messages of ann, who is registered, and of cat, who is not.
abbrev ann_login : Msg
ann_login = message 2 ann bob tea

abbrev cat_reg : Msg
cat_reg = message 1 cat bob tea

-- ann has the request of bob waiting.
login_accepted_example :
    (w' : World) × (login 7 ann_login town ≡ done w')
    × (w'.head ≡ at bob 5 ∷ at ann 7 ∷ [])
    × (map gist w'.sent ≡ (7, pos 1002, ann) ∷ (7, pos 14, bob) ∷ [])
    × (w'.head_request ≡ town.head_request)
    × (w'.executed ≡ [])
unfolding count streq notices
login_accepted_example = login_accepted 7 ann_login town (omega arith)

-- The state after cat has registered.
abbrev with_cat : World
with_cat = send 8 (set_cmd (pos 1001) cat_reg) (
    execute (insert_user cat [] (codes "f") (codes "pw") (codes "123"))
      (record town { head_user = user ann ∷ user bob ∷ user cat ∷ [] }))

cat_registers : reg up_env 8 cat_reg town ≡ done with_cat
unfolding reg new_user sex_text query ◌>>=◌ weicha_list find streq
cat_registers = refl

login-reg_example :
    (state (login 9 (message 2 cat bob tea) with_cat)).head ≡ at bob 5 ∷ at cat 9 ∷ []
unfolding count streq
login-reg_example =
    login-reg up_env 8 9 cat_reg (message 2 cat bob tea) town with_cat refl cat_registers refl refl

-- The string of `u_sex`: what fits its array, and what does not.
sex_text_test : sex_text (codes "abc") (codes "pw") ≡ codes "abpw"
unfolding sex_text
sex_text_test = refl
