-- ===== src/Chat/Invariant/ServerKeys.antt =====
-- The dispatch and the event loop, and the keys of the tables.
use team_c.Common.{
  ℕ, ◌+◌, ◌∙◌, ◌≡◌, refl, List, [], ◌∷◌, arith, Option-cases, inl, inr, none, some, Option,
}
use team_c.Chat.Msg.{Msg}
use team_c.Chat.Sql.{Env}
use team_c.Chat.World.{World, UserDate, state, send}
use team_c.Chat.World.Tables.{Tables, tables, state_bind}
use team_c.Chat.Online.{find_online, del_node}
use team_c.Chat.File.{Received, get_file_name, relay, notify_receiver, send_file}
use team_c.Chat.Server.{Command, Readable, command, run_command, chuli_request, serve_event, serve}
use team_c.Chat.Invariant.{IsConsistent}
use team_c.Chat.Invariant.AccountKeys.{reg-IsConsistent, tables-login, tables-forget_password}
use team_c.Chat.Invariant.FriendKeys.{
  tables-all_friends, tables-online_friend, tables-private_chat, add_friend-IsConsistent,
  delete_friend-IsConsistent, deal_friend_request_y-IsConsistent,
  deal_friend_request_n-IsConsistent,
}
use team_c.Chat.Invariant.GroupKeys.{
  tables-view_group, tables-view_group_member, tables-add_group, tables-deal_group_request_n,
  tables-public_chat, create_group-IsConsistent, deal_group_request_y-IsConsistent,
  quit_group-IsConsistent, break_group-IsConsistent, set_manager-IsConsistent,
}

tables-relay :
    (to : Option UserDate) (sum : ℕ) (rs : List Received) (w : World)
    → tables (state (relay to sum rs w)) ≡ tables w
unfolding relay
tables-relay to sum [] w = refl
tables-relay none sum (r ∷ rest) w = ground (arith, tables-relay none (sum + r.size) rest w)
tables-relay (some u) sum (r ∷ rest) w = ground (
  arith,
  tables-relay (some u) (sum + r.size) rest w,
  tables-relay (some u) 0 rest (send u.socket r.buffer w),
)

tables-notify_receiver :
    (to : Option UserDate) (m : Msg) (w : World) → tables (notify_receiver to m w) ≡ tables w
unfolding notify_receiver
tables-notify_receiver to m w = ground arith

tables-send_file :
    (fd : ℕ) (m : Msg) (incoming : List Received) (w : World)
    → tables (state (send_file fd m incoming w)) ≡ tables w
unfolding send_file
tables-send_file fd m incoming w = elim (Option-cases (get_file_name m.file_path)) [
  | inl e ↦ rw (e, send_file)
  | inr (name, e) ↦
      rw (e, send_file)
        (tables-relay (find_online m.to_name w) 0 incoming _
          ∙ tables-notify_receiver (find_online m.to_name w) (record m { file_name = name }) w)
]

kept : {s t : Tables} → s ≡ t → IsConsistent t → IsConsistent s
kept e h = rw e h

module _ (env : Env) where
  run_command-IsConsistent :
      (c : Command) (fd : ℕ) (m : Msg) (incoming : List Received) (w : World)
      → IsConsistent (tables w)
      → IsConsistent (tables (state (run_command env c fd m incoming w)))
  unfolding run_command
  run_command-IsConsistent Command.forget_password_cmd fd m incoming w h =
      kept (tables-forget_password fd m w) h
  run_command-IsConsistent Command.reg_cmd fd m incoming w h = reg-IsConsistent env fd m w h
  run_command-IsConsistent Command.login_cmd fd m incoming w h = kept (tables-login fd m w) h
  run_command-IsConsistent Command.all_friends_cmd fd m incoming w h =
      kept (tables-all_friends fd m w) h
  run_command-IsConsistent Command.online_friend_cmd fd m incoming w h =
      kept (tables-online_friend fd m w) h
  run_command-IsConsistent Command.private_chat_cmd fd m incoming w h =
      kept (tables-private_chat env fd m w) h
  run_command-IsConsistent Command.add_friend_cmd fd m incoming w h =
      add_friend-IsConsistent env m w h fd
  run_command-IsConsistent Command.delete_friend_cmd fd m incoming w h =
      delete_friend-IsConsistent env fd m w h
  run_command-IsConsistent Command.view_group_cmd fd m incoming w h =
      kept (tables-view_group fd m w) h
  run_command-IsConsistent Command.public_chat_cmd fd m incoming w h =
      kept (tables-public_chat env fd m w) h
  run_command-IsConsistent Command.add_group_cmd fd m incoming w h =
      kept (tables-add_group env fd m w) h
  run_command-IsConsistent Command.quit_group_cmd fd m incoming w h =
      quit_group-IsConsistent env fd m w h
  run_command-IsConsistent Command.view_group_member_cmd fd m incoming w h =
      kept (tables-view_group_member fd m w) h
  run_command-IsConsistent Command.break_group_cmd fd m incoming w h =
      break_group-IsConsistent env fd m w h
  run_command-IsConsistent Command.set_manager_cmd fd m incoming w h =
      set_manager-IsConsistent env fd m w h
  run_command-IsConsistent Command.deal_friend_request_y_cmd fd m incoming w h =
      deal_friend_request_y-IsConsistent env fd m w h
  run_command-IsConsistent Command.deal_friend_request_n_cmd fd m incoming w h =
      deal_friend_request_n-IsConsistent env fd m w h
  run_command-IsConsistent Command.deal_group_request_y_cmd fd m incoming w h =
      deal_group_request_y-IsConsistent env fd m w h
  run_command-IsConsistent Command.deal_group_request_n_cmd fd m incoming w h =
      kept (tables-deal_group_request_n fd m w) h
  run_command-IsConsistent Command.create_group_cmd fd m incoming w h =
      create_group-IsConsistent env fd m w h
  run_command-IsConsistent Command.send_file_cmd fd m incoming w h =
      kept (tables-send_file fd m incoming w) h
  run_command-IsConsistent Command.other_cmd fd m incoming w h = h

  pub serve_event-IsConsistent :
      (e : Readable) (w : World)
      → IsConsistent (tables w)
      → IsConsistent (tables (state (serve_event env e w)))
  unfolding serve_event chuli_request
  serve_event-IsConsistent e w h =
      let run = run_command-IsConsistent (command e.message.cmd) e.fd e.message e.incoming in
      ground (arith, run w h, run (record w { head = del_node e.fd w.head }) h)

  -- Tables are consistent when no two users have one name, no two groups have one name, no two
  -- friend rows have one pair of names, and every status is 0 or 1. From consistent tables,
  -- whatever the clients send, in whatever order, and whatever the database answers, the server
  -- goes to consistent tables, also when it ends by exit or by a fault.
  pub serve-IsConsistent :
      (events : List Readable) (w : World)
      → IsConsistent (tables w)
      → IsConsistent (tables (state (serve env events w)))
  unfolding serve
  serve-IsConsistent [] w h = h
  serve-IsConsistent (e ∷ rest) w h =
      state_bind IsConsistent _ _ (serve_event-IsConsistent e w h)
        (λ w1 h1. serve-IsConsistent rest w1 h1)
