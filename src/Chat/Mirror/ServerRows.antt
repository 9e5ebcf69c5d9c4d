-- ===== src/Chat/Mirror/ServerRows.antt =====
-- The dispatch and the event loop of epoll.c, against the effects of the statements.
use team_c.Common.{ℕ, ◌+◌, ◌≡◌, List, [], ◌∷◌, arith, Option-cases, inl, inr, none, some, Option}
use mathlib.Core.Path.{subst}
use team_c.Chat.Msg.{Msg}
use team_c.Chat.Sql.{Env}
use team_c.Chat.World.{World, UserDate, done, send}
use team_c.Chat.World.Tables.{tables}
use team_c.Chat.Online.{find_online, del_node}
use team_c.Chat.File.{Received, get_file_name, relay, notify_receiver, send_file}
use team_c.Chat.Server.{Command, Readable, command, run_command, chuli_request, serve_event, serve}
use team_c.Chat.Invariant.{IsConsistent}
use team_c.Chat.Invariant.ServerKeys.{serve_event-IsConsistent}
use team_c.Chat.Mirror.{Replayed, IsMirror, IsSynced, Returns, Returns-bind, Returns-IsSynced}
use team_c.Chat.Mirror.AccountRows.{reg-IsMirror, login-IsMirror, forget_password-IsMirror}
use team_c.Chat.Mirror.FriendRows.{
  all_friends-IsMirror, online_friend-IsMirror, private_chat-IsMirror, add_friend-IsMirror,
  delete_friend-IsMirror, deal_friend_request_n-IsMirror, deal_friend_request_y-IsMirror,
}
use team_c.Chat.Mirror.GroupRows.{
  view_group-IsMirror, view_group_member-IsMirror, deal_group_request_n-IsMirror,
  add_group-IsMirror, create_group-IsMirror, deal_group_request_y-IsMirror, quit_group-IsMirror,
  set_manager-IsMirror, break_group-IsMirror, public_chat-IsMirror,
}

module _ (db : Replayed) where
  relay-IsMirror :
      (to : Option UserDate) (sum : ℕ) (rs : List Received) (w : World)
      → IsMirror db w
      → Returns (IsMirror db) (relay to sum rs w)
  unfolding relay Returns
  relay-IsMirror to sum [] w h = h
  relay-IsMirror none sum (r ∷ rest) w h =
      ground (arith, relay-IsMirror none (sum + r.size) rest w h)
  relay-IsMirror (some u) sum (r ∷ rest) w h = ground (
    arith,
    relay-IsMirror (some u) (sum + r.size) rest w h,
    relay-IsMirror (some u) 0 rest (send u.socket r.buffer w) h,
  )

  notify_receiver-IsMirror :
      (to : Option UserDate) (m : Msg) (w : World)
      → IsMirror db w
      → IsMirror db (notify_receiver to m w)
  unfolding notify_receiver
  notify_receiver-IsMirror to m w h = ground arith

  send_file-IsMirror :
      (fd : ℕ) (m : Msg) (incoming : List Received) (w : World)
      → IsMirror db w
      → Returns (IsMirror db) (send_file fd m incoming w)
  unfolding send_file Returns
  send_file-IsMirror fd m incoming w h = elim (Option-cases (get_file_name m.file_path)) [
    | inl e ↦ rw (e, send_file) tt
    | inr (name, e) ↦
        rw (e, send_file)
          (relay-IsMirror (find_online m.to_name w) 0 incoming _ (
            notify_receiver-IsMirror (find_online m.to_name w) (record m { file_name = name }) w h))
  ]

  run_command-IsMirror :
      (env : Env) (c : Command) (fd : ℕ) (m : Msg) (incoming : List Received) (w : World)
      → IsSynced db w
      → Returns (IsMirror db) (run_command env c fd m incoming w)
  unfolding run_command Returns
  run_command-IsMirror env Command.forget_password_cmd fd m incoming w h =
      forget_password-IsMirror db fd m w h.1
  run_command-IsMirror env Command.reg_cmd fd m incoming w h = reg-IsMirror db env fd m w h.1
  run_command-IsMirror env Command.login_cmd fd m incoming w h = login-IsMirror db fd m w h.1
  run_command-IsMirror env Command.all_friends_cmd fd m incoming w h =
      all_friends-IsMirror db fd m w h.1
  run_command-IsMirror env Command.online_friend_cmd fd m incoming w h =
      online_friend-IsMirror db fd m w h.1
  run_command-IsMirror env Command.private_chat_cmd fd m incoming w h =
      private_chat-IsMirror db env fd m w h.1
  run_command-IsMirror env Command.add_friend_cmd fd m incoming w h =
      add_friend-IsMirror db env fd m w h.1
  run_command-IsMirror env Command.delete_friend_cmd fd m incoming w h =
      delete_friend-IsMirror db env fd m w h
  run_command-IsMirror env Command.view_group_cmd fd m incoming w h =
      view_group-IsMirror db fd m w h.1
  run_command-IsMirror env Command.public_chat_cmd fd m incoming w h =
      public_chat-IsMirror db env fd m w h.1
  run_command-IsMirror env Command.add_group_cmd fd m incoming w h =
      add_group-IsMirror db env fd m w h.1
  run_command-IsMirror env Command.quit_group_cmd fd m incoming w h =
      quit_group-IsMirror db env fd m w h.1
  run_command-IsMirror env Command.view_group_member_cmd fd m incoming w h =
      view_group_member-IsMirror db fd m w h.1
  run_command-IsMirror env Command.break_group_cmd fd m incoming w h =
      break_group-IsMirror db env fd m w h
  run_command-IsMirror env Command.set_manager_cmd fd m incoming w h =
      set_manager-IsMirror db env fd m w h.1
  run_command-IsMirror env Command.deal_friend_request_y_cmd fd m incoming w h =
      deal_friend_request_y-IsMirror db env fd m w h
  run_command-IsMirror env Command.deal_friend_request_n_cmd fd m incoming w h =
      deal_friend_request_n-IsMirror db env fd m w h
  run_command-IsMirror env Command.deal_group_request_y_cmd fd m incoming w h =
      deal_group_request_y-IsMirror db env fd m w h.1
  run_command-IsMirror env Command.deal_group_request_n_cmd fd m incoming w h =
      deal_group_request_n-IsMirror db fd m w h.1
  run_command-IsMirror env Command.create_group_cmd fd m incoming w h =
      create_group-IsMirror db env fd m w h.1
  run_command-IsMirror env Command.send_file_cmd fd m incoming w h =
      send_file-IsMirror fd m incoming w h.1
  run_command-IsMirror env Command.other_cmd fd m incoming w h = h.1

  serve_event-IsMirror :
      (env : Env) (e : Readable) (w : World)
      → IsSynced db w
      → Returns (IsMirror db) (serve_event env e w)
  unfolding serve_event chuli_request
  serve_event-IsMirror env e w h =
      let run = run_command-IsMirror env (command e.message.cmd) e.fd e.message e.incoming in
      ground (arith, run w h, run (record w { head = del_node e.fd w.head }) h)

  serve-Returns :
      (env : Env) (events : List Readable) (w : World)
      → IsSynced db w
      → Returns (IsMirror db) (serve env events w)
  unfolding serve Returns
  serve-Returns env [] w h = h.1
  serve-Returns env (e ∷ rest) w h =
      Returns-bind (IsSynced db) (IsMirror db) _ _
        (Returns-IsSynced db (serve_event env e w) (serve_event-IsConsistent env e w h.0)
          (serve_event-IsMirror env e w h))
        (λ w1 h1. serve-Returns env rest w1 h1)

pub serve-replays :
    (db : Replayed) (env : Env) (events : List Readable) (w w' : World)
    → IsConsistent (tables w)
    → IsMirror db w
    → serve env events w ≡ done w'
    → IsMirror db w'
unfolding Returns
serve-replays db env events w w' c h returned =
    subst (Returns (IsMirror db)) returned (serve-Returns db env events w (c, h))
