-- ===== src/Room/Waiting/Handlers.antt =====
-- The handlers of Code/liuting1/chatroom/server_deal.c, but for deal_login and deal_chat_group, and
-- the messages that wait.
use team_c.Common.{ℕ, Option, none, some, List, [], ◌∷◌, Bool, true, false, refl, if◌then◌else◌}
use team_c.Common.Int.{ℤ, pos, ◌==ℤ◌}
use team_c.Common.Text.{codes, streq}
use team_c.Room.Packet.{Pack, Chatting}
use team_c.Room.Machine.{Database, Run, crash, modify, send_other_pack}
use team_c.Room.Mysql.{good, bad}
use team_c.Room.Groups.{read_name}
use team_c.Room.Offline.{fri_off_of, deal_fri_off}
use team_c.Room.Account.{all_online, deal_regist, deal_repass, hang_up}
use team_c.Room.Friend.{
  before, send_each, send_or_keep, deal_list_fri, deal_online_fri, deal_chat_fri, deal_store_fri,
  deal_dele_fri, deal_addfriend, recv_addfr_pack, send_file_pack,
}
use team_c.Room.Club.{
  member_pack, invited, invited_pack, expelled_pack, join_user_refused, dele_user_refused,
  say_or_tell, deal_creat_group, deal_join_group, deal_quit_group, deal_dele_group, deal_group_mes,
  deal_find_store_g, deal_set_up, deal_join_user, deal_dele_user,
}
use team_c.Room.Waiting.{Grows-send, Grows-same, Grows-crash, Grows-keep}
use team_c.Room.Waiting.Queries.{Calm, Calm-pure, Calm-bind, Calm-if}
use team_c.Room.Waiting.Functions.{
  mysql_regist-Grows, mysql_repass-Grows, mysql_exit-Grows, mysql_find_frirela-Grows,
  mysql_find_fd-Grows, mysql_addfriend_store-Grows, mysql_dele_group-Grows,
}
use team_c.Room.Waiting.Lists.{
  mysql_list_fri-Grows, mysql_online_fri-Grows, mysql_store_chat-Grows, mysql_find_chat-Grows,
  mysql_dele_fri-Grows, mysql_creat_group-Grows, mysql_find_group_member-Grows,
  mysql_find_group-Grows, mysql_find_gowner-Grows, mysql_find_group_vip-Grows,
  mysql_join_group-Grows, mysql_quit_group-Grows, mysql_group_name-Grows, mysql_group_mes-Grows,
  mysql_find_user-Grows, mysql_find_chat_group-Grows, mysql_set_up-Grows,
}

module _ (account : ℤ) (db : Database) where
  pub Calm-send : (pack : Pack) (fd : ℤ) → Calm account db (send_other_pack pack fd)
  Calm-send pack fd = Grows-send account db.Store pack fd

  pub deal_regist-Grows : (fd : ℤ) (pack : Pack) → Calm account db (deal_regist db fd pack)
  unfolding deal_regist
  deal_regist-Grows fd pack =
      Calm-bind account db (mysql_regist-Grows account db _ _) λ ret. Calm-send _ fd

  pub deal_repass-Grows : (fd : ℤ) (pack : Pack) → Calm account db (deal_repass db fd pack)
  unfolding deal_repass
  deal_repass-Grows fd pack =
      Calm-bind account db (mysql_repass-Grows account db _ _ _) λ ret. Calm-send _ fd

  note_gone-Grows :
      (i : Option ℕ)
      → Calm account db (elim i as (λ k. Run db.Store (Unit {0})) [
        | none ↦ crash
        | some j ↦ modify λ s. record s { g = all_online j (pos 0) s.g }
      ])
  note_gone-Grows none = Grows-crash account db.Store
  note_gone-Grows (some i) = Grows-same account db.Store tt _ (λ s. refl)

  pub hang_up-Grows : Calm account db (hang_up db)
  unfolding hang_up
  hang_up-Grows = Calm-bind account db (mysql_exit-Grows account db _) λ u. note_gone-Grows _

  send_each-Grows :
      {A : Type 0} (packet : A → Pack) (fd : ℤ) (xs : List A)
      → Calm account db (send_each packet fd xs)
  unfolding send_each
  send_each-Grows packet fd [] = Calm-pure account db tt
  send_each-Grows packet fd (x ∷ xs) =
      Calm-bind account db (Calm-send (packet x) fd) λ u. send_each-Grows packet fd xs

  send_or_keep-Grows :
      (keep : Bool) (pack : Pack) (fd : ℤ) → Calm account db (send_or_keep db keep pack fd)
  unfolding send_or_keep deal_fri_off
  send_or_keep-Grows keep pack fd =
      Calm-if account db keep (Grows-keep account db.Store (fri_off_of db pack)) (Calm-send pack fd)

  pub deal_list_fri-Grows : (fd : ℤ) (pack : Pack) → Calm account db (deal_list_fri db fd pack)
  unfolding deal_list_fri
  deal_list_fri-Grows fd pack =
      Calm-bind account db (mysql_list_fri-Grows account db _) λ p. send_each-Grows _ fd _

  pub deal_online_fri-Grows : (fd : ℤ) (pack : Pack) → Calm account db (deal_online_fri db fd pack)
  unfolding deal_online_fri
  deal_online_fri-Grows fd pack =
      Calm-bind account db (mysql_online_fri-Grows account db _) λ p. send_each-Grows _ fd _

  pub deal_chat_fri-Grows : (fd : ℤ) (pack : Pack) → Calm account db (deal_chat_fri db fd pack)
  unfolding deal_chat_fri
  deal_chat_fri-Grows fd pack =
      Calm-bind account db (mysql_find_frirela-Grows account db _ _) λ ret.
        Calm-if account db (ret ==ℤ bad) (Calm-send _ fd) (
          Calm-bind account db (mysql_find_fd-Grows account db _) λ f.
            Calm-bind account db (mysql_find_fd-Grows account db _) λ f2.
              Calm-bind account db (mysql_store_chat-Grows account db _ _ _)
                λ u. send_or_keep-Grows _ _ _)

  pub deal_store_fri-Grows : (fd : ℤ) (pack : Pack) → Calm account db (deal_store_fri db fd pack)
  unfolding deal_store_fri
  deal_store_fri-Grows fd pack = Calm-bind account db (mysql_find_chat-Grows account db _ _) λ rows.
      Calm-bind account db (Calm-if account db _ (Calm-send _ fd) (Calm-pure account db tt))
        λ u. send_each-Grows _ fd _

  pub deal_dele_fri-Grows : (pack : Pack) → Calm account db (deal_dele_fri db pack)
  unfolding deal_dele_fri
  deal_dele_fri-Grows pack = mysql_dele_fri-Grows account db _ _

  pub send_file_pack-Grows : (pack : Pack) → Calm account db (send_file_pack db pack)
  unfolding send_file_pack
  send_file_pack-Grows pack = record {
    from_state = λ s.
        (Calm-if account db _
            (Calm-bind account db
              (Grows-same account db.Store tt
                (λ t. record t { file_send_account = pack.send_account }) (λ t. refl))
              λ u. Calm-bind account db (mysql_find_fd-Grows account db pack.send_account) λ f.
                Calm-bind account db
                  (Grows-same account db.Store tt (λ t. record t { file_socket = f.account })
                    (λ t. refl))
                  λ v. Calm-send pack f.account)
            (Calm-send pack s.file_socket)).from_state
          s;
  }

  pub deal_addfriend-Grows : (fd : ℤ) (pack : Pack) → Calm account db (deal_addfriend db fd pack)
  unfolding deal_addfriend
  deal_addfriend-Grows fd pack =
      Calm-bind account db (mysql_find_frirela-Grows account db _ _) λ ret.
        Calm-if account db (ret ==ℤ good) (Calm-send _ fd) (
          Calm-bind account db (mysql_find_fd-Grows account db _) λ f.
            Calm-bind account db (mysql_find_fd-Grows account db _) λ f2.
              Calm-if account db (f.account ==ℤ bad) (Calm-send _ fd) (send_or_keep-Grows _ _ _))

  pub recv_addfr_pack-Grows : (pack : Pack) → Calm account db (recv_addfr_pack db pack)
  unfolding recv_addfr_pack
  recv_addfr_pack-Grows pack =
      Calm-if account db (pack.type ==ℤ pos 41)
        (Calm-bind account db (mysql_find_fd-Grows account db _) λ f.
          Calm-if account db (streq pack.mes (codes "success"))
            (Calm-bind account db (mysql_addfriend_store-Grows account db _ _) λ u. Calm-send _ _)
            (Calm-send _ _))
        (Calm-pure account db tt)

  pub deal_creat_group-Grows :
      (fd : ℤ) (pack : Pack) → Calm account db (deal_creat_group db fd pack)
  unfolding deal_creat_group
  deal_creat_group-Grows fd pack =
      Calm-bind account db (mysql_creat_group-Grows account db _ _) λ ret. Calm-send _ fd

  pub deal_join_group-Grows : (fd : ℤ) (pack : Pack) → Calm account db (deal_join_group db fd pack)
  unfolding deal_join_group
  deal_join_group-Grows fd pack = Calm-bind account db (mysql_find_group-Grows account db _) λ ret.
      Calm-if account db (ret ==ℤ good)
        (Calm-bind account db (mysql_find_group_member-Grows account db _ _) λ member.
          Calm-if account db (member ==ℤ good) (Calm-send _ fd)
            (Calm-bind account db (mysql_join_group-Grows account db _ _) λ joined. Calm-send _ fd))
        (Calm-send _ fd)

  pub deal_quit_group-Grows : (fd : ℤ) (pack : Pack) → Calm account db (deal_quit_group db fd pack)
  unfolding deal_quit_group
  deal_quit_group-Grows fd pack =
      Calm-bind account db (mysql_find_group_member-Grows account db _ _) λ ret.
        Calm-if account db (ret ==ℤ bad) (Calm-send _ fd)
          (Calm-bind account db (mysql_quit_group-Grows account db _ _) λ left. Calm-send _ fd)

  pub deal_dele_group-Grows : (fd : ℤ) (pack : Pack) → Calm account db (deal_dele_group db fd pack)
  unfolding deal_dele_group
  deal_dele_group-Grows fd pack =
      Calm-bind account db (mysql_find_gowner-Grows account db _ _) λ ret.
        Calm-if account db (ret ==ℤ bad) (Calm-send _ fd)
          (Calm-bind account db (mysql_dele_group-Grows account db _) λ gone. Calm-send _ fd)

  pub deal_group_mes-Grows : (fd : ℤ) (pack : Pack) → Calm account db (deal_group_mes db fd pack)
  unfolding deal_group_mes
  deal_group_mes-Grows fd pack = Calm-bind account db (mysql_group_name-Grows account db _) λ p.
      Calm-if account db _ (Calm-send _ fd) (
        Calm-bind account db (mysql_group_mes-Grows account db _) λ listed.
          Calm-bind account db (mysql_find_user-Grows account db listed) λ group.
            Calm-bind account db (Calm-send (record (db.junk 390) { mes = read_name db 396 p }) fd)
              λ u. send_each-Grows (member_pack db) fd (before (λ e. e.account ==ℤ bad) group))

  say_or_tell-Grows :
      (fd : ℤ) (pack : Pack) (cs : List Chatting) → Calm account db (say_or_tell db fd pack cs)
  say_or_tell-Grows fd pack [] = Calm-send pack fd
  say_or_tell-Grows fd pack (c ∷ cs) = send_each-Grows _ fd (c ∷ cs)

  pub deal_find_store_g-Grows :
      (fd : ℤ) (pack : Pack) → Calm account db (deal_find_store_g db fd pack)
  unfolding deal_find_store_g
  deal_find_store_g-Grows fd pack = Calm-bind account db (mysql_group_name-Grows account db _) λ p.
      Calm-if account db _ (Calm-send _ fd) (
        Calm-bind account db (mysql_find_chat_group-Grows account db _)
          λ rows. say_or_tell-Grows fd _ _)

  pub deal_set_up-Grows : (fd : ℤ) (pack : Pack) → Calm account db (deal_set_up db fd pack)
  unfolding deal_set_up
  deal_set_up-Grows fd pack = Calm-bind account db (mysql_find_gowner-Grows account db _ _) λ owner.
      Calm-if account db (owner ==ℤ good)
        (Calm-bind account db (mysql_find_group_member-Grows account db _ _) λ member.
          Calm-if account db (member ==ℤ good)
            (Calm-bind account db (mysql_set_up-Grows account db _ _) λ u. Calm-send _ fd)
            (Calm-send _ fd))
        (Calm-send _ fd)

  pub deal_join_user-Grows : (fd : ℤ) (pack : Pack) → Calm account db (deal_join_user db fd pack)
  unfolding deal_join_user
  deal_join_user-Grows fd pack =
      Calm-bind account db (mysql_find_group_member-Grows account db _ _) λ ret.
        Calm-if account db (ret ==ℤ good)
          (Calm-bind account db (mysql_find_group_member-Grows account db _ _) λ member.
            Calm-if account db (member ==ℤ good) (Calm-send _ fd) (
              Calm-bind account db (mysql_join_group-Grows account db _ _) λ u.
                Calm-bind account db (mysql_find_fd-Grows account db _) λ f.
                  Calm-bind account db (Calm-send (invited db pack) fd) λ v.
                    send_or_keep-Grows (if f.online ==ℤ pos 1 then false else true)
                      (invited_pack db pack) f.account))
          (Calm-send (join_user_refused db pack) fd)

  pub deal_dele_user-Grows : (fd : ℤ) (pack : Pack) → Calm account db (deal_dele_user db fd pack)
  unfolding deal_dele_user
  deal_dele_user-Grows fd pack =
      Calm-bind account db (mysql_find_group_vip-Grows account db _ _) λ ret.
        Calm-if account db (ret ==ℤ good)
          (Calm-bind account db (mysql_quit_group-Grows account db _ _) λ u.
            Calm-bind account db (mysql_find_fd-Grows account db _) λ f.
              Calm-bind account db (Calm-send (record pack { mes = codes "你已成功从群聊中删除他" }) fd) λ v.
                send_or_keep-Grows (if f.online ==ℤ pos 1 then false else true)
                  (expelled_pack db pack) f.account)
          (Calm-send (dele_user_refused db pack) fd)
