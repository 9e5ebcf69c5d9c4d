-- ===== src/Room/Club.antt =====
-- The handlers of groups in Code/liuting1/chatroom/server_deal.c, but for deal_chat_group.
pub mod Authority
pub mod Entitled
use team_c.Common.{Bool, true, false, Option, none, some, List, [], ◌∷◌, ◌++◌, if◌then◌else◌}
use team_c.Common.Int.{ℤ, pos, ◌==ℤ◌}
use team_c.Common.Text.{CStr, codes, streq}
use team_c.Chat.Tables.{atol}
use team_c.Room.Packet.{Pack, Chatting}
use team_c.Room.Machine.{Database, Run, pure, ◌>>=◌, ◌>>◌, send_other_pack, decimal}
use team_c.Room.Mysql.{Entry, good, bad, mysql_find_fd}
use team_c.Room.Groups.{
  mysql_creat_group, mysql_find_group, mysql_find_group_member, mysql_join_group, mysql_quit_group,
  mysql_find_gowner, mysql_dele_group, mysql_group_name, read_name, mysql_group_mes,
  mysql_find_user, mysql_find_chat_group, mysql_set_up, mysql_find_group_vip,
}
use team_c.Room.Friend.{before, send_each, send_or_keep}

module _ (db : Database) where
  abbrev pub created_pack : ℤ → Pack
  created_pack ret =
      if ret ==ℤ bad
      then record (db.junk 304) { mes = codes "创群失败" }
      else record (db.junk 304) { type = pos 10; account = ret; mes = codes "创群成功" }

  unfoldable pub deal_creat_group : ℤ → Pack → Run db.Store (Unit {0})
  deal_creat_group cli_fd pack = do
    ret ← mysql_creat_group db pack.account pack.mes
    send_other_pack (created_pack ret) cli_fd

  -- An answer with a type and a text, in a packet that was declared at a line.
  abbrev pub answer : Pack → ℤ → CStr → Pack
  answer send_pack type mes = record send_pack { type = type; mes = mes }

  unfoldable pub deal_join_group : ℤ → Pack → Run db.Store (Unit {0})
  deal_join_group cli_fd pack = do
    ret ← mysql_find_group db pack.send_account
    if ret ==ℤ good
        then (do
          member ← mysql_find_group_member db pack.account pack.send_account
          if member ==ℤ good
              then send_other_pack (answer (db.junk 320) (pos 11) (codes "你已是该群成员")) cli_fd
              else (do
                joined ← mysql_join_group db pack.account pack.send_account
                send_other_pack
                    (answer (db.junk 320) (pos 11)
                      (if joined ==ℤ good then codes "加入群聊成功,欢迎欢迎！！！" else codes "写入数据库出错，请重新加入"))
                    cli_fd))
        else send_other_pack (answer (db.junk 320) (pos 11) (codes "该群不存在")) cli_fd

  unfoldable pub deal_quit_group : ℤ → Pack → Run db.Store (Unit {0})
  deal_quit_group cli_fd pack = do
    ret ← mysql_find_group_member db pack.account pack.send_account
    if ret ==ℤ bad
        then send_other_pack (answer (db.junk 348) (pos 12) (codes "该群号不存在或你并不是该群成员")) cli_fd
        else (do
          left ← mysql_quit_group db pack.account pack.send_account
          send_other_pack
              (answer (db.junk 348) (pos 12)
                (if left ==ℤ good then codes "退出群聊成功" else codes "写入数据库出错，请重新退出"))
              cli_fd)

  -- The refusals of four handlers.
  abbrev pub delete_refused : Pack
  delete_refused = answer (db.junk 369) (pos 13) (codes "该群号不存在或者你并不是群主，没有权限！！！")

  abbrev pub set_up_refused : Pack → Pack
  set_up_refused pack = record pack { send_account = pos 0; mes = codes "该群不存在，或者你并不是群主，无法操作" }

  abbrev pub join_user_refused : Pack → Pack
  join_user_refused pack = record pack { mes = codes "该群不存在，或者你并不是该群成员，无法操作!!!" }

  abbrev pub dele_user_refused : Pack → Pack
  dele_user_refused pack = record pack { mes = codes "该群不存在，或者你并不是该群管理员，无法操作!!!" }

  unfoldable pub deal_dele_group : ℤ → Pack → Run db.Store (Unit {0})
  deal_dele_group cli_fd pack = do
    ret ← mysql_find_gowner db pack.account pack.send_account
    if ret ==ℤ bad then send_other_pack delete_refused cli_fd else (do
      gone ← mysql_dele_group db pack.send_account
      send_other_pack
          (answer (db.junk 369) (pos 13)
            (if gone ==ℤ good then codes "删除群聊成功" else codes "写入数据库出错，请重新删除"))
          cli_fd)

  abbrev pub rank : ℤ → CStr
  rank flag =
      if flag ==ℤ pos 1 then codes "群主" else if flag ==ℤ pos 2 then codes "管理员" else codes "群员"

  -- A packet of deal_group_mes about a member.
  abbrev pub member_pack : Entry → Pack
  member_pack e = record (db.junk 390) {
    type = pos 14;
    account = e.account;
    send_name = e.name;
    send_account = e.online;
    mes = rank e.flag;
  }

  unfoldable pub deal_group_mes : ℤ → Pack → Run db.Store (Unit {0})
  deal_group_mes cli_fd pack = do
    p ← mysql_group_name db pack.send_account
    if streq (read_name db 395 p) (codes "fail")
        then send_other_pack (record (db.junk 390) { type = pos 141; mes = codes "查询失败或该群不存在" })
            cli_fd
        else (do
          listed ← mysql_group_mes db pack.send_account
          group ← mysql_find_user db listed
          send_other_pack (record (db.junk 390) { mes = read_name db 396 p }) cli_fd
          send_each member_pack cli_fd (before (λ e. e.account ==ℤ bad) group))

  abbrev pub said_pack : Chatting → Pack
  said_pack c = record (db.junk 531) { type = pos 16; account = c.id1; mes = c.mes }

  -- Answers deal_find_store_g where there is no message; strcmp stands where strcpy is meant.
  abbrev pub say_or_tell : ℤ → Pack → List Chatting → Run db.Store (Unit {0})
  say_or_tell cli_fd pack [] = send_other_pack pack cli_fd
  say_or_tell cli_fd pack (c ∷ cs) = send_each said_pack cli_fd (c ∷ cs)

  unfoldable pub deal_find_store_g : ℤ → Pack → Run db.Store (Unit {0})
  deal_find_store_g cli_fd pack = do
    p ← mysql_group_name db pack.send_account
    if streq (read_name db 514 p) (codes "fail")
        then send_other_pack (record pack { type = pos 161; mes = codes "查询失败或该群不存在" }) cli_fd
        else (do
          rows ← mysql_find_chat_group db pack.send_account
          say_or_tell cli_fd (record pack { type = pos 161; mes = read_name db 517 p })
              (before (λ c. c.id1 ==ℤ bad) rows))

  unfoldable pub deal_set_up : ℤ → Pack → Run db.Store (Unit {0})
  deal_set_up cli_fd pack = do
    owner ← mysql_find_gowner db pack.account pack.send_account
    if owner ==ℤ good
        then (do
          member ← mysql_find_group_member db (atol pack.mes) pack.send_account
          if member ==ℤ good
              then (do
                mysql_set_up db pack.send_account (atol pack.mes)
                send_other_pack (record pack { mes = codes "设置成功,他已经是管理员了哦！！" }) cli_fd)
              else send_other_pack (record pack { mes = codes "你要设置的并不是群成员，快去拉他进群吧!!!" }) cli_fd)
        else send_other_pack (set_up_refused pack) cli_fd

  -- The answer to a user who has invited another one.
  abbrev pub invited : Pack → Pack
  invited pack = record pack { mes = codes "你已成功邀请他进群" }

  -- The packet for a user who was taken into a group, or out of it.
  abbrev pub invited_pack : Pack → Pack
  invited_pack pack = record pack {
    mes = codes "你被账号" ++ (decimal pack.account ++ (codes "拉进群" ++ decimal pack.send_account));
    send_account = atol pack.mes;
  }

  abbrev pub expelled_pack : Pack → Pack
  expelled_pack pack = record pack {
    mes =
        codes "你被账号"
        ++ (decimal pack.account ++ (codes "从群" ++ (decimal (atol pack.mes) ++ codes "删除")));
    send_account = atol pack.mes;
  }

  unfoldable pub deal_join_user : ℤ → Pack → Run db.Store (Unit {0})
  deal_join_user cli_fd pack = do
    ret ← mysql_find_group_member db pack.account pack.send_account
    if ret ==ℤ good
        then (do
          member ← mysql_find_group_member db (atol pack.mes) pack.send_account
          if member ==ℤ good
              then send_other_pack (record pack { mes = codes "他已经是该群成员，快去聊天吧！！" }) cli_fd
              else (do
                mysql_join_group db (atol pack.mes) pack.send_account
                f ← mysql_find_fd db pack.send_account
                send_other_pack (invited pack) cli_fd
                send_or_keep db (if f.online ==ℤ pos 1 then false else true) (invited_pack pack)
                    f.account))
        else send_other_pack (join_user_refused pack) cli_fd

  unfoldable pub deal_dele_user : ℤ → Pack → Run db.Store (Unit {0})
  deal_dele_user cli_fd pack = do
    ret ← mysql_find_group_vip db pack.account pack.send_account
    if ret ==ℤ good
        then (do
          mysql_quit_group db (atol pack.mes) pack.send_account
          f ← mysql_find_fd db pack.send_account
          send_other_pack (record pack { mes = codes "你已成功从群聊中删除他" }) cli_fd
          send_or_keep db (if f.online ==ℤ pos 1 then false else true) (expelled_pack pack)
              f.account)
        else send_other_pack (dele_user_refused pack) cli_fd
