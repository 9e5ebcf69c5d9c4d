-- ===== src/Room/Friend.antt =====
-- The handlers of friends in Code/liuting1/chatroom/server_deal.c: deal_list_fri, deal_online_fri,
-- deal_chat_fri, deal_store_fri, deal_dele_fri, deal_addfriend, recv_addfr_PACK, send_file.
pub mod Befriending
pub mod Kept
use team_c.Common.{Bool, true, false, ◌||◌, Option, none, some, List, [], ◌∷◌, ◌++◌, if◌then◌else◌}
use team_c.Common.Int.{ℤ, pos, ◌==ℤ◌}
use team_c.Common.Text.{CStr, codes, streq}
use team_c.Room.Packet.{Pack, Chatting}
use team_c.Room.Machine.{
  Database, Server, Run, pure, crash, ◌>>=◌, ◌>>◌, modify, send_other_pack, decimal,
}
use team_c.Room.Mysql.{
  Contact, good, bad, mysql_list_fri, mysql_online_fri, mysql_find_frirela, mysql_find_fd,
  mysql_store_chat, mysql_find_chat, mysql_dele_fri, mysql_addfriend_store,
}
use team_c.Room.Offline.{deal_fri_off}

-- The entries in front of the first one that ends a loop.
unfoldable pub before {ℓ} : {A : Type ℓ} → (A → Bool) → List A → List A
before ends [] = []
before ends (x ∷ xs) = let rest = before ends xs in if ends x then [] else x ∷ rest

-- A loop that sends a packet for each entry.
unfoldable pub send_each {ℓ} :
    {S : Type 0} {A : Type ℓ} → (A → Pack) → ℤ → List A → Run S (Unit {0})
send_each packet fd [] = pure tt
send_each packet fd (x ∷ xs) = do send_other_pack (packet x) fd; send_each packet fd xs

module _ (db : Database) where
  abbrev pub friend_pack : ℤ → Pack → Contact → Pack
  friend_pack type p c = record p { type = type; account = c.account; send_name = c.name }

  unfoldable pub deal_list_fri : ℤ → Pack → Run db.Store (Unit {0})
  deal_list_fri cli_fd pack = do
    p ← mysql_list_fri db pack.account
    send_each (friend_pack (pos 5) (db.junk 229)) cli_fd (before (λ c. c.account ==ℤ bad) p)

  unfoldable pub deal_online_fri : ℤ → Pack → Run db.Store (Unit {0})
  deal_online_fri cli_fd pack = do
    p ← mysql_online_fri db pack.account
    send_each (friend_pack (pos 6) (db.junk 241)) cli_fd
        (before (λ c. (c.account ==ℤ pos 0) || (c.account ==ℤ bad)) p)

  -- A packet goes to a user's socket, or waits for the user.
  unfoldable pub send_or_keep : Bool → Pack → ℤ → Run db.Store (Unit {0})
  send_or_keep keep pack fd = if keep then deal_fri_off db pack else send_other_pack pack fd

  abbrev pub no_friend : Pack → Pack
  no_friend pack = record (db.junk 256) {
    type = pos 7;
    account = pack.account;
    mes = codes "输入账号不存在，或者不是好友";
  }

  unfoldable pub deal_chat_fri : ℤ → Pack → Run db.Store (Unit {0})
  deal_chat_fri cli_fd pack = do
    ret ← mysql_find_frirela db pack.account pack.send_account
    if ret ==ℤ bad then send_other_pack (no_friend pack) cli_fd else (do
      f ← mysql_find_fd db pack.send_account
      f2 ← mysql_find_fd db pack.account
      mysql_store_chat db pack.account pack.send_account pack.mes
      send_or_keep (f.online ==ℤ pos 0) (record pack { send_name = f2.name }) f.account)

  -- An answer of deal_store_fri.
  abbrev pub chat_pack : Chatting → Pack
  chat_pack c = record (db.junk 280) {
    type = pos 8;
    account = c.id1;
    send_account = c.id2;
    mes = c.mes;
  }

  abbrev pub none_left : List Chatting → Bool
  none_left [] = true
  none_left (c ∷ cs) = false

  unfoldable pub deal_store_fri : ℤ → Pack → Run db.Store (Unit {0})
  deal_store_fri cli_fd pack = do
    rows ← mysql_find_chat db pack.account pack.send_account
    let str = before (λ c. c.id1 ==ℤ bad) rows
    if none_left str then send_other_pack (record pack { type = pos 81 }) cli_fd else pure tt
    send_each chat_pack cli_fd str

  unfoldable pub deal_dele_fri : Pack → Run db.Store (Unit {0})
  deal_dele_fri pack = mysql_dele_fri db pack.account pack.send_account

  abbrev pub request_pack : Pack → CStr → Pack
  request_pack pack name = record (db.junk 712) {
    type = pos 4;
    account = pack.account;
    send_account = pack.send_account;
    mes = codes "账号" ++ (name ++ codes "申请加你为好友，是否同意");
  }

  unfoldable pub deal_addfriend : ℤ → Pack → Run db.Store (Unit {0})
  deal_addfriend cli_fd pack = do
    ret ← mysql_find_frirela db pack.account pack.send_account
    if ret ==ℤ good
        then send_other_pack (record pack { mes = codes "你们已经是好友喽，直接去聊天吧" }) cli_fd
        else (do
          f ← mysql_find_fd db pack.send_account
          f2 ← mysql_find_fd db pack.account
          if f.account ==ℤ bad
              then send_other_pack (record pack { mes = codes "你输入的账号不正确，请正确输入!!!" }) cli_fd
              else send_or_keep (f.online ==ℤ pos 0) (request_pack pack f2.name) f.account)

  abbrev pub accepted_pack : Pack → Pack
  accepted_pack pack = record pack {
    mes = codes "你和" ++ (decimal pack.account ++ codes "已经成功加为好友了，快去聊天吧！！");
  }

  abbrev pub refused_pack : Pack → Pack
  refused_pack pack = record pack { mes = decimal pack.account ++ codes "拒绝了你的好友申请，他真是个傻逼！！" }

  unfoldable pub recv_addfr_pack : Pack → Run db.Store (Unit {0})
  recv_addfr_pack pack =
      if pack.type ==ℤ pos 41
      then (do
        fri ← mysql_find_fd db pack.send_account
        if streq pack.mes (codes "success")
            then (do
              mysql_addfriend_store db pack.account pack.send_account
              send_other_pack (accepted_pack pack) fri.account)
            else send_other_pack (refused_pack pack) fri.account)
      else pure tt

  -- send_file looks a receiver up where it is another one than before.
  unfoldable pub send_file_pack : Pack → Run db.Store (Unit {0})
  send_file_pack pack s =
      (if (s.file_send_account ==ℤ pos 0) || not_same s
          then (do
            modify λ t. record t { file_send_account = pack.send_account }
            f ← mysql_find_fd db pack.send_account
            modify λ t. record t { file_socket = f.account }
            send_other_pack pack f.account)
          else send_other_pack pack s.file_socket)
        s
    where
      not_same : Server db.Store → Bool
      not_same t = if t.file_send_account ==ℤ pack.send_account then false else true
