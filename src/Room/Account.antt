-- ===== src/Room/Account.antt =====
-- The handlers of accounts in Code/liuting1/chatroom/server_deal.c: deal_login, deal_regist,
-- deal_repass, and the end of a connection in recv_PACK.
pub mod Login
pub mod Session
use team_c.Common.{ℕ, ◌==◌, Option, none, some, if◌then◌else◌}
use team_c.Common.Int.{ℤ, pos, ◌==ℤ◌}
use team_c.Common.Text.{CStr, codes}
use team_c.Room.Packet.{Pack}
use team_c.Room.Machine.{
  Database, Cache, Server, Run, pure, crash, ◌>>=◌, ◌>>◌, modify, send_other_pack, index,
}
use team_c.Room.Mysql.{
  good, bad, mysql_login, mysql_regist, mysql_repass, mysql_exit, mysql_find_fd_user,
}
use team_c.Room.Offline.{pro_off}

abbrev pub set_at : ℕ → ℤ → (ℕ → ℤ) → ℕ → ℤ
set_at i x a j = if j == i then x else a j

-- `for(i=0; i<100; i++)` over g, with an element of each entry.
abbrev pub all_online : ℕ → ℤ → (ℕ → Cache) → ℕ → Cache
all_online i x g j = record (g j) { use_online = set_at i x (g j).use_online }

abbrev pub all_fd : ℕ → ℤ → (ℕ → Cache) → ℕ → Cache
all_fd i x g j = record (g j) { use_fd = set_at i x (g j).use_fd }

module _ (db : Database) where
  unfoldable pub login_answer : ℤ → Pack
  login_answer ret =
      if ret ==ℤ good
      then record (db.junk 174) { type = pos 0; mes = codes "登录成功" }
      else record (db.junk 174) { type = bad }

  -- The loop over g in deal_login; the user's number is an index of its arrays. Each of the 100 rounds
  -- asks MYSQL_find_fd_user again, which changes nothing, so one answer stands for all.
  unfoldable pub note_online : ℤ → ℤ → Run db.Store (Unit {0})
  note_online account fd = elim (index account) [
    | none ↦ crash
    | some i ↦ modify λ s. record s { g = all_fd i fd (all_online i (pos 1) s.g) }
  ]

  unfoldable pub deal_login : ℤ → Pack → Run db.Store (Unit {0})
  deal_login cli_fd pack = do
    ret ← mysql_login db pack.account pack.mes cli_fd
    send_other_pack (login_answer ret) cli_fd
    pro_off pack.account cli_fd
    fd ← mysql_find_fd_user db pack.account
    note_online pack.account fd

  unfoldable pub regist_answer : ℤ → Pack
  regist_answer ret =
      if ret ==ℤ bad
      then record (db.junk 195) { type = bad }
      else record (db.junk 195) { type = pos 0; account = ret; mes = codes "注册成功" }

  unfoldable pub deal_regist : ℤ → Pack → Run db.Store (Unit {0})
  deal_regist cli_fd pack = do
    ret ← mysql_regist db pack.mes pack.mes2
    send_other_pack (regist_answer ret) cli_fd

  unfoldable pub repass_answer : ℤ → Pack
  repass_answer ret =
      if ret ==ℤ bad
      then record (db.junk 212) { type = bad }
      else record (db.junk 212) { type = pos 0; mes = codes "重置密码成功" }

  unfoldable pub deal_repass : ℤ → Pack → Run db.Store (Unit {0})
  deal_repass cli_fd pack = do
    ret ← mysql_repass db pack.account pack.mes pack.mes2
    send_other_pack (repass_answer ret) cli_fd

  -- recv_PACK where the client has closed its socket: `pack` was never written.
  unfoldable pub hang_up : Run db.Store (Unit {0})
  hang_up = do
    mysql_exit db (db.junk 62).account
    elim (index (db.junk 62).account) [
      | none ↦ crash
      | some i ↦ modify λ s. record s { g = all_online i (pos 0) s.g }
    ]
