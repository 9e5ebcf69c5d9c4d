-- ===== src/Room/ChatGroup.antt =====
-- deal_chat_group of Code/liuting1/chatroom/server_deal.c.
pub mod Fault
pub mod Delivery
use team_c.Common.{
  ℕ, zero, suc, ◌+◌, ◌-◌, ◌==◌, ltb, Bool, true, false, not, ◌&&◌, Option, none, some, List, [],
  ◌∷◌, if◌then◌else◌,
}
use team_c.Common.Int.{ℤ, pos, ◌==ℤ◌}
use team_c.Common.Text.{CStr, codes, streq}
use team_c.Room.Packet.{Pack}
use team_c.Room.Machine.{
  Database, Cache, Server, Run, pure, crash, ◌>>=◌, ◌>>◌, modify, send_other_pack, index,
}
use team_c.Room.Mysql.{Entry, good, bad}
use team_c.Room.Groups.{
  mysql_find_group_member, mysql_group_mes, mysql_find_user, mysql_store_group, mysql_group_name,
  read_name,
}
use team_c.Room.Offline.{deal_group_off}
use team_c.Room.Account.{set_at}

abbrev pub with_cache : ℕ → Cache → (ℕ → Cache) → ℕ → Cache
with_cache i c g j = if j == i then c else g j

-- g[i].use_account, use_online and use_fd for a member.
abbrev pub cache_entry : ℕ → Entry → Cache → Cache
cache_entry k e c = record c {
  use_account = set_at k e.account c.use_account;
  use_online = set_at k e.online c.use_online;
  use_fd = set_at k e.cli_fd c.use_fd;
}

-- The loop over the members; a member's number is an index of the arrays.
unfoldable pub cache_entries : {S : Type 0} → ℕ → List Entry → Run S (Unit {0})
cache_entries i [] = pure tt
cache_entries i (e ∷ es) = elim (index e.account) [
  | none ↦ crash
  | some k ↦ do
    modify λ s. record s { g = with_cache i (cache_entry k e (s.g i)) s.g }
    cache_entries i es
]

-- The arrays of a GROUP have 50 elements; what stands behind the entries was never written.
abbrev pub entry_at : Entry → List Entry → ℕ → Entry
entry_at junk [] i = junk
entry_at junk (e ∷ es) zero = e
entry_at junk (e ∷ es) (suc i) = entry_at junk es i

-- group.cli_fd[i]: behind its 50 elements the array `flag` of the same GROUP follows.
abbrev pub self_fd : (ℕ → Entry) → ℕ → ℤ
self_fd group i = if ltb i 50 then (group i).cli_fd else (group (i - 50)).flag

-- group.name[i], with what stands behind its 50 elements.
abbrev pub self_name : (ℕ → Entry) → CStr → ℕ → CStr
self_name group behind i = if ltb i 50 then (group i).name else behind

-- A round reads the elements i.
abbrev pub note_read : {S : Type 0} → ℕ → Server S → Server S
note_read i s = record s { overruns = s.overruns + (if ltb i 50 then 0 else 1) }

-- The loop that looks for the name of the sender, with the rounds that are left: it runs to 100.
unfoldable pub find_self : {S : Type 0} → ℕ → ℕ → ℤ → (ℕ → Entry) → CStr → CStr → Run S CStr
find_self zero i cli_fd group behind mes = pure mes
find_self (suc n) i cli_fd group behind mes = do
  modify (note_read i)
  find_self n (i + 1) cli_fd group behind
      (if self_fd group i ==ℤ cli_fd then self_name group behind i else mes)

-- The packet for the member i, sent or kept.
unfoldable pub to_member : {S : Type 0} → ℤ → Cache → Pack → ℕ → Run S (Unit {0})
to_member cli_fd c send_pack i =
    if not (c.use_account i ==ℤ pos 0) && not (c.use_fd i ==ℤ cli_fd)
    then (if c.use_online i ==ℤ pos 1
        then send_other_pack (record send_pack { send_account = c.use_account i }) (c.use_fd i)
        else deal_group_off (record send_pack { send_account = c.use_account i }))
    else pure tt

unfoldable pub to_members : {S : Type 0} → ℕ → ℕ → ℤ → Cache → Pack → Run S (Unit {0})
to_members zero i cli_fd c send_pack = pure tt
to_members (suc n) i cli_fd c send_pack = do
  to_member cli_fd c send_pack i
  to_members n (i + 1) cli_fd c send_pack

module _ (db : Database) where
  abbrev pub junk_entry : Entry
  junk_entry = record {
    account = db.junk_int 433;
    name = (db.junk 433).send_name;
    online = db.junk_int 433;
    cli_fd = db.junk_int 433;
    flag = db.junk_int 433;
  }

  -- The name of the group is looked up where it is another group than before.
  unfoldable pub look_up_name : Pack → Run db.Store (Unit {0})
  look_up_name pack s =
      (if s.group_send_account ==ℤ pack.send_account then pure tt else (do
        p ← mysql_group_name db pack.send_account
        modify λ t. record t {
          group_send_name = read_name db 472 p;
          group_send_account = pack.send_account;
        }))
        s

  -- The last part: to the members in g[i], or an answer that there is no such group.
  unfoldable pub pass_on : ℤ → ℕ → List Entry → Pack → Run db.Store (Unit {0})
  pass_on cli_fd i group pack s =
      let send_pack = record (db.junk 465) {
        type = pos 15;
        account = pack.send_account;
        mes2 = pack.mes;
      } in
      (if streq s.group_send_name (codes "fail")
          then send_other_pack (record send_pack { mes = codes "查询失败或该群不存在" }) cli_fd
          else (do
            mes ←
                find_self 100 0 cli_fd (entry_at junk_entry group) (db.junk 483).send_name
                  send_pack.mes
            to_members 100 0 cli_fd (s.g i)
                (record send_pack { send_name = s.group_send_name; mes = mes })))
        s

  -- An index of the arrays of a GROUP.
  abbrev pub in_group_array : ℤ → Bool
  in_group_array (pos n) = ltb n 50
  in_group_array account = false

  unfoldable pub say_in_group : ℤ → ℕ → List Entry → Pack → Run db.Store (Unit {0})
  say_in_group cli_fd i group pack =
      if streq pack.mes (codes "Bye")
      then (if in_group_array pack.account then pure tt else crash)
      else (do
        mysql_store_group db pack.account pack.send_account pack.mes
        look_up_name pack
        pass_on cli_fd i group pack)

  abbrev pub mark_entered : ℕ → Server db.Store → Server db.Store
  mark_entered i s = record s { g = with_cache i (record (s.g i) { group_account = pos 1 }) s.g }

  -- The first message of a user.
  unfoldable pub enter_group : ℤ → ℕ → Pack → Run db.Store (Unit {0})
  enter_group cli_fd i pack = do
    ret ← mysql_find_group_member db pack.account pack.send_account
    modify (mark_entered i)
    if ret ==ℤ bad
        then send_other_pack (record pack { mes = codes "该群号不存在或你并不是该群成员" }) cli_fd
        else (do
          listed ← mysql_group_mes db pack.send_account
          group ← mysql_find_user db listed
          cache_entries i group
          say_in_group cli_fd i group pack)

  unfoldable pub deal_chat_group : ℤ → Pack → Run db.Store (Unit {0})
  deal_chat_group cli_fd pack s = elim (index pack.account) [
    | none ↦ none
    | some i ↦
        (if (s.g i).group_account ==ℤ pos 0
            then enter_group cli_fd i pack
            else say_in_group cli_fd i [] pack)
          s
  ]
