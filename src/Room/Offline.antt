-- ===== src/Room/Offline.antt =====
-- The messages for users who are not online: the list of OFF in Code/liuting1/chatroom/server_deal.c.
pub mod Delivery
use team_c.Common.{◌∷◌, [], List, ◌++◌, if◌then◌else◌}
use team_c.Common.Int.{ℤ, ◌==ℤ◌}
use team_c.Room.Packet.{Pack}
use team_c.Room.Machine.{Database, Off, Server, Run, modify}

-- deal_group_off
abbrev pub off_of : Pack → Off
off_of pack = record {
  mes = pack.mes;
  account = pack.account;
  send_name = pack.send_name;
  send_account = pack.send_account;
  type = pack.type;
  mes2 = pack.mes2;
}

unfoldable pub deal_group_off : {S : Type 0} → Pack → Run S (Unit {0})
deal_group_off pack = modify λ s. record s { offline = s.offline ++ off_of pack ∷ [] }

module _ (db : Database) where
  -- deal_fri_off: send_name and mes2 of the node are never written.
  abbrev pub fri_off_of : Pack → Off
  fri_off_of pack = record (off_of pack) {
    send_name = (db.junk 665).send_name;
    mes2 = (db.junk 665).mes2;
  }

  unfoldable pub deal_fri_off : Pack → Run db.Store (Unit {0})
  deal_fri_off pack = modify λ s. record s { offline = s.offline ++ fri_off_of pack ∷ [] }

-- The packet that pro_off makes of a node.
abbrev pub pack_of : Off → Pack
pack_of p = record {
  type = p.type;
  account = p.account;
  send_name = p.send_name;
  send_account = p.send_account;
  mes = p.mes;
  mes2 = p.mes2;
}

abbrev pub note_sent : {S : Type 0} → ℤ → Off → Server S → Server S
note_sent fd p s = record s { sent = s.sent ++ (fd, pack_of p) ∷ [] }

-- The loop of pro_off behind the node r: the nodes of a user are sent and unlinked.
unfoldable pub unlink_sent : {S : Type 0} → ℤ → ℤ → List Off → Server S → List Off × Server S
unlink_sent send_account fd [] s = ([], s)
unlink_sent send_account fd (p ∷ rest) s =
    let found = p.send_account ==ℤ send_account in
    let r = unlink_sent send_account fd rest (if found then note_sent fd p s else s) in
    if found then r else (p ∷ r.0, r.1)

unfoldable pub pro_off : {S : Type 0} → ℤ → ℤ → Run S (Unit {0})
pro_off send_account send_cli_fd =
    modify λ s.
      let r = unlink_sent send_account send_cli_fd s.offline s in record (r.1) { offline = r.0 }
