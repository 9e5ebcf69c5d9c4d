-- ===== src/Room/ChatGroup/Fault.antt =====
-- deal_chat_group of Code/liuting1/chatroom/server_deal.c, whose search for the sender's name runs to
-- 100 over arrays of 50.
use team_c.Common.{
  ℕ, zero, suc, ◌+◌, Bool, true, false, not, ◌&&◌, ltb, ◌≡◌, refl, ◌∙◌, some, List, [],
  Option-cases, inl, inr, if◌then◌else◌, arith,
}
use team_c.Common.Int.{ℤ, pos, ◌==ℤ◌, ==ℤ_iff}
use team_c.Common.Text.{CStr, codes, streq}
use team_c.Room.Packet.{Pack, Change}
use team_c.Room.Machine.{Database, Cache, Server, Run, modify, index}
use team_c.Room.Mysql.{Entry, change_once, query_change, mysql_init, mysql_close, or_bad}
use team_c.Room.Mysql.Answers.{closed}
use team_c.Room.Groups.{mysql_store_group}
use team_c.Room.Offline.{deal_group_off}
use team_c.Room.ChatGroup.{
  entry_at, junk_entry, self_fd, self_name, note_read, find_self, to_member, to_members, pass_on,
  look_up_name, say_in_group, deal_chat_group,
}

-- The rounds that read behind the end.
rounds_behind : ℕ → ℕ → ℕ
rounds_behind zero i = 0
rounds_behind (suc n) i = (if ltb i 50 then 0 else 1) + rounds_behind n (i + 1)

-- A program returns, and adds to the reads behind the end.
abbrev Overruns : {S : Type 0} {A : Type 0} → ℕ → Run S A → Type 0
Overruns {S = S} {A = A} k p =
    (s : Server S) → (x : A) × (t : Server S) × (p s ≡ some (x, t)) × (t.overruns ≡ s.overruns + k)

find_self-Overruns :
    {S : Type 0} (n i : ℕ) (fd : ℤ) (group : ℕ → Entry) (behind mes : CStr)
    → Overruns (rounds_behind n i) (find_self {S = S} n i fd group behind mes)
unfolding find_self rounds_behind
find_self-Overruns zero i fd group behind mes s = (mes, s, refl, ground arith)
find_self-Overruns (suc n) i fd group behind mes s =
    let (x, t, e, o) =
      find_self-Overruns n (i + 1) fd group behind
        (if self_fd group i ==ℤ fd then self_name group behind i else mes) (note_read i s) in
    (x, t, e, ground (arith, o))

if-Overruns :
    {S : Type 0} (p q : Run S (Unit {0})) (b : Bool)
    → Overruns 0 p
    → Overruns 0 q
    → Overruns 0 (if b then p else q)
if-Overruns p q true h k s = h s
if-Overruns p q false h k s = k s

same-Overruns :
    {S : Type 0} (f : Server S → Server S)
    → ((s : Server S) → (f s).overruns ≡ s.overruns)
    → Overruns 0 (modify f)
same-Overruns f h s = (tt, f s, refl, h s ∙ ground arith)

to_member-Overruns :
    {S : Type 0} (fd : ℤ) (c : Cache) (pack : Pack) (i : ℕ)
    → Overruns 0 (to_member {S = S} fd c pack i)
unfolding to_member deal_group_off
to_member-Overruns fd c pack i =
    if-Overruns _ _ (not (c.use_account i ==ℤ pos 0) && not (c.use_fd i ==ℤ fd))
      (if-Overruns _ _ (c.use_online i ==ℤ pos 1) (same-Overruns _ (λ s. refl))
        (same-Overruns _ (λ s. refl)))
      (same-Overruns (λ s. s) (λ s. refl))

to_members-Overruns :
    {S : Type 0} (n i : ℕ) (fd : ℤ) (c : Cache) (pack : Pack)
    → Overruns 0 (to_members {S = S} n i fd c pack)
unfolding to_members
to_members-Overruns zero i fd c pack s = (tt, s, refl, ground arith)
to_members-Overruns (suc n) i fd c pack s =
    let (_, t, e, o) = to_member-Overruns fd c pack i s in
    let (_, u, e2, o2) = to_members-Overruns n (i + 1) fd c pack t in
    (tt, u, rw (e) e2, ground (arith, o, o2))

module _ (db : Database) (fd : ℤ) where
  pass_on-Overruns :
      (i : ℕ) (group : List Entry) (pack : Pack) (s : Server db.Store)
      → streq s.group_send_name (codes "fail") ≡ false
      → (t : Server db.Store) × (pass_on db fd i group pack s ≡ some (tt, t))
        × (t.overruns ≡ s.overruns + 50)
  unfolding pass_on rounds_behind
  pass_on-Overruns i group pack s h =
      let (mes, t, e, o) =
        find_self-Overruns 100 0 fd (entry_at (junk_entry db) group) (db.junk 483).send_name
          (db.junk 465).mes s in
      let (_, u, e2, o2) =
        to_members-Overruns 100 0 fd (s.g i)
          (record (db.junk 465) {
            type = pos 15;
            account = pack.send_account;
            mes2 = pack.mes;
            send_name = s.group_send_name;
            mes = mes;
          })
          t in
      (u, rw (pass_on, h, e) e2, ground (arith, o, o2))

  -- A statement on a connection of its own changes the tables and the connection only.
  pub change_once_frame :
      (c : Change) (s : Server db.Store)
      → (x : ℤ) × (t : db.Store) × (change_once db c s ≡ some (x, record (closed s) { store = t }))
  unfolding change_once mysql_init query_change mysql_close
  change_once_frame c s = elim (Option-cases (db.change c s.store)) [
    | inl e ↦ (or_bad false, s.store, rw (query_change, e) refl)
    | inr (t, e) ↦ (or_bad true, t, rw (query_change, e) refl)
  ]

  -- A message other than "Bye" of a user whose number is below 100 and who has sent one before, to
  -- the group of the message before, whose name is not "fail": deal_chat_group returns, and the search
  -- for the name of the sender has read behind the end of the arrays of a GROUP in 50 rounds, whatever
  -- the database answers.
  pub deal_chat_group-overruns :
      (i : ℕ) (pack : Pack) (s : Server db.Store)
      → index pack.account ≡ some i
      → ((s.g i).group_account ==ℤ pos 0) ≡ false
      → streq pack.mes (codes "Bye") ≡ false
      → s.group_send_account ≡ pack.send_account
      → streq s.group_send_name (codes "fail") ≡ false
      → (t : Server db.Store) × (deal_chat_group db fd pack s ≡ some (tt, t))
        × (t.overruns ≡ s.overruns + 50)
  unfolding deal_chat_group say_in_group mysql_store_group look_up_name
  deal_chat_group-overruns i pack s h entered bye same name =
      let (x, u, e) =
        change_once_frame (Change.insert_chat_group pack.account pack.send_account pack.mes) s in
      let again : (s.group_send_account ==ℤ pack.send_account) ≡ true =
        (==ℤ_iff s.group_send_account pack.send_account).1 same in
      let (t, r, o) = pass_on-Overruns i [] pack (record (closed s) { store = u }) name in
      (
        t,
        rw
            (
              deal_chat_group, h, entered, say_in_group, bye, mysql_store_group, e, look_up_name,
              again,
            )
            r,
        o,
      )
