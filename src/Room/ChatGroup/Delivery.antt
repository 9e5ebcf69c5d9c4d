-- ===== src/Room/ChatGroup/Delivery.antt =====
-- Where deal_chat_group of Code/liuting1/chatroom/server_deal.c sends a message of a group, and for
-- whom it keeps it.
use team_c.Common.{
  ℕ, zero, suc, ◌+◌, Bool, true, false, not, ◌&&◌, ◌≡◌, refl, ◌∙◌, some, List, [], ◌∷◌, ◌++◌,
  append-nil, append_assoc, Bool-cases, inl, inr, if◌then◌else◌,
}
use team_c.Common.Lists.{flat_map}
use team_c.Common.Int.{ℤ, pos, ◌==ℤ◌, ==ℤ_iff}
use team_c.Common.Text.{CStr, codes, streq}
use team_c.Room.Packet.{Pack, Change}
use team_c.Room.Machine.{Database, Cache, Off, Server, index}
use team_c.Room.Mysql.{Entry}
use team_c.Room.Mysql.Answers.{closed}
use team_c.Room.Groups.{mysql_store_group}
use team_c.Room.Offline.{off_of, deal_group_off}
use team_c.Room.ChatGroup.{
  entry_at, junk_entry, self_fd, self_name, note_read, find_self, to_member, to_members, pass_on,
  look_up_name, say_in_group, deal_chat_group,
}
use team_c.Room.ChatGroup.Fault.{change_once_frame}

-- The numbers from i on.
unfoldable pub numbers : ℕ → ℕ → List ℕ
numbers zero i = []
numbers (suc n) i = i ∷ numbers n (i + 1)

-- Whether g[i] has a member at a number, other than the one at the socket.
abbrev is_other : ℤ → Cache → ℕ → Bool
is_other fd c j = not (c.use_account j ==ℤ pos 0) && not (c.use_fd j ==ℤ fd)

abbrev copy_for : Cache → Pack → ℕ → Pack
copy_for c note j = record note { send_account = c.use_account j }

-- The packet for a member who is online, with the socket, and for one who is not.
abbrev pub sent_to : ℤ → Cache → Pack → ℕ → List (ℤ × Pack)
sent_to fd c note j =
    if is_other fd c j && (c.use_online j ==ℤ pos 1)
    then (c.use_fd j, copy_for c note j) ∷ []
    else []

abbrev pub kept_for : ℤ → Cache → Pack → ℕ → List Off
kept_for fd c note j =
    if is_other fd c j && not (c.use_online j ==ℤ pos 1)
    then off_of (copy_for c note j) ∷ []
    else []

to_member_lem :
    {S : Type 0} (fd : ℤ) (c : Cache) (note : Pack) (j : ℕ) (s : Server S)
    → to_member fd c note j s
      ≡ some (
        tt,
        record s {
          sent = s.sent ++ sent_to fd c note j;
          offline = s.offline ++ kept_for fd c note j;
        },
      )
unfolding to_member deal_group_off
to_member_lem fd c note j s = elim (Bool-cases (is_other fd c j)) [
  | inl e ↦ elim (Bool-cases (c.use_online j ==ℤ pos 1)) [
    | inl o ↦ rw (to_member, e, o, append-nil s.offline) refl
    | inr o ↦ rw (to_member, e, o, append-nil s.sent) refl
  ]
  | inr e ↦ rw (to_member, e, append-nil s.sent, append-nil s.offline) refl
]

to_members_lem :
    (S : Type 0) (n i : ℕ) (fd : ℤ) (c : Cache) (note : Pack) (s : Server S)
    → to_members n i fd c note s
      ≡ some (
        tt,
        record s {
          sent = s.sent ++ flat_map (sent_to fd c note) (numbers n i);
          offline = s.offline ++ flat_map (kept_for fd c note) (numbers n i);
        },
      )
unfolding to_members numbers
to_members_lem S zero i fd c note s = rw (append-nil s.sent, append-nil s.offline) refl
to_members_lem S (suc n) i fd c note s =
    let t : Server S = record s {
      sent = s.sent ++ sent_to fd c note i;
      offline = s.offline ++ kept_for fd c note i;
    } in
    rw (to_member_lem fd c note i s) (
      to_members_lem S n (i + 1) fd c note t
      ∙ rw
          (
            append_assoc s.sent (sent_to fd c note i) _,
            append_assoc s.offline (kept_for fd c note i) _,
          )
          refl)

find_self_frame :
    {S : Type 0} (n i : ℕ) (fd : ℤ) (group : ℕ → Entry) (behind mes : CStr) (s : Server S)
    → (x : CStr) × (k : ℕ) × (find_self n i fd group behind mes s
        ≡ some (x, record s { overruns = k }))
unfolding find_self
find_self_frame zero i fd group behind mes s = (mes, s.overruns, refl)
find_self_frame (suc n) i fd group behind mes s =
    find_self_frame n (i + 1) fd group behind
      (if self_fd group i ==ℤ fd then self_name group behind i else mes) (note_read i s)

module _ (db : Database) (fd : ℤ) where
  -- The packet of a message, with the text of the field mes.
  abbrev pub group_note : Pack → CStr → CStr → Pack
  group_note pack name mes = record (db.junk 465) {
    type = pos 15;
    account = pack.send_account;
    mes2 = pack.mes;
    send_name = name;
    mes = mes;
  }

  -- A message other than "Bye" of a user whose number is below 100 and who has sent one before, to
  -- the group of the message before, whose name is not "fail": deal_chat_group returns, whatever the
  -- database answers. For each of the 100 numbers, in order, at which g has a member with another
  -- socket than the sender, the message is sent to the socket that g has where it has the member as
  -- online, and else is put behind the messages that wait; nobody else gets it. All get the name of
  -- the group, the text in mes2, and one text in the field mes.
  pub deal_chat_group_lem :
      (i : ℕ) (pack : Pack) (s : Server db.Store)
      → index pack.account ≡ some i
      → ((s.g i).group_account ==ℤ pos 0) ≡ false
      → streq pack.mes (codes "Bye") ≡ false
      → s.group_send_account ≡ pack.send_account
      → streq s.group_send_name (codes "fail") ≡ false
      → (mes : CStr) × (t : Server db.Store) × (deal_chat_group db fd pack s ≡ some (tt, t))
        × (t.sent
            ≡ s.sent
              ++ flat_map
                  (sent_to fd (s.g i) (group_note pack s.group_send_name mes))
                  (numbers 100 0))
        × (t.offline
            ≡ s.offline
              ++ flat_map
                  (kept_for fd (s.g i) (group_note pack s.group_send_name mes))
                  (numbers 100 0))
  unfolding deal_chat_group say_in_group mysql_store_group look_up_name pass_on
  deal_chat_group_lem i pack s h entered bye same name =
      let (x, u, e) =
        change_once_frame db fd (Change.insert_chat_group pack.account pack.send_account pack.mes)
          s in
      let again : (s.group_send_account ==ℤ pack.send_account) ≡ true =
        (==ℤ_iff s.group_send_account pack.send_account).1 same in
      let stored : Server db.Store = record (closed s) { store = u } in
      let (mes, k, f) =
        find_self_frame 100 0 fd (entry_at (junk_entry db) []) (db.junk 483).send_name
          (db.junk 465).mes stored in
      let note = group_note pack s.group_send_name mes in
      (
        mes,
        record stored {
          overruns = k;
          sent = s.sent ++ flat_map (sent_to fd (s.g i) note) (numbers 100 0);
          offline = s.offline ++ flat_map (kept_for fd (s.g i) note) (numbers 100 0);
        },
        rw
            (
              deal_chat_group, h, entered, say_in_group, bye, mysql_store_group, e, look_up_name,
              again, pass_on, name, f,
            )
            (to_members_lem db.Store 100 0 fd (s.g i) note (record stored { overruns = k })),
        refl,
        refl,
      )
