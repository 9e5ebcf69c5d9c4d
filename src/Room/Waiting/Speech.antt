-- ===== src/Room/Waiting/Speech.antt =====
-- deal_chat_group and deal_login of Code/liuting1/chatroom/server_deal.c, and the messages that wait.
use team_c.Common.{
  ℕ, zero, suc, ◌+◌, Option, none, some, List, [], ◌∷◌, false, not, ◌&&◌, ◌≡◌, refl, sym, ◌∙◌, ap,
  append-nil, if◌then◌else◌, Option-cases, Bool-cases, inl, inr, arith,
}
use team_c.Common.Int.{ℤ, pos, ◌==ℤ◌, ==ℤ_iff}
use team_c.Common.Text.{CStr, codes, streq}
use team_c.Room.Packet.{Pack}
use team_c.Room.Machine.{Database, Cache, Off, Server, Run, crash, ◌>>◌, modify, index}
use team_c.Room.Mysql.{Entry, bad}
use team_c.Room.Offline.{deal_group_off, pro_off}
use team_c.Room.Offline.Delivery.{is_for, waits_for, waits_for_others, pro_off_lem}
use team_c.Room.Account.{all_online, all_fd, note_online, deal_login}
use team_c.Room.ChatGroup.{
  with_cache, cache_entry, cache_entries, self_fd, self_name, find_self, note_read, entry_at,
  to_member, to_members, junk_entry, look_up_name, pass_on, in_group_array, say_in_group,
  mark_entered, enter_group, deal_chat_group,
}
use team_c.Room.Waiting.{Grows-same, Grows-crash, Grows-keep}
use team_c.Room.Waiting.Queries.{Calm, Calm-pure, Calm-bind, Calm-if}
use team_c.Room.Waiting.Functions.{mysql_login-Grows, mysql_find_fd_user-Grows}
use team_c.Room.Waiting.Lists.{
  mysql_find_group_member-Grows, mysql_group_name-Grows, mysql_group_mes-Grows,
  mysql_find_user-Grows, mysql_store_group-Grows,
}
use team_c.Room.Waiting.Handlers.{Calm-send}

module _ (account : ℤ) (db : Database) where
  -- A program that reads the state first.
  reading-Grows :
      {A : Type 0} (p : Server db.Store → Run db.Store A)
      → ((s : Server db.Store) → Calm account db (p s))
      → Calm account db (λ s. p s s)
  reading-Grows p h = record { from_state = λ s. (h s).from_state s }

  cached-Grows :
      (i : ℕ) (e : Entry) (k : Option ℕ) (rest : Run db.Store (Unit {0}))
      → Calm account db rest
      → Calm account db (elim k as (λ j. Run db.Store (Unit {0})) [
        | none ↦ crash
        | some j ↦ modify (λ s. record s { g = with_cache i (cache_entry j e (s.g i)) s.g }) >> rest
      ])
  cached-Grows i e none rest h = Grows-crash account db.Store
  cached-Grows i e (some j) rest h =
      Calm-bind account db (Grows-same account db.Store tt _ (λ s. refl)) λ u. h

  cache_entries-Grows : (i : ℕ) (es : List Entry) → Calm account db (cache_entries i es)
  unfolding cache_entries
  cache_entries-Grows i [] = Calm-pure account db tt
  cache_entries-Grows i (e ∷ es) =
      cached-Grows i e (index e.account) (cache_entries i es) (cache_entries-Grows i es)

  find_self-Grows :
      (n i : ℕ) (fd : ℤ) (group : ℕ → Entry) (behind mes : CStr)
      → Calm account db (find_self n i fd group behind mes)
  unfolding find_self
  find_self-Grows zero i fd group behind mes = Calm-pure account db mes
  find_self-Grows (suc n) i fd group behind mes =
      Calm-bind account db (Grows-same account db.Store tt (note_read i) (λ s. refl)) λ u.
        find_self-Grows n (i + 1) fd group behind
          (if self_fd group i ==ℤ fd then self_name group behind i else mes)

  to_member-Grows :
      (fd : ℤ) (c : Cache) (pack : Pack) (i : ℕ) → Calm account db (to_member fd c pack i)
  unfolding to_member deal_group_off
  to_member-Grows fd c pack i =
      Calm-if account db (not (c.use_account i ==ℤ pos 0) && not (c.use_fd i ==ℤ fd))
        (Calm-if account db (c.use_online i ==ℤ pos 1) (Calm-send account db _ _)
          (Grows-keep account db.Store _))
        (Calm-pure account db tt)

  to_members-Grows :
      (n i : ℕ) (fd : ℤ) (c : Cache) (pack : Pack) → Calm account db (to_members n i fd c pack)
  unfolding to_members
  to_members-Grows zero i fd c pack = Calm-pure account db tt
  to_members-Grows (suc n) i fd c pack =
      Calm-bind account db (to_member-Grows fd c pack i) λ u. to_members-Grows n (i + 1) fd c pack

  look_up_name-Grows : (pack : Pack) → Calm account db (look_up_name db pack)
  unfolding look_up_name
  look_up_name-Grows pack = reading-Grows _ λ s.
      Calm-if account db (s.group_send_account ==ℤ pack.send_account) (Calm-pure account db tt) (
        Calm-bind account db (mysql_group_name-Grows account db _)
          λ p. Grows-same account db.Store tt _ (λ t. refl))

  pass_on-Grows :
      (fd : ℤ) (i : ℕ) (group : List Entry) (pack : Pack)
      → Calm account db (pass_on db fd i group pack)
  unfolding pass_on
  pass_on-Grows fd i group pack = reading-Grows _ λ s.
      Calm-if account db (streq s.group_send_name (codes "fail")) (Calm-send account db _ fd) (
        Calm-bind account db (find_self-Grows 100 0 fd (entry_at (junk_entry db) group) _ _)
          λ mes. to_members-Grows 100 0 fd (s.g i) _)

  say_in_group-Grows :
      (fd : ℤ) (i : ℕ) (group : List Entry) (pack : Pack)
      → Calm account db (say_in_group db fd i group pack)
  unfolding say_in_group
  say_in_group-Grows fd i group pack =
      Calm-if account db (streq pack.mes (codes "Bye"))
        (Calm-if account db (in_group_array db pack.account) (Calm-pure account db tt)
          (Grows-crash account db.Store))
        (Calm-bind account db (mysql_store_group-Grows account db _ _ _)
          λ u. Calm-bind account db (look_up_name-Grows pack) λ v. pass_on-Grows fd i group pack)

  enter_group-Grows : (fd : ℤ) (i : ℕ) (pack : Pack) → Calm account db (enter_group db fd i pack)
  unfolding enter_group
  enter_group-Grows fd i pack =
      Calm-bind account db (mysql_find_group_member-Grows account db _ _) λ ret.
        Calm-bind account db (Grows-same account db.Store tt (mark_entered db i) (λ s. refl)) λ u.
          Calm-if account db (ret ==ℤ bad)
            (Calm-send account db (record pack { mes = codes "该群号不存在或你并不是该群成员" }) fd)
            (Calm-bind account db (mysql_group_mes-Grows account db pack.send_account) λ listed.
              Calm-bind account db (mysql_find_user-Grows account db listed) λ group.
                Calm-bind account db (cache_entries-Grows i group)
                  λ v. say_in_group-Grows fd i group pack)

  entered-Grows :
      (fd : ℤ) (i : ℕ) (pack : Pack)
      → Calm account db (λ s.
        (if (s.g i).group_account ==ℤ pos 0
            then enter_group db fd i pack
            else say_in_group db fd i [] pack)
          s)
  entered-Grows fd i pack = reading-Grows _ λ s.
      Calm-if account db ((s.g i).group_account ==ℤ pos 0) (enter_group-Grows fd i pack)
        (say_in_group-Grows fd i [] pack)

  pub deal_chat_group-Grows : (fd : ℤ) (pack : Pack) → Calm account db (deal_chat_group db fd pack)
  unfolding deal_chat_group
  deal_chat_group-Grows fd pack = record {
    from_state = λ s. elim (Option-cases (index pack.account)) [
      | inl e ↦ rw (deal_chat_group, e) tt
      | inr (i, e) ↦ rw (deal_chat_group, e) ((entered-Grows fd i pack).from_state s)
    ];
  }

  others_keep :
      (b : ℤ) (offs : List Off)
      → (b ==ℤ account) ≡ false
      → waits_for account (waits_for_others b offs) ≡ waits_for account offs
  others_keep b [] h = refl
  others_keep b (p ∷ offs) h = elim (Bool-cases (is_for b p)) [
    | inl e ↦ elim (Bool-cases (is_for account p)) [
      | inl e' ↦ absurd (
          ground (
            arith,
            sym h
                ∙ (==ℤ_iff b account).1
                    (sym ((==ℤ_iff p.send_account b).0 e) ∙ (==ℤ_iff p.send_account account).0 e'),
          ))
      | inr e' ↦ rw (e, e') (others_keep b offs h)
    ]
    | inr e ↦ elim (Bool-cases (is_for account p)) [
      | inl e' ↦ rw (e, e') (ap (λ l. p ∷ l) (others_keep b offs h))
      | inr e' ↦ rw (e, e') (others_keep b offs h)
    ]
  ]

  pro_off-Grows : (b fd : ℤ) → (b ==ℤ account) ≡ false → Calm account db (pro_off b fd)
  pro_off-Grows b fd h = record {
    from_state = λ s. rw (pro_off_lem b fd s) ([], others_keep b s.offline h ∙ sym (append-nil _));
  }

  noted-Grows :
      (fd : ℤ) (k : Option ℕ)
      → Calm account db (elim k as (λ j. Run db.Store (Unit {0})) [
        | none ↦ crash
        | some i ↦ modify λ s. record s { g = all_fd i fd (all_online i (pos 1) s.g) }
      ])
  noted-Grows fd none = Grows-crash account db.Store
  noted-Grows fd (some i) = Grows-same account db.Store tt _ (λ s. refl)

  pub deal_login-Grows :
      (fd : ℤ) (pack : Pack)
      → (pack.account ==ℤ account) ≡ false
      → Calm account db (deal_login db fd pack)
  unfolding deal_login note_online
  deal_login-Grows fd pack h = Calm-bind account db (mysql_login-Grows account db _ _ _) λ ret.
      Calm-bind account db (Calm-send account db _ fd) λ u.
        Calm-bind account db (pro_off-Grows pack.account fd h) λ v.
          Calm-bind account db (mysql_find_fd_user-Grows account db pack.account)
            λ f. noted-Grows f (index pack.account)
