-- ===== src/Daemon/Runs.antt =====
-- The acts of the daemon of src/flom_daemon.c and src/flom_locker.c, one after another in any order.
use flom.Prelude.{
  ℕ, suc, if-cases, ◌≡◌, refl, Bool, true, false, Option, none, some, List, [], ◌∷◌, ◌++◌,
  get_elem?, All, All-append, All-imp,
}
use flom.Rsrc.Types.{Rc, is_ok, Conn}
use flom.Rsrc.Names.{RsrcType}
use flom.Msg.{Bytes}
use flom.Daemon.{
  Wish, Client, Daemon, Calls, Done, ends, transfer, transfer_conn, check_lockers, find_locker,
  close_write, modify, start_rc, transfer_new, transfer_absent,
}
use flom.Conns.{remove_index_fast}
use flom.Daemon.Threads.{
  LockerStep, Act, accepted, requested, conn_gone, cleaned, shut, mark, clean, checked, in_locker,
  locker_step, act, run, request_of,
}
use flom.Daemon.Arrays.{
  modify-All, check_lockers-All, All-remove_index_fast, All-set, All-get_elem?,
}
use flom.Daemon.Sound.{IsSound, locker_step-IsSound, close_write-IsSound}
use flom.Daemon.Apart.{
  locker_step-IsTame, close_write-IsTame, modify-Apart, check_lockers-Apart, find_locker-OpenAt,
}
use flom.Daemon.Sane.{transfer_conn-delivered, is_ok-ok, Misses, IsSane}
use flom.Daemon.Acts.{
  asked, tame-Misses, given-IsSane, null-IsSane, absent-IsSane, waiting-IsSane, new-delivered,
}

module _ (covers : Bytes → Bytes → Bool) (type_of : Bytes → RsrcType) where
  counted-IsSane :
      (d : Daemon) (n : ℕ)
      → IsSane covers type_of d
      → IsSane covers type_of (record d { last_uid = n })
  counted-IsSane d n v = record { sound = v.sound; apart = v.apart; hatched = v.hatched }

  -- What a result that lets the main thread go on leaves
  abbrev Goes : Done → Type 0
  Goes r = r.rc ≡ Rc.ok → IsSane covers type_of r.daemon

  broken : (rc : Rc) (d : Daemon) → is_ok rc ≡ false → Goes (ends rc d)
  broken rc d bad fine = let no : is_ok rc ≡ true = rw fine refl in absurd (cc)

  module _ (k : Calls) (d : Daemon) (v : IsSane covers type_of d) (id : ℕ) (c : Client) where
    module _ (missing : find_locker covers d.lockers c.wish.name ≡ none) where
      transfer_new-Goes : Goes (transfer_new covers k (asked d id c) id c)
      unfolding transfer_new
      transfer_new-Goes =
          let base = absent-IsSane covers type_of d v id c missing in
          if-cases Goes (is_ok k.resource_init) _ _
            (λ born.
              if-cases Goes (is_ok (start_rc covers k)) _ _
                (λ begun.
                  if-cases Goes _ _ _
                    (λ well fine.
                      new-delivered covers type_of k (asked d id c) base id c missing
                        (is_ok-ok _ well) fine)
                    (λ lost. broken _ _ lost))
                (λ failed. broken _ _ failed))
            (λ unborn fine. counted-IsSane (asked d id c) (suc d.last_uid) base)

      transfer_absent-Goes : Goes (transfer_absent covers k (asked d id c) id c)
      unfolding transfer_absent
      transfer_absent-Goes =
          if-cases Goes c.wish.create _ _ (λ creates. transfer_new-Goes)
            (λ uses.
              if-cases Goes (is_ok k.reply) _ _
                (λ told.
                  if-cases Goes c.wish.wait _ _
                    (λ waits fine. waiting-IsSane covers type_of d v id c missing)
                    (λ leaves fine. absent-IsSane covers type_of d v id c missing))
                (λ lost. broken _ _ lost))

    found-Goes :
        (i : ℕ)
        → find_locker covers d.lockers c.wish.name ≡ some i
        → Goes (transfer_conn k (asked d id c) id i c)
    found-Goes i found fine = rw (transfer_conn-delivered k (asked d id c) id i c fine) (
        given-IsSane covers type_of d v id c i
          (find_locker-OpenAt covers d.lockers c.wish.name i found))

    abbrev served : Option ℕ → Done
    served found = elim found [
      | some i ↦ transfer_conn k (asked d id c) id i c
      | none ↦ transfer_absent covers k (asked d id c) id c
    ]

    abbrev by_type : RsrcType → Done
    by_type t = elim t [
      | RsrcType.null ↦ ends k.reply (asked d id c)
      | _ ↦ served (find_locker covers d.lockers c.wish.name)
    ]

    served-Goes : (o : Option ℕ) → find_locker covers d.lockers c.wish.name ≡ o → Goes (served o)
    served-Goes (some i) found = found-Goes i found
    served-Goes none missing = transfer_absent-Goes missing

    by_type-Goes : (t : RsrcType) → type_of c.wish.name ≡ t → Goes (by_type t)
    by_type-Goes RsrcType.null null = λ fine. null-IsSane covers type_of d v id c null
    by_type-Goes _ other = served-Goes (find_locker covers d.lockers c.wish.name) refl

    transfer-Goes : Goes (transfer covers type_of k (asked d id c) id c)
    unfolding transfer
    transfer-Goes = by_type-Goes (type_of c.wish.name) refl

  module _ (d : Daemon) (v : IsSane covers type_of d) where
    request_of-Goes :
        (k : Calls) (id : ℕ) (wish : Wish) (o : Option Client)
        → Goes (request_of covers type_of k d id wish o)
    unfolding request_of
    request_of-Goes k id wish none = broken _ _ refl
    request_of-Goes k id wish (some c) = transfer-Goes k d v id (record c { wish = wish })

    accepted-IsSane :
        (conn : Conn) (wish : Wish)
        → IsSane covers type_of (record d {
          conns = d.conns ++ record { conn = conn; wait = false; closed = false; wish = wish } ∷ [];
          last_uid = suc d.last_uid;
        })
    accepted-IsSane conn wish = record {
      sound = v.sound;
      apart = v.apart;
      hatched =
          All-append (λ c. All (Misses covers type_of c) d.lockers) d.conns _ v.hatched
            (
              All-imp IsSound
                  (Misses covers type_of
                    (record { conn = conn; wait = false; closed = false; wish = wish }))
                  (λ l h. λ o w t. absurd (cc)) d.lockers v.sound,
              tt,
            );
    }

    checked-IsSane :
        (close : ℕ → Bool)
        → IsSane covers type_of (record d { lockers = (check_lockers close d.lockers).1.lockers })
    checked-IsSane close = record {
      sound =
          check_lockers-All IsSound (λ l e w. close_write-IsSound l w e) close d.lockers v.sound;
      apart = check_lockers-Apart covers close d.lockers v.apart;
      hatched =
          All-imp (λ c. All (Misses covers type_of c) d.lockers)
            (λ c. All (Misses covers type_of c) (check_lockers close d.lockers).1.lockers)
            (λ c h.
              check_lockers-All (Misses covers type_of c)
                (λ l e. tame-Misses covers type_of close_write close_write-IsTame c l) close
                d.lockers h)
            d.conns v.hatched;
    }

    in_locker-IsSane :
        (i : ℕ) (s : LockerStep)
        → IsSane covers type_of (record d { lockers = modify i (locker_step s) d.lockers })
    in_locker-IsSane i s = record {
      sound =
          modify-All IsSound (locker_step s) (λ l w. locker_step-IsSound l w s) i d.lockers v.sound;
      apart = modify-Apart covers (locker_step s) (locker_step-IsTame s) i d.lockers v.apart;
      hatched =
          All-imp (λ c. All (Misses covers type_of c) d.lockers)
            (λ c. All (Misses covers type_of c) (modify i (locker_step s) d.lockers))
            (λ c h.
              modify-All (Misses covers type_of c) (locker_step s)
                (tame-Misses covers type_of (locker_step s) (locker_step-IsTame s) c) i d.lockers h)
            d.conns v.hatched;
    }

    mark-IsSane :
        (id : ℕ) (o : Option Client)
        → get_elem? d.conns id ≡ o
        → IsSane covers type_of (mark d id o)
    unfolding mark
    mark-IsSane id none e = v
    mark-IsSane id (some c) e = record {
      sound = v.sound;
      apart = v.apart;
      hatched =
          All-set (λ x. All (Misses covers type_of x) d.lockers) d.conns id (shut c)
            (All-get_elem? (λ x. All (Misses covers type_of x) d.lockers) d.conns id c e v.hatched)
            v.hatched;
    }

    clean-IsSane : (id : ℕ) (o : Option Client) → IsSane covers type_of (clean d id o)
    unfolding clean
    clean-IsSane id none = v
    clean-IsSane id (some c) = record {
      sound = v.sound;
      apart = v.apart;
      hatched =
          if-cases (All (λ x. All (Misses covers type_of x) d.lockers)) c.closed
            (remove_index_fast d.conns id) d.conns
            (λ e.
              All-remove_index_fast (λ x. All (Misses covers type_of x) d.lockers) d.conns id
                v.hatched)
            (λ e. v.hatched);
    }

    act-Goes : (a : Act) → Goes (act covers type_of d a)
    unfolding act
    act-Goes (accepted conn wish) fine = accepted-IsSane conn wish
    act-Goes (requested k id wish) fine = request_of-Goes k id wish (get_elem? d.conns id) fine
    act-Goes (conn_gone id) fine = mark-IsSane id (get_elem? d.conns id) refl
    act-Goes (cleaned id) fine = clean-IsSane id (get_elem? d.conns id)
    act-Goes (checked close) fine = checked-IsSane close
    act-Goes (in_locker i s) fine = in_locker-IsSane i s

  pub run-Goes :
      (d : Daemon) → IsSane covers type_of d → (acts : List Act) → Goes (run covers type_of d acts)
  unfolding run
  run-Goes d v [] = λ fine. v
  run-Goes d v (a ∷ rest) =
      if-cases Goes (is_ok (act covers type_of d a).rc) _ _
        (λ well. run-Goes (act covers type_of d a).daemon (act-Goes d v a (is_ok-ok _ well)) rest)
        (λ lost. broken _ _ lost)
