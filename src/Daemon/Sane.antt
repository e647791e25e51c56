-- ===== src/Daemon/Sane.antt =====
-- The invariant of the daemon of src/flom_daemon.c: its lockers, their resources, and the incubator; and
-- the scan of the incubator.
use flom.Prelude.{
  ℕ, zero, suc, ◌<◌, ◌≡◌, ◌≢◌, ◌⊎◌, refl, sym, ◌∙◌, Bool, true, false, Bool-cases, inl, inr, ◌&&◌,
  none, some, List, [], ◌∷◌, ◌++◌, append_assoc, length, length-append, get_elem?,
  get_elem?-append_length, get_elem?-length, append-nil, All, All-append, All-imp, if◌then◌else◌,
  arith,
}
use flom.Rsrc.Types.{Rc, is_ok}
use flom.Rsrc.Names.{RsrcType}
use flom.Msg.{Bytes}
use flom.Conns.{remove_index_fast, refill}
use flom.Conns.Sweep.{remove_index_fast-append, length-refill}
use flom.Daemon.{
  Client, Locker, Daemon, Calls, ends, modify, transfer_conn, is_open, sent_to, scan_incubator,
}
use flom.Daemon.Arrays.{OpenAt, modify-All, modify-All_open, sent_to-OpenAt, All-remove_index_fast}
use flom.Daemon.Sound.{IsSound, sent_to-IsSound}
use flom.Daemon.Apart.{IsTame, sent_to-IsTame, Apart, modify-Apart}

-- The daemon once a connection is written to a locker
abbrev pub delivered : Daemon → ℕ → ℕ → Client → Daemon
delivered d id n c = record d {
  lockers = modify n (sent_to c) d.lockers;
  conns = remove_index_fast d.conns id;
}

pub transfer_conn-delivered :
    (k : Calls) (d : Daemon) (id n : ℕ) (c : Client)
    → (transfer_conn k d id n c).rc ≡ Rc.ok
    → transfer_conn k d id n c ≡ ends Rc.ok (delivered d id n c)
unfolding transfer_conn
transfer_conn-delivered k d id n c fine = ground (arith, fine)

pub is_ok-ok : (rc : Rc) → is_ok rc ≡ true → rc ≡ Rc.ok
is_ok-ok rc h = ground (arith, h)

-- The invariant of the daemon
module _ (covers : Bytes → Bytes → Bool) (type_of : Bytes → RsrcType) where
  -- A connection does not wait for the resource of an open locker.
  abbrev pub Misses : Client → Locker → Type 0
  Misses c l =
      is_open l ≡ true
      → c.wait ≡ true
      → type_of c.wish.name ≢ RsrcType.null
      → covers l.name c.wish.name ≡ false

  -- While a new locker takes its connections: it is left out.
  abbrev pub MissesBut : Bytes → Client → Locker → Type 0
  MissesBut name c l = (l.name ≡ name) ⊎ Misses c l

  pub record IsSaneBut (name : Bytes) (n : ℕ) (d : Daemon) : Type 0 where
    pub sound : All IsSound d.lockers
    pub apart : Apart covers d.lockers
    pub opened : OpenAt n d.lockers
    pub hatched : All (λ c. All (MissesBut name c) d.lockers) d.conns

  pub record IsSane (d : Daemon) : Type 0 where
    pub sound : All IsSound d.lockers
    pub apart : Apart covers d.lockers
    pub hatched : All (λ c. All (Misses c) d.lockers) d.conns

  tame-MissesBut :
      (f : Locker → Locker) (tame : IsTame f) (name : Bytes) (c : Client) (l : Locker)
      → MissesBut name c l
      → MissesBut name c (f l)
  tame-MissesBut f tame name c l (inl same) = inl (tame.names l ∙ same)
  tame-MissesBut f tame name c l (inr misses) =
      inr (λ o w t. rw (tame.names l) (misses (tame.opens l o) w t))

  pub delivered-IsSaneBut :
      (d : Daemon) (id n : ℕ) (name : Bytes) (c : Client)
      → IsSaneBut name n d
      → IsSaneBut name n (delivered d id n c)
  delivered-IsSaneBut d id n name c v = record {
    sound =
        modify-All_open IsSound (sent_to c) (λ l o w. sent_to-IsSound l w c o) n d.lockers v.opened
          v.sound;
    apart = modify-Apart covers (sent_to c) (sent_to-IsTame c) n d.lockers v.apart;
    opened = sent_to-OpenAt c n d.lockers v.opened;
    hatched =
        All-imp (λ x. All (MissesBut name x) d.lockers)
          (λ x. All (MissesBut name x) (modify n (sent_to c) d.lockers))
          (λ x h.
            modify-All (MissesBut name x) (sent_to c)
              (tame-MissesBut (sent_to c) (sent_to-IsTame c) name x) n d.lockers h)
          (remove_index_fast d.conns id)
          (All-remove_index_fast (λ x. All (MissesBut name x) d.lockers) d.conns id v.hatched);
  }

  -- A connection that the scan leaves
  abbrev pub Left : Bytes → Client → Type 0
  Left name c = (c.wait && covers name c.wish.name) ≡ false

  module _ (k : Calls) (n : ℕ) (name : Bytes) (fuel : ℕ) (seen : List Client) where
    pub scan_end :
        (d : Daemon)
        → d.conns ≡ seen
        → scan_incubator covers k n (suc fuel) name (length seen) d ≡ ends Rc.ok d
    unfolding scan_incubator
    scan_end d e =
        let none_left : get_elem? d.conns (length seen) ≡ none = rw e (get_elem?-length seen) in
        ground (arith, none_left)

    module _ (rest : List Client) (c : Client) (d : Daemon) (e : d.conns ≡ seen ++ c ∷ rest) where
      here : get_elem? d.conns (length seen) ≡ some c
      here = rw e (get_elem?-append_length seen rest c)

      pub scan_skips :
          (c.wait && covers name c.wish.name) ≡ false
          → scan_incubator covers k n (suc fuel) name (length seen) d
            ≡ scan_incubator covers k n fuel name (length (seen ++ c ∷ [])) d
      unfolding scan_incubator
      scan_skips stays = ground (arith, stays, here, length-append seen (c ∷ []))

      scan-first :
          (c.wait && covers name c.wish.name) ≡ true
          → scan_incubator covers k n (suc fuel) name (length seen) d ≡ (
              let moved = transfer_conn k d (length seen) n c in
              if is_ok moved.rc
              then scan_incubator covers k n fuel name (length seen) moved.daemon
              else moved)
      unfolding scan_incubator
      scan-first goes = ground (arith, goes, here)

      pub scan-written :
          (c.wait && covers name c.wish.name) ≡ true
          → (scan_incubator covers k n (suc fuel) name (length seen) d).rc ≡ Rc.ok
          → (transfer_conn k d (length seen) n c).rc ≡ Rc.ok
      scan-written goes fine =
          let first = rw (scan-first goes) at fine in
          elim (Bool-cases (is_ok (transfer_conn k d (length seen) n c).rc)) [
            | inl well ↦ is_ok-ok _ well
            | inr broken ↦ rw broken at first
          ]

      pub scan_moves :
          (c.wait && covers name c.wish.name) ≡ true
          → (transfer_conn k d (length seen) n c).rc ≡ Rc.ok
          → scan_incubator covers k n (suc fuel) name (length seen) d
            ≡ scan_incubator covers k n fuel name (length seen) (delivered d (length seen) n c)
      scan_moves goes well =
          rw (scan-first goes) (rw (transfer_conn-delivered k d (length seen) n c well) refl)

  pub scan-keeps :
      (k : Calls) (n : ℕ) (name : Bytes) (fuel : ℕ) (seen rest : List Client) (d : Daemon)
      → d.conns ≡ seen ++ rest
      → length rest < fuel
      → All (Left name) seen
      → IsSaneBut name n d
      → let r = scan_incubator covers k n fuel name (length seen) d in
        r.rc ≡ Rc.ok → IsSaneBut name n r.daemon × All (Left name) r.daemon.conns
  unfolding scan_incubator
  scan-keeps k n name zero seen rest d e h left v fine = absurd (omega (arith, h))
  scan-keeps k n name (suc fuel) seen [] d e h left v fine =
      let whole : d.conns ≡ seen = e ∙ append-nil seen in
      rw (scan_end k n name fuel seen d whole) (v, rw whole left)
  scan-keeps k n name (suc fuel) seen (c ∷ rest) d e h left v fine =
      elim (Bool-cases (c.wait && covers name c.wish.name)) [
        | inr stays ↦ rw (scan_skips k n name fuel seen rest c d e stays) (
            scan-keeps k n name fuel (seen ++ c ∷ []) rest d
              (e ∙ sym (append_assoc seen (c ∷ []) rest)) (omega (arith, h))
              (All-append (Left name) seen (c ∷ []) left (stays, tt)) v
              (rw (scan_skips k n name fuel seen rest c d e stays) at fine))
        | inl goes ↦
            let written = scan-written k n name fuel seen rest c d e goes fine in
            let next = scan_moves k n name fuel seen rest c d e goes written in
            rw next (
              scan-keeps k n name fuel seen (refill rest) (delivered d (length seen) n c)
                (rw e (remove_index_fast-append seen rest c)) (rw length-refill (omega (arith, h)))
                left (delivered-IsSaneBut d (length seen) n name c v) (rw next at fine))
      ]
