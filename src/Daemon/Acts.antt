-- ===== src/Daemon/Acts.antt =====
-- flom_accept_loop_transfer of src/flom_daemon.c and the invariant of Daemon/Sane.antt.
use flom.Prelude.{
  ℕ, zero, suc, ◌≡◌, refl, Bool, true, false, inl, inr, none, List, [], ◌∷◌, ◌++◌, length, set, All,
  All-append, All-imp, arith,
}
use flom.Rsrc.Types.{Rc}
use flom.Rsrc.Names.{RsrcType}
use flom.Msg.{Bytes}
use flom.Conns.{remove_index_fast}
use flom.Daemon.{
  Client, Locker, Daemon, Calls, transfer_conn, find_locker, is_open, sent_to, scan_incubator,
  new_locker, started, waiting, modify,
}
use flom.Daemon.Arrays.{OpenAt, modify-All, modify-All_open, new-OpenAt, All-refill, All-set}
use flom.Daemon.Sound.{IsSound, sent_to-IsSound}
use flom.Daemon.Apart.{IsTame, sent_to-IsTame, modify-Apart, Apart-append, find_locker-none}
use flom.Daemon.Sane.{
  delivered, transfer_conn-delivered, Misses, MissesBut, IsSaneBut, IsSane, delivered-IsSaneBut,
  Left, scan-keeps,
}

All-both :
    {A : Type 0} (P Q R : A → Type 0)
    → ((a : A) → P a → Q a → R a)
    → (xs : List A) → All P xs
    → All Q xs
    → All R xs
All-both P Q R f [] p q = tt
All-both P Q R f (x ∷ xs) p q = (f x p.0 q.0, All-both P Q R f xs p.1 q.1)

new_locker-IsSound :
    (covers : Bytes → Bytes → Bool) (uid : ℕ) (name : Bytes) → IsSound (new_locker covers uid name)
new_locker-IsSound covers uid name = record {
  counted = refl;
  closed = λ h. (refl, refl);
  idle = λ h. refl;
  closed_first = λ h. h;
}

-- The place of the connection that is given away does not matter.
All-replaced :
    {A : Type 0} (P : A → Type 0) (xs : List A) (i : ℕ) (v : A)
    → All P xs
    → All P (remove_index_fast (set xs i v) i)
unfolding remove_index_fast
All-replaced P [] i v h = tt
All-replaced P (x ∷ xs) zero v h = All-refill P xs h.1
All-replaced P (x ∷ xs) (suc i) v h = (h.0, All-replaced P xs i v h.1)

-- The daemon once the message of the connection at a place is read
abbrev pub asked : Daemon → ℕ → Client → Daemon
asked d id c = record d { conns = set d.conns id c }

module _ (covers : Bytes → Bytes → Bool) (type_of : Bytes → RsrcType) where
  pub tame-Misses :
      (f : Locker → Locker) (tame : IsTame f) (c : Client) (l : Locker)
      → Misses covers type_of c l
      → Misses covers type_of c (f l)
  tame-Misses f tame c l misses = λ o w t. rw (tame.names l) (misses (tame.opens l o) w t)

  started-IsSaneBut :
      (d : Daemon) (name : Bytes)
      → find_locker covers d.lockers name ≡ none
      → IsSane covers type_of d
      → IsSaneBut covers type_of name (length d.lockers) (started covers d name)
  started-IsSaneBut d name missing v =
      let l = new_locker covers (suc d.last_uid) name in
      record {
        sound =
            All-append IsSound d.lockers (l ∷ []) v.sound (new_locker-IsSound covers _ name, tt);
        apart =
            Apart-append covers d.lockers l (find_locker-none covers d.lockers name missing)
              v.apart;
        opened = new-OpenAt l d.lockers refl;
        hatched =
            All-imp (λ x. All (Misses covers type_of x) d.lockers)
              (λ x. All (MissesBut covers type_of name x) (d.lockers ++ l ∷ []))
              (λ x h.
                All-append (MissesBut covers type_of name x) d.lockers (l ∷ [])
                  (All-imp (Misses covers type_of x) (MissesBut covers type_of name x)
                    (λ y m. inr m) d.lockers h)
                  (inl refl, tt))
              d.conns v.hatched;
      }

  -- Once the scan is over, the new locker has all that waited for it.
  Left-Misses :
      (name : Bytes) (c : Client)
      → Left covers type_of name c
      → (l : Locker) → MissesBut covers type_of name c l
      → Misses covers type_of c l
  Left-Misses name c left l (inl same) = λ o w t. rw same (ground (arith, left, w))
  Left-Misses name c left l (inr misses) = misses

  settled :
      (name : Bytes) (n : ℕ) (d : Daemon)
      → IsSaneBut covers type_of name n d
      → All (Left covers type_of name) d.conns
      → IsSane covers type_of d
  settled name n d v left = record {
    sound = v.sound;
    apart = v.apart;
    hatched =
        All-both (λ c. All (MissesBut covers type_of name c) d.lockers) (Left covers type_of name)
          (λ c. All (Misses covers type_of c) d.lockers)
          (λ c but gone.
            All-imp (MissesBut covers type_of name c) (Misses covers type_of c)
              (Left-Misses name c gone) d.lockers but)
          d.conns v.hatched left;
  }

  module _ (d : Daemon) (v : IsSane covers type_of d) (id : ℕ) (c : Client) where
    -- A connection that is given to an open locker
    pub given-IsSane :
        (n : ℕ) → OpenAt n d.lockers → IsSane covers type_of (delivered (asked d id c) id n c)
    given-IsSane n live = record {
      sound =
          modify-All_open IsSound (sent_to c) (λ l o w. sent_to-IsSound l w c o) n d.lockers live
            v.sound;
      apart = modify-Apart covers (sent_to c) (sent_to-IsTame c) n d.lockers v.apart;
      hatched =
          All-imp (λ x. All (Misses covers type_of x) d.lockers)
            (λ x. All (Misses covers type_of x) (modify n (sent_to c) d.lockers))
            (λ x h.
              modify-All (Misses covers type_of x) (sent_to c)
                (tame-Misses (sent_to c) (sent_to-IsTame c) x) n d.lockers h)
            (remove_index_fast (set d.conns id c) id)
            (All-replaced (λ x. All (Misses covers type_of x) d.lockers) d.conns id c v.hatched);
    }

    -- A connection that stays with the main thread
    stays-IsSane : All (Misses covers type_of c) d.lockers → IsSane covers type_of (asked d id c)
    stays-IsSane misses = record {
      sound = v.sound;
      apart = v.apart;
      hatched =
          All-set (λ x. All (Misses covers type_of x) d.lockers) d.conns id c misses v.hatched;
    }

    pub null-IsSane : type_of c.wish.name ≡ RsrcType.null → IsSane covers type_of (asked d id c)
    null-IsSane null = stays-IsSane (
        All-imp IsSound (Misses covers type_of c) (λ l h. λ o w t. absurd (t null)) d.lockers
          v.sound)

    module _ (missing : find_locker covers d.lockers c.wish.name ≡ none) where
      nobody : All (Misses covers type_of c) d.lockers
      nobody =
          All-imp (λ l. is_open l ≡ true → covers l.name c.wish.name ≡ false)
            (Misses covers type_of c) (λ l free. λ o w t. free o) d.lockers
            (find_locker-none covers d.lockers c.wish.name missing)

      pub absent-IsSane : IsSane covers type_of (asked d id c)
      absent-IsSane = stays-IsSane nobody

  pub waiting-IsSane :
      (d : Daemon) (v : IsSane covers type_of d) (id : ℕ) (c : Client)
      → find_locker covers d.lockers c.wish.name ≡ none
      → IsSane covers type_of (asked (asked d id c) id (waiting covers c))
  waiting-IsSane d v id c missing =
      stays-IsSane (asked d id c) (absent-IsSane d v id c missing) id (waiting covers c)
        (nobody d v id (waiting covers c) missing)

  -- What a locker gives that is started for a connection
  module _ (k : Calls) (d : Daemon) (v : IsSane covers type_of d) (id : ℕ) (c : Client)
      (missing : find_locker covers d.lockers c.wish.name ≡ none) where
    pub new-delivered :
        let n = length d.lockers in
        let r = transfer_conn k (started covers d c.wish.name) id n c in
        let s = scan_incubator covers k n (suc (length r.daemon.conns)) c.wish.name 0 r.daemon in
        r.rc ≡ Rc.ok → s.rc ≡ Rc.ok → IsSane covers type_of s.daemon
    new-delivered well fine =
        let name = c.wish.name in
        let n = length d.lockers in
        let next = transfer_conn-delivered k (started covers d name) id n c well in
        let r = delivered (started covers d name) id n c in
        let keeps =
          scan-keeps covers type_of k n name (suc (length r.conns)) [] r.conns r refl (omega arith)
            tt
            (delivered-IsSaneBut covers type_of (started covers d name) id n name c
              (started-IsSaneBut d name missing v))
            (rw next at fine) in
        rw next (settled name n _ keeps.0 keeps.1)
