-- ===== src/Daemon/Service.antt =====
-- The daemon of src/flom_daemon.c from its start on.
use flom.Prelude.{
  ℕ, zero, suc, ◌+◌, ◌<◌, ◌≡◌, ◌≢◌, ◌⊎◌, Bool, true, false, Bool-cases, inl, inr, some, List, [],
  ◌∷◌, length, get_elem?, All, arith,
}
use flom.Rsrc.Types.{Rc}
use flom.Rsrc.Names.{RsrcType}
use flom.Msg.{Bytes}
use flom.Daemon.{Client, Locker, Daemon, is_open}
use flom.Daemon.Threads.{Act, run}
use flom.Daemon.Arrays.{All-get_elem?}
use flom.Daemon.Sound.{IsSound}
use flom.Daemon.Apart.{Apart, Free}
use flom.Daemon.Sane.{Misses, IsSane}
use flom.Daemon.Runs.{run-Goes}

-- flom_accept_loop starts without connections and lockers.
abbrev pub start : Daemon
start = record { conns = []; lockers = []; last_uid = 0 }

-- The connections of a locker, imported or still in its pipe
abbrev pub charges : Locker → ℕ
charges l = length l.pipe + length l.clients

Apart-pair :
    (covers : Bytes → Bytes → Bool) (ls : List Locker) (i j : ℕ) (l n : Locker)
    → Apart covers ls
    → i < j
    → get_elem? ls i ≡ some l
    → get_elem? ls j ≡ some n
    → is_open l ≡ true
    → covers l.name n.name ≡ false
unfolding Apart
Apart-pair covers [] i j l n a h e f o = cc
Apart-pair covers (x ∷ ls) i zero l n a h e f o = absurd (omega (arith, h))
Apart-pair covers (x ∷ ls) zero (suc j) l n a h e f o =
    let same : x ≡ l = ground (arith, e) in
    let free = All-get_elem? (Free covers x) ls j n f a.0 in rw⁻¹ same (free (rw same o))
Apart-pair covers (x ∷ ls) (suc i) (suc j) l n a h e f o =
    Apart-pair covers ls i j l n a.1 (omega (arith, h)) e f o

charged-is_open : (l : Locker) → IsSound l → 0 < charges l → is_open l ≡ true
charged-is_open l v h = elim (Bool-cases l.write_open) [
  | inr shut ↦ absurd (omega (arith, (v.closed shut).0, (v.closed shut).1, h))
  | inl live ↦ elim (Bool-cases l.read_open) [
    | inr shut ↦ let no = v.closed_first shut in absurd (cc)
    | inl reads ↦ ground (arith, live, reads)
  ]
]

ℕ-zero : (n : ℕ) → (n ≡ 0) ⊎ (0 < n)
ℕ-zero n = ground arith

open_or_empty : (l : Locker) → IsSound l → (is_open l ≡ true) ⊎ (charges l ≡ 0)
open_or_empty l v = elim (ℕ-zero (charges l)) [
  | inl none_left ↦ inr none_left
  | inr busy ↦ inl (charged-is_open l v busy)
]

module _ (covers : Bytes → Bytes → Bool) (type_of : Bytes → RsrcType) (acts : List Act)
    (fine : (run covers type_of start acts).rc ≡ Rc.ok) where
  run-start-IsSane : IsSane covers type_of (run covers type_of start acts).daemon
  unfolding Apart
  run-start-IsSane =
      run-Goes covers type_of start (record { sound = tt; apart = tt; hatched = tt }) acts fine

  -- After any acts of the main thread and of the lockers, in any order, as long as no thread met an
  -- error: if a locker has a connection, imported or still in its pipe, then its resource does not cover
  -- the name of any later locker.
  pub run-start-one_locker :
      (i j : ℕ) (l n : Locker)
      → i < j
      → get_elem? (run covers type_of start acts).daemon.lockers i ≡ some l
      → get_elem? (run covers type_of start acts).daemon.lockers j ≡ some n
      → 0 < charges l
      → covers l.name n.name ≡ false
  run-start-one_locker i j l n h e f c =
      let v = run-start-IsSane in
      let lockers = (run covers type_of start acts).daemon.lockers in
      Apart-pair covers lockers i j l n v.apart h e f
        (charged-is_open l (All-get_elem? IsSound lockers i l e v.sound) c)

  -- After any acts of the main thread and of the lockers, in any order, as long as no thread met an
  -- error: a locker is open, or it has no connection, neither imported nor still in its pipe; and the main
  -- thread has written as many connections as the locker has read and the pipe still holds.
  pub run-start-drained :
      (i : ℕ) (l : Locker)
      → get_elem? (run covers type_of start acts).daemon.lockers i ≡ some l
      → ((is_open l ≡ true) ⊎ (charges l ≡ 0))
        × (l.write_sequence ≡ l.read_sequence + length l.pipe)
  run-start-drained i l e =
      let lockers = (run covers type_of start acts).daemon.lockers in
      let v = All-get_elem? IsSound lockers i l e run-start-IsSane.sound in
      (open_or_empty l v, v.counted)

  -- After any acts of the main thread and of the lockers, in any order, as long as no thread met an
  -- error: a connection that waits in the incubator for a resource with a type finds no locker for it:
  -- none that is not terminating covers its name.
  pub run-start-hatched :
      (id i : ℕ) (c : Client) (l : Locker)
      → get_elem? (run covers type_of start acts).daemon.conns id ≡ some c
      → get_elem? (run covers type_of start acts).daemon.lockers i ≡ some l
      → c.wait ≡ true
      → type_of c.wish.name ≢ RsrcType.null
      → is_open l ≡ true
      → covers l.name c.wish.name ≡ false
  run-start-hatched id i c l e f w t o =
      let d = (run covers type_of start acts).daemon in
      let all =
        All-get_elem? (λ x. All (Misses covers type_of x) d.lockers) d.conns id c e
          run-start-IsSane.hatched in
      All-get_elem? (Misses covers type_of c) d.lockers i l f all o w t
