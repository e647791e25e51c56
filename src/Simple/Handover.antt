-- ===== src/Simple/Handover.antt =====
-- What the end of a lock does for those who wait: flom_resource_simple_clean for a holder.
use mathlib.Core.List.{Perm, Mem, mem-cons_self, mem-cons_of_mem}
use mathlib.Core.List.Perm
use flom.Prelude.{
  ℕ, ◌≡◌, sym, ap, true, none, some, List, [], ◌∷◌, ◌++◌, arith, All, subst, String, ==_refl,
}
use flom.Rsrc.Types.{Rc, Conn}
use flom.Rsrc.Env.{Env, World, IsReliable, notify, told, emit, vfs_move_locker_conn}
use flom.Rsrc.Holders.{find_conn, remove_conn, conns_of, remove_conn-perm}
use flom.Rsrc.Scan.{granted, scan}
use flom.Rsrc.Scan.Rules.{After, Moves, units, scan-perm, scan-After, scan-granted, scan-failed}
use flom.Rsrc.Calls.{forget}
use flom.Rsrc.Calls.Answers.{notify-reliable, forget_resource}
use flom.Simple.{
  Simple, ModeLock, can_lock, hold, try_waiting, waitings, waitings-scan, settle, clean_found,
  clean,
}
use flom.Simple.Compatible.{Allows, can_lock_iff}

-- All that hold the lock or wait for it.
abbrev pub requests : Simple → List Conn
requests r = conns_of r.holders ++ conns_of r.waitings

module _ (e : Env) (reliable : IsReliable e) where
  try_waiting-Moves :
      (s : Simple × World) (cl : ModeLock)
      → Moves (λ s. conns_of s.0.holders) (λ cl. cl.conn) s cl (try_waiting e s cl)
  unfolding try_waiting
  try_waiting-Moves (r, w) cl = ground (arith, notify-reliable e reliable cl.conn none w)

  requests-waitings :
      (r : Simple) (w : World) → Perm (requests (waitings e r w).resource) (requests r)
  requests-waitings r w = rw waitings-scan (
      scan-perm (try_waiting e) (λ s. conns_of s.0.holders) (λ cl. cl.conn) try_waiting-Moves (r, w)
        r.waitings)

  -- If memory and network serve, the end of a lock takes the one request of its connection away, and
  -- every other connection still holds or waits.
  pub requests-clean :
      (r : Simple) (uid : ℕ) (c : Conn) (w : World) (cl : ModeLock)
      → find_conn r.holders c ≡ some cl
      → Perm (c ∷ requests (clean e r uid c w).resource) (requests r)
  unfolding clean
  requests-clean r uid c w cl found = rw forget_resource (
      rw (found, clean_found)
        (Perm.trans (Perm.cons c (requests-waitings _ w))
          (Perm.append_right _ (remove_conn-perm r.holders c cl found))))

  try_waiting-Mem :
      (a : ModeLock) (s : Simple × World) (cl : ModeLock)
      → Mem a s.0.holders
      → After (λ s. Mem a s.0.holders) (try_waiting e s cl)
  unfolding try_waiting
  try_waiting-Mem a (r, w) cl m =
      ground (arith, notify-reliable e reliable cl.conn none w, mem-cons_of_mem cl m)

  scan_first :
      (r : Simple) (w : World) (a : ModeLock) (rest : List ModeLock)
      → All (Allows a.info) r.holders
      → Mem a (scan (try_waiting e) (r, w) (a ∷ rest)).state.0.holders
  unfolding try_waiting emit
  scan_first r w a rest h = rw (scan-granted (try_waiting e) (r, w) (hold r a, w') a rest first) (
      scan-After (try_waiting e) (λ s. Mem a s.0.holders) (λ _. Unit)
        (λ s cl m _. try_waiting-Mem a s cl m) (hold r a, w') rest mem-cons_self (units rest))
    where
      w' : World
      w' = emit (vfs_move_locker_conn a.conn) (told a.conn none w)

      first : try_waiting e (r, w) a ≡ granted (hold r a, w')
      first =
          ground
            (arith, (can_lock_iff r.holders a.info).1 h, notify-reliable e reliable a.conn none w)

  waitings_first :
      (r : Simple) (w : World) (a : ModeLock) (rest : List ModeLock)
      → r.waitings ≡ a ∷ rest
      → All (Allows a.info) r.holders
      → Mem a (waitings e r w).resource.holders
  waitings_first r w a rest q h = rw waitings-scan (
      subst (λ q. Mem a (scan (try_waiting e) (r, w) q).state.0.holders) (sym q)
        (scan_first r w a rest h))

  -- If memory and network serve, the end of a lock gives the longest waiting client the lock, if the
  -- holders that remain allow its mode.
  clean_serves_first :
      (r : Simple) (uid : ℕ) (c : Conn) (w : World) (cl a : ModeLock) (rest : List ModeLock)
      → find_conn r.holders c ≡ some cl
      → r.waitings ≡ a ∷ rest
      → All (Allows a.info) (remove_conn r.holders c)
      → Mem a (clean e r uid c w).resource.holders
  unfolding clean
  clean_serves_first r uid c w cl a rest found q h =
      rw forget_resource (rw (found, clean_found) (waitings_first _ w a rest q h))

-- A message that does not go out ends the round with its code.
notify-broken :
    (e : Env) (c : Conn) (w : World)
    → e.serialize w.log ≡ Rc.ok
    → e.send c w.log ≡ Rc.send_error
    → notify e c none w ≡ (Rc.send_error, w)
unfolding notify
notify-broken e c w serialized broken = ground arith

module _ (e : Env) (name : String) (w : World) (a b : ModeLock) (rest : List ModeLock)
    (serialized : e.serialize w.log ≡ Rc.ok) (broken : e.send a.conn w.log ≡ Rc.send_error) where
  abbrev crowded : Simple
  crowded = record { name = name; holders = []; waitings = a ∷ b ∷ rest }

  abbrev deserted : Simple
  deserted = record { name = name; holders = []; waitings = b ∷ rest }

  waitings-broken :
      waitings e crowded w ≡ record { rc = Rc.send_error; resource = deserted; world = w }
  unfolding try_waiting can_lock
  waitings-broken = rw waitings-scan (
      ap settle (
        scan-failed (try_waiting e) (crowded, w) (crowded, w) a (b ∷ rest) Rc.send_error
          (ground (arith, notify-broken e a.conn w serialized broken))))

  -- The wake-up that is lost. The only holder ends its lock, the first client of the queue can not be
  -- told (its socket is broken, say), and the loop stops there: the next one goes on waiting for a
  -- lock that it could have, and that nobody holds.
  clean_loses_wakeup :
      (uid : ℕ) (x : ModeLock)
      → let d =
          clean e
            (record { name = name; holders = x ∷ []; waitings = a ∷ b ∷ rest })
            uid
            x.conn
            w in
        (d.rc ≡ Rc.send_error)
        × (d.resource.holders ≡ [])
        × (d.resource.waitings ≡ b ∷ rest)
        × (can_lock d.resource.holders b.info ≡ true)
  unfolding clean can_lock forget find_conn remove_conn
  clean_loses_wakeup uid x = ground (arith, waitings-broken, ==_refl x.conn)
