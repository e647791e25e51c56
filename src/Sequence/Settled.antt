-- ===== src/Sequence/Settled.antt =====
-- No lost wake-up on a sequence, as long as the messages to waiting clients go out; and what a message
-- that does not go out costs.
use flom.Prelude.{
  ℕ, ◌≡◌, Bool, false, Option, none, some, List, [], ◌∷◌, arith, All, All-imp, All-append, String,
}
use flom.Prelude.Int.{ℤ, pos, ◌+ℤ◌, ◌-ℤ◌, ltb_ℤ, +ℤ_parts, -ℤ_parts}
use flom.Rsrc.Types.{Rc, Conn, Msg, lock, unlock, other_verb}
use flom.Rsrc.Env.{Env, World, IsReliable}
use flom.Rsrc.Holders.{find_conn, All-remove_conn}
use flom.Rsrc.Scan.Rules.{After, IfBlocked, IsHonest, NoFailure, units, scan-ok, scan-settled}
use flom.Rsrc.Calls.{Call, call, run, run-induction, message, closed, reply, reply_then, created}
use flom.Rsrc.Calls.Answers.{notify-reliable, forget_resource, release_msg_resource}
use flom.Rsrc.Names.{RsrcType}
use flom.Sequence.{
  Sequence, ValueLock, init, init_number, can_lock, get, fresh, take_back, hold, enqueue, new_lock,
  new_waiting, grant_waiting, try_waiting, waitings, waitings-scan, clean_found, clean, request,
  unlock_found, inmsg, methods,
}
use flom.Sequence.Slots.{locked-get, total-get}

-- Whoever waits, waits for a slot that is not there.
abbrev pub IsSettled : Sequence → Type 0
IsSettled r = All (λ (cl : ValueLock). can_lock r ≡ false) r.waitings

module _ (e : Env) (uid : ℕ) where
  try_waiting_here :
      (s : Sequence × World) (cl : ValueLock)
      → IfBlocked (λ s. can_lock s.0 ≡ false) (try_waiting e uid s cl)
  unfolding try_waiting grant_waiting
  try_waiting_here (r, w) cl = ground arith

  try_waiting_later :
      (s : Sequence × World) (a : ValueLock)
      → can_lock s.0 ≡ false
      → After (λ s. can_lock s.0 ≡ false) (try_waiting e uid s a)
  unfolding try_waiting
  try_waiting_later (r, w) a h = rw h h

  try_waiting-IsHonest : (s : Sequence × World) (cl : ValueLock) → IsHonest (try_waiting e uid s cl)
  unfolding try_waiting grant_waiting
  try_waiting-IsHonest (r, w) cl = ground arith

  waitings-IsSettled :
      (r : Sequence) (w : World)
      → (waitings e uid r w).rc ≡ Rc.ok
      → IsSettled (waitings e uid r w).resource
  unfolding can_lock
  waitings-IsSettled r w h = rw waitings-scan (
      scan-settled (try_waiting e uid) (λ _. Unit) (λ s cl. can_lock s.0 ≡ false) try_waiting_here
        (λ s a b _. try_waiting_later s a) try_waiting-IsHonest (r, w) r.waitings (units r.waitings)
        (rw waitings-scan at h))

module _ (e : Env) (reliable : IsReliable e) where
  try_waiting_fine :
      (uid : ℕ) (s : Sequence × World) (cl : ValueLock) → NoFailure (try_waiting e uid s cl)
  unfolding try_waiting grant_waiting
  try_waiting_fine uid (r, w) cl =
      ground (arith, notify-reliable e reliable cl.conn (some (e.print_uint (get r).0)) w)

  waitings-ok : (uid : ℕ) (r : Sequence) (w : World) → (waitings e uid r w).rc ≡ Rc.ok
  waitings-ok uid r w =
      rw waitings-scan (scan-ok (try_waiting e uid) (try_waiting_fine uid) (r, w) r.waitings)

  clean_found-IsSettled :
      (r : Sequence) (uid : ℕ) (c : Conn) (w : World) (o : Option ValueLock)
      → IsSettled r
      → IsSettled (clean_found e uid r c w o).resource
  unfolding clean_found can_lock
  clean_found-IsSettled r uid c w (some cl) h = waitings-IsSettled e uid _ w (waitings-ok uid _ w)
  clean_found-IsSettled r uid c w none h =
      All-remove_conn (λ (cl : ValueLock). can_lock r ≡ false) r.waitings c h

  clean-IsSettled :
      (r : Sequence) (uid : ℕ) (c : Conn) (w : World)
      → IsSettled r
      → IsSettled (clean e r uid c w).resource
  unfolding clean
  clean-IsSettled r uid c w h =
      rw forget_resource (clean_found-IsSettled r uid c w (find_conn r.holders c) h)

waitings-get : (r : Sequence) → (get r).1.waitings ≡ r.waitings
unfolding get take_back fresh
waitings-get r = ground arith

-- One slot fewer does not let anybody in.
full_stays :
    (total locked : ℤ)
    → ltb_ℤ (pos 0) (total -ℤ locked) ≡ false
    → ltb_ℤ (pos 0) (total -ℤ (locked +ℤ pos 1)) ≡ false
full_stays total locked h =
    ground
      (arith, h, +ℤ_parts locked (pos 1), -ℤ_parts total locked, -ℤ_parts total (locked +ℤ pos 1))

hold-IsSettled : (r : Sequence) (cl : ValueLock) → IsSettled r → IsSettled (hold (get r).1 cl)
unfolding can_lock
hold-IsSettled r cl h =
    rw (waitings-get, total-get, locked-get)
      (All-imp (λ (x : ValueLock). can_lock r ≡ false)
        (λ x. ltb_ℤ (pos 0) (r.total_quantity -ℤ (r.locked_quantity +ℤ pos 1)) ≡ false)
        (λ x full. full_stays r.total_quantity r.locked_quantity full) r.waitings h)

enqueue-IsSettled :
    (r : Sequence) (c : Conn)
    → can_lock r ≡ false
    → IsSettled r
    → IsSettled (enqueue r (new_waiting c))
unfolding can_lock
enqueue-IsSettled r c full h =
    All-append (λ (x : ValueLock). can_lock r ≡ false) r.waitings (new_waiting c ∷ []) h (full, tt)

unlock_found-IsSettled :
    (e : Env) (r : Sequence) (uid : ℕ) (c : Conn) (b : Bool) (w : World) (o : Option ValueLock)
    → IsReliable e
    → IsSettled r
    → IsSettled (unlock_found e r uid c b w o).resource
unfolding unlock_found can_lock
unlock_found-IsSettled e r uid c b w none reliable h = h
unlock_found-IsSettled e r uid c b w (some cl) reliable h =
    rw release_msg_resource (clean-IsSettled e reliable _ uid c w h)

inmsg-IsSettled :
    (e : Env) (r : Sequence) (uid : ℕ) (c : Conn) (msg : Msg) (w : World)
    → IsReliable e
    → IsSettled r
    → IsSettled (inmsg e r uid c msg w).resource
unfolding inmsg request reply reply_then
inmsg-IsSettled e r uid c (lock body) w reliable h =
    ground (arith, h, hold-IsSettled r (new_lock (get r).0 c) h, enqueue-IsSettled r c)
inmsg-IsSettled e r uid c (unlock body) w reliable h =
    ground (
      arith,
      h,
      unlock_found-IsSettled e r uid c body.rollback w (find_conn r.holders c) reliable h,
    )
inmsg-IsSettled e r uid c (other_verb v) w reliable h = h

abbrev pub IsReliableCall : Env × Call → Type 0
IsReliableCall (e, c) = IsReliable e

call-IsSettled :
    (s : Sequence × World) (c : Env × Call)
    → IsSettled s.0
    → IsReliableCall c
    → IsSettled (call methods s c).0
unfolding call
call-IsSettled (r, w) (e, message uid c msg) h reliable = inmsg-IsSettled e r uid c msg w reliable h
call-IsSettled (r, w) (e, closed uid c) h reliable = clean-IsSettled e reliable r uid c w h

init-IsSettled :
    (matches : RsrcType → String → Bool) (digits : String → Option (List ℕ)) (e : Env) (w : World)
    (name : String) (r : Sequence)
    → init matches digits e w name ≡ created r
    → r.waitings ≡ []
unfolding init init_number
init-IsSettled matches digits e w name r i = ground arith

-- After `flom_resource_sequence_init` and any messages and disconnections for which memory and network
-- serve: a connection waits only if no slot is free.
pub run-init-sequence-IsSettled :
    (matches : RsrcType → String → Bool) (digits : String → Option (List ℕ)) (e : Env) (w : World)
    (name : String) (r : Sequence) (cs : List (Env × Call))
    → init matches digits e w name ≡ created r
    → All IsReliableCall cs
    → IsSettled (run methods (r, w) cs).0
run-init-sequence-IsSettled matches digits e w name r cs i reliable =
    run-induction methods IsSettled IsReliableCall call-IsSettled (r, w) cs
      (rw (init-IsSettled matches digits e w name r i) tt) reliable
