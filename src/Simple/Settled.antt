-- ===== src/Simple/Settled.antt =====
-- No lost wake-up: as long as the messages to waiting clients go out, nobody waits for a lock that the
-- holders would allow. One message that fails is enough to lose this.
use flom.Prelude.{
  ℕ, ◌≡◌, false, Option, none, some, List, [], ◌∷◌, String, arith, All, All-imp, All-append,
}
use flom.Rsrc.Types.{Rc, Conn, Msg, lock, unlock, other_verb, LockBody}
use flom.Rsrc.Env.{Env, World, IsReliable}
use flom.Rsrc.Holders.{find_conn, All-remove_conn}
use flom.Rsrc.Scan.Rules.{After, IfBlocked, IsHonest, NoFailure, units, scan-ok, scan-settled}
use flom.Rsrc.Calls.{Call, call, run, run-induction, message, closed, reply, created}
use flom.Rsrc.Calls.Answers.{notify-reliable, forget_resource, release_msg_resource}
use flom.Simple.{
  Simple, ModeLock, init, can_lock, hold, try_waiting, waitings, waitings-scan, clean_found, clean,
  request, inmsg, methods, new_lock,
}
use flom.Simple.Compatible.{can_lock-cons}

-- The mode that a record asks for is not to be had.
abbrev pub IsBlocked : List ModeLock → ModeLock → Type 0
IsBlocked holders cl = can_lock holders cl.info ≡ false

abbrev pub IsSettled : Simple → Type 0
IsSettled r = All (IsBlocked r.holders) r.waitings

module _ (e : Env) where
  try_waiting_here :
      (s : Simple × World) (cl : ModeLock)
      → IfBlocked (λ s. IsBlocked s.0.holders cl) (try_waiting e s cl)
  unfolding try_waiting
  try_waiting_here (r, w) cl = ground arith

  try_waiting_later :
      (s : Simple × World) (a b : ModeLock)
      → IsBlocked s.0.holders b
      → After (λ s. IsBlocked s.0.holders b) (try_waiting e s a)
  unfolding try_waiting
  try_waiting_later (r, w) a b h = ground (arith, can_lock-cons a r.holders b.info)

  try_waiting-IsHonest : (s : Simple × World) (cl : ModeLock) → IsHonest (try_waiting e s cl)
  unfolding try_waiting
  try_waiting-IsHonest (r, w) cl = ground arith

  -- Once the loop over the queue ends well, each record that is left is blocked.
  pub waitings-IsSettled :
      (r : Simple) (w : World) → (waitings e r w).rc ≡ Rc.ok → IsSettled (waitings e r w).resource
  waitings-IsSettled r w h = rw waitings-scan (
      scan-settled (try_waiting e) (λ _. Unit) (λ s cl. IsBlocked s.0.holders cl) try_waiting_here
        (λ s a b _. try_waiting_later s a b) try_waiting-IsHonest (r, w) r.waitings
        (units r.waitings) (rw waitings-scan at h))

module _ (e : Env) (reliable : IsReliable e) where
  try_waiting_fine : (s : Simple × World) (cl : ModeLock) → NoFailure (try_waiting e s cl)
  unfolding try_waiting
  try_waiting_fine (r, w) cl = ground (arith, notify-reliable e reliable cl.conn none w)

  pub waitings-ok : (r : Simple) (w : World) → (waitings e r w).rc ≡ Rc.ok
  waitings-ok r w = rw waitings-scan (scan-ok (try_waiting e) try_waiting_fine (r, w) r.waitings)

  clean_found-IsSettled :
      (r : Simple) (c : Conn) (w : World) (o : Option ModeLock)
      → IsSettled r
      → IsSettled (clean_found e r c w o).resource
  unfolding clean_found
  clean_found-IsSettled r c w (some cl) h = waitings-IsSettled e _ w (waitings-ok _ w)
  clean_found-IsSettled r c w none h = All-remove_conn (IsBlocked r.holders) r.waitings c h

  clean-IsSettled :
      (r : Simple) (uid : ℕ) (c : Conn) (w : World)
      → IsSettled r
      → IsSettled (clean e r uid c w).resource
  unfolding clean
  clean-IsSettled r uid c w h =
      rw forget_resource (clean_found-IsSettled r c w (find_conn r.holders c) h)

hold-IsSettled : (r : Simple) (cl : ModeLock) → IsSettled r → IsSettled (hold r cl)
hold-IsSettled r cl h =
    All-imp (IsBlocked r.holders) (IsBlocked (cl ∷ r.holders))
      (λ b. can_lock-cons cl r.holders b.info) r.waitings h

request-IsSettled :
    (e : Env) (r : Simple) (uid : ℕ) (c : Conn) (body : LockBody) (w : World)
    → IsSettled r
    → IsSettled (request e r uid c body w).resource
unfolding request reply
request-IsSettled e r uid c body w h =
    let cl : ModeLock = new_lock body.mode c in
    ground (
      arith,
      hold-IsSettled r cl h,
      λ (b : can_lock r.holders body.mode ≡ false).
          All-append (IsBlocked r.holders) r.waitings (cl ∷ []) h (b, tt),
    )

inmsg-IsSettled :
    (e : Env) (r : Simple) (uid : ℕ) (c : Conn) (msg : Msg) (w : World)
    → IsReliable e
    → IsSettled r
    → IsSettled (inmsg e r uid c msg w).resource
unfolding inmsg
inmsg-IsSettled e r uid c (lock body) w reliable h = request-IsSettled e r uid c body w h
inmsg-IsSettled e r uid c (unlock body) w reliable h =
    ground
      (arith, release_msg_resource e (clean e r uid c w), clean-IsSettled e reliable r uid c w h)
inmsg-IsSettled e r uid c (other_verb v) w reliable h = h

abbrev pub IsReliableCall : Env × Call → Type 0
IsReliableCall (e, c) = IsReliable e

call-IsSettled :
    (s : Simple × World) (c : Env × Call)
    → IsSettled s.0
    → IsReliableCall c
    → IsSettled (call methods s c).0
unfolding call
call-IsSettled (r, w) (e, message uid c msg) h reliable = inmsg-IsSettled e r uid c msg w reliable h
call-IsSettled (r, w) (e, closed uid c) h reliable = clean-IsSettled e reliable r uid c w h

-- After `flom_resource_simple_init` and any sequence of messages and disconnections for which memory
-- and network serve, the mode that a waiting connection asks for is blocked by some holder.
pub run-init-IsSettled :
    (e : Env) (w : World) (name : String) (r : Simple) (cs : List (Env × Call))
    → init e w name ≡ created r
    → All IsReliableCall cs
    → IsSettled (run methods (r, w) cs).0
unfolding init
run-init-IsSettled e w name r cs i reliable =
    run-induction methods IsSettled IsReliableCall call-IsSettled (r, w) cs (ground arith) reliable
