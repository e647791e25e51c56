-- ===== src/Simple/Exclusion.antt =====
-- Mutual exclusion: whatever is called, and whatever fails on the way, the locks held at once are
-- compatible.
use flom.Prelude.{ℕ, ◌≡◌, inl, inr, Bool-cases, Option, none, some, List, String, arith, All}
use flom.Rsrc.Types.{Rc, Conn, Msg, lock, unlock, other_verb, LockBody}
use flom.Rsrc.Env.{Env, World}
use flom.Rsrc.Holders.{find_conn}
use flom.Rsrc.Scan.Rules.{After, units, scan-After}
use flom.Rsrc.Calls.{Call, call, run, run-induction, message, closed, reply, created}
use flom.Rsrc.Calls.Answers.{forget_resource, release_msg_resource}
use flom.Simple.{
  Simple, ModeLock, init, can_lock, grant_waiting, try_waiting, waitings, waitings-scan,
  clean_found, clean, request, inmsg, methods,
}
use flom.Simple.Compatible.{Allows, IsExclusive, IsExclusive-remove_conn, can_lock_iff}

grant_waiting-IsExclusive :
    (r : Simple) (cl : ModeLock) (n : Rc × World)
    → All (Allows cl.info) r.holders
    → IsExclusive r.holders
    → After (λ s. IsExclusive s.0.holders) (grant_waiting r cl n)
unfolding grant_waiting
grant_waiting-IsExclusive r cl (rc, w) a h = ground arith

try_waiting-IsExclusive :
    (e : Env) (s : Simple × World) (cl : ModeLock)
    → IsExclusive s.0.holders
    → After (λ s. IsExclusive s.0.holders) (try_waiting e s cl)
unfolding try_waiting
try_waiting-IsExclusive e (r, w) cl h = elim (Bool-cases (can_lock r.holders cl.info)) [
  | inl can ↦ rw can (grant_waiting-IsExclusive r cl _ ((can_lock_iff r.holders cl.info).0 can) h)
  | inr cannot ↦ rw cannot h
]

waitings-IsExclusive :
    (e : Env) (r : Simple) (w : World)
    → IsExclusive r.holders
    → IsExclusive (waitings e r w).resource.holders
waitings-IsExclusive e r w h = rw waitings-scan (
    scan-After (try_waiting e) (λ s. IsExclusive s.0.holders) (λ _. Unit)
      (λ s cl p _. try_waiting-IsExclusive e s cl p) (r, w) r.waitings h (units r.waitings))

clean_found-IsExclusive :
    (e : Env) (r : Simple) (c : Conn) (w : World) (o : Option ModeLock)
    → IsExclusive r.holders
    → IsExclusive (clean_found e r c w o).resource.holders
unfolding clean_found
clean_found-IsExclusive e r c w (some cl) h =
    waitings-IsExclusive e _ w (IsExclusive-remove_conn r.holders c h)
clean_found-IsExclusive e r c w none h = h

clean-IsExclusive :
    (e : Env) (r : Simple) (uid : ℕ) (c : Conn) (w : World)
    → IsExclusive r.holders
    → IsExclusive (clean e r uid c w).resource.holders
unfolding clean
clean-IsExclusive e r uid c w h =
    rw forget_resource (clean_found-IsExclusive e r c w (find_conn r.holders c) h)

request-IsExclusive :
    (e : Env) (r : Simple) (uid : ℕ) (c : Conn) (body : LockBody) (w : World)
    → IsExclusive r.holders
    → IsExclusive (request e r uid c body w).resource.holders
unfolding request reply
request-IsExclusive e r uid c body w h = ground (arith, (can_lock_iff r.holders body.mode).0)

inmsg-IsExclusive :
    (e : Env) (r : Simple) (uid : ℕ) (c : Conn) (msg : Msg) (w : World)
    → IsExclusive r.holders
    → IsExclusive (inmsg e r uid c msg w).resource.holders
unfolding inmsg
inmsg-IsExclusive e r uid c (lock body) w h = request-IsExclusive e r uid c body w h
inmsg-IsExclusive e r uid c (unlock body) w h =
    ground (arith, release_msg_resource e (clean e r uid c w), clean-IsExclusive e r uid c w h)
inmsg-IsExclusive e r uid c (other_verb v) w h = h

call-IsExclusive :
    (s : Simple × World) (c : Env × Call)
    → IsExclusive s.0.holders
    → IsExclusive (call methods s c).0.holders
unfolding call
call-IsExclusive (r, w) (e, message uid c msg) h = inmsg-IsExclusive e r uid c msg w h
call-IsExclusive (r, w) (e, closed uid c) h = clean-IsExclusive e r uid c w h

-- Mutual exclusion. After `flom_resource_simple_init`, and whatever lock, unlock and other messages and
-- disconnections follow in whatever order, with any of the calls to memory and network failing, any
-- two locks that are held are compatible by the lock table.
pub run-init-IsExclusive :
    (e : Env) (w : World) (name : String) (r : Simple) (cs : List (Env × Call))
    → init e w name ≡ created r
    → IsExclusive (run methods (r, w) cs).0.holders
unfolding init
run-init-IsExclusive e w name r cs i =
    run-induction methods (λ r. IsExclusive r.holders) (λ _. Unit)
      (λ s c h _. call-IsExclusive s c h) (r, w) cs (ground arith) (units cs)
