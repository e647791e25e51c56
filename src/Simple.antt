-- ===== src/Simple.antt =====
-- src/flom_resource_simple.c: one lock in six modes, with its holders and a waiting queue.
pub mod Compatible
pub mod Exclusion
pub mod Settled
pub mod Replies
pub mod Handover
use text.Mathlib.Text.{◌==◌ as str_eq}
use flom.Prelude.{
  ℕ, String, Bool, true, Option, none, some, List, [], ◌∷◌, ◌++◌, if◌then◌else◌, false, ◌≡◌, ap,
}
use flom.Rsrc.Types.{
  Rc, is_ok, LockMode, Conn, ConnLock, LockBody, UnlockBody, Msg, lock, unlock, other_verb,
}
use flom.Rsrc.Env.{Env, World, vfs_add_locker_conn, vfs_move_locker_conn, emit, notify}
use flom.Rsrc.Holders.{find_conn, remove_conn}
use flom.Rsrc.Scan.{Step, Scan, blocked, granted, failed, run_waitings, scan, run_waitings-scan}
use flom.Rsrc.Calls.{
  Outcome, Cleaned, Created, created, not_created, Methods, refuse, reply, forget, release_msg,
}
use flom.Rsrc.Modes.{lock_table}

abbrev pub ModeLock : Type 0
ModeLock = ConnLock LockMode

pub record Simple : Type 0 where
  pub name : String
  pub holders : List ModeLock
  pub waitings : List ModeLock

-- flom_resource_simple_can_lock
unfoldable pub can_lock : List ModeLock → LockMode → Bool
can_lock [] mode = true
can_lock (cl ∷ rest) mode =
    let others = can_lock rest mode in if lock_table cl.info mode then others else false

-- flom_resource_simple_init
unfoldable pub init : Env → World → String → Created Simple
init e w name =
    if e.strdup w.log
    then if e.queue_new w.log
      then created (record { name = name; holders = []; waitings = [] })
      else not_created Rc.g_queue_new_error
    else not_created Rc.g_strdup_error

abbrev pub new_lock : LockMode → Conn → ModeLock
new_lock mode c = record { info = mode; name = none; rollback = false; conn = c }

abbrev pub hold : Simple → ModeLock → Simple
hold r cl = record r { holders = cl ∷ r.holders }

abbrev pub enqueue : Simple → ModeLock → Simple
enqueue r cl = record r { waitings = r.waitings ++ cl ∷ [] }

-- One round of the loop of flom_resource_simple_waitings, for a record that can be locked: the client
-- is told first, and holds the lock only if that went well.
grant_waiting : Simple → ModeLock → Rc × World → Step (Simple × World)
unfolding emit
grant_waiting r cl (rc, w) =
    if is_ok rc
    then granted (hold r cl, emit (vfs_move_locker_conn cl.conn) w)
    else failed rc (r, w)

unfoldable pub try_waiting : Env → Simple × World → ModeLock → Step (Simple × World)
unfolding grant_waiting
try_waiting e (r, w) cl =
    if can_lock r.holders cl.info
    then grant_waiting r cl (notify e cl.conn none w)
    else blocked (r, w)

abbrev pub settle : Scan (Simple × World) ModeLock → Cleaned Simple
settle s = record {
  rc = s.rc;
  resource = record s.state.0 { waitings = s.queue };
  world = s.state.1;
}

-- flom_resource_simple_waitings
unfoldable pub waitings : Env → Simple → World → Cleaned Simple
waitings e r w = settle (run_waitings (try_waiting e) (r, w) r.waitings)

pub waitings-scan :
    (e : Env) (r : Simple) (w : World)
    → waitings e r w ≡ settle (scan (try_waiting e) (r, w) r.waitings)
unfolding waitings
waitings-scan e r w = ap settle (run_waitings-scan (try_waiting e) (r, w) r.waitings)

-- flom_resource_simple_clean
clean_found : Env → Simple → Conn → World → Option ModeLock → Cleaned Simple
clean_found e r c w (some cl) = waitings e (record r { holders = remove_conn r.holders c }) w
clean_found e r c w none = record {
  rc = Rc.ok;
  resource = record r { waitings = remove_conn r.waitings c };
  world = w;
}

unfoldable pub clean : Env → Simple → ℕ → Conn → World → Cleaned Simple
unfolding clean_found
clean e r uid c w = forget c (clean_found e r c w (find_conn r.holders c))

-- The lock verb of flom_resource_simple_inmsg. The test is made before the message is released.
unfoldable pub request : Env → Simple → ℕ → Conn → LockBody → World → Outcome Simple
unfolding emit
request e r uid c body w =
    let can = can_lock r.holders body.mode in
    let freed = e.msg_free w.log in
    let room = e.try_malloc w.log in
    let cl = new_lock body.mode c in
    let no_memory = refuse Rc.g_try_malloc_error r w in
    if is_ok freed
    then if can
      then if room
        then reply e (hold r cl) c Rc.ok none (emit (vfs_add_locker_conn uid c true) w)
        else no_memory
      else if body.wait
      then if room
        then reply e (enqueue r cl) c Rc.lock_enqueued none
            (emit (vfs_add_locker_conn uid c false) w)
        else no_memory
      else reply e r c Rc.lock_busy none w
    else refuse freed r w

-- flom_resource_simple_inmsg
unfoldable pub inmsg : Env → Simple → ℕ → Conn → Msg → World → Outcome Simple
inmsg e r uid c (lock body) w = request e r uid c body w
inmsg e r uid c (unlock body) w =
    if str_eq r.name body.name
    then release_msg e (clean e r uid c w)
    else refuse Rc.invalid_option r w
inmsg e r uid c (other_verb v) w = refuse Rc.protocol_error r w

abbrev pub methods : Methods Simple
methods = record { inmsg = inmsg; clean = clean }
