-- ===== src/Numeric.antt =====
-- src/flom_resource_numeric.c: a quantity that is shared out. Quantities are integers without a bound;
-- Numeric/Accounting.antt shows when they stay within the quantity of the resource.
pub mod Accounting
pub mod Bounds
pub mod Replies
pub mod Settled
pub mod Overcommit
use text.Mathlib.Text.{◌==◌ as str_eq}
use flom.Prelude.{
  ℕ, String, Bool, true, Option, none, some, List, [], ◌∷◌, ◌++◌, if◌then◌else◌, false, ◌≡◌, ap,
}
use flom.Prelude.Int.{ℤ, pos, ◌+ℤ◌, ◌-ℤ◌, leb_ℤ, ltb_ℤ}
use flom.Rsrc.Types.{Rc, is_ok, Conn, ConnLock, LockBody, UnlockBody, Msg, lock, unlock, other_verb}
use flom.Rsrc.Env.{Env, World, vfs_add_locker_conn, vfs_move_locker_conn, emit, notify}
use flom.Rsrc.Holders.{find_conn, remove_conn}
use flom.Rsrc.Scan.{Step, Scan, blocked, granted, failed, run_waitings, scan, run_waitings-scan}
use flom.Rsrc.Calls.{
  Outcome, Cleaned, Created, created, not_created, Methods, refuse, reply, forget, release_msg,
}
use flom.Rsrc.Names.{Number, get_number}

abbrev pub QuantityLock : Type 0
QuantityLock = ConnLock ℤ

pub record Numeric : Type 0 where
  pub name : String
  pub total_quantity : ℤ
  pub locked_quantity : ℤ
  pub holders : List QuantityLock
  pub waitings : List QuantityLock

-- flom_resource_numeric_can_lock
unfoldable pub can_lock : Numeric → ℤ → Bool
can_lock r quantity = leb_ℤ quantity (r.total_quantity -ℤ r.locked_quantity)

-- flom_resource_numeric_init; `digits` is what the regular expression of src/flom_rsrc.c finds of the
-- number in a name.
init_number : Env → World → String → Number → Created Numeric
init_number e w name (Number.number total) =
    if e.queue_new w.log
    then created (record {
      name = name;
      total_quantity = total;
      locked_quantity = pos 0;
      holders = [];
      waitings = [];
    })
    else not_created Rc.g_queue_new_error
init_number e w name (Number.no_number rc) = not_created rc

unfoldable pub init : (String → Option (List ℕ)) → Env → World → String → Created Numeric
unfolding init_number
init digits e w name =
    if e.strdup w.log
    then init_number e w name (get_number (digits name))
    else not_created Rc.g_strdup_error

abbrev pub new_lock : ℤ → Conn → QuantityLock
new_lock q c = record { info = q; name = none; rollback = false; conn = c }

unfoldable pub hold : Numeric → QuantityLock → Numeric
hold r cl = record r { holders = cl ∷ r.holders; locked_quantity = r.locked_quantity +ℤ cl.info }

abbrev pub enqueue : Numeric → QuantityLock → Numeric
enqueue r cl = record r { waitings = r.waitings ++ cl ∷ [] }

-- One round of the loop of flom_resource_numeric_waitings.
grant_waiting : Numeric → QuantityLock → Rc × World → Step (Numeric × World)
unfolding emit
grant_waiting r cl (rc, w) =
    if is_ok rc
    then granted (hold r cl, emit (vfs_move_locker_conn cl.conn) w)
    else failed rc (r, w)

unfoldable pub try_waiting : Env → Numeric × World → QuantityLock → Step (Numeric × World)
unfolding grant_waiting
try_waiting e (r, w) cl =
    if can_lock r cl.info then grant_waiting r cl (notify e cl.conn none w) else blocked (r, w)

abbrev pub settle : Scan (Numeric × World) QuantityLock → Cleaned Numeric
settle s = record {
  rc = s.rc;
  resource = record s.state.0 { waitings = s.queue };
  world = s.state.1;
}

-- flom_resource_numeric_waitings
unfoldable pub waitings : Env → Numeric → World → Cleaned Numeric
waitings e r w = settle (run_waitings (try_waiting e) (r, w) r.waitings)

pub waitings-scan :
    (e : Env) (r : Numeric) (w : World)
    → waitings e r w ≡ settle (scan (try_waiting e) (r, w) r.waitings)
unfolding waitings
waitings-scan e r w = ap settle (run_waitings-scan (try_waiting e) (r, w) r.waitings)

-- flom_resource_numeric_clean
unfoldable pub let_go : Numeric → Conn → QuantityLock → Numeric
let_go r c cl = record r {
  holders = remove_conn r.holders c;
  locked_quantity = r.locked_quantity -ℤ cl.info;
}

clean_found : Env → Numeric → Conn → World → Option QuantityLock → Cleaned Numeric
clean_found e r c w (some cl) = waitings e (let_go r c cl) w
clean_found e r c w none = record {
  rc = Rc.ok;
  resource = record r { waitings = remove_conn r.waitings c };
  world = w;
}

unfoldable pub clean : Env → Numeric → ℕ → Conn → World → Cleaned Numeric
unfolding clean_found
clean e r uid c w = forget c (clean_found e r c w (find_conn r.holders c))

-- The lock verb of flom_resource_numeric_inmsg: a request for more than there is can not wait.
unfoldable pub request : Env → Numeric → ℕ → Conn → LockBody → World → Outcome Numeric
unfolding emit
request e r uid c body w =
    let can = can_lock r body.quantity in
    let impossible = ltb_ℤ r.total_quantity body.quantity in
    let can_wait = if impossible then false else body.wait in
    let freed = e.msg_free w.log in
    let room = e.try_malloc w.log in
    let cl = new_lock body.quantity c in
    let no_memory = refuse Rc.g_try_malloc_error r w in
    if is_ok freed
    then if can
      then if room
        then reply e (hold r cl) c Rc.ok none (emit (vfs_add_locker_conn uid c true) w)
        else no_memory
      else if can_wait
      then if room
        then reply e (enqueue r cl) c Rc.lock_enqueued none
            (emit (vfs_add_locker_conn uid c false) w)
        else no_memory
      else reply e r c (if impossible then Rc.lock_impossible else Rc.lock_busy) none w
    else refuse freed r w

-- flom_resource_numeric_inmsg
unfoldable pub inmsg : Env → Numeric → ℕ → Conn → Msg → World → Outcome Numeric
inmsg e r uid c (lock body) w = request e r uid c body w
inmsg e r uid c (unlock body) w =
    if str_eq r.name body.name
    then release_msg e (clean e r uid c w)
    else refuse Rc.invalid_option r w
inmsg e r uid c (other_verb v) w = refuse Rc.protocol_error r w

abbrev pub methods : Methods Numeric
methods = record { inmsg = inmsg; clean = clean }
