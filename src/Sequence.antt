-- ===== src/Sequence.antt =====
-- src/flom_resource_sequence.c: a resource that hands out the values of a sequence. A transactional one
-- takes values back from clients that did not commit them, and hands them out again.
pub mod Values
pub mod Release
pub mod Unique
pub mod Slots
pub mod Settled
pub mod Lost
pub mod Replies
use text.Mathlib.Text.{◌==◌ as str_eq}
use flom.Prelude.{
  ℕ, ◌+◌, ◌%◌, ◌^◌, String, Bool, true, Option, none, some, List, [], ◌∷◌, ◌++◌, if◌then◌else◌,
  false, ◌≡◌, ap, ◌==◌,
}
use flom.Prelude.Int.{ℤ, pos, ◌+ℤ◌, ◌-ℤ◌, ltb_ℤ}
use flom.Rsrc.Types.{
  Rc, is_ok, Conn, ConnLock, LockBody, UnlockBody, Msg, lock, unlock, other_verb, guint_mod,
}
use flom.Rsrc.Env.{
  Env, World, Effect, vfs_add_locker_conn, vfs_add_locker_conn_file, vfs_move_locker_conn, emit,
  notify,
}
use flom.Rsrc.Holders.{find_conn, remove_conn}
use flom.Rsrc.Scan.{Step, Scan, blocked, granted, failed, run_waitings, scan, run_waitings-scan}
use flom.Rsrc.Calls.{
  Outcome, Cleaned, Created, created, not_created, Methods, refuse, reply, reply_then, forget,
  release_msg,
}
use flom.Rsrc.Names.{RsrcType, Number, get_number, get_transactional}

abbrev pub ValueLock : Type 0
ValueLock = ConnLock ℕ

-- `rolled_back` is `none` (a NULL queue) for a sequence that is not transactional.
pub record Sequence : Type 0 where
  pub name : String
  pub total_quantity : ℤ
  pub locked_quantity : ℤ
  pub next_value : ℕ
  pub rolled_back : Option (List ℕ)
  pub holders : List ValueLock
  pub waitings : List ValueLock

-- flom_resource_sequence_can_lock
unfoldable pub can_lock : Sequence → Bool
can_lock r = ltb_ℤ (pos 0) (r.total_quantity -ℤ r.locked_quantity)

-- flom_resource_sequence_get: the oldest value that was rolled back, or else the next one, which skips
-- 0 when the counter wraps.
unfoldable pub fresh : Sequence → ℕ × Sequence
fresh r =
    let n = r.next_value in
    let n' = (n + 1) % guint_mod in
    if n == 0
    then (n', record r { next_value = (n' + 1) % guint_mod })
    else (n, record r { next_value = n' })

take_back : Sequence → Option (List ℕ) → ℕ × Sequence
take_back r none = fresh r
take_back r (some []) = fresh r
take_back r (some (v ∷ vs)) =
    let r' = record r { rolled_back = some vs } in if v == 0 then fresh r' else (v, r')

unfoldable pub get : Sequence → ℕ × Sequence
unfolding take_back
get r = take_back r r.rolled_back

-- flom_resource_sequence_init
init_number : Bool → Env → World → String → Number → Created Sequence
init_number transactional e w name (Number.number total) =
    if e.queue_new w.log
    then created (record {
      name = name;
      total_quantity = total;
      locked_quantity = pos 0;
      next_value = 1;
      rolled_back = if transactional then some [] else none;
      holders = [];
      waitings = [];
    })
    else not_created Rc.g_queue_new_error
init_number transactional e w name (Number.no_number rc) = not_created rc

unfoldable pub init :
    (RsrcType → String → Bool)
    → (String → Option (List ℕ))
    → Env
    → World
    → String
    → Created Sequence
unfolding init_number
init matches digits e w name =
    if e.strdup w.log
    then init_number (get_transactional matches name) e w name (get_number (digits name))
    else not_created Rc.g_strdup_error

-- A record that holds a value; until the client commits, its end rolls the value back.
abbrev pub new_lock : ℕ → Conn → ValueLock
new_lock v c = record { info = v; name = none; rollback = true; conn = c }

-- A record as `flom_rsrc_conn_lock_new` clears it, for the queue.
abbrev pub new_waiting : Conn → ValueLock
new_waiting c = record { info = 0; name = none; rollback = false; conn = c }

abbrev pub hold : Sequence → ValueLock → Sequence
hold r cl = record r { holders = cl ∷ r.holders; locked_quantity = r.locked_quantity +ℤ pos 1 }

abbrev pub enqueue : Sequence → ValueLock → Sequence
enqueue r cl = record r { waitings = r.waitings ++ cl ∷ [] }

-- One round of the loop of flom_resource_sequence_waitings. The value is taken before the client is
-- told, and is gone from the resource if that fails.
grant_waiting : ℕ → Sequence → ValueLock → String → Rc × World → Step (Sequence × World)
unfolding emit
grant_waiting uid r cl element (rc, w) =
    if is_ok rc
    then granted (
      hold r cl,
      emit (vfs_move_locker_conn cl.conn) (emit (vfs_add_locker_conn_file uid cl.conn element) w),
    )
    else failed rc (r, w)

unfoldable pub try_waiting : Env → ℕ → Sequence × World → ValueLock → Step (Sequence × World)
unfolding grant_waiting
try_waiting e uid (r, w) cl =
    let (v, r') = get r in
    let element = e.print_uint v in
    let cl' = record cl { info = v; rollback = true } in
    if can_lock r
    then grant_waiting uid r' cl' element (notify e cl.conn (some element) w)
    else blocked (r, w)

abbrev pub settle : Scan (Sequence × World) ValueLock → Cleaned Sequence
settle s = record {
  rc = s.rc;
  resource = record s.state.0 { waitings = s.queue };
  world = s.state.1;
}

-- flom_resource_sequence_waitings
unfoldable pub waitings : Env → ℕ → Sequence → World → Cleaned Sequence
waitings e uid r w = settle (run_waitings (try_waiting e uid) (r, w) r.waitings)

pub waitings-scan :
    (e : Env) (uid : ℕ) (r : Sequence) (w : World)
    → waitings e uid r w ≡ settle (scan (try_waiting e uid) (r, w) r.waitings)
unfolding waitings
waitings-scan e uid r w = ap settle (run_waitings-scan (try_waiting e uid) (r, w) r.waitings)

-- flom_resource_sequence_clean
push_rolled_back : Option (List ℕ) → ValueLock → Option (List ℕ)
push_rolled_back none cl = none
push_rolled_back (some vs) cl = some (if cl.rollback then vs ++ cl.info ∷ [] else vs)

unfoldable pub let_go : Sequence → Conn → ValueLock → Sequence
unfolding push_rolled_back
let_go r c cl = record r {
  rolled_back = push_rolled_back r.rolled_back cl;
  holders = remove_conn r.holders c;
  locked_quantity = r.locked_quantity -ℤ pos 1;
}

clean_found : Env → ℕ → Sequence → Conn → World → Option ValueLock → Cleaned Sequence
clean_found e uid r c w (some cl) = waitings e uid (let_go r c cl) w
clean_found e uid r c w none = record {
  rc = Rc.ok;
  resource = record r { waitings = remove_conn r.waitings c };
  world = w;
}

unfoldable pub clean : Env → Sequence → ℕ → Conn → World → Cleaned Sequence
unfolding clean_found
clean e r uid c w = forget c (clean_found e uid r c w (find_conn r.holders c))

-- The lock verb of flom_resource_sequence_inmsg.
unfoldable pub request : Env → Sequence → ℕ → Conn → LockBody → World → Outcome Sequence
request e r uid c body w =
    let freed = e.msg_free w.log in
    let room = e.try_malloc w.log in
    let (v, r') = get r in
    let no_memory = refuse Rc.g_try_malloc_error r w in
    if is_ok freed
    then if can_lock r
      then if room
        then reply_then (vfs_add_locker_conn uid c true)
            (reply e (hold r' (new_lock v c)) c Rc.ok (some (e.print_uint v)) w)
        else no_memory
      else if body.wait
      then if room
        then reply_then (vfs_add_locker_conn uid c false)
            (reply e (enqueue r (new_waiting c)) c Rc.lock_enqueued none w)
        else no_memory
      else reply e r c Rc.lock_busy none w
    else refuse freed r w

-- cl->rollback = msg->body.unlock_8.resource.rollback, for the record that flom_rsrc_conn_find finds
unfoldable pub set_rollback : Bool → Conn → List ValueLock → List ValueLock
set_rollback b c [] = []
set_rollback b c (cl ∷ rest) =
    if cl.conn == c then record cl { rollback = b } ∷ rest else cl ∷ set_rollback b c rest

-- The unlock verb: only a holder can unlock.
unlock_found : Env → Sequence → ℕ → Conn → Bool → World → Option ValueLock → Outcome Sequence
unlock_found e r uid c rollback w (some cl) =
    release_msg e (clean e (record r { holders = set_rollback rollback c r.holders }) uid c w)
unlock_found e r uid c rollback w none = refuse Rc.obj_corrupted r w

-- flom_resource_sequence_inmsg
unfoldable pub inmsg : Env → Sequence → ℕ → Conn → Msg → World → Outcome Sequence
unfolding unlock_found
inmsg e r uid c (lock body) w = request e r uid c body w
inmsg e r uid c (unlock body) w =
    if str_eq r.name body.name
    then unlock_found e r uid c body.rollback w (find_conn r.holders c)
    else refuse Rc.invalid_option r w
inmsg e r uid c (other_verb v) w = refuse Rc.protocol_error r w

abbrev pub methods : Methods Sequence
methods = record { inmsg = inmsg; clean = clean }
