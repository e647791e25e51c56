-- ===== src/Set.antt =====
-- src/flom_resource_set.c: a resource that is a set of elements, which are handed out in turn, one to
-- each connection.
pub mod Search
pub mod Ownership
pub mod Places
pub mod Settled
pub mod Replies
use mathlib.Core.Option
use text.Mathlib.Text.{◌==◌ as str_eq}
use flom.Prelude.{
  ℕ, zero, suc, ◌+◌, ◌%◌, ◌==◌, String, Bool, true, false, Option, none, some, List, [], ◌∷◌, ◌++◌,
  if◌then◌else◌, ◌≡◌, ap, length, map,
}
use flom.Rsrc.Types.{Rc, is_ok, guint_mod, Conn, ConnLock, LockBody, Msg, lock, unlock, other_verb}
use flom.Rsrc.Env.{Env, World, vfs_add_locker_conn, vfs_move_locker_conn, emit, notify}
use flom.Rsrc.Holders.{remove_conn}
use flom.Rsrc.Scan.{Step, Scan, blocked, granted, failed, run_waitings, scan, run_waitings-scan}
use flom.Rsrc.Calls.{
  Outcome, Cleaned, Created, created, not_created, Methods, refuse, reply, forget, release_msg,
}

-- A record of the queue, which holds no more than the connection.
abbrev pub Waiting : Type 0
Waiting = ConnLock Unit

-- struct flom_rsrc_data_set_element_s; `none` is a NULL pointer.
pub record Element : Type 0 where
  pub name : String
  pub conn : Option Conn

pub record Set : Type 0 where
  pub name : String
  pub index : ℕ
  pub elements : List Element
  pub waitings : List Waiting

abbrev pub is_none : Option Conn → Bool
is_none none = true
is_none (some c) = false

-- NULL == rdse->conn, at a place of the array
unfoldable pub is_free : List Element → ℕ → Bool
is_free [] j = false
is_free (x ∷ xs) zero = is_none x.conn
is_free (x ∷ xs) (suc j) = is_free xs j

-- flom_resource_set_can_lock: round the array from the index on; `n` rounds are left after `i`.
unfoldable pub search : Set → ℕ → ℕ → Option ℕ
search r zero i = none
search r (suc n) i =
    let j = (i + r.index) % guint_mod % length r.elements in
    let rest = search r n (suc i) in if is_free r.elements j then some j else rest

unfoldable pub can_lock : Set → Option ℕ
can_lock r = search r (length r.elements) 0

-- flom_rsrc_get_elements; `split` is g_strsplit at the separator of set names.
abbrev pub new_element : String → Element
new_element s = record { name = s; conn = none }

-- flom_resource_set_init
init_names : Env → World → String → Option (List String) → Created Set
init_names e w name none = not_created Rc.g_strsplit_error
init_names e w name (some names) =
    if e.strdup w.log
    then if e.queue_new w.log
      then created
          (record { name = name; index = 0; elements = map new_element names; waitings = [] })
      else not_created Rc.g_queue_new_error
    else not_created Rc.g_strdup_error

unfoldable pub init : (String → Option (List String)) → Env → World → String → Created Set
unfolding init_names
init split e w name =
    if e.strdup w.log
    then if e.array_new w.log
      then init_names e w name (split name)
      else not_created Rc.g_array_new_error
    else not_created Rc.g_strdup_error

-- rdse->conn = conn
unfoldable pub assign : List Element → ℕ → Option Conn → List Element
assign [] j c = []
assign (x ∷ xs) zero c = record x { conn = c } ∷ xs
assign (x ∷ xs) (suc j) c = x ∷ assign xs j c

unfoldable pub name_at : List Element → ℕ → Option String
name_at [] j = none
name_at (x ∷ xs) zero = some x.name
name_at (x ∷ xs) (suc j) = name_at xs j

-- The connection gets the element, and the next search starts one place further on.
unfoldable pub hold : Set → ℕ → Conn → Set
hold r j c = record r {
  elements = assign r.elements j (some c);
  index = (r.index + 1) % guint_mod % length r.elements;
}

abbrev pub new_waiting : Conn → Waiting
new_waiting c = record { info = tt; name = none; rollback = false; conn = c }

abbrev pub enqueue : Set → Waiting → Set
enqueue r cl = record r { waitings = r.waitings ++ cl ∷ [] }

-- One round of the loop of flom_resource_set_waitings.
grant_waiting : Set → ℕ → Conn → Rc × World → Step (Set × World)
unfolding emit
grant_waiting r j c (rc, w) =
    if is_ok rc then granted (hold r j c, emit (vfs_move_locker_conn c) w) else failed rc (r, w)

try_element : Env → Set → World → Conn → Option ℕ → Step (Set × World)
unfolding grant_waiting
try_element e r w c none = blocked (r, w)
try_element e r w c (some j) = grant_waiting r j c (notify e c (name_at r.elements j) w)

unfoldable pub try_waiting : Env → Set × World → Waiting → Step (Set × World)
unfolding try_element
try_waiting e (r, w) cl = try_element e r w cl.conn (can_lock r)

abbrev pub settle : Scan (Set × World) Waiting → Cleaned Set
settle s = record {
  rc = s.rc;
  resource = record s.state.0 { waitings = s.queue };
  world = s.state.1;
}

-- flom_resource_set_waitings
unfoldable pub waitings : Env → Set → World → Cleaned Set
waitings e r w = settle (run_waitings (try_waiting e) (r, w) r.waitings)

pub waitings-scan :
    (e : Env) (r : Set) (w : World)
    → waitings e r w ≡ settle (scan (try_waiting e) (r, w) r.waitings)
unfolding waitings
waitings-scan e r w = ap settle (run_waitings-scan (try_waiting e) (r, w) r.waitings)

-- flom_resource_set_clean: the first element that the connection has.
is_held_by : Option Conn → Conn → Bool
is_held_by none c = false
is_held_by (some d) c = d == c

unfoldable pub find_element : List Element → Conn → Option ℕ
unfolding is_held_by
find_element [] c = none
find_element (x ∷ xs) c =
    let rest = find_element xs c in if is_held_by x.conn c then some 0 else Option.map suc rest

unfoldable pub let_go : Set → ℕ → Set
let_go r j = record r { elements = assign r.elements j none }

clean_found : Env → Set → Conn → World → Option ℕ → Cleaned Set
clean_found e r c w (some j) = waitings e (let_go r j) w
clean_found e r c w none = record {
  rc = Rc.ok;
  resource = record r { waitings = remove_conn r.waitings c };
  world = w;
}

unfoldable pub clean : Env → Set → ℕ → Conn → World → Cleaned Set
unfolding clean_found
clean e r uid c w = forget c (clean_found e r c w (find_element r.elements c))

-- The lock verb of flom_resource_set_inmsg, from the outcome of the search.
request_found : Env → Set → ℕ → Conn → Bool → World → Option ℕ → Outcome Set
unfolding emit
request_found e r uid c wait w (some j) =
    reply e (hold r j c) c Rc.ok (name_at r.elements j) (emit (vfs_add_locker_conn uid c true) w)
request_found e r uid c wait w none =
    let room = e.try_malloc w.log in
    if wait
    then if room
      then reply e (enqueue r (new_waiting c)) c Rc.lock_enqueued none
          (emit (vfs_add_locker_conn uid c false) w)
      else refuse Rc.g_try_malloc_error r w
    else reply e r c Rc.lock_busy none w

unfoldable pub request : Env → Set → ℕ → Conn → LockBody → World → Outcome Set
unfolding request_found
request e r uid c body w =
    let freed = e.msg_free w.log in
    if is_ok freed then request_found e r uid c body.wait w (can_lock r) else refuse freed r w

-- flom_resource_set_inmsg
unfoldable pub inmsg : Env → Set → ℕ → Conn → Msg → World → Outcome Set
inmsg e r uid c (lock body) w = request e r uid c body w
inmsg e r uid c (unlock body) w =
    if str_eq r.name body.name
    then release_msg e (clean e r uid c w)
    else refuse Rc.invalid_option r w
inmsg e r uid c (other_verb v) w = refuse Rc.protocol_error r w

abbrev pub methods : Methods Set
methods = record { inmsg = inmsg; clean = clean }
