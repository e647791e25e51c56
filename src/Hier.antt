-- ===== src/Hier.antt =====
-- src/flom_resource_hier.c: a resource whose names are paths; a lock on a path stands against the locks
-- on its prefixes and extensions. g_strsplit, applied behind the first separator, is an argument
-- `split`, which gives the first level and the others; it never fails. `starts` is the test for the
-- separator at the start of a name.
pub mod Tree
pub mod Entries
pub mod Compatible
pub mod Release
pub mod Exclusive
pub mod Names
pub mod Routed
pub mod Exclusion
pub mod Replies
pub mod Pruned
use text.Mathlib.Text.{◌==◌ as str_eq}
use flom.Prelude.{
  ℕ, ◌+◌, ◌*◌, String, Bool, true, false, ◌||◌, Option, none, some, List, [], ◌∷◌, ◌++◌,
  if◌then◌else◌, ◌≡◌, ap,
}
use flom.Rsrc.Types.{
  Rc, is_ok, Conn, LockMode, LockBody, UnlockBody, Msg, lock, unlock, other_verb, Answer,
}
use flom.Rsrc.Env.{
  Env, World, sent, vfs_add_locker_conn, vfs_move_locker_conn, emit, step_incr, build_answer,
  set_last_step,
}
use flom.Rsrc.Holders.{remove_conn}
use flom.Rsrc.Scan.{Step, Scan, blocked, granted, failed, run_waitings, scan, run_waitings-scan}
use flom.Rsrc.Calls.{
  Outcome, Cleaned, Created, created, not_created, Methods, refuse, reply, forget, release_msg,
}
use flom.Simple.{ModeLock}
use flom.Hier.Tree.{
  Node, Leaves, node, nil, cons, name_of, can_lock, Grown, chain, add_locker, gc, take_lock,
}

abbrev pub Split : Type 0
Split = Option String → String × List String

abbrev pub levels : Split → Option String → List String
levels split name = let (l, ls) = split name in l ∷ ls

-- The resource. Its name is `none`, a NULL, once a copy of a name has failed. `dangling` is set when a
-- lock record is released that the tree still refers to.
pub record Hier : Type 0 where
  pub name : Option String
  pub root : Node
  pub waitings : List ModeLock
  pub dangling : Bool

-- flom_resource_hier_init. A chain that went well has its first node.
init_root : Env → World → String → Leaves → Created Hier
init_root e w name nil = not_created Rc.internal_error
init_root e w name (cons root rest) =
    if e.queue_new w.log
    then created (record { name = some name; root = root; waitings = []; dangling = false })
    else not_created Rc.g_queue_new_error

init_tree : Env → String → Grown Leaves → Created Hier
unfolding init_root
init_tree e name g = if is_ok g.rc then init_root e g.world name g.tree else not_created g.rc

unfoldable pub init : Split → (String → Bool) → Env → World → String → Created Hier
unfolding init_tree
init split starts e w name =
    let (l, ls) = split (some name) in
    if starts name
    then if e.strdup w.log
      then init_tree e name (chain e l ls [] w)
      else not_created Rc.g_strdup_error
    else not_created Rc.invalid_resource_name

-- flom_resource_hier_compare_name: `true` stands for 0.
unfoldable pub compare_name : Split → (String → Bool) → Hier → String → Bool
compare_name split starts r name =
    if starts name then str_eq (split (some name)).0 (name_of r.root) else false

-- flom_resource_hier_change_name
same_name : Option String → String → Bool
same_name none name = false
same_name (some s) name = str_eq s name

unfoldable pub change_name : Env → World → Hier → String → Rc × Hier
unfolding same_name
change_name e w r name =
    if same_name r.name name
    then (Rc.ok, r)
    else if e.strdup w.log
    then (Rc.ok, record r { name = some name })
    else (Rc.g_strdup_error, record r { name = none })

abbrev pub new_lock : LockMode → Option String → Conn → ModeLock
new_lock mode name c = record { info = mode; name = name; rollback = false; conn = c }

abbrev pub enqueue : Hier → ModeLock → Hier
enqueue r cl = record r { waitings = r.waitings ++ cl ∷ [] }

-- The message to a waiting client, whose lock is in the tree already: if it does not go out, the record
-- of the lock is released, but stays in the tree.
tell : Env → Hier → Conn → World → Rc → Option Answer → Step (Hier × World)
unfolding emit set_last_step
tell e r c w rc none = failed rc (record r { dangling = true }, w)
tell e r c w rc (some a) =
    let serialized = e.serialize w.log in
    let sent_rc = e.send c w.log in
    let w' = emit (vfs_move_locker_conn c) (set_last_step c a.step (emit (sent c a) w)) in
    let freed = e.msg_free w'.log in
    if is_ok serialized
    then if is_ok sent_rc
      then if is_ok freed then granted (r, w') else failed freed (r, w')
      else failed sent_rc (record r { dangling = true }, w)
    else failed serialized (record r { dangling = true }, w)

grant_waiting : Env → Hier → Conn → Grown Node → Step (Hier × World)
unfolding tell build_answer
grant_waiting e r c g =
    let r' = record r { root = g.tree } in
    let b = build_answer e g.world.log (3 * step_incr) Rc.ok none in
    if is_ok g.rc then tell e r' c g.world b.rc b.answer else failed g.rc (r', g.world)

unfoldable pub try_waiting : Split → Env → Hier × World → ModeLock → Step (Hier × World)
unfolding grant_waiting
try_waiting split e (r, w) cl =
    let path = levels split cl.name in
    if can_lock r.root cl.info path
    then grant_waiting e r cl.conn (add_locker e path cl r.root w)
    else blocked (r, w)

abbrev pub settle : Scan (Hier × World) ModeLock → Cleaned Hier
settle s = record {
  rc = s.rc;
  resource = record s.state.0 { waitings = s.queue };
  world = s.state.1;
}

-- flom_resource_hier_waitings
unfoldable pub waitings : Split → Env → Hier → World → Cleaned Hier
waitings split e r w = settle (run_waitings (try_waiting split e) (r, w) r.waitings)

pub waitings-scan :
    (split : Split) (e : Env) (r : Hier) (w : World)
    → waitings split e r w ≡ settle (scan (try_waiting split e) (r, w) r.waitings)
unfolding waitings
waitings-scan split e r w = ap settle (run_waitings-scan (try_waiting split e) (r, w) r.waitings)

-- flom_resource_hier_clean, which takes the name of the resource for that of the lock.
clean_found : Split → Env → Hier → Conn → World → Option (ModeLock × Node) → Cleaned Hier
clean_found split e r c w (some (cl, root)) = waitings split e (record r { root = root }) w
clean_found split e r c w none = record {
  rc = Rc.ok;
  resource = record r { waitings = remove_conn r.waitings c };
  world = w;
}

-- The garbage collector runs only if the loop over the queue went well.
collect : Cleaned Hier → Cleaned Hier
collect d =
    let r = d.resource in
    if is_ok d.rc then record d { resource = record r { root = gc r.root } } else d

unfoldable pub clean : Split → Env → Hier → ℕ → Conn → World → Cleaned Hier
unfolding clean_found collect
clean split e r uid c w =
    collect (forget c (clean_found split e r c w (take_lock c (levels split r.name) r.root)))

-- The lock verb of flom_resource_hier_inmsg.
request_added : Env → Hier → ℕ → Conn → Grown Node → Outcome Hier
unfolding emit
request_added e r uid c g =
    let r' = record r { root = g.tree } in
    if is_ok g.rc
    then reply e r' c Rc.ok none (emit (vfs_add_locker_conn uid c true) g.world)
    else refuse g.rc r' g.world

unfoldable pub request : Split → Env → Hier → ℕ → Conn → LockBody → World → Outcome Hier
unfolding request_added emit
request split e r uid c body w =
    let path = levels split (some body.name) in
    let freed = e.msg_free w.log in
    let room = e.try_malloc w.log in
    let no_memory = refuse Rc.g_try_malloc_error r w in
    if e.strdup w.log
    then if is_ok freed
      then if can_lock r.root body.mode path
        then if room
          then request_added e r uid c (add_locker e path (new_lock body.mode none c) r.root w)
          else no_memory
        else if body.wait
        then if room
          then reply e (enqueue r (new_lock body.mode (some body.name) c)) c Rc.lock_enqueued none
              (emit (vfs_add_locker_conn uid c false) w)
          else no_memory
        else reply e r c Rc.lock_busy none w
      else refuse freed r w
    else refuse Rc.g_strdup_error r w

-- The unlock verb: the name of the message becomes that of the resource.
unlock_renamed : Split → Env → ℕ → Conn → World → Rc × Hier → Outcome Hier
unlock_renamed split e uid c w (rc, r) =
    if is_ok rc then release_msg e (clean split e r uid c w) else refuse rc r w

-- flom_resource_hier_inmsg
unfoldable pub inmsg : Split → (String → Bool) → Env → Hier → ℕ → Conn → Msg → World → Outcome Hier
unfolding unlock_renamed
inmsg split starts e r uid c (lock body) w = request split e r uid c body w
inmsg split starts e r uid c (unlock body) w =
    if compare_name split starts r body.name
    then unlock_renamed split e uid c w (change_name e w r body.name)
    else refuse Rc.invalid_resource_name r w
inmsg split starts e r uid c (other_verb v) w = refuse Rc.protocol_error r w

abbrev pub methods : Split → (String → Bool) → Methods Hier
methods split starts = record { inmsg = inmsg split starts; clean = clean split }
