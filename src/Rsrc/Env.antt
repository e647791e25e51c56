-- ===== src/Rsrc/Env.antt =====
-- What a resource asks of its surroundings: memory, the message functions of src/flom_msg.c, the
-- connection of src/flom_conn.h, and the notices to the virtual file system of src/flom_vfs.c.
use flom.Prelude.{
  ℕ, ◌*◌, String, Bool, true, Option, none, some, List, ◌∷◌, ◌≡◌, ◌==◌, if◌then◌else◌,
}
use flom.Rsrc.Types.{Rc, is_ok, Conn, Answer}

-- What the daemon does to the outside, newest first, and the nodes that it adds to the tree of a
-- hierarchical resource.
pub data Effect : Type 0 where
  sent : Conn → Answer → Effect
  vfs_add_locker_conn : ℕ → Conn → Bool → Effect
  vfs_add_locker_conn_file : ℕ → Conn → String → Effect
  vfs_move_locker_conn : Conn → Effect
  vfs_del_conn : Conn → Effect
  node_added : String → Effect

pub record World : Type 0 where
  pub last_step : Conn → ℕ
  pub log : List Effect

-- The outcome of each call that can fail may depend on all that happened before it.
pub record Env : Type 0 where
  pub try_malloc : List Effect → Bool
  pub strdup : List Effect → Bool
  pub queue_new : List Effect → Bool
  pub array_new : List Effect → Bool
  pub unique_id : List Effect → Bool
  pub serialize : List Effect → Rc
  pub send : Conn → List Effect → Rc
  pub msg_free : List Effect → Rc
  -- snprintf with "%u"
  pub print_uint : ℕ → String

-- Nothing fails: memory is there, and each message can be written and released.
pub record IsReliable (e : Env) : Type 0 where
  pub mallocs : (l : List Effect) → e.try_malloc l ≡ true
  pub strdups : (l : List Effect) → e.strdup l ≡ true
  pub queue_news : (l : List Effect) → e.queue_new l ≡ true
  pub array_news : (l : List Effect) → e.array_new l ≡ true
  pub unique_ids : (l : List Effect) → e.unique_id l ≡ true
  pub serializes : (l : List Effect) → e.serialize l ≡ Rc.ok
  pub sends : (c : Conn) (l : List Effect) → e.send c l ≡ Rc.ok
  pub msg_frees : (l : List Effect) → e.msg_free l ≡ Rc.ok

abbrev pub step_incr : ℕ
step_incr = 8

unfoldable pub emit : Effect → World → World
emit x w = record w { log = x ∷ w.log }

-- flom_msg_build_answer: the answer is ready exactly if the code is `ok`.
pub record Built : Type 0 where
  pub rc : Rc
  pub answer : Option Answer

abbrev ready : ℕ → Rc → Option String → Built
ready step rc element = record {
  rc = Rc.ok;
  answer = some (record { step = step; rc = rc; element = element });
}

abbrev failed : Rc → Built
failed rc = record { rc = rc; answer = none }

-- g_strdup is called for an element only.
abbrev copies : Env → List Effect → Option String → Bool
copies e l none = true
copies e l (some s) = e.strdup l

unfoldable pub build_answer : Env → List Effect → ℕ → Rc → Option String → Built
build_answer e l step rc element =
    if copies e l element
    then if step == 2 * step_incr
      then if e.unique_id l then ready step rc element else failed Rc.null_object
      else if step == 3 * step_incr
      then ready step rc element
      else if step == 4 * step_incr
      then ready step rc element
      else failed Rc.invalid_option
    else failed Rc.g_strdup_error

-- flom_conn_set_last_step
unfoldable pub set_last_step : Conn → ℕ → World → World
set_last_step c step w = record w { last_step = λ d. if c == d then step else w.last_step d }

-- The part of a `waitings` loop that tells a client of its lock: build, serialize, send, set the
-- last step, free. The code is that of the first call that fails.
transmit : Env → Conn → Answer → World → Rc × World
unfolding emit set_last_step
transmit e c a w =
    let serialized = e.serialize w.log in
    let sent_rc = e.send c w.log in
    let w' = set_last_step c a.step (emit (sent c a) w) in
    if is_ok serialized
    then if is_ok sent_rc then (e.msg_free w'.log, w') else (sent_rc, w)
    else (serialized, w)

transmit_built : Env → Conn → World → Rc → Option Answer → Rc × World
unfolding transmit
transmit_built e c w rc (some a) = transmit e c a w
transmit_built e c w rc none = (rc, w)

-- The world once a client knows of its lock.
abbrev pub told : Conn → Option String → World → World
told c element w = record {
  last_step = λ d. if c == d then 24 else w.last_step d;
  log = sent c (record { step = 24; rc = Rc.ok; element = element }) ∷ w.log;
}

unfoldable pub notify : Env → Conn → Option String → World → Rc × World
unfolding transmit_built build_answer
notify e c element w =
    let b = build_answer e w.log (3 * step_incr) Rc.ok element in transmit_built e c w b.rc b.answer
