-- ===== src/Client.antt =====
-- src/flom_client.c: flom_client_lock and flom_client_wait_lock, the client's side of a lock. What
-- arrives on the connection is a list, one element for each call of flom_conn_recv; at its end the client
-- still waits. The calls to memory, network and TLS, one of each, are the fields of a record.
pub mod Answers
pub mod Sound
pub mod Blunders
pub mod Ends
use flom.Prelude.{
  ℕ, zero, suc, ◌*◌, String, Bool, true, false, not, ◌&&◌, ◌||◌, ◌==◌, Option, none, some, List, [],
  ◌∷◌, if◌then◌else◌,
}
use flom.Prelude.Int.{ℤ}
use flom.Rsrc.Types.{Rc, is_ok, LockMode}
use flom.Rsrc.Env.{step_incr}
use flom.Config.{Config, is_zero}

-- What the parser makes of the bytes: struct flom_msg_s after flom_msg_deserialize.
pub record Reply : Type 0 where
  pub ready : Bool
  pub right_level : Bool
  pub is_lock : Bool
  pub step : ℕ
  pub rc : Rc
  pub element : Option String

-- flom_conn_recv fails, or it reads as many bytes, which flom_msg_deserialize takes with a code.
pub data Received : Type 0 where
  failed : Rc → Received
  read : ℕ → Rc → Reply → Received

pub record Net : Type 0 where
  pub unique_id : Bool
  pub strdup : Bool
  pub serialize : Rc
  pub send : Rc
  pub msg_free : Rc
  pub new_parser : Bool
  pub has_tls : Bool
  pub peer_name : Bool
  pub cert_check : Rc

-- The lock message.
pub record Request : Type 0 where
  pub name : Option String
  pub mode : LockMode
  pub wait : Bool
  pub quantity : ℤ
  pub create : ℤ
  pub lifespan : ℤ

unfoldable pub lock_request : Config → Request
lock_request g = record {
  name = g.resource_name;
  mode = g.lock_mode;
  wait = not (is_zero g.resource_timeout);
  quantity = g.resource_quantity;
  create = g.resource_create;
  lifespan = g.resource_idle_lifespan;
}

-- How flom_client_wait_lock ends, if it does: with an error, or with the last message.
pub data Waited : Type 0 where
  blocked : Waited
  stopped : Rc → Waited
  arrived : Reply → Waited

is_enqueued : Rc → Bool
is_enqueued Rc.lock_enqueued = true
is_enqueued _ = false

-- The end of a round, with `mba.rc`.
next_round : Rc → Reply → Waited → Waited
unfolding is_enqueued
next_round mba m rest = if is_enqueued mba then rest else arrived m

-- flom_client_wait_lock: `mba` keeps its code from one round to the next, and starts with what the stack
-- holds.
unfoldable pub wait_lock : Rc → List Received → Waited
unfolding next_round
wait_lock mba [] = blocked
wait_lock mba (failed rc ∷ rest) = stopped rc
wait_lock mba (read n parsed m ∷ rest) =
    let same = wait_lock mba rest in
    let changed = wait_lock m.rc rest in
    if not (is_ok parsed)
    then stopped parsed
    else if not m.is_lock
    then next_round mba m same
    else if m.step == 2 * step_incr
    then next_round m.rc m changed
    else if m.step == 3 * step_incr
    then next_round m.rc m changed
    else if m.step == 4 * step_incr
    then if is_ok m.rc then next_round m.rc m changed else stopped Rc.lock_cant_lock
    else stopped Rc.protocol_error

-- How flom_client_lock ends, if it does: the code, and the element that the handle has then.
pub data Locked : Type 0 where
  waiting : Locked
  returns : Rc → Option String → Locked

unfoldable pub copy : Option String → Option String → Option String
copy none old = old
copy (some s) old = some s

waited : Option String → Waited → Locked
unfolding copy
waited element blocked = waiting
waited element (stopped rc) = returns rc element
waited element (arrived m) =
    if (m.step == 3 * step_incr) || (m.step == 4 * step_incr)
    then returns Rc.ok (copy m.element element)
    else returns Rc.internal_error element

-- The switch on the code of the first answer.
unfoldable pub answered : Rc → Option String → Reply → Rc → List Received → Locked
unfolding waited
answered garbage element m Rc.ok rest = returns Rc.ok (copy m.element element)
answered garbage element m Rc.lock_enqueued rest = waited element (wait_lock garbage rest)
answered garbage element m Rc.lock_wait_resource rest = waited element (wait_lock garbage rest)
answered garbage element m Rc.lock_busy rest = returns Rc.lock_busy element
answered garbage element m Rc.lock_impossible rest = returns Rc.lock_impossible element
answered garbage element m Rc.lock_cant_wait rest = returns Rc.lock_cant_wait element
answered garbage element m _ rest = returns Rc.protocol_error element

check_peer_id : Net → Config → Option String → Locked → Locked
check_peer_id net g element go =
    if is_zero g.tls_check_peer_id
    then go
    else if not net.has_tls
    then returns Rc.no_tls_connection element
    else if not net.peer_name
    then returns Rc.null_object element
    else if is_ok net.cert_check
    then go
    else returns net.cert_check element

first_answer : Net → Config → Rc → Option String → List Received → Locked
unfolding answered check_peer_id
first_answer net g garbage element [] = waiting
first_answer net g garbage element (failed rc ∷ rest) = returns rc element
first_answer net g garbage element (read n parsed m ∷ rest) =
    if n == 0
    then returns Rc.connection_closed_by_server element
    else if not net.new_parser
    then returns Rc.g_markup_parse_context_new_error element
    else if not (is_ok parsed)
    then returns Rc.msg_deserialize_error element
    else if not m.ready
    then returns (if m.right_level then Rc.msg_deserialize_error else Rc.protocol_level_mismatch)
        element
    else if not (m.is_lock && (m.step == 2 * step_incr))
    then returns Rc.protocol_error element
    else check_peer_id net g element (answered garbage element m m.rc rest)

-- flom_client_lock
unfoldable pub client_lock : Net → Config → Rc → Option String → List Received → Locked
unfolding first_answer
client_lock net g garbage element rs =
    if not net.unique_id
    then returns Rc.null_object element
    else if not net.strdup
    then returns Rc.g_strdup_error element
    else if not (is_ok net.serialize)
    then returns net.serialize element
    else if not (is_ok net.send)
    then returns net.send element
    else if not (is_ok net.msg_free)
    then returns net.msg_free element
    else first_answer net g garbage element rs
