-- ===== src/Msg.antt =====
-- src/flom_msg.h and src/flom_msg.c: the messages of the protocol. Msg/Write has their serialization,
-- Msg/Read the callbacks of the XML parser. Strings are lists of bytes.
pub mod Numbers
pub mod Write
pub mod Read
pub mod Content
pub mod Length
pub mod Round
pub mod Levels
use flom.Prelude.{
  ℕ, Bool, true, false, ◌==◌, ◌&&◌, ◌||◌, not, Option, none, some, List, [], ◌∷◌, ◌++◌,
  if◌then◌else◌,
}
use flom.Prelude.Int.{ℤ, pos, negsuc}
use flom.Rsrc.Types.{Rc}

abbrev pub Bytes : Type 0
Bytes = List ℕ

-- flom_msg_state_t
pub data MsgState : Type 0 where
  initialized parsing ready invalid : MsgState

-- flom_msg_mngmnt_action_t; `other_action` is FLOM_MSG_MNGMNT_ACTION_INVALID.
pub data Action : Type 0 where
  null_action shutdown other_action : Action

pub record Answer : Type 0 where
  pub rc : ℤ
  pub element : Option Bytes

-- struct flom_msg_body_lock_8_s
pub record Lock8 : Type 0 where
  pub peerid : Option Bytes
  pub name : Option Bytes
  pub mode : ℤ
  pub wait : ℤ
  pub quantity : ℤ
  pub create : ℤ
  pub lifespan : ℤ

pub record Lock16 : Type 0 where
  pub peerid : Option Bytes
  pub answer : Answer

pub record Unlock8 : Type 0 where
  pub name : Option Bytes
  pub rollback : ℤ

pub record Discover16 : Type 0 where
  pub address : Option Bytes
  pub port : ℕ

pub record Mngmnt8 : Type 0 where
  pub peerid : Option Bytes
  pub action : Action
  pub immediate : ℤ

-- struct flom_msg_s. The members of the union are kept apart, but for lock_24 and lock_32, which have
-- the same type: the code writes the element of a lock_32 through lock_24.
pub record Message : Type 0 where
  pub state : MsgState
  pub level : ℤ
  pub verb : ℤ
  pub step : ℤ
  pub lock_8 : Lock8
  pub lock_16 : Lock16
  pub lock_24 : Answer
  pub unlock_8 : Unlock8
  pub discover_16 : Discover16
  pub mngmnt_8 : Mngmnt8

abbrev pub no_answer : Answer
no_answer = record { rc = pos 0; element = none }

-- flom_msg_init
abbrev pub init : Message
init = record {
  state = MsgState.initialized;
  level = pos 0;
  verb = pos 0;
  step = pos 0;
  lock_8 = record {
    peerid = none;
    name = none;
    mode = pos 0;
    wait = pos 0;
    quantity = pos 0;
    create = pos 0;
    lifespan = pos 0;
  };
  lock_16 = record { peerid = none; answer = no_answer };
  lock_24 = no_answer;
  unlock_8 = record { name = none; rollback = pos 0 };
  discover_16 = record { address = none; port = 0 };
  mngmnt_8 = record { peerid = none; action = Action.null_action; immediate = pos 0 };
}

-- FLOM_MSG_LEVEL
abbrev pub msg_level : ℕ
msg_level = 3

abbrev pub is : ℤ → ℕ → Bool
is (pos n) k = n == k
is (negsuc n) k = false

-- The verb and the step of a message, as the switches of the functions tell them apart.
pub data Kind : Type 0 where
  on_lock_8 on_lock_16 on_lock_24 on_lock_32 on_unlock_8 on_unlock_16 on_ping_8 on_ping_16 : Kind
  on_discover_8 on_discover_16 on_mngmnt_8 on_null bad_step bad_verb : Kind

unfoldable pub kind : ℤ → ℤ → Kind
kind verb step =
    if is verb 0
    then Kind.on_null
    else if is verb 1
    then if is step 8
      then Kind.on_lock_8
      else if is step 16
      then Kind.on_lock_16
      else if is step 24
      then Kind.on_lock_24
      else if is step 32
      then Kind.on_lock_32
      else Kind.bad_step
    else if is verb 2
    then if is step 8
      then Kind.on_unlock_8
      else if is step 16
      then Kind.on_unlock_16
      else Kind.bad_step
    else if is verb 3
    then if is step 8 then Kind.on_ping_8 else if is step 16 then Kind.on_ping_16 else Kind.bad_step
    else if is verb 4
    then if is step 8
      then Kind.on_discover_8
      else if is step 16
      then Kind.on_discover_16
      else Kind.bad_step
    else if is verb 5
    then if is step 8 then Kind.on_mngmnt_8 else Kind.bad_step
    else Kind.bad_verb

-- flom_msg_check_protocol
protocol_of : Kind → Bool → Bool
protocol_of Kind.on_lock_8 client = client
protocol_of Kind.on_lock_16 client = not client
protocol_of Kind.on_lock_24 client = not client
protocol_of Kind.on_lock_32 client = not client
protocol_of Kind.on_unlock_8 client = client
protocol_of Kind.on_ping_8 client = not client
protocol_of Kind.on_ping_16 client = client
protocol_of Kind.on_discover_8 client = client
protocol_of Kind.on_discover_16 client = not client
protocol_of Kind.on_mngmnt_8 client = client
protocol_of Kind.on_unlock_16 client = false
protocol_of Kind.on_null client = false
protocol_of Kind.bad_step client = false
protocol_of Kind.bad_verb client = false

unfoldable pub check_protocol : Message → Bool → Bool
unfolding protocol_of
check_protocol m client = protocol_of (kind m.verb m.step) client

-- flom_msg_get_peerid
unfoldable pub get_peerid : Message → Option Bytes
get_peerid m =
    if is m.verb 1
    then if is m.step 8 then m.lock_8.peerid else if is m.step 16 then m.lock_16.peerid else none
    else if is m.verb 5
    then if is m.step 8 then m.mngmnt_8.peerid else none
    else none

-- flom_msg_free: the code, what is left of the message, and the strings given back.
abbrev some_string : Option Bytes → List Bytes
some_string none = []
some_string (some s) = s ∷ []

abbrev pub Freed : Type 0
Freed = Rc × Message × List Bytes

unfoldable pub free_kind : Kind → Message → Freed
free_kind Kind.on_lock_8 m = (
  Rc.ok,
  record m { lock_8 = record m.lock_8 { peerid = none; name = none } },
  some_string m.lock_8.peerid ++ some_string m.lock_8.name,
)
free_kind Kind.on_lock_16 m = (
  Rc.ok,
  record m {
    lock_16 = record { peerid = none; answer = record m.lock_16.answer { element = none } };
  },
  some_string m.lock_16.peerid ++ some_string m.lock_16.answer.element,
)
free_kind Kind.on_lock_24 m = (
  Rc.ok,
  record m { lock_24 = record m.lock_24 { element = none } },
  some_string m.lock_24.element,
)
free_kind Kind.on_lock_32 m = (
  Rc.ok,
  record m { lock_24 = record m.lock_24 { element = none } },
  some_string m.lock_24.element,
)
free_kind Kind.on_unlock_8 m =
    (Rc.ok, record m { unlock_8 = record m.unlock_8 { name = none } }, some_string m.unlock_8.name)
free_kind Kind.on_discover_16 m = (
  Rc.ok,
  record m { discover_16 = record m.discover_16 { address = none } },
  some_string m.discover_16.address,
)
free_kind Kind.on_mngmnt_8 m = (
  Rc.ok,
  record m { mngmnt_8 = record m.mngmnt_8 { peerid = none } },
  some_string m.mngmnt_8.peerid,
)
free_kind Kind.on_unlock_16 m = (Rc.ok, m, [])
free_kind Kind.on_ping_8 m = (Rc.ok, m, [])
free_kind Kind.on_ping_16 m = (Rc.ok, m, [])
free_kind Kind.on_discover_8 m = (Rc.ok, m, [])
free_kind Kind.on_null m = (Rc.ok, m, [])
free_kind Kind.bad_step m = (Rc.invalid_property_value, m, [])
free_kind Kind.bad_verb m = (Rc.invalid_property_value, m, [])

unfoldable pub free : Message → Freed
unfolding free_kind
free m = free_kind (kind m.verb m.step) (record m { state = MsgState.invalid })
