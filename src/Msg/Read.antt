-- ===== src/Msg/Read.antt =====
-- The callbacks of the XML parser: flom_msg_deserialize_start_element and _end_element, and what
-- flom_msg_deserialize makes of the events that the parser reports.
use text.Mathlib.Text.{◌==◌ as str_eq}
use flom.Prelude.{String, Bool, true, false, Option, none, some, List, [], ◌∷◌, if◌then◌else◌}
use flom.Prelude.Int.{ℤ}
use flom.Rsrc.Types.{Rc}
use flom.Msg.{Bytes, MsgState, Action, Answer, Message, Kind, kind, msg_level, is}
use flom.Locker.{to_int}
use flom.Msg.Numbers.{strtol, to_port}
use flom.Msg.Write.{Attribute, Codec}

-- What GMarkup reports of a text; an error ends the events.
pub data Event : Type 0 where
  started : String → List Attribute → Event
  ended : String → Event
  some_text : Bytes → Event
  parse_error : Event

-- Whether g_strdup and g_try_realloc find memory for a string
pub record Memory : Type 0 where
  pub duplicates : Bytes → Bool
  pub reallocates : Bytes → Bool

-- The message after an attribute, and whether the loop goes on (`stop` is a THROW).
pub data Step : Type 0 where
  go stop : Message → Step

abbrev int_of : Bytes → ℤ
int_of s = to_int (strtol s)

module _ (x : Codec) (memory : Memory) where
  -- flom_msg_deserialize_resource_name
  unfoldable pub resource_name : Bytes → Option Bytes
  resource_name base64 = elim (x.base64_decode base64) [
    | none ↦ none
    | some name ↦ if memory.reallocates name then some name else none
  ]

  unfoldable pub read_msg : Message → String → Bytes → Step
  read_msg m name value =
      if str_eq name "level"
      then if is (int_of value) msg_level
        then go (record m { level = int_of value })
        else stop (record m { level = int_of value })
      else if str_eq name "verb"
      then go (record m { verb = int_of value })
      else if str_eq name "step"
      then go (record m { step = int_of value })
      else go m

  unfoldable pub read_name : Message → Bool → Option Bytes → Step
  read_name m lock (some name) =
      if lock
      then go (record m { lock_8 = record m.lock_8 { name = some name } })
      else go (record m { unlock_8 = record m.unlock_8 { name = some name } })
  read_name m lock none = stop m

  -- The attributes of a resource; `lock` for a lock message, else it is an unlock message.
  unfoldable pub read_resource : Message → Bool → String → Bytes → Step
  unfolding read_name resource_name
  read_resource m lock name value =
      let v = int_of value in
      if str_eq name "name"
      then read_name m lock (resource_name value)
      else if str_eq name "mode"
      then if lock then go (record m { lock_8 = record m.lock_8 { mode = v } }) else stop m
      else if str_eq name "rollback"
      then if lock then stop m else go (record m { unlock_8 = record m.unlock_8 { rollback = v } })
      else if str_eq name "wait"
      then if lock then go (record m { lock_8 = record m.lock_8 { wait = v } }) else stop m
      else if str_eq name "quantity"
      then if lock then go (record m { lock_8 = record m.lock_8 { quantity = v } }) else stop m
      else if str_eq name "create"
      then if lock then go (record m { lock_8 = record m.lock_8 { create = v } }) else stop m
      else if str_eq name "lifespan"
      then if lock then go (record m { lock_8 = record m.lock_8 { lifespan = v } }) else stop m
      else go m

  unfoldable pub read_answer : Message → Bool → String → Bytes → Step
  read_answer m first name value =
      let old = if first then m.lock_16.answer else m.lock_24 in
      let with_rc = record old { rc = int_of value } in
      let with_element = record old { element = some value } in
      let keep = λ (a : Answer).
        if first
        then go (record m { lock_16 = record m.lock_16 { answer = a } })
        else go (record m { lock_24 = a }) in
      if str_eq name "rc"
      then keep with_rc
      else if str_eq name "element"
      then if memory.duplicates value then keep with_element else stop m
      else go m

  unfoldable pub read_network : Message → String → Bytes → Step
  read_network m name value =
      if str_eq name "port"
      then go (record m { discover_16 = record m.discover_16 { port = to_port (strtol value) } })
      else if str_eq name "address"
      then if memory.duplicates value
        then go (record m { discover_16 = record m.discover_16 { address = some value } })
        else stop m
      else stop m

  unfoldable pub read_peerid : Message → Kind → Bytes → Message
  read_peerid m Kind.on_lock_8 value = record m { lock_8 = record m.lock_8 { peerid = some value } }
  read_peerid m Kind.on_lock_16 value = record m {
    lock_16 = record m.lock_16 { peerid = some value };
  }
  read_peerid m other value = record m { mngmnt_8 = record m.mngmnt_8 { peerid = some value } }

  unfoldable pub read_session : Message → Kind → String → Bytes → Step
  unfolding read_peerid
  read_session m k name value =
      if str_eq name "peerid"
      then if memory.duplicates value then go (read_peerid m k value) else stop m
      else go m

  unfoldable pub read_shutdown : Message → String → Bytes → Step
  read_shutdown m name value =
      if str_eq name "immediate"
      then go (record m {
        mngmnt_8 = record m.mngmnt_8 { action = Action.shutdown; immediate = int_of value };
      })
      else stop m

  -- The switch on the tag; a tag that does not fit the message is passed over.
  unfoldable pub on_resource : Message → Kind → String → Bytes → Step
  on_resource m Kind.on_lock_8 name value = read_resource m true name value
  on_resource m Kind.on_unlock_8 name value = read_resource m false name value
  on_resource m other name value = go m

  unfoldable pub on_answer : Message → Kind → String → Bytes → Step
  on_answer m Kind.on_lock_16 name value = read_answer m true name value
  on_answer m Kind.on_lock_24 name value = read_answer m false name value
  on_answer m Kind.on_lock_32 name value = read_answer m false name value
  on_answer m other name value = go m

  unfoldable pub on_network : Message → Kind → String → Bytes → Step
  on_network m Kind.on_discover_16 name value = read_network m name value
  on_network m other name value = go m

  unfoldable pub on_session : Message → Kind → String → Bytes → Step
  on_session m Kind.on_lock_8 name value = read_session m Kind.on_lock_8 name value
  on_session m Kind.on_lock_16 name value = read_session m Kind.on_lock_16 name value
  on_session m Kind.on_mngmnt_8 name value = read_session m Kind.on_mngmnt_8 name value
  on_session m other name value = go m

  unfoldable pub on_shutdown : Message → Kind → String → Bytes → Step
  on_shutdown m Kind.on_mngmnt_8 name value = read_shutdown m name value
  on_shutdown m other name value = go m

  unfoldable pub attribute : String → Message → Attribute → Step
  attribute tag m (name, value) =
      let k = kind m.verb m.step in
      if str_eq tag "msg"
      then read_msg m name value
      else if str_eq tag "resource"
      then on_resource m k name value
      else if str_eq tag "answer"
      then on_answer m k name value
      else if str_eq tag "network"
      then on_network m k name value
      else if str_eq tag "session"
      then on_session m k name value
      else if str_eq tag "shutdown"
      then on_shutdown m k name value
      else stop m

  -- The loop over the attributes; a THROW marks the message as invalid.
  unfoldable pub attributes : String → List Attribute → Message → Message
  attributes tag [] m = m
  attributes tag (a ∷ rest) m = elim (attribute tag m a) [
    | go m' ↦ attributes tag rest m'
    | stop m' ↦ record m' { state = MsgState.invalid }
  ]

  -- flom_msg_deserialize_start_element
  unfoldable pub start_element : Message → String → List Attribute → Message
  start_element m tag list = elim m.state [
    | MsgState.invalid ↦ m
    | MsgState.initialized ↦ attributes tag list (record m { state = MsgState.parsing })
    | MsgState.parsing ↦ attributes tag list m
    | MsgState.ready ↦ attributes tag list m
  ]

  -- flom_msg_deserialize_end_element
  unfoldable pub end_element : Message → String → Message
  end_element m tag = elim m.state [
    | MsgState.invalid ↦ m
    | MsgState.ready ↦ m
    | MsgState.initialized ↦ record m { state = MsgState.invalid }
    | MsgState.parsing ↦ if str_eq tag "msg" then record m { state = MsgState.ready } else m
  ]

  -- flom_msg_deserialize: the callbacks for what the parser reports; flom_msg_deserialize_text does
  -- nothing.
  unfoldable pub deserialize : Message → List Event → Rc × Message
  deserialize m [] = (Rc.ok, m)
  deserialize m (started tag list ∷ rest) = deserialize (start_element m tag list) rest
  deserialize m (ended tag ∷ rest) = deserialize (end_element m tag) rest
  deserialize m (some_text t ∷ rest) = deserialize m rest
  deserialize m (parse_error ∷ rest) = (Rc.g_markup_parse_context_parse_error, m)
