-- ===== src/Msg/Write.antt =====
-- The serialization of messages: flom_msg_serialize and its parts, which print into a buffer.
use Prim.Native.Char.{code}
use flom.Prelude.{
  ℕ, ◌-◌, String, Option, none, some, List, [], ◌∷◌, ◌++◌, map, length, ltb, if◌then◌else◌,
}
use flom.Prelude.Int.{ℤ}
use flom.Rsrc.Types.{Rc}
use flom.Rsrc.Names.{RsrcType}
use flom.Msg.{Bytes, Action, Answer, Message, Kind, kind}
use flom.Msg.Numbers.{print_int, print_port}

abbrev pub codes : String → Bytes
codes String.[] = []
codes (String.◌∷◌ c s) = code c ∷ codes s

-- The buffer so far and the free characters of it, or the error that ended the serialization.
pub data Written : Type 0 where
  written : Bytes → ℕ → Written
  not_written : Rc → Written

-- One snprintf, and the test of the characters that it wants: one more is needed for the end mark.
unfoldable pub put : Bytes → Written → Written
put t (written text free) =
    if ltb (length t) free
    then written (text ++ t) (free - length t)
    else not_written Rc.container_full
put t (not_written rc) = not_written rc

unfoldable pub fail : Rc → Written → Written
fail rc (written text free) = not_written rc
fail rc (not_written rc') = not_written rc'

-- The formats: `%s="%s"`, `<%s ...`.
abbrev pub Attribute : Type 0
Attribute = String × Bytes

unfoldable pub print_attributes : List Attribute → Bytes
print_attributes [] = []
print_attributes ((name, value) ∷ rest) =
    codes " " ++ codes name ++ codes "=\"" ++ value ++ codes "\"" ++ print_attributes rest

abbrev pub tag : String → List Attribute → String → Bytes
tag name attributes end = codes "<" ++ codes name ++ print_attributes attributes ++ codes end

abbrev pub string_or_empty : Option Bytes → Bytes
string_or_empty none = []
string_or_empty (some s) = s

abbrev pub peerid_of : Option Bytes → List Attribute
peerid_of peerid = ("peerid", string_or_empty peerid) ∷ []

abbrev pub answer_of : Answer → List Attribute
answer_of a = elim a.element [
  | none ↦ ("rc", print_int a.rc) ∷ []
  | some e ↦ ("rc", print_int a.rc) ∷ ("element", e) ∷ []
]

-- The attributes of a resource in a lock message depend on its type.
unfoldable pub resource_of : RsrcType → Bytes → Message → Option (List Attribute)
resource_of type name64 m =
    let r = m.lock_8 in
    let last = ("create", print_int r.create) ∷ ("lifespan", print_int r.lifespan) ∷ [] in
    let with_mode =
      some (("name", name64) ∷ ("mode", print_int r.mode) ∷ ("wait", print_int r.wait) ∷ last) in
    let plain = some (("name", name64) ∷ ("wait", print_int r.wait) ∷ last) in
    elim type [
      | RsrcType.simple ↦ with_mode
      | RsrcType.numeric ↦ some (
          ("name", name64) ∷ ("wait", print_int r.wait) ∷ ("quantity", print_int r.quantity) ∷ last)
      | RsrcType.set ↦ plain
      | RsrcType.hier ↦ with_mode
      | RsrcType.sequence ↦ plain
      | RsrcType.timestamp ↦ plain
      | RsrcType.null ↦ none
    ]

-- What serialization asks of its surroundings: flom_rsrc_get_type, which matches regular expressions,
-- and g_base64_encode.
pub record Codec : Type 0 where
  pub type_of : Bytes → RsrcType
  pub base64_encode : Bytes → Option Bytes
  pub base64_decode : Bytes → Option Bytes

-- flom_msg_serialize_lock_8; a message without a name is not serialized (strlen would fail).
put_resource : Option (List Attribute) → Written → Written
put_resource (some attributes) w = put (tag "resource" attributes "/>") w
put_resource none w = fail Rc.invalid_resource_name w

put_lock_8 : Codec → Message → Bytes → Option Bytes → Written → Written
unfolding put_resource
put_lock_8 x m name none w = fail Rc.g_base64_encode_error w
put_lock_8 x m name (some name64) w =
    put_resource (resource_of (x.type_of name) name64 m)
      (put (tag "session" (peerid_of m.lock_8.peerid) "/>") w)

unfoldable pub serialize_lock_8 : Codec → Message → Written → Written
unfolding put_lock_8
serialize_lock_8 x m w =
    let name = string_or_empty m.lock_8.name in put_lock_8 x m name (x.base64_encode name) w

-- flom_msg_serialize_lock_16, and flom_msg_serialize_lock_24, _32
unfoldable pub serialize_lock_16 : Message → Written → Written
serialize_lock_16 m w =
    put (tag "answer" (answer_of m.lock_16.answer) "/>")
      (put (tag "session" (peerid_of m.lock_16.peerid) "/>") w)

unfoldable pub serialize_lock_24 : Message → Written → Written
serialize_lock_24 m w = put (tag "answer" (answer_of m.lock_24) "/>") w

-- flom_msg_serialize_unlock_8
put_unlock_8 : Message → Option Bytes → Written → Written
put_unlock_8 m none w = fail Rc.g_base64_encode_error w
put_unlock_8 m (some name64) w =
    put (tag "resource" (("name", name64) ∷ ("rollback", print_int m.unlock_8.rollback) ∷ []) " />")
      w

unfoldable pub serialize_unlock_8 : Codec → Message → Written → Written
unfolding put_unlock_8
serialize_unlock_8 x m w = put_unlock_8 m (x.base64_encode (string_or_empty m.unlock_8.name)) w

-- flom_msg_serialize_discover_16
unfoldable pub serialize_discover_16 : Message → Written → Written
serialize_discover_16 m w =
    put
      (tag "network"
        (("address", string_or_empty m.discover_16.address)
          ∷ ("port", print_port m.discover_16.port)
          ∷ [])
        "/>")
      w

-- flom_msg_serialize_mngmnt_8. Without a shutdown `used_chars` is still that of the session, and as many
-- characters are skipped; they are shown as zeros, though only the first is known to be one.
abbrev skipped : Bytes → Bytes
skipped = map λ c. 0

put_action : Action → ℤ → Bytes → Written → Written
put_action Action.shutdown immediate session w =
    put (tag "shutdown" (("immediate", print_int immediate) ∷ []) "/>") w
put_action Action.null_action immediate session w = put (skipped session) w
put_action Action.other_action immediate session w = put (skipped session) w

unfoldable pub serialize_mngmnt_8 : Message → Written → Written
unfolding put_action
serialize_mngmnt_8 m w =
    let session = tag "session" (peerid_of m.mngmnt_8.peerid) "/>" in
    put_action m.mngmnt_8.action m.mngmnt_8.immediate session (put session w)

-- flom_msg_serialize: the body by verb and step, between the start and the end of the document.
serialize_body : Codec → Message → Kind → Written → Written
unfolding serialize_lock_8 serialize_lock_16 serialize_lock_24 serialize_unlock_8
    serialize_discover_16 serialize_mngmnt_8
serialize_body x m Kind.on_lock_8 w = serialize_lock_8 x m w
serialize_body x m Kind.on_lock_16 w = serialize_lock_16 m w
serialize_body x m Kind.on_lock_24 w = serialize_lock_24 m w
serialize_body x m Kind.on_lock_32 w = serialize_lock_24 m w
serialize_body x m Kind.on_unlock_8 w = serialize_unlock_8 x m w
serialize_body x m Kind.on_ping_8 w = w
serialize_body x m Kind.on_ping_16 w = w
serialize_body x m Kind.on_discover_8 w = w
serialize_body x m Kind.on_discover_16 w = serialize_discover_16 m w
serialize_body x m Kind.on_mngmnt_8 w = serialize_mngmnt_8 m w
serialize_body x m Kind.on_unlock_16 w = fail Rc.internal_error w
serialize_body x m Kind.on_null w = fail Rc.internal_error w
serialize_body x m Kind.bad_step w = fail Rc.internal_error w
serialize_body x m Kind.bad_verb w = fail Rc.internal_error w

abbrev pub header : Bytes
header = codes "<?xml version=\"1.0\" encoding=\"UTF-8\" ?>"

abbrev pub msg_attributes : Message → List Attribute
msg_attributes m =
    ("level", print_int m.level) ∷ ("verb", print_int m.verb) ∷ ("step", print_int m.step) ∷ []

unfoldable pub serialize : Codec → Message → ℕ → Written
unfolding serialize_body
serialize x m buffer_len = put (codes "</msg>") (
    serialize_body x m (kind m.verb m.step)
      (put (tag "msg" (msg_attributes m) ">") (put header (written [] buffer_len))))
