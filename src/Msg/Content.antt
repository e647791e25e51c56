-- ===== src/Msg/Content.antt =====
-- What a message says, apart from how the program stores it: the messages that the protocol has, and
-- the XML document of each, as src/flom_msg.c means it.
use flom.Prelude.{ℕ, ◌<◌, String, some, List, [], ◌∷◌, ◌++◌}
use flom.Prelude.Int.{ℤ, pos}
use flom.Rsrc.Names.{RsrcType}
use flom.Msg.{Bytes, MsgState, Action, Answer, Message, init, msg_level}
use flom.Msg.Numbers.{print_int, print_port, IsInt}
use flom.Msg.Write.{Attribute, Codec, codes, tag, header, answer_of}
use flom.Msg.Read.{Event, started, ended}

-- The request of a lock
pub record Request : Type 0 where
  pub peerid : Bytes
  pub name : Bytes
  pub mode : ℤ
  pub wait : ℤ
  pub quantity : ℤ
  pub create : ℤ
  pub lifespan : ℤ

pub data Content : Type 0 where
  lock_request : Request → Content
  first_answer : Bytes → Answer → Content
  second_answer third_answer : Answer → Content
  unlock : Bytes → ℤ → Content
  ping pong : Content
  discover : Content
  discovered : Bytes → ℕ → Content
  shutdown : Bytes → ℤ → Content

abbrev header_of : Content → ℕ × ℕ
header_of (lock_request r) = (1, 8)
header_of (first_answer p a) = (1, 16)
header_of (second_answer a) = (1, 24)
header_of (third_answer a) = (1, 32)
header_of (unlock n r) = (2, 8)
header_of ping = (3, 8)
header_of pong = (3, 16)
header_of discover = (4, 8)
header_of (discovered a p) = (4, 16)
header_of (shutdown p i) = (5, 8)

-- A message that says it, ready to be sent.
abbrev blank : Content → Message
blank c = record init {
  state = MsgState.ready;
  level = pos msg_level;
  verb = pos (header_of c).0;
  step = pos (header_of c).1;
}

unfoldable pub message : Content → Message
message (lock_request r) = record (blank (lock_request r)) {
  lock_8 = record {
    peerid = some r.peerid;
    name = some r.name;
    mode = r.mode;
    wait = r.wait;
    quantity = r.quantity;
    create = r.create;
    lifespan = r.lifespan;
  };
}
message (first_answer p a) = record (blank (first_answer p a)) {
  lock_16 = record { peerid = some p; answer = a };
}
message (second_answer a) = record (blank (second_answer a)) { lock_24 = a }
message (third_answer a) = record (blank (third_answer a)) { lock_24 = a }
message (unlock n r) = record (blank (unlock n r)) {
  unlock_8 = record { name = some n; rollback = r };
}
message ping = blank ping
message pong = blank pong
message discover = blank discover
message (discovered a p) = record (blank (discovered a p)) {
  discover_16 = record { address = some a; port = p };
}
message (shutdown p i) = record (blank (shutdown p i)) {
  mngmnt_8 = record { peerid = some p; action = Action.shutdown; immediate = i };
}

-- The fields that a request for a resource of a type carries; the others arrive as zero.
unfoldable pub carried : RsrcType → Request → Request
carried RsrcType.simple r = record r { quantity = pos 0 }
carried RsrcType.hier r = record r { quantity = pos 0 }
carried RsrcType.numeric r = record r { mode = pos 0 }
carried other r = record r { mode = pos 0; quantity = pos 0 }

unfoldable pub received : Codec → Content → Content
unfolding carried
received x (lock_request r) = lock_request (carried (x.type_of r.name) r)
received x c = c

-- The numbers of a message are C's ints, and a port has 16 bits.
abbrev pub HasInts : Content → Type 0
HasInts (lock_request r) =
    IsInt r.mode × IsInt r.wait × IsInt r.quantity × IsInt r.create × IsInt r.lifespan
HasInts (first_answer p a) = IsInt a.rc
HasInts (second_answer a) = IsInt a.rc
HasInts (third_answer a) = IsInt a.rc
HasInts (unlock n r) = IsInt r
HasInts (discovered a p) = p < 65536
HasInts (shutdown p i) = IsInt i
HasInts ping = Unit
HasInts pong = Unit
HasInts discover = Unit

-- An element of the document, with the end of its tag
pub record Element : Type 0 where
  pub name : String
  pub attributes : List Attribute
  pub end : String

abbrev pub element : String → List Attribute → Element
element name attributes = record { name = name; attributes = attributes; end = "/>" }

unfoldable pub resource_attributes : RsrcType → Bytes → Request → List Attribute
resource_attributes RsrcType.simple name64 r =
    ("name", name64)
    ∷ ("mode", print_int r.mode)
    ∷ ("wait", print_int r.wait)
    ∷ ("create", print_int r.create)
    ∷ ("lifespan", print_int r.lifespan)
    ∷ []
resource_attributes RsrcType.hier name64 r =
    ("name", name64)
    ∷ ("mode", print_int r.mode)
    ∷ ("wait", print_int r.wait)
    ∷ ("create", print_int r.create)
    ∷ ("lifespan", print_int r.lifespan)
    ∷ []
resource_attributes RsrcType.numeric name64 r =
    ("name", name64)
    ∷ ("wait", print_int r.wait)
    ∷ ("quantity", print_int r.quantity)
    ∷ ("create", print_int r.create)
    ∷ ("lifespan", print_int r.lifespan)
    ∷ []
resource_attributes other name64 r =
    ("name", name64)
    ∷ ("wait", print_int r.wait)
    ∷ ("create", print_int r.create)
    ∷ ("lifespan", print_int r.lifespan)
    ∷ []

-- The elements inside the document; `base64` is the encoding of names.
unfoldable pub elements : (Bytes → RsrcType) → (Bytes → Bytes) → Content → List Element
unfolding resource_attributes
elements type_of base64 (lock_request r) =
    element "session" (("peerid", r.peerid) ∷ [])
    ∷ element "resource" (resource_attributes (type_of r.name) (base64 r.name) r)
    ∷ []
elements type_of base64 (first_answer p a) =
    element "session" (("peerid", p) ∷ []) ∷ element "answer" (answer_of a) ∷ []
elements type_of base64 (second_answer a) = element "answer" (answer_of a) ∷ []
elements type_of base64 (third_answer a) = element "answer" (answer_of a) ∷ []
elements type_of base64 (unlock n r) =
    record {
      name = "resource";
      attributes = ("name", base64 n) ∷ ("rollback", print_int r) ∷ [];
      end = " />";
    }
    ∷ []
elements type_of base64 ping = []
elements type_of base64 pong = []
elements type_of base64 discover = []
elements type_of base64 (discovered a p) =
    element "network" (("address", a) ∷ ("port", print_port p) ∷ []) ∷ []
elements type_of base64 (shutdown p i) =
    element "session" (("peerid", p) ∷ [])
    ∷ element "shutdown" (("immediate", print_int i) ∷ [])
    ∷ []

abbrev pub msg_attributes_of : Content → List Attribute
msg_attributes_of c =
    ("level", print_int (pos msg_level))
    ∷ ("verb", print_int (pos (header_of c).0))
    ∷ ("step", print_int (pos (header_of c).1))
    ∷ []

unfoldable pub print_elements : List Element → Bytes
print_elements [] = []
print_elements (e ∷ rest) = tag e.name e.attributes e.end ++ print_elements rest

unfoldable pub document : (Bytes → RsrcType) → (Bytes → Bytes) → Content → Bytes
document type_of base64 c =
    header
    ++ tag "msg" (msg_attributes_of c) ">"
    ++ print_elements (elements type_of base64 c)
    ++ codes "</msg>"

-- What an XML parser reports of it.
unfoldable pub element_events : List Element → List Event → List Event
element_events [] last = last
element_events (e ∷ rest) last =
    started e.name e.attributes ∷ ended e.name ∷ element_events rest last

unfoldable pub events : (Bytes → RsrcType) → (Bytes → Bytes) → Content → List Event
unfolding element_events
events type_of base64 c =
    started "msg" (msg_attributes_of c)
    ∷ element_events (elements type_of base64 c) (ended "msg" ∷ [])
