-- ===== src/Msg/Round.antt =====
-- What the callbacks of src/flom_msg.c make of the document of a message.
use flom.Prelude.{
  ℕ, ◌<◌, ◌≡◌, ◌≢◌, refl, true, Option, none, some, List, [], ◌∷◌, ltb, length, Bool-cases, inl,
  inr, arith,
}
use flom.Prelude.Int.{ℤ, pos}
use flom.Rsrc.Types.{Rc}
use flom.Rsrc.Names.{RsrcType}
use flom.Msg.{Bytes, MsgState, Message, init, kind}
use flom.Msg.Numbers.{IsInt, print_int, strtol-print_int, strtol-print_port}
use flom.Msg.Write.{Codec, serialize, written}
use flom.Msg.Read.{
  Memory, Event, start_element, end_element, attributes, attribute, deserialize, resource_name,
  on_resource, on_answer, on_network, on_session, on_shutdown, read_msg, read_resource, read_answer,
  read_network, read_session, read_shutdown,
}
use flom.Msg.Content.{
  Content, lock_request, Request, first_answer, second_answer, third_answer, unlock, ping, pong,
  discover, discovered, shutdown, message, received, HasInts, elements, resource_attributes, events,
  document,
}
use flom.Msg.Length.{HasType, Encodes, serialize-document}

-- Names are decoded as they were encoded.
abbrev pub Decodes : Codec → (Bytes → Bytes) → Type 0
Decodes x base64 = (s : Bytes) → x.base64_decode (base64 s) ≡ some s

-- Memory is there for each string.
pub record IsAmple (memory : Memory) : Type 0 where
  pub duplicated : (s : Bytes) → memory.duplicates s ≡ true
  pub reallocated : (s : Bytes) → memory.reallocates s ≡ true

module _ (x : Codec) (base64 : Bytes → Bytes) (decodes : Decodes x base64) (memory : Memory)
    (ample : IsAmple memory) where
  resource_name-base64 : (s : Bytes) → resource_name x memory (base64 s) ≡ some s
  unfolding resource_name
  resource_name-base64 s = rw (resource_name, decodes s) (rw (ample.reallocated s) refl)

  -- The message once its first tag is read
  abbrev opened : ℕ → ℕ → Message
  opened verb step = record init {
    state = MsgState.parsing;
    level = pos 3;
    verb = pos verb;
    step = pos step;
  }

  start-msg :
      (verb step : ℕ)
      → verb < 6
      → step < 33
      → start_element x memory init "msg" (
          ("level", print_int (pos 3))
          ∷ ("verb", print_int (pos verb))
          ∷ ("step", print_int (pos step))
          ∷ [])
        ≡ opened verb step
  unfolding start_element attributes attribute read_msg
  start-msg verb step v s = ground (
    arith,
    strtol-print_int (pos 3) (omega arith),
    strtol-print_int (pos verb) (omega (arith, v)),
    strtol-print_int (pos step) (omega (arith, s)),
  )

  deserialize-lock_request :
      (r : Request) (type : RsrcType)
      → x.type_of r.name ≡ type
      → type ≢ RsrcType.null
      → HasInts (lock_request r)
      → deserialize x memory init (events x.type_of base64 (lock_request r))
        ≡ (Rc.ok, message (received x (lock_request r)))
  unfolding deserialize start_element end_element attributes attribute on_resource on_answer
      on_network on_session on_shutdown read_msg read_resource read_answer read_network read_session
      read_shutdown kind events elements message received resource_attributes
  deserialize-lock_request r RsrcType.simple e t h =
      rw (start-msg 1 8 (omega arith) (omega arith), e)
        (ground (
          arith,
          ample.duplicated r.peerid,
          resource_name-base64 r.name,
          strtol-print_int r.mode h.0,
          strtol-print_int r.wait h.1,
          strtol-print_int r.quantity h.2,
          strtol-print_int r.create h.3,
          strtol-print_int r.lifespan h.4,
        ))
  deserialize-lock_request r RsrcType.numeric e t h =
      rw (start-msg 1 8 (omega arith) (omega arith), e)
        (ground (
          arith,
          ample.duplicated r.peerid,
          resource_name-base64 r.name,
          strtol-print_int r.mode h.0,
          strtol-print_int r.wait h.1,
          strtol-print_int r.quantity h.2,
          strtol-print_int r.create h.3,
          strtol-print_int r.lifespan h.4,
        ))
  deserialize-lock_request r RsrcType.set e t h =
      rw (start-msg 1 8 (omega arith) (omega arith), e)
        (ground (
          arith,
          ample.duplicated r.peerid,
          resource_name-base64 r.name,
          strtol-print_int r.mode h.0,
          strtol-print_int r.wait h.1,
          strtol-print_int r.quantity h.2,
          strtol-print_int r.create h.3,
          strtol-print_int r.lifespan h.4,
        ))
  deserialize-lock_request r RsrcType.hier e t h =
      rw (start-msg 1 8 (omega arith) (omega arith), e)
        (ground (
          arith,
          ample.duplicated r.peerid,
          resource_name-base64 r.name,
          strtol-print_int r.mode h.0,
          strtol-print_int r.wait h.1,
          strtol-print_int r.quantity h.2,
          strtol-print_int r.create h.3,
          strtol-print_int r.lifespan h.4,
        ))
  deserialize-lock_request r RsrcType.sequence e t h =
      rw (start-msg 1 8 (omega arith) (omega arith), e)
        (ground (
          arith,
          ample.duplicated r.peerid,
          resource_name-base64 r.name,
          strtol-print_int r.mode h.0,
          strtol-print_int r.wait h.1,
          strtol-print_int r.quantity h.2,
          strtol-print_int r.create h.3,
          strtol-print_int r.lifespan h.4,
        ))
  deserialize-lock_request r RsrcType.timestamp e t h =
      rw (start-msg 1 8 (omega arith) (omega arith), e)
        (ground (
          arith,
          ample.duplicated r.peerid,
          resource_name-base64 r.name,
          strtol-print_int r.mode h.0,
          strtol-print_int r.wait h.1,
          strtol-print_int r.quantity h.2,
          strtol-print_int r.create h.3,
          strtol-print_int r.lifespan h.4,
        ))
  deserialize-lock_request r RsrcType.null e t h = absurd (t refl)

  deserialize-first_answer :
      (p : Bytes) (rc : ℤ) (e : Option Bytes)
      → IsInt rc
      → let c = first_answer p (record { rc = rc; element = e }) in
        deserialize x memory init (events x.type_of base64 c) ≡ (Rc.ok, message c)
  unfolding deserialize start_element end_element attributes attribute on_resource on_answer
      on_network on_session on_shutdown read_msg read_resource read_answer read_network read_session
      read_shutdown kind events elements message received resource_attributes
  deserialize-first_answer p rc none h =
      rw (start-msg 1 16 (omega arith) (omega arith))
        (ground (arith, ample.duplicated p, strtol-print_int rc h))
  deserialize-first_answer p rc (some e) h =
      rw (start-msg 1 16 (omega arith) (omega arith))
        (ground (arith, ample.duplicated p, strtol-print_int rc h, ample.duplicated e))

  deserialize-second_answer :
      (rc : ℤ) (e : Option Bytes)
      → IsInt rc
      → let c = second_answer (record { rc = rc; element = e }) in
        deserialize x memory init (events x.type_of base64 c) ≡ (Rc.ok, message c)
  unfolding deserialize start_element end_element attributes attribute on_resource on_answer
      on_network on_session on_shutdown read_msg read_resource read_answer read_network read_session
      read_shutdown kind events elements message received resource_attributes
  deserialize-second_answer rc none h =
      rw (start-msg 1 24 (omega arith) (omega arith)) (ground (arith, strtol-print_int rc h))
  deserialize-second_answer rc (some e) h =
      rw (start-msg 1 24 (omega arith) (omega arith))
        (ground (arith, strtol-print_int rc h, ample.duplicated e))

  deserialize-third_answer :
      (rc : ℤ) (e : Option Bytes)
      → IsInt rc
      → let c = third_answer (record { rc = rc; element = e }) in
        deserialize x memory init (events x.type_of base64 c) ≡ (Rc.ok, message c)
  unfolding deserialize start_element end_element attributes attribute on_resource on_answer
      on_network on_session on_shutdown read_msg read_resource read_answer read_network read_session
      read_shutdown kind events elements message received resource_attributes
  deserialize-third_answer rc none h =
      rw (start-msg 1 32 (omega arith) (omega arith)) (ground (arith, strtol-print_int rc h))
  deserialize-third_answer rc (some e) h =
      rw (start-msg 1 32 (omega arith) (omega arith))
        (ground (arith, strtol-print_int rc h, ample.duplicated e))

  deserialize-events :
      (c : Content)
      → HasType x.type_of c
      → HasInts c
      → deserialize x memory init (events x.type_of base64 c) ≡ (Rc.ok, message (received x c))
  unfolding deserialize start_element end_element attributes attribute on_resource on_answer
      on_network on_session on_shutdown read_msg read_resource read_answer read_network read_session
      read_shutdown kind events elements message received
  deserialize-events (lock_request r) t h = deserialize-lock_request r (x.type_of r.name) refl t h
  deserialize-events (first_answer p a) t h = deserialize-first_answer p a.rc a.element h
  deserialize-events (second_answer a) t h = deserialize-second_answer a.rc a.element h
  deserialize-events (third_answer a) t h = deserialize-third_answer a.rc a.element h
  deserialize-events (unlock name r) t h =
      rw (start-msg 2 8 (omega arith) (omega arith))
        (ground (arith, resource_name-base64 name, strtol-print_int r h))
  deserialize-events ping t h = rw (start-msg 3 8 (omega arith) (omega arith)) refl
  deserialize-events pong t h = rw (start-msg 3 16 (omega arith) (omega arith)) refl
  deserialize-events discover t h = rw (start-msg 4 8 (omega arith) (omega arith)) refl
  deserialize-events (discovered a p) t h =
      rw (start-msg 4 16 (omega arith) (omega arith))
        (ground (arith, ample.duplicated a, strtol-print_port p h))
  deserialize-events (shutdown p i) t h =
      rw (start-msg 5 8 (omega arith) (omega arith))
        (ground (arith, ample.duplicated p, strtol-print_int i h))

text_lem :
    (x : Codec) (base64 : Bytes → Bytes) (encodes : Encodes x base64) (c : Content) (n free : ℕ)
    (text : Bytes)
    → HasType x.type_of c
    → serialize x (message c) n ≡ written text free
    → text ≡ document x.type_of base64 c
text_lem x base64 encodes c n free text t sent =
    elim (Bool-cases (ltb (length (document x.type_of base64 c)) n)) [
      | inl fits ↦ let e = rw (serialize-document x base64 encodes c n t, fits) at sent in cc
      | inr full ↦ let e = rw (serialize-document x base64 encodes c n t, full) at sent in cc
    ]

-- A message that flom_msg_serialize writes into some buffer is read back by flom_msg_deserialize: the
-- result is ready and says the same, but for the mode and the quantity of a request, which arrive as
-- zero if the type of the resource has none. The numbers have to be ints and the name to have a type;
-- base64 decodes what it encodes, there is memory, and the parser reports the tags of the document.
pub serialize-deserialize :
    (x : Codec) (base64 : Bytes → Bytes) (memory : Memory) (parse : Bytes → List Event)
    (c : Content) (n free : ℕ) (text : Bytes)
    → Encodes x base64
    → Decodes x base64
    → IsAmple memory
    → parse (document x.type_of base64 c) ≡ events x.type_of base64 c
    → HasType x.type_of c
    → HasInts c
    → serialize x (message c) n ≡ written text free
    → deserialize x memory init (parse text) ≡ (Rc.ok, message (received x c))
serialize-deserialize x base64 memory parse c n free text encodes decodes ample reports t ints
      sent =
    let d = document x.type_of base64 c in
    let whole : text ≡ d = text_lem x base64 encodes c n free text t sent in
    rw (whole, reports) (deserialize-events x base64 decodes memory ample c t ints)
