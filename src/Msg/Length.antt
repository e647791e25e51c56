-- ===== src/Msg/Length.antt =====
-- The text that flom_msg_serialize of src/flom_msg.c writes, and the room that it needs.
use flom.Prelude.{
  ℕ, ◌-◌, ◌≡◌, ◌≢◌, refl, ltb, some, [], ◌++◌, append_assoc, length, length-append, if◌then◌else◌,
  arith,
}
use flom.Rsrc.Types.{Rc}
use flom.Rsrc.Names.{RsrcType}
use flom.Msg.{Bytes, kind}
use flom.Msg.Write.{Codec, Written, written, not_written, put, resource_of, serialize}
use flom.Msg.Content.{
  Content, lock_request, Request, first_answer, second_answer, third_answer, unlock, ping, pong,
  discover, discovered, shutdown, message, elements, print_elements, document,
}

put-put : (a b : Bytes) (w : Written) → put b (put a w) ≡ put (a ++ b) w
unfolding put
put-put a b (not_written rc) = refl
put-put a b (written text free) = ground (arith, length-append a b, append_assoc text a b)

-- A name that has a type, in a request
abbrev pub HasType : (Bytes → RsrcType) → Content → Type 0
HasType type_of (lock_request r) = type_of r.name ≢ RsrcType.null
HasType type_of other = Unit {0}

-- A message is encoded by `base64`.
abbrev pub Encodes : Codec → (Bytes → Bytes) → Type 0
Encodes x base64 = (s : Bytes) → x.base64_encode s ≡ some (base64 s)

module _ (x : Codec) (base64 : Bytes → Bytes) (encodes : Encodes x base64) where
  serialize-lock_request :
      (r : Request) (n : ℕ) (type : RsrcType)
      → x.type_of r.name ≡ type
      → type ≢ RsrcType.null
      → serialize x (message (lock_request r)) n
        ≡ put (document x.type_of base64 (lock_request r)) (written [] n)
  unfolding serialize message document elements print_elements kind resource_of
  serialize-lock_request r n RsrcType.simple e t =
      rw (encodes r.name, e) (simp (put-put, append_assoc))
  serialize-lock_request r n RsrcType.numeric e t =
      rw (encodes r.name, e) (simp (put-put, append_assoc))
  serialize-lock_request r n RsrcType.set e t =
      rw (encodes r.name, e) (simp (put-put, append_assoc))
  serialize-lock_request r n RsrcType.hier e t =
      rw (encodes r.name, e) (simp (put-put, append_assoc))
  serialize-lock_request r n RsrcType.sequence e t =
      rw (encodes r.name, e) (simp (put-put, append_assoc))
  serialize-lock_request r n RsrcType.timestamp e t =
      rw (encodes r.name, e) (simp (put-put, append_assoc))
  serialize-lock_request r n RsrcType.null e t = absurd (t refl)

  serialize-put :
      (c : Content) (n : ℕ)
      → HasType x.type_of c
      → serialize x (message c) n ≡ put (document x.type_of base64 c) (written [] n)
  unfolding serialize message document elements print_elements kind resource_of
  serialize-put (lock_request r) n t = serialize-lock_request r n (x.type_of r.name) refl t
  serialize-put (first_answer p a) n t = simp (put-put, append_assoc)
  serialize-put (second_answer a) n t = simp (put-put, append_assoc)
  serialize-put (third_answer a) n t = simp (put-put, append_assoc)
  serialize-put (unlock name r) n t = rw (encodes name) (simp (put-put, append_assoc))
  serialize-put ping n t = simp (put-put, append_assoc)
  serialize-put pong n t = simp (put-put, append_assoc)
  serialize-put discover n t = simp (put-put, append_assoc)
  serialize-put (discovered a p) n t = simp (put-put, append_assoc)
  serialize-put (shutdown p i) n t = simp (put-put, append_assoc)

  -- A message of the protocol whose name has a type is serialized as the document of its content if
  -- that is shorter than the buffer; else the code is FLOM_RC_CONTAINER_FULL.
  pub serialize-document :
      (c : Content) (n : ℕ)
      → HasType x.type_of c
      → let d = document x.type_of base64 c in
        serialize x (message c) n
        ≡ (if ltb (length d) n then written d (n - length d) else not_written Rc.container_full)
  unfolding put
  serialize-document c n t = rw (serialize-put c n t) refl
