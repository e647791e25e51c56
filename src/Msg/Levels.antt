-- ===== src/Msg/Levels.antt =====
-- The protocol level of a message that src/flom_msg.c has read, and the strings that it gives back.
use flom.Prelude.{
  ℕ, String, ◌≡◌, ◌≢◌, ◌⊎◌, inl, inr, refl, subst, Bool, true, false, List, [], ◌∷◌, arith,
}
use flom.Prelude.Int.{ℤ, pos, negsuc}
use flom.Locker.{to_int}
use flom.Msg.Numbers.{strtol}
use flom.Msg.{Bytes, MsgState, Message, Kind, init, kind, free, free_kind, is}
use flom.Msg.Write.{Attribute, Codec}
use flom.Msg.Read.{
  Memory, Step, go, stop, Event, started, ended, some_text, parse_error, attribute, attributes,
  start_element, end_element, deserialize, read_msg, read_resource, read_answer, read_network,
  read_session, read_shutdown, on_resource, on_answer, on_network, on_session, on_shutdown,
}

-- No level was read, or the right one.
abbrev pub HasLevel : ℤ → Type 0
HasLevel level = (level ≡ pos 0) ⊎ (level ≡ pos 3)

abbrev GoodStep : Step → Type 0
GoodStep (go m) = HasLevel m.level
GoodStep (stop m) = Unit

is-pos : (z : ℤ) (k : ℕ) → is z k ≡ true → z ≡ pos k
is-pos (pos n) k h = ground (arith, h)
is-pos (negsuc n) k h = cc

module _ (x : Codec) (memory : Memory) (m : Message) (name : String) (value : Bytes)
    (h : HasLevel m.level) where
  read_msg-HasLevel : GoodStep (read_msg x memory m name value)
  unfolding read_msg
  read_msg-HasLevel = ground (arith, h, is-pos (to_int (strtol value)) 3)

  read_resource-HasLevel : (lock : Bool) → GoodStep (read_resource x memory m lock name value)
  unfolding read_resource
  read_resource-HasLevel lock = ground (arith, h)

  read_answer-HasLevel : (first : Bool) → GoodStep (read_answer x memory m first name value)
  unfolding read_answer
  read_answer-HasLevel first = ground (arith, h)

  read_network-HasLevel : GoodStep (read_network x memory m name value)
  unfolding read_network
  read_network-HasLevel = ground (arith, h)

  read_session-HasLevel : (k : Kind) → GoodStep (read_session x memory m k name value)
  unfolding read_session
  read_session-HasLevel k = ground (arith, h)

  read_shutdown-HasLevel : GoodStep (read_shutdown x memory m name value)
  unfolding read_shutdown
  read_shutdown-HasLevel = ground (arith, h)

  on_resource-HasLevel : (k : Kind) → GoodStep (on_resource x memory m k name value)
  unfolding on_resource
  on_resource-HasLevel k =
      ground (arith, h, read_resource-HasLevel true, read_resource-HasLevel false)

  on_answer-HasLevel : (k : Kind) → GoodStep (on_answer x memory m k name value)
  unfolding on_answer
  on_answer-HasLevel k = ground (arith, h, read_answer-HasLevel true, read_answer-HasLevel false)

  on_network-HasLevel : (k : Kind) → GoodStep (on_network x memory m k name value)
  unfolding on_network
  on_network-HasLevel k = ground (arith, h, read_network-HasLevel)

  on_session-HasLevel : (k : Kind) → GoodStep (on_session x memory m k name value)
  unfolding on_session
  on_session-HasLevel k = ground (
    arith,
    h,
    read_session-HasLevel Kind.on_lock_8,
    read_session-HasLevel Kind.on_lock_16,
    read_session-HasLevel Kind.on_mngmnt_8,
  )

  on_shutdown-HasLevel : (k : Kind) → GoodStep (on_shutdown x memory m k name value)
  unfolding on_shutdown
  on_shutdown-HasLevel k = ground (arith, h, read_shutdown-HasLevel)

  attribute-HasLevel : (tag : String) → GoodStep (attribute x memory tag m (name, value))
  unfolding attribute
  attribute-HasLevel tag = ground (
    arith,
    h,
    read_msg-HasLevel,
    on_resource-HasLevel (kind m.verb m.step),
    on_answer-HasLevel (kind m.verb m.step),
    on_network-HasLevel (kind m.verb m.step),
    on_session-HasLevel (kind m.verb m.step),
    on_shutdown-HasLevel (kind m.verb m.step),
  )

-- The state after a message was read in part: only a message with the right level goes on.
abbrev GoodState : Message → Type 0
GoodState m = (m.state ≡ MsgState.invalid) ⊎ HasLevel m.level

module _ (x : Codec) (memory : Memory) where
  attributes-GoodState :
      (tag : String) (list : List Attribute) (m : Message)
      → HasLevel m.level
      → GoodState (attributes x memory tag list m)
  unfolding attributes
  attributes-GoodState tag [] m h = inr h
  attributes-GoodState tag ((name, value) ∷ rest) m h =
      next (attribute x memory tag m (name, value)) refl
        (attribute-HasLevel x memory m name value h tag) (attributes-GoodState tag rest)
    where
      next :
          (s : Step)
          → attribute x memory tag m (name, value) ≡ s
          → GoodStep s
          → ((m : Message) → HasLevel m.level → GoodState (attributes x memory tag rest m))
          → GoodState (attributes x memory tag ((name, value) ∷ rest) m)
      next (go m') e g ih = rw (attributes, e) (ih m' g)
      next (stop m') e g ih = rw (attributes, e) (inl refl)

  still_valid : (m : Message) → m.state ≢ MsgState.invalid → GoodState m → HasLevel m.level
  still_valid m valid (inl broken) = absurd (valid broken)
  still_valid m valid (inr level) = level

  start-state :
      (m : Message) (tag : String) (list : List Attribute) (s : MsgState)
      → m.state ≡ s
      → GoodState m
      → GoodState (start_element x memory m tag list)
  unfolding start_element
  start-state m tag list MsgState.invalid e g = rw (start_element, e) (inl e)
  start-state m tag list MsgState.initialized e g =
      rw (start_element, e) (attributes-GoodState tag list _ (still_valid m (λ i. cc) g))
  start-state m tag list MsgState.parsing e g =
      rw (start_element, e) (attributes-GoodState tag list m (still_valid m (λ i. cc) g))
  start-state m tag list MsgState.ready e g =
      rw (start_element, e) (attributes-GoodState tag list m (still_valid m (λ i. cc) g))

  start_element-GoodState :
      (m : Message) (tag : String) (list : List Attribute)
      → GoodState m
      → GoodState (start_element x memory m tag list)
  start_element-GoodState m tag list g = start-state m tag list m.state refl g

  end_element-GoodState :
      (m : Message) (tag : String) → GoodState m → GoodState (end_element x memory m tag)
  unfolding end_element
  end_element-GoodState m tag g = ground (arith, g)

  deserialize-GoodState :
      (m : Message) (list : List Event) → GoodState m → GoodState (deserialize x memory m list).1
  unfolding deserialize
  deserialize-GoodState m [] g = g
  deserialize-GoodState m (started tag as' ∷ rest) g =
      deserialize-GoodState (start_element x memory m tag as') rest
        (start_element-GoodState m tag as' g)
  deserialize-GoodState m (ended tag ∷ rest) g =
      deserialize-GoodState (end_element x memory m tag) rest (end_element-GoodState m tag g)
  deserialize-GoodState m (some_text t ∷ rest) g = deserialize-GoodState m rest g
  deserialize-GoodState m (parse_error ∷ rest) g = g

-- Whatever the parser reports, a message that gets ready has the protocol level 3, or no level was
-- read of it at all.
pub deserialize-level :
    (x : Codec) (memory : Memory) (list : List Event)
    → (deserialize x memory init list).1.state ≡ MsgState.ready
    → HasLevel (deserialize x memory init list).1.level
deserialize-level x memory list r =
    elim (deserialize-GoodState x memory init list (inr (inl refl))) [
      | inl broken ↦ let bad = rw broken at r in cc
      | inr level ↦ level
    ]

free_kind-header :
    (k : Kind) (m : Message) → ((free_kind k m).1.verb ≡ m.verb) × ((free_kind k m).1.step ≡ m.step)
unfolding free_kind
free_kind-header k m = ground arith

free_kind-again :
    (k : Kind) (m : Message)
    → let m' = record (free_kind k m).1 { state = MsgState.invalid } in
      ((free_kind k m').0 ≡ (free_kind k m).0) × ((free_kind k m').2 ≡ [])
unfolding free_kind
free_kind-again k m = ground arith

-- Once a message has been given back, giving it back again finds no string to free a second time,
-- whatever message it was.
free-free : (m : Message) → ((free (free m).1).0 ≡ (free m).0) × ((free (free m).1).2 ≡ [])
unfolding free
free-free m =
    let k = kind m.verb m.step in
    let m' : Message = record m { state = MsgState.invalid } in
    let f = free_kind k m' in
    let header = free_kind-header k m' in
    let same : k ≡ kind f.1.verb f.1.step = rw (header.0, header.1) refl in
    subst
      (λ j.
        let again = free_kind j (record f.1 { state = MsgState.invalid }) in
        (again.0 ≡ f.0) × (again.2 ≡ []))
      same (free_kind-again k m')
