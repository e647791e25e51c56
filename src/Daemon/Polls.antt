-- ===== src/Daemon/Polls.antt =====
-- What a message from a client does to the main thread: flom_accept_loop_pollin of src/flom_daemon.c.
use flom.Prelude.{
  ℕ, ◌≡◌, refl, Bool, true, false, Bool-cases, inl, inr, not, ◌&&◌, List, [], ◌∷◌, ◌++◌, if-cases,
  arith,
}
use flom.Rsrc.Types.{Rc, is_ok}
use flom.Msg.{Bytes, MsgState, Message, init, is, check_protocol, get_peerid}
use flom.Msg.Write.{Codec}
use flom.Msg.Read.{
  Memory, Event, started, ended, some_text, parse_error, deserialize, start_element, end_element,
}
use flom.Msg.Levels.{HasLevel, deserialize-level}
use flom.Daemon.{Client, Daemon, Calls}
use flom.Daemon.Pollin.{
  Visit, Polled, throw, closes, hand_over, dispatch, check_peer, take_ready, take, pollin,
  after_pollin,
}

-- An error of the parser is the result, whatever was read before.
deserialize-parse_error :
    (x : Codec) (memory : Memory) (m : Message) (before after : List Event)
    → (deserialize x memory m (before ++ parse_error ∷ after)).0
      ≡ Rc.g_markup_parse_context_parse_error
unfolding deserialize
deserialize-parse_error x memory m [] after = refl
deserialize-parse_error x memory m (started t l ∷ rest) after =
    deserialize-parse_error x memory (start_element x memory m t l) rest after
deserialize-parse_error x memory m (ended t ∷ rest) after =
    deserialize-parse_error x memory (end_element x memory m t) rest after
deserialize-parse_error x memory m (some_text t ∷ rest) after =
    deserialize-parse_error x memory m rest after
deserialize-parse_error x memory m (parse_error ∷ rest) after = refl

module _ (covers : Bytes → Bytes → Bool) (x : Codec) (memory : Memory) (p : Visit) (k : Calls)
    (d : Daemon) (id : ℕ) (c : Client) where
  hand_over-moved :
      (m : Message)
      → (hand_over covers x memory p k d id c m).moved ≡ true
      → ((is m.verb 1 && is m.step 8) ≡ true)
        × ((hand_over covers x memory p k d id c m).message ≡ m)
  unfolding hand_over
  hand_over-moved m moved = ground (arith, moved)

  -- What a connection that has moved asked for
  record Asks (m : Message) (r : Polled) : Type 0 where
    first : r.moved ≡ true → (is m.verb 1 && is m.step 8) ≡ true
    same : r.moved ≡ true → r.message ≡ m

  stays : (m : Message) (r : Polled) → r.moved ≡ false → Asks m r
  stays m r h = record { first = λ e. absurd (cc); same = λ e. absurd (cc) }

  dispatch-Asks : (m : Message) → Asks m (dispatch covers x memory p k d id c m)
  unfolding dispatch
  dispatch-Asks m = record {
    first = λ moved. ground (arith, moved, hand_over-moved m);
    same = λ moved. ground (arith, moved, hand_over-moved m);
  }

  closes-Asks : (m : Message) (rc : Rc) → Asks m (closes p.close rc m d)
  closes-Asks m rc =
      if-cases (Asks m) (is_ok p.close) _ _ (λ e. stays m _ refl) (λ e. stays m _ refl)

  check_peer-Asks : (m : Message) → Asks m (check_peer covers x memory p k d id c m)
  unfolding check_peer
  check_peer-Asks m =
      if-cases (Asks m) (not p.has_tls) _ _ (λ e. stays m (throw Rc.no_tls_connection m d) refl)
        (λ e.
          if-cases (Asks m) (not p.peer_name) _ _ (λ f. stays m (throw Rc.null_object m d) refl)
            (λ f.
              if-cases (Asks m) (is_ok (p.cert_check (get_peerid m))) _ _ (λ g. dispatch-Asks m)
                (λ g. closes-Asks m Rc.connection_closed)))

  take_ready-Asks :
      (m : Message)
      → check_protocol m true ≡ true
      → Asks m (take_ready covers x memory p k d id c m)
  unfolding take_ready
  take_ready-Asks m allowed = rw allowed (
      if-cases (Asks m) (not (is m.verb 4) && p.checks_peer) _ _ (λ e. check_peer-Asks m)
        (λ e. dispatch-Asks m))

  take_ready-refused :
      (m : Message)
      → check_protocol m true ≡ false
      → take_ready covers x memory p k d id c m ≡ throw Rc.protocol_error m d
  unfolding take_ready
  take_ready-refused m refused = rw refused refl

  take-moved :
      (st : MsgState) (m : Message)
      → (take covers x memory p k d id c st m).moved ≡ true
      → (st ≡ MsgState.ready)
        × (check_protocol m true ≡ true)
        × ((is m.verb 1 && is m.step 8) ≡ true)
        × ((take covers x memory p k d id c st m).message ≡ m)
  unfolding take
  take-moved MsgState.ready m moved = elim (Bool-cases (check_protocol m true)) [
    | inl allowed ↦
        let a = take_ready-Asks m allowed in (refl, allowed, a.first moved, a.same moved)
    | inr refused ↦ let no = rw (take_ready-refused m refused) at moved in absurd (cc)
  ]
  take-moved MsgState.invalid m moved = ground (arith, moved)
  take-moved other m moved = absurd (cc)

-- The main thread sets the flag `moved`, once flom_accept_loop_transfer has succeeded, only for a message
-- that is ready, that the protocol allows a client to send, that is the first one of a lock, and that has
-- the protocol level of the daemon, or none; the connection has sent nothing before it.
pub pollin-moved :
    (covers : Bytes → Bytes → Bool) (x : Codec) (memory : Memory) (p : Visit) (k : Calls)
    (d : Daemon) (id : ℕ) (c : Client)
    → let r = pollin covers x memory p k d id c init in
      r.moved ≡ true
      → (r.message.state ≡ MsgState.ready)
        × (check_protocol r.message true ≡ true)
        × ((is r.message.verb 1 && is r.message.step 8) ≡ true)
        × HasLevel r.message.level
unfolding pollin
pollin-moved covers x memory p k d id c moved = elim (Bool-cases (is_ok p.recv)) [
  | inr lost ↦ let no = rw lost at moved in absurd (cc)
  | inl received ↦ elim (Bool-cases p.empty) [
    | inl gone ↦ let no = rw (received, gone) at moved in absurd (cc)
    | inr some_data ↦ elim (Bool-cases (is_ok (deserialize x memory init p.events).0)) [
      | inr bad ↦ let no = rw (received, some_data, bad) at moved in absurd (cc)
      | inl read ↦
          let m = (deserialize x memory init p.events).1 in
          let t =
            take-moved covers x memory p k d id c m.state m
              (rw (received, some_data, read) at moved) in
          rw (received, some_data, read, t.3)
            (t.0, t.1, t.2, deserialize-level x memory p.events t.0)
    ]
  ]
]

-- A text that arrives and is not well-formed ends the daemon, whatever its tags were before the error:
-- the code is that of the parser, with which the loop of the daemon ends, and no connection or locker has
-- changed.
pub pollin-malformed :
    (covers : Bytes → Bytes → Bool) (x : Codec) (memory : Memory) (p : Visit) (k : Calls)
    (d : Daemon) (id : ℕ) (c : Client) (m : Message) (before after : List Event)
    → p.recv ≡ Rc.ok
    → p.empty ≡ false
    → p.events ≡ before ++ parse_error ∷ after
    → let r = pollin covers x memory p k d id c m in
      (after_pollin r.rc p.close ≡ Rc.g_markup_parse_context_parse_error) × (r.daemon ≡ d)
unfolding pollin after_pollin
pollin-malformed covers x memory p k d id c m before after received some_data e =
    let bad : (deserialize x memory m p.events).0 ≡ Rc.g_markup_parse_context_parse_error =
      rw e (deserialize-parse_error x memory m before after) in
    rw (received, some_data, bad) (refl, refl)

-- So does a message that arrives complete and is not one that the protocol allows a client to send.
pollin-refused :
    (covers : Bytes → Bytes → Bool) (x : Codec) (memory : Memory) (p : Visit) (k : Calls)
    (d : Daemon) (id : ℕ) (c : Client) (m : Message)
    → p.recv ≡ Rc.ok
    → p.empty ≡ false
    → let read = deserialize x memory m p.events in
      read.0 ≡ Rc.ok
      → read.1.state ≡ MsgState.ready
      → check_protocol read.1 true ≡ false
      → let r = pollin covers x memory p k d id c m in
        (after_pollin r.rc p.close ≡ Rc.protocol_error) × (r.daemon ≡ d)
unfolding pollin take after_pollin
pollin-refused covers x memory p k d id c m received some_data read ready refused =
    let m' = (deserialize x memory m p.events).1 in
    rw (received, some_data, read, ready, take_ready-refused covers x memory p k d id c m' refused)
      (refl, refl)
