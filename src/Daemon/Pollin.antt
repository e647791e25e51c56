-- ===== src/Daemon/Pollin.antt =====
-- flom_accept_loop_pollin of src/flom_daemon.c for a connection that has data: the message is read, and
-- the main thread does what it asks for.
use flom.Prelude.{ℕ, Bool, true, false, not, ◌&&◌, Option, List, if◌then◌else◌}
use flom.Rsrc.Types.{Rc, is_ok}
use flom.Msg.{Bytes, MsgState, Message, is, check_protocol, get_peerid}
use flom.Msg.Write.{Codec, string_or_empty}
use flom.Msg.Read.{Memory, Event, deserialize}
use flom.Daemon.{Wish, Client, Daemon, Calls, transfer}
use flom.Daemon.Acts.{asked}

-- What the calls of one visit give: flom_conn_recv and the text, as the parser reports it, the closing
-- of the connection, the check of the peer (whether the configuration asks for it, whether there is a
-- TLS connection and a name of the peer, flom_tls_cert_check), and the replies to other messages.
pub record Visit : Type 0 where
  pub recv : Rc
  pub empty : Bool
  pub events : List Event
  pub close : Rc
  pub checks_peer : Bool
  pub has_tls : Bool
  pub peer_name : Bool
  pub cert_check : Option Bytes → Rc
  pub getnameinfo : Bool
  pub discover_reply : Rc
  pub mngmnt : Rc

pub record Polled : Type 0 where
  pub rc : Rc
  pub message : Message
  pub daemon : Daemon
  pub closed : Bool
  pub moved : Bool

-- A THROW that leaves the daemon as it is
abbrev pub throw : Rc → Message → Daemon → Polled
throw rc m d = record { rc = rc; message = m; daemon = d; closed = false; moved = false }

-- flom_conns_close_fd, and the code if it closes
abbrev pub closes : Rc → Rc → Message → Daemon → Polled
closes close rc m d =
    if is_ok close
    then record { rc = rc; message = m; daemon = d; closed = true; moved = false }
    else throw close m d

-- The fields of a lock message that the main thread reads
unfoldable pub wish_of : Message → Wish
wish_of m = record {
  name = string_or_empty m.lock_8.name;
  create = not (is m.lock_8.create 0);
  wait = not (is m.lock_8.wait 0);
}

module _ (covers : Bytes → Bytes → Bool) (x : Codec) (memory : Memory) (p : Visit) (k : Calls)
    (d : Daemon) (id : ℕ) (c : Client) where
  -- flom_accept_loop_transfer with its check of the verb and the step
  unfoldable pub hand_over : Message → Polled
  unfolding wish_of
  hand_over m =
      let c' : Client = record c { wish = wish_of m } in
      let done = transfer covers x.type_of k (asked d id c') id c' in
      if is m.verb 1 && is m.step 8
      then if is_ok done.rc
        then record { rc = Rc.ok; message = m; daemon = done.daemon; closed = false; moved = true }
        else throw done.rc m done.daemon
      else throw Rc.protocol_error m d

  -- The verbs, once the peer is checked
  unfoldable pub dispatch : Message → Polled
  unfolding hand_over
  dispatch m =
      if is m.verb 4
      then if p.getnameinfo then throw p.discover_reply m d else throw Rc.getnameinfo_error m d
      else if is m.verb 5
      then throw p.mngmnt m d
      else hand_over m

  -- The check of the peer
  unfoldable pub check_peer : Message → Polled
  unfolding dispatch
  check_peer m =
      if not p.has_tls
      then throw Rc.no_tls_connection m d
      else if not p.peer_name
      then throw Rc.null_object m d
      else if is_ok (p.cert_check (get_peerid m))
      then dispatch m
      else closes p.close Rc.connection_closed m d

  -- A message that is complete
  unfoldable pub take_ready : Message → Polled
  unfolding check_peer dispatch
  take_ready m =
      if not (check_protocol m true)
      then throw Rc.protocol_error m d
      else if not (is m.verb 4) && p.checks_peer
      then check_peer m
      else dispatch m

  -- What the parser has made of the text
  unfoldable pub take : MsgState → Message → Polled
  unfolding take_ready
  take MsgState.ready m = take_ready m
  take MsgState.invalid m = closes p.close Rc.ok m d
  take other m = throw Rc.ok m d

  unfoldable pub pollin : Message → Polled
  unfolding take
  pollin m =
      let read = deserialize x memory m p.events in
      if is_ok p.recv
      then if p.empty
        then throw Rc.connection_closed m d
        else if is_ok read.0
        then take read.1.state read.1
        else throw read.0 read.1 d
      else throw Rc.connection_closed m d

-- What flom_accept_loop does after a visit: a connection that is gone is closed, any other error ends
-- the loop.
unfoldable pub after_pollin : Rc → Rc → Rc
after_pollin Rc.connection_closed close = close
after_pollin rc close = rc
