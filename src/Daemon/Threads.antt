-- ===== src/Daemon/Threads.antt =====
-- The daemon with its threads: one step of the main thread or of a locker after another, in any order.
use flom.Prelude.{
  ℕ, suc, Bool, true, false, ◌==◌, if◌then◌else◌, Option, none, some, List, [], ◌∷◌, ◌++◌,
  get_elem?, set,
}
use flom.Rsrc.Types.{Rc, is_ok, Conn}
use flom.Rsrc.Names.{RsrcType}
use flom.Msg.{Bytes}
use flom.Conns.{remove_index_fast}
use flom.Daemon.{Wish, Client, Locker, Daemon, Calls, Done, ends, modify, transfer, check_lockers}

-- The first record of a connection goes.
unfoldable pub without : Conn → List Client → List Client
without conn [] = []
without conn (c ∷ cs) = let rest = without conn cs in if c.conn == conn then cs else c ∷ rest

-- What a locker thread does for one event of poll, while its own calls raise no error.
pub data LockerStep : Type 0 where
  -- POLLIN on the pipe: flom_locker_loop_pollin imports the next connection.
  imports : LockerStep
  -- POLLIN on a connection: a message, which the resource treats
  message : LockerStep
  -- The end of a connection, found by a read, or by POLLHUP
  client_gone_by_read client_gone : Conn → LockerStep
  -- poll has timed out.
  timed_out : LockerStep
  -- POLLHUP on the pipe, which the main thread has closed
  hung_up : LockerStep

unfoldable pub import_next : Locker → List Client → Locker
import_next l [] = l
import_next l (c ∷ rest) = record l {
  idle_periods = 0;
  read_sequence = suc l.read_sequence;
  pipe = rest;
  clients = l.clients ++ c ∷ [];
}

unfoldable pub add_idle : Locker → List Client → Locker
add_idle l [] = record l { idle_periods = suc l.idle_periods }
add_idle l (c ∷ rest) = l

unfoldable pub close_read : Locker → Bool → Locker
close_read l true = l
close_read l false = record l { read_open = false }

unfoldable pub locker_step : LockerStep → Locker → Locker
unfolding import_next add_idle close_read
locker_step imports l = import_next l l.pipe
locker_step message l = record l { idle_periods = 0 }
locker_step (client_gone_by_read c) l = record l { idle_periods = 0; clients = without c l.clients }
locker_step (client_gone c) l = record l { clients = without c l.clients }
locker_step timed_out l = add_idle l l.clients
locker_step hung_up l = close_read l l.write_open

-- flom_conns_close_fd marks a connection, and closes its socket.
abbrev pub shut : Client → Client
shut c = record c { closed = true }

unfoldable pub mark : Daemon → ℕ → Option Client → Daemon
mark d id none = d
mark d id (some c) = record d { conns = set d.conns id (shut c) }

-- One removal of flom_conns_clean, if the connection is marked
unfoldable pub clean : Daemon → ℕ → Option Client → Daemon
clean d id none = d
clean d id (some c) = record d {
  conns = if c.closed then remove_index_fast d.conns id else d.conns;
}

-- What the main thread does, or the locker at a place of the array: a new connection, a lock request of
-- the connection at a place, the end of that connection, its removal from the array, the check of the lockers.
pub data Act : Type 0 where
  accepted : Conn → Wish → Act
  requested : Calls → ℕ → Wish → Act
  conn_gone cleaned : ℕ → Act
  checked : (ℕ → Bool) → Act
  in_locker : ℕ → LockerStep → Act

module _ (covers : Bytes → Bytes → Bool) (type_of : Bytes → RsrcType) where
  unfoldable pub request_of : Calls → Daemon → ℕ → Wish → Option Client → Done
  request_of k d id wish none = ends Rc.obj_corrupted d
  request_of k d id wish (some c) =
      let c' : Client = record c { wish = wish } in
      transfer covers type_of k (record d { conns = set d.conns id c' }) id c'

  -- The code is that of the main thread, which goes on only if it is FLOM_RC_OK.
  unfoldable pub act : Daemon → Act → Done
  unfolding request_of mark clean
  act d (accepted conn wish) = ends Rc.ok (record d {
    conns = d.conns ++ record { conn = conn; wait = false; closed = false; wish = wish } ∷ [];
    last_uid = suc d.last_uid;
  })
  act d (requested k id wish) = request_of k d id wish (get_elem? d.conns id)
  act d (conn_gone id) = ends Rc.ok (mark d id (get_elem? d.conns id))
  act d (cleaned id) = ends Rc.ok (clean d id (get_elem? d.conns id))
  act d (checked close) =
      let c = check_lockers close d.lockers in ends c.0 (record d { lockers = c.1.lockers })
  act d (in_locker i s) = ends Rc.ok (record d { lockers = modify i (locker_step s) d.lockers })

  -- The acts in any order, as long as the main thread goes on
  unfoldable pub run : Daemon → List Act → Done
  run d [] = ends Rc.ok d
  run d (a ∷ rest) =
      let done = act d a in let next = run done.daemon rest in if is_ok done.rc then next else done
