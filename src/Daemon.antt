-- ===== src/Daemon.antt =====
-- src/flom_daemon.c and src/flom_locker.c: the main thread of the daemon, which hands its connections to
-- locker threads, one for each resource, and ends those that are idle.
pub mod Threads
pub mod Arrays
pub mod Apart
pub mod Sane
pub mod Acts
pub mod Runs
pub mod Service
pub mod Working
pub mod Gathering
pub mod Pollin
pub mod Polls
pub mod Sound
use flom.Prelude.{
  ℕ, zero, suc, ◌+◌, ◌-◌, Bool, true, false, not, ◌&&◌, ◌||◌, ◌==◌, ltb, if◌then◌else◌, Option,
  none, some, List, [], ◌∷◌, ◌++◌, length, get_elem?, set,
}
use flom.Rsrc.Types.{Rc, is_ok, Conn}
use flom.Rsrc.Names.{RsrcType}
use flom.Locker.{max_idle_periods}
use flom.Msg.{Bytes}
use flom.Conns.{remove_index_fast}

-- The fields of a lock request that the main thread reads
pub record Wish : Type 0 where
  pub name : Bytes
  pub create : Bool
  pub wait : Bool

-- A connection of the main thread; `wait` puts it into the incubator, `closed` says that its socket is
-- closed and that it is to be removed, and `wish` is its last message.
pub record Client : Type 0 where
  pub conn : Conn
  pub wait : Bool
  pub closed : Bool
  pub wish : Wish

-- struct flom_locker_s, with what belongs to its thread: the pipe, as the connections that are written
-- and not yet read, and the connections that the thread has imported.
pub record Locker : Type 0 where
  pub uid : ℕ
  pub name : Bytes
  pub write_open : Bool
  pub read_open : Bool
  pub write_sequence : ℕ
  pub read_sequence : ℕ
  pub idle_periods : ℕ
  pub pipe : List Client
  pub clients : List Client

-- The main thread: its connections from place 1 on (place 0 is the listening socket and stays), the
-- lockers, and the last unique identifier.
pub record Daemon : Type 0 where
  pub conns : List Client
  pub lockers : List Locker
  pub last_uid : ℕ

-- What the calls of one operation give: the answers to the client, the start of a locker with its
-- resource, pipe and thread, and the two writes to the pipe of a locker for a connection.
pub record Calls : Type 0 where
  pub reply : Rc
  pub resource_init : Rc
  pub pipe : Bool
  pub thread_new : Bool
  pub write_token : Conn → Bool
  pub write_conn : Conn → Bool

pub record Done : Type 0 where
  pub rc : Rc
  pub daemon : Daemon

abbrev pub ends : Rc → Daemon → Done
ends rc d = record { rc = rc; daemon = d }

-- The change of one locker of the array
unfoldable pub modify : ℕ → (Locker → Locker) → List Locker → List Locker
modify i f [] = []
modify zero f (l ∷ ls) = f l ∷ ls
modify (suc i) f (l ∷ ls) = l ∷ modify i f ls

abbrev pub is_open : Locker → Bool
is_open l = l.write_open && l.read_open

-- flom_accept_loop_transfer_conn: the token, then the removal of the connection from the array, then
-- the pointer to the connection.
abbrev pub numbered : Locker → Locker
numbered l = record l { write_sequence = suc l.write_sequence }

abbrev pub sent_to : Client → Locker → Locker
sent_to c l = record l { write_sequence = suc l.write_sequence; pipe = l.pipe ++ c ∷ [] }

unfoldable pub transfer_conn : Calls → Daemon → ℕ → ℕ → Client → Done
transfer_conn k d id locker c =
    let counted = record d { lockers = modify locker numbered d.lockers } in
    let removed = record counted { conns = remove_index_fast d.conns id } in
    if not (k.write_token c.conn)
    then ends (Rc.write_error) counted
    else if not (k.write_conn c.conn)
    then ends (Rc.write_error) removed
    else ends Rc.ok (record d {
      lockers = modify locker (sent_to c) d.lockers;
      conns = remove_index_fast d.conns id;
    })

-- The resource of a locker covers a name if its compare_name finds them equal.
module _ (covers : Bytes → Bytes → Bool) where
  -- The search of flom_accept_loop_transfer for a locker that is not terminating
  unfoldable pub find_locker : List Locker → Bytes → Option ℕ
  find_locker [] name = none
  find_locker (l ∷ ls) name =
      let rest = find_locker ls name in
      if is_open l && covers l.name name
      then some 0
      else elim rest [ none ↦ none | some i ↦ some (suc i) ]

  -- The scan of the incubator from place i on, on fuel: each connection that waits for the resource of
  -- the locker goes to it, and the place is looked at again.
  unfoldable pub scan_incubator : Calls → ℕ → ℕ → Bytes → ℕ → Daemon → Done
  scan_incubator k locker zero name i d = ends Rc.internal_error d
  scan_incubator k locker (suc fuel) name i d = elim (get_elem? d.conns i) [
    | none ↦ ends Rc.ok d
    | some c ↦
        let moved = transfer_conn k d i locker c in
        let again = scan_incubator k locker fuel name i moved.daemon in
        let next = scan_incubator k locker fuel name (suc i) d in
        if c.wait && covers name c.wish.name then if is_ok moved.rc then again else moved else next
  ]

  -- flom_accept_loop_start_locker
  abbrev pub new_locker : ℕ → Bytes → Locker
  new_locker uid name = record {
    uid = uid;
    name = name;
    write_open = true;
    read_open = true;
    write_sequence = 0;
    read_sequence = 0;
    idle_periods = 0;
    pipe = [];
    clients = [];
  }

  unfoldable pub start_rc : Calls → Rc
  start_rc k =
      if is_ok k.resource_init
      then if k.pipe then if k.thread_new then Rc.ok else Rc.g_thread_new_error else Rc.pipe_error
      else Rc.resource_init_error

  abbrev pub started : Daemon → Bytes → Daemon
  started d name = record d {
    last_uid = suc d.last_uid;
    lockers = d.lockers ++ new_locker (suc d.last_uid) name ∷ [];
  }

  abbrev pub waiting : Client → Client
  waiting c = record c { wait = true }

  -- The branches of flom_accept_loop_transfer without a locker for the resource
  unfoldable pub transfer_new : Calls → Daemon → ℕ → Client → Done
  transfer_new k d id c =
      let locker = length d.lockers in
      let counted = record d { last_uid = suc d.last_uid } in
      let given = transfer_conn k (started d c.wish.name) id locker c in
      let fuel = suc (length given.daemon.conns) in
      if is_ok k.resource_init
      then if is_ok (start_rc k)
        then if is_ok given.rc
          then scan_incubator k locker fuel c.wish.name 0 given.daemon
          else given
        else ends (start_rc k) counted
      else ends Rc.ok counted

  unfoldable pub transfer_absent : Calls → Daemon → ℕ → Client → Done
  unfolding transfer_new
  transfer_absent k d id c =
      if c.wish.create
      then transfer_new k d id c
      else if is_ok k.reply
      then if c.wish.wait
        then ends Rc.ok (record d { conns = set d.conns id (waiting c) })
        else ends Rc.ok d
      else ends k.reply d

  -- flom_accept_loop_transfer of the lock request of a connection, from the check of the name on
  unfoldable pub transfer : (Bytes → RsrcType) → Calls → Daemon → ℕ → Client → Done
  unfolding transfer_absent
  transfer type_of k d id c = elim (type_of c.wish.name) [
    | RsrcType.null ↦ ends k.reply d
    | _ ↦ elim (find_locker d.lockers c.wish.name) [
      | some i ↦ transfer_conn k d id i c
      | none ↦ transfer_absent k d id c
    ]
  ]

-- flom_accept_loop_chklockers for the locker at one place; `again` is set when it was removed, which
-- ends the loop.
pub record Checked : Type 0 where
  pub lockers : List Locker
  pub again : Bool

abbrev pub is_idle : Locker → Bool
is_idle l = l.write_sequence == l.read_sequence && ltb max_idle_periods l.idle_periods

abbrev pub close_write : Locker → Locker
close_write l = record l { write_open = false }

abbrev pub kept : Locker → Rc × Checked → Rc × Checked
kept l (rc, rest) = (rc, record rest { lockers = l ∷ rest.lockers })

-- One locker of the loop, by the tests on it: whether it is idle, its two pipes, and what close gives
unfoldable pub check_locker :
    Locker → List Locker → Rc × Checked → Bool → Bool → Bool → Bool → Rc × Checked
check_locker l ls rest false write read close = kept l rest
check_locker l ls rest true true read true = kept (close_write l) rest
check_locker l ls rest true true read false =
    (Rc.close_error, record { lockers = l ∷ ls; again = false })
check_locker l ls rest true false true close = kept l rest
check_locker l ls rest true false false close = (Rc.ok, record { lockers = ls; again = true })

-- The loop over the array
unfoldable pub check_lockers : (ℕ → Bool) → List Locker → Rc × Checked
unfolding check_locker
check_lockers close [] = (Rc.ok, record { lockers = []; again = false })
check_lockers close (l ∷ ls) =
    let rest = check_lockers close ls in
    check_locker l ls rest (is_idle l) l.write_open l.read_open (close l.uid)
