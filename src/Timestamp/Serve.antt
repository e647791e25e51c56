-- ===== src/Timestamp/Serve.antt =====
-- The operations of a timestamp resource (src/flom_resource_timestamp.c), with the clock they read.
use text.Mathlib.Text.{◌==◌ as str_eq}
use flom.Prelude.{
  ℕ, suc, String, Bool, true, false, Option, none, some, List, [], ◌∷◌, ◌++◌, if◌then◌else◌, ◌≡◌,
  ap,
}
use flom.Prelude.Int.{pos, ◌+ℤ◌, ◌-ℤ◌}
use flom.Rsrc.Types.{Rc, is_ok, Conn, ConnLock, LockBody, Msg, lock, unlock, other_verb}
use flom.Rsrc.Env.{
  Env, World, vfs_add_locker_conn, vfs_add_locker_conn_file, vfs_move_locker_conn, emit, notify,
}
use flom.Rsrc.Holders.{find_conn, remove_conn}
use flom.Rsrc.Scan.{Step, Scan, blocked, granted, failed, run_waitings, scan, run_waitings-scan}
use flom.Rsrc.Calls.{
  Outcome, Cleaned, Created, created, not_created, Call, message, closed, refuse, reply, reply_then,
  forget, release_msg,
}
use flom.Rsrc.Names.{Number, get_number}
use flom.Timestamp.{Timeval, Timestamp, can_lock, next_deadline, format_interval}

-- What the system gives for each reading of the clock: the time of gettimeofday, which does not fail at
-- a valid address; whether g_strdup copies the format; whether localtime_r breaks a time up; and the
-- time written in a format.
pub record Clock : Type 0 where
  pub gettimeofday : ℕ → Timeval
  pub copies_format : ℕ → Bool
  pub localtime_r : Timeval → Bool
  pub written : String → Timeval → String

-- The resource, the readings of the clock so far, and the deadline that the locker waits for.
pub record Timed : Type 0 where
  pub resource : Timestamp
  pub readings : ℕ
  pub deadline : Timeval

abbrev pub TimestampLock : Type 0
TimestampLock = ConnLock Timeval

-- flom_rsrc_conn_lock_new clears the record, and no one writes its timestamp.
abbrev pub new_lock : Conn → TimestampLock
new_lock c = record { info = record { sec = 0; usec = 0 }; name = none; rollback = false; conn = c }

-- flom_resource_timestamp_init; `infix` is what flom_rsrc_get_infix finds in a name, `digits` the
-- number, and `has` tells whether a format has a string.
unfoldable pub init_number :
    (String → String → Bool) → Env → World → String → String → Timeval → Number → Created Timed
init_number has e w name format start (Number.no_number rc) = not_created rc
init_number has e w name format start (Number.number total) =
    if e.queue_new w.log
    then elim (format_interval (has format)) [
      | none ↦ not_created Rc.invalid_timestamp_format
      | some interval ↦ created (record {
        resource = record {
          name = name;
          format = format;
          interval = interval;
          total_quantity = total;
          locked_quantity = pos 0;
          last_timestamp = record { sec = 0; usec = 0 };
          holders = [];
          waitings = [];
        };
        readings = 0;
        deadline = start;
      })
    ]
    else not_created Rc.g_queue_new_error

unfoldable pub init_infix :
    (String → String → Bool)
    → (String → Option (List ℕ))
    → Env
    → World
    → String
    → Timeval
    → Rc × String
    → Created Timed
unfolding init_number
init_infix has digits e w name start (rc, format) =
    if is_ok rc
    then init_number has e w name format start (get_number (digits name))
    else not_created rc

unfoldable pub init :
    (String → String → Bool)
    → (String → Rc × String)
    → (String → Option (List ℕ))
    → Env
    → World
    → String
    → Timeval
    → Created Timed
unfolding init_infix
init has infix_of digits e w name start =
    if e.strdup w.log
    then init_infix has digits e w name start (infix_of name)
    else not_created Rc.g_strdup_error

-- flom_resource_timestamp_can_lock, at the next reading of the clock
abbrev pub check : Clock → Timed → Bool
check clock s = can_lock s.resource (clock.gettimeofday s.readings)

abbrev pub checked : Timed → Timed
checked s = record s { readings = suc s.readings }

-- flom_resource_timestamp_get: the time is noted before anything can fail.
abbrev pub stamped : Clock → Timed → Timed
stamped clock s = record s {
  resource = record s.resource { last_timestamp = clock.gettimeofday s.readings };
  readings = suc s.readings;
}

unfoldable pub get_rc : Clock → Timed → Rc
get_rc clock s =
    if clock.copies_format s.readings
    then if clock.localtime_r (clock.gettimeofday s.readings) then Rc.ok else Rc.localtime_r_error
    else Rc.g_strdup_error

abbrev pub element_of : Clock → Timed → Option String
element_of clock s = some (clock.written s.resource.format (clock.gettimeofday s.readings))

unfoldable pub hold : Timed → TimestampLock → Timed
hold s cl = record s {
  resource = record s.resource {
    holders = cl ∷ s.resource.holders;
    locked_quantity = s.resource.locked_quantity +ℤ pos 1;
  };
}

abbrev pub with_waitings : Timed → List TimestampLock → Timed
with_waitings s queue = record s { resource = record s.resource { waitings = queue } }

-- One round of the loop of flom_resource_timestamp_waitings; the text goes to the client and, but for a
-- newline at its end, to the virtual file system.
unfoldable pub grant_waiting :
    Clock → Timed → ℕ → TimestampLock → String → Rc × World → Step (Timed × World)
unfolding emit
grant_waiting clock s uid cl text (rc, w) =
    if is_ok rc
    then granted (
      hold s cl,
      emit (vfs_move_locker_conn cl.conn) (emit (vfs_add_locker_conn_file uid cl.conn text) w),
    )
    else failed rc (s, w)

unfoldable pub try_waiting : Clock → Env → ℕ → Timed × World → TimestampLock → Step (Timed × World)
unfolding grant_waiting get_rc
try_waiting clock e uid (s, w) cl =
    let seen = checked s in
    let text = clock.written s.resource.format (clock.gettimeofday seen.readings) in
    let rc = get_rc clock seen in
    if check clock s
    then if is_ok rc
      then grant_waiting clock (stamped clock seen) uid cl text (notify e cl.conn (some text) w)
      else failed rc (stamped clock seen, w)
    else blocked (seen, w)

abbrev pub settle : Scan (Timed × World) TimestampLock → Cleaned Timed
settle d = record { rc = d.rc; resource = with_waitings d.state.0 d.queue; world = d.state.1 }

-- flom_resource_timestamp_waitings
unfoldable pub waitings : Clock → Env → Timed → ℕ → World → Cleaned Timed
waitings clock e s uid w =
    settle (run_waitings (try_waiting clock e uid) (s, w) s.resource.waitings)

pub waitings-scan :
    (clock : Clock) (e : Env) (s : Timed) (uid : ℕ) (w : World)
    → waitings clock e s uid w ≡ settle (scan (try_waiting clock e uid) (s, w) s.resource.waitings)
unfolding waitings
waitings-scan clock e s uid w =
    ap settle (run_waitings-scan (try_waiting clock e uid) (s, w) s.resource.waitings)

-- flom_resource_timestamp_clean
unfoldable pub let_go : Timed → Conn → Timed
let_go s c = record s {
  resource = record s.resource {
    holders = remove_conn s.resource.holders c;
    locked_quantity = s.resource.locked_quantity -ℤ pos 1;
  };
}

unfoldable pub clean_found :
    Clock → Env → Timed → ℕ → Conn → World → Option TimestampLock → Cleaned Timed
clean_found clock e s uid c w (some cl) = waitings clock e (let_go s c) uid w
clean_found clock e s uid c w none = record {
  rc = Rc.ok;
  resource = with_waitings s (remove_conn s.resource.waitings c);
  world = w;
}

unfoldable pub clean : Clock → Env → Timed → ℕ → Conn → World → Cleaned Timed
unfolding clean_found
clean clock e s uid c w = forget c (clean_found clock e s uid c w (find_conn s.resource.holders c))

-- flom_resource_timestamp_timeout
unfoldable pub timeout_waiting : Clock → Cleaned Timed → Cleaned Timed
timeout_waiting clock d =
    if is_ok d.rc
    then record d { resource = record d.resource { deadline = next_deadline d.resource.resource } }
    else d

unfoldable pub timeout_queue : Clock → Env → Timed → ℕ → World → List TimestampLock → Cleaned Timed
unfolding timeout_waiting
timeout_queue clock e s uid w [] = record { rc = Rc.ok; resource = s; world = w }
timeout_queue clock e s uid w (cl ∷ rest) =
    if check clock s
    then timeout_waiting clock (waitings clock e (checked s) uid w)
    else record { rc = Rc.ok; resource = checked s; world = w }

unfoldable pub timeout : Clock → Env → Timed → ℕ → World → Cleaned Timed
unfolding timeout_queue
timeout clock e s uid w = timeout_queue clock e s uid w s.resource.waitings

-- The lock verb of flom_resource_timestamp_inmsg: no lock is impossible.
unfoldable pub request : Clock → Env → Timed → ℕ → Conn → LockBody → World → Outcome Timed
unfolding emit get_rc
request clock e s uid c body w =
    let seen = checked s in
    let late = record seen { deadline = next_deadline s.resource } in
    let freed = e.msg_free w.log in
    let room = e.try_malloc w.log in
    let rc = get_rc clock seen in
    if is_ok freed
    then if check clock s
      then if room
        then if is_ok rc
          then reply_then (vfs_add_locker_conn uid c true)
              (reply e (hold (stamped clock seen) (new_lock c)) c Rc.ok (element_of clock seen) w)
          else refuse rc (stamped clock seen) w
        else refuse Rc.g_try_malloc_error seen w
      else if body.wait
      then if room
        then reply e (with_waitings late (s.resource.waitings ++ new_lock c ∷ [])) c
            Rc.lock_enqueued none (emit (vfs_add_locker_conn uid c false) w)
        else refuse Rc.g_try_malloc_error late w
      else reply e seen c Rc.lock_busy none w
    else refuse freed seen w

-- flom_resource_timestamp_inmsg
unfoldable pub inmsg : Clock → Env → Timed → ℕ → Conn → Msg → World → Outcome Timed
inmsg clock e s uid c (lock body) w = request clock e s uid c body w
inmsg clock e s uid c (unlock body) w =
    if str_eq s.resource.name body.name
    then release_msg e (clean clock e s uid c w)
    else refuse Rc.invalid_option s w
inmsg clock e s uid c (other_verb v) w = refuse Rc.protocol_error s w

-- What a locker calls the resource for: a message or the end of a connection, or the deadline.
pub data Event : Type 0 where
  called : Call → Event
  timed_out : ℕ → Event

unfoldable pub step : Clock → Timed × World → Env × Event → Timed × World
step clock (s, w) (e, called (message uid c msg)) =
    let o = inmsg clock e s uid c msg w in (o.resource, o.world)
step clock (s, w) (e, called (closed uid c)) =
    let d = clean clock e s uid c w in (d.resource, d.world)
step clock (s, w) (e, timed_out uid) = let d = timeout clock e s uid w in (d.resource, d.world)

unfoldable pub run : Clock → Timed × World → List (Env × Event) → Timed × World
run clock s [] = s
run clock s (x ∷ xs) = run clock (step clock s x) xs
