-- ===== src/Examples/Daemon.antt =====
-- A run of the daemon: two connections share a locker, which ends; a third one waits for a resource that
-- nobody has.
use flom.Prelude.{
  ℕ, ◌≡◌, ◌≢◌, ◌⊎◌, refl, Bool, true, false, ◌==◌, none, List, [], ◌∷◌, ◌++◌, ◌+◌, length, arith,
}
use flom.Rsrc.Types.{Rc}
use flom.Rsrc.Names.{RsrcType}
use flom.Msg.{Bytes}
use flom.Daemon.{
  is_open, Wish, Client, Locker, Daemon, Calls, transfer, check_lockers, find_locker,
  scan_incubator, start_rc, transfer_new, transfer_absent, transfer_conn, modify, check_locker,
}
use flom.Daemon.Threads.{
  imports, client_gone_by_read, timed_out, hung_up, Act, accepted, requested, checked, in_locker,
  locker_step, without, import_next, add_idle, close_read, act, run, request_of,
}
use flom.Daemon.Working.{IsWorking}
use flom.Daemon.Gathering.{InPipe, transfer-gathers}
use flom.Daemon.Service.{start, charges, run-start-one_locker, run-start-drained, run-start-hatched}
use flom.Conns.{remove_index_fast, refill, last, drop_last}

-- Names are single characters, and a resource covers its own name.
abbrev first_of : Bytes → ℕ
first_of name = elim name [ [] ↦ 0 | x ∷ rest ↦ x ]

abbrev same : Bytes → Bytes → Bool
same a b = first_of a == first_of b

abbrev all_simple : Bytes → RsrcType
all_simple name = RsrcType.simple

abbrev works : Calls
works = record {
  reply = Rc.ok;
  resource_init = Rc.ok;
  pipe = true;
  thread_new = true;
  write_token = λ c. true;
  write_conn = λ c. true;
}

abbrev uses : ℕ → Wish
uses x = record { name = x ∷ []; create = false; wait = true }

abbrev creates : ℕ → Wish
creates x = record { name = x ∷ []; create = true; wait = true }

-- The first connection waits for 7, the second one creates it, the third one waits for 8.
abbrev arrivals : List Act
arrivals =
    accepted 1 (uses 0)
    ∷ accepted 2 (uses 0)
    ∷ accepted 3 (uses 0)
    ∷ requested works 0 (uses 7)
    ∷ requested works 2 (uses 8)
    ∷ requested works 1 (creates 7)
    ∷ []

-- The locker imports its two connections, and they end.
abbrev service : List Act
service =
    in_locker 0 imports
    ∷ in_locker 0 imports
    ∷ in_locker 0 (client_gone_by_read 1)
    ∷ in_locker 0 (client_gone_by_read 2)
    ∷ []

-- The locker of 7 ends while another connection asks for 7.
abbrev turnover : List Act
turnover =
    in_locker 0 timed_out
    ∷ in_locker 0 timed_out
    ∷ in_locker 0 timed_out
    ∷ checked (λ uid. true)
    ∷ accepted 4 (uses 0)
    ∷ requested works 1 (creates 7)
    ∷ in_locker 0 hung_up
    ∷ []

abbrev day : List Act
day = arrivals ++ service ++ turnover

abbrev evening : Daemon
evening = (run same all_simple start day).daemon

abbrev first_locker : Locker
first_locker = record {
  uid = 4;
  name = 7 ∷ [];
  write_open = false;
  read_open = false;
  write_sequence = 2;
  read_sequence = 2;
  idle_periods = 3;
  pipe = [];
  clients = [];
}

abbrev second_locker : Locker
second_locker = record {
  uid = 6;
  name = 7 ∷ [];
  write_open = true;
  read_open = true;
  write_sequence = 1;
  read_sequence = 0;
  idle_periods = 0;
  pipe = record { conn = 4; wait = false; closed = false; wish = creates 7 } ∷ [];
  clients = [];
}

abbrev third : Client
third = record { conn = 3; wait = true; closed = false; wish = uses 8 }

evening_state : run same all_simple start day ≡ record {
  rc = Rc.ok;
  daemon = record { conns = third ∷ []; lockers = first_locker ∷ second_locker ∷ []; last_uid = 6 };
}
unfolding run act request_of transfer transfer_absent transfer_new transfer_conn scan_incubator
    find_locker check_lockers check_locker modify locker_step without import_next add_idle
    close_read remove_index_fast refill last drop_last start_rc
evening_state = refl

run-start-drained_example :
    ((is_open first_locker ≡ true) ⊎ (charges first_locker ≡ 0))
    × (2 ≡ 2 + length first_locker.pipe)
run-start-drained_example =
    run-start-drained same all_simple day (rw evening_state refl) 0 first_locker
      (rw evening_state refl)

has_type : RsrcType.simple ≢ RsrcType.null
has_type e = cc

run-start-hatched_example : same second_locker.name third.wish.name ≡ false
run-start-hatched_example =
    run-start-hatched same all_simple day (rw evening_state refl) 0 1 third second_locker
      (rw evening_state refl) (rw evening_state refl) refl has_type refl

-- Two lockers at work
abbrev morning : List Act
morning =
    accepted 1 (uses 0)
    ∷ accepted 2 (uses 0)
    ∷ requested works 1 (creates 8)
    ∷ requested works 0 (creates 7)
    ∷ in_locker 0 imports
    ∷ []

abbrev of_eight : Locker
of_eight = record {
  uid = 3;
  name = 8 ∷ [];
  write_open = true;
  read_open = true;
  write_sequence = 1;
  read_sequence = 1;
  idle_periods = 0;
  pipe = [];
  clients = record { conn = 2; wait = false; closed = false; wish = creates 8 } ∷ [];
}

abbrev of_seven : Locker
of_seven = record {
  uid = 4;
  name = 7 ∷ [];
  write_open = true;
  read_open = true;
  write_sequence = 1;
  read_sequence = 0;
  idle_periods = 0;
  pipe = record { conn = 1; wait = false; closed = false; wish = creates 7 } ∷ [];
  clients = [];
}

morning_state : run same all_simple start morning ≡ record {
  rc = Rc.ok;
  daemon = record { conns = []; lockers = of_eight ∷ of_seven ∷ []; last_uid = 4 };
}
unfolding run act request_of transfer transfer_absent transfer_new transfer_conn scan_incubator
    find_locker modify locker_step import_next remove_index_fast refill last drop_last start_rc
morning_state = refl

run-start-one_locker_example : same of_eight.name of_seven.name ≡ false
run-start-one_locker_example =
    run-start-one_locker same all_simple morning (rw morning_state refl) 0 1 of_eight of_seven
      (omega arith) (rw morning_state refl) (rw morning_state refl) (omega arith)

works-IsWorking : IsWorking works
works-IsWorking = record {
  resource = refl;
  pipes = refl;
  threads = refl;
  tokens = λ conn. refl;
  conns = λ conn. refl;
}

-- A connection in the incubator whose socket is closed, and one that creates what it waited for.
abbrev gone : Client
gone = record { conn = 1; wait = true; closed = true; wish = uses 7 }

abbrev creator : Client
creator = record { conn = 2; wait = false; closed = false; wish = creates 7 }

abbrev meeting : Daemon
meeting = record { conns = gone ∷ third ∷ creator ∷ []; lockers = []; last_uid = 3 }

nobody : find_locker same meeting.lockers creator.wish.name ≡ none
unfolding find_locker
nobody = refl

transfer-gathers_example :
    let r = transfer same all_simple works meeting 2 creator in
    (r.rc ≡ Rc.ok) × InPipe 0 creator r.daemon.lockers × InPipe 0 gone r.daemon.lockers
transfer-gathers_example =
    transfer-gathers same all_simple works meeting 2 0 creator gone has_type nobody refl
      works-IsWorking refl (λ e. omega (arith, e)) refl refl
