-- ===== src/Examples/Timestamp.antt =====
-- The theorems on the deadline of the timestamp resource, at concrete times.
use text.Mathlib.Text.{◌==◌ as str_eq}
use flom.Prelude.{
  ℕ, ◌+◌, ◌*◌, ◌/◌, ◌%◌, List, ◌∷◌, length, Option, ◌≡◌, refl, ◌≤◌, ◌↔◌, true, false, String, Bool,
  some, [], arith,
}
use flom.Prelude.Int.{pos, ◌-ℤ◌, ◌+ℤ◌, ◌≤ℤ◌, leb_ℤ}
use flom.Rsrc.Types.{Rc, LockMode, lock}
use flom.Rsrc.Env.{Env}
use flom.Rsrc.Names.{get_number, to_gint, strtol, decimal}
use flom.Rsrc.Holders.{conns_of}
use flom.Rsrc.Calls.{message, closed, created, reply, reply_then}
use flom.Timestamp.{
  Timeval, Timestamp, can_lock, next_deadline, format_interval, micro_interval, sec_interval,
}
use flom.Timestamp.Deadline.{micros, can_lock_from_deadline}
use flom.Timestamp.Serve.{
  Clock, Timed, Event, called, timed_out, init, init_infix, init_number, step, run, inmsg, request,
  hold, get_rc,
}
use flom.Timestamp.Rate.{IsSteady, tick, run-init-paced}
use flom.Examples.{fine, start}

-- The format has tenths of a second.
abbrev has : String → Bool
has s = str_eq s "#f"

abbrev tenths : Timestamp
tenths = record {
  name = "_t_#f[1]";
  format = "#f";
  interval = record { sec = 0; usec = 100000 };
  total_quantity = pos 1;
  locked_quantity = pos 0;
  last_timestamp = record { sec = 7; usec = 950000 };
  holders = [];
  waitings = [];
}

deadline_runs : next_deadline tenths ≡ record { sec = 8; usec = 0 }
unfolding next_deadline
deadline_runs = refl

free_slot : leb_ℤ (pos 1 -ℤ pos 0) (pos 0) ≡ false
unfolding ◌-ℤ◌
free_slot = refl

interval_runs : format_interval has ≡ some tenths.interval
unfolding format_interval micro_interval sec_interval
interval_runs = refl

abbrev later : Timeval
later = record { sec = 8; usec = 1 }

can_lock_from_deadline_example :
    (can_lock tenths later ≡ true) ↔ (micros (next_deadline tenths) ≤ micros later)
can_lock_from_deadline_example =
    can_lock_from_deadline has tenths later interval_runs free_slot (omega arith) (omega arith)
      (omega arith)

-- A quarter of a second passes between two readings of the clock.
abbrev quarters : Clock
quarters = record {
  gettimeofday = λ n. record { sec = 7 + n / 4; usec = n % 4 * 250000 };
  copies_format = λ n. true;
  localtime_r = λ t. true;
  written = λ format t. format;
}

quarters-IsSteady : IsSteady quarters
quarters-IsSteady = record { forward = λ n. omega arith; fits = λ n. omega arith }

abbrev in_format : String → String → Bool
in_format format s = str_eq s "#f"

abbrev infix_of : String → Rc × String
infix_of name = (Rc.ok, "#f")

abbrev two : String → Option (List ℕ)
two name = some (50 ∷ [])

abbrev fresh : Timed
fresh = record {
  resource = record tenths {
    name = "_t_#f[2]";
    total_quantity = pos 2;
    last_timestamp = record { sec = 0; usec = 0 };
  };
  readings = 0;
  deadline = record { sec = 0; usec = 0 };
}

init_runs : init in_format infix_of two fine start "_t_#f[2]" fresh.deadline ≡ created fresh
unfolding init init_infix init_number get_number to_gint strtol decimal format_interval
    micro_interval sec_interval
init_runs = refl

abbrev wanted : ℕ → Env × Event
wanted c = (
  fine,
  called (
      message 9 c
        (lock (record { name = "_t_#f[2]"; mode = LockMode.ex; wait = true; quantity = pos 1 }))),
)

abbrev two_granted : List (Env × Event)
two_granted = wanted 1 ∷ wanted 2 ∷ wanted 3 ∷ []

abbrev handed_over : List (Env × Event)
handed_over = (fine, called (closed 9 1)) ∷ (fine, timed_out 9) ∷ []

-- The third client waits until the first is gone.
granted_runs : conns_of (run quarters (fresh, start) two_granted).0.resource.holders ≡ 2 ∷ 1 ∷ []
unfolding run step inmsg request can_lock hold get_rc reply_then reply ◌-ℤ◌ ◌+ℤ◌
granted_runs = refl

run-init-paced_example :
    let p = run quarters (fresh, start) two_granted in
    let r = p.0.resource in
    let r' = (run quarters p handed_over).0.resource in
    (r.locked_quantity ≡ pos (length r.holders))
    × (r.locked_quantity ≤ℤ r.total_quantity)
    × (length r'.holders + tick r.interval r.last_timestamp
        ≤ length r.holders + tick r'.interval r'.last_timestamp)
run-init-paced_example =
    run-init-paced quarters in_format infix_of two fine start "_t_#f[2]" fresh.deadline fresh
      two_granted handed_over quarters-IsSteady init_runs (omega arith)
