-- ===== src/Locker.antt =====
-- src/flom_locker.c: how long the loop of a locker thread waits in poll.
pub mod Timeout
use flom.Prelude.{ℕ, suc, ◌+◌, ◌-◌, ◌*◌, ◌/◌, ◌%◌, ltb, ◌==◌, if◌then◌else◌, Bool, true, false}
use flom.Prelude.Int.{ℤ, pos, negsuc, ◌+ℤ◌, sub_ℕ, leb_ℤ, ltb_ℤ}
use flom.Rsrc.Types.{guint_mod}
use flom.Rsrc.Names.{to_gint}
use flom.Timestamp.{Timeval}

-- The product and the quotient of a `long` by a constant; the quotient is cut towards 0.
unfoldable pub times : ℤ → ℕ → ℤ
times (pos n) k = pos (n * k)
times (negsuc n) k = sub_ℕ 0 (suc n * k)

unfoldable pub quotient : ℤ → ℕ → ℤ
quotient (pos n) k = pos (n / k)
quotient (negsuc n) k = sub_ℕ 0 (suc n / k)

-- A `long` assigned to an `int` keeps its low 32 bits.
unfoldable pub to_int : ℤ → ℤ
unfolding to_gint
to_int (pos n) = to_gint n
to_int (negsuc n) = to_gint (guint_mod - 1 - n % guint_mod)

-- Milliseconds to the deadline, before they are assigned to an `int`.
unfoldable pub time_left : Timeval → Timeval → ℤ
unfolding times quotient
time_left deadline now =
    times (sub_ℕ deadline.sec now.sec) 1000 +ℤ quotient (sub_ℕ deadline.usec now.usec) 1000 +ℤ pos 1

-- flom_locker_loop_get_timeout, at the time that gettimeofday gives
unfoldable pub get_timeout : Timeval → Timeval → ℤ
unfolding time_left to_int
get_timeout deadline now = to_int (time_left deadline now)

abbrev pub poll_timeout_default : ℤ
poll_timeout_default = pos 1000

abbrev pub max_idle_periods : ℕ
max_idle_periods = 1

-- The time-out of flom_locker_loop; -1 is without end.
unfoldable pub poll_timeout : Timeval → Timeval → ℕ → ℤ → ℤ
unfolding get_timeout
poll_timeout deadline now idle_periods idle_lifespan =
    let timeout = get_timeout deadline now in
    if leb_ℤ (pos 0) timeout
    then timeout
    else if ltb max_idle_periods idle_periods
    then negsuc 0
    else if ltb 0 idle_periods
    then poll_timeout_default
    else if ltb_ℤ (pos 0) idle_lifespan
    then idle_lifespan
    else poll_timeout_default
