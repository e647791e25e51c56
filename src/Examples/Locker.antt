-- ===== src/Examples/Locker.antt =====
-- The time-out of a locker at concrete times.
use flom.Prelude.{ℕ, ◌+◌, ◌*◌, ◌<◌, ◌≡◌, refl, arith}
use flom.Prelude.Int.{pos, negsuc, ◌+ℤ◌}
use flom.Rsrc.Names.{to_gint}
use flom.Timestamp.{Timeval}
use flom.Timestamp.Deadline.{micros}
use flom.Locker.{poll_timeout, get_timeout, to_int, time_left, times, quotient}
use flom.Locker.Timeout.{poll_timeout-meets_deadline}

abbrev soon : Timeval
soon = record { sec = 100; usec = 0 }

abbrev now : Timeval
now = record { sec = 99; usec = 500300 }

poll_timeout-runs : poll_timeout soon now 0 (pos 0) ≡ pos 501
unfolding poll_timeout get_timeout to_int to_gint time_left times quotient ◌+ℤ◌
poll_timeout-runs = refl

-- The deadline is missed by five seconds, and the locker has been idle for a while.
poll_timeout-idle : poll_timeout soon (record { sec = 105; usec = 0 }) 2 (pos 0) ≡ negsuc 0
unfolding poll_timeout get_timeout to_int to_gint time_left times quotient ◌+ℤ◌
poll_timeout-idle = refl

poll_timeout-meets_deadline_example :
    (t : ℕ) × (poll_timeout soon now 0 (pos 0) ≡ pos t)
    × (micros soon < micros now + 1000 * t)
    × (micros now + 1000 * t < micros soon + 2000)
poll_timeout-meets_deadline_example =
    poll_timeout-meets_deadline soon now 0 (pos 0) (omega arith) (omega arith) (omega arith)
      (omega arith)

-- 25 days later
abbrev month_later : Timeval
month_later = record { sec = 2160100; usec = 0 }
