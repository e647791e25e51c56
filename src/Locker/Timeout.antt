-- ===== src/Locker/Timeout.antt =====
-- The time-out of the locker's loop, against the deadline that a resource has asked for.
use flom.Prelude.{ℕ, suc, ◌+◌, ◌-◌, ◌*◌, ◌/◌, ◌≤◌, ◌<◌, ◌≡◌, refl, arith}
use flom.Prelude.Int.{ℤ, pos, negsuc, ◌+ℤ◌, sub_ℕ, pos_part, neg_part, +ℤ_parts}
use flom.Rsrc.Names.{to_gint}
use flom.Timestamp.{Timeval}
use flom.Timestamp.Deadline.{micros}
use flom.Locker.{times, quotient, to_int, time_left, get_timeout, poll_timeout}

-- The operations by the parts of their results.
sub_parts : (a b : ℕ) → (pos_part (sub_ℕ a b) ≡ a - b) × (neg_part (sub_ℕ a b) ≡ b - a)
sub_parts a b = ground arith

sub_zero_parts : (m : ℕ) → (pos_part (sub_ℕ 0 m) ≡ 0) × (neg_part (sub_ℕ 0 m) ≡ m)
sub_zero_parts m = ground arith

times_parts :
    (a : ℤ)
    → (pos_part (times a 1000) ≡ pos_part a * 1000) × (neg_part (times a 1000) ≡ neg_part a * 1000)
unfolding times
times_parts (pos n) = (refl, omega arith)
times_parts (negsuc n) = sub_zero_parts (suc n * 1000)

quotient_parts :
    (a : ℤ)
    → (pos_part (quotient a 1000) ≡ pos_part a / 1000)
      × (neg_part (quotient a 1000) ≡ neg_part a / 1000)
unfolding quotient
quotient_parts (pos n) = (refl, omega arith)
quotient_parts (negsuc n) = sub_zero_parts (suc n / 1000)

-- In parts: 1000 times the milliseconds are beyond the microseconds to the deadline, by 2000 at most.
module _ (deadline now : Timeval) (fits : deadline.usec < 1000000)
    (now_fits : now.usec < 1000000) where
  time_left_bounds :
      (micros deadline + 1000 * neg_part (time_left deadline now)
        < micros now + 1000 * pos_part (time_left deadline now))
      × (micros now + 1000 * pos_part (time_left deadline now)
          < micros deadline + 1000 * neg_part (time_left deadline now) + 2000)
  unfolding time_left
  time_left_bounds =
      let s : ℤ = sub_ℕ deadline.sec now.sec in
      let u : ℤ = sub_ℕ deadline.usec now.usec in
      omega (
        arith,
        fits,
        now_fits,
        sub_parts deadline.sec now.sec,
        sub_parts deadline.usec now.usec,
        times_parts s,
        quotient_parts u,
        +ℤ_parts (times s 1000) (quotient u 1000),
        +ℤ_parts (times s 1000 +ℤ quotient u 1000) (pos 1),
      )

to_int-pos : (n : ℕ) → n < 2147483648 → to_int (pos n) ≡ pos n
unfolding to_int to_gint
to_int-pos n h = ground (arith, h)

to_int-wrapped :
    (n : ℕ) → 2147483648 ≤ n → n < 4294967296 → to_int (negsuc n) ≡ pos (4294967295 - n)
unfolding to_int to_gint
to_int-wrapped n h h' = ground (arith, h, h')

-- A time-out that is meant to reach a deadline.
module _ (deadline now : ℕ) where
  soon :
      (a : ℤ)
      → now ≤ deadline
      → deadline + 2000 ≤ now + 2147483648000
      → deadline + 1000 * neg_part a < now + 1000 * pos_part a
      → now + 1000 * pos_part a < deadline + 1000 * neg_part a + 2000
      → (t : ℕ) × (to_int a ≡ pos t)
        × (deadline < now + 1000 * t)
        × (now + 1000 * t < deadline + 2000)
  soon (pos n) order near after before =
      (n, to_int-pos n (omega (arith, near, before)), omega (arith, after), omega (arith, before))
  soon (negsuc n) order near after before = absurd (omega (arith, order, after))

  long_ago :
      (a : ℤ)
      → deadline + 2147483650000 ≤ now
      → now + 2000 ≤ deadline + 4294967296000
      → deadline + 1000 * neg_part a < now + 1000 * pos_part a
      → now + 1000 * pos_part a < deadline + 1000 * neg_part a + 2000
      → (t : ℕ) × (to_int a ≡ pos t)
  long_ago (pos n) old recent after before = absurd (omega (arith, old, before))
  long_ago (negsuc n) old recent after before =
      (4294967295 - n, to_int-wrapped n (omega (arith, old, before)) (omega (arith, recent, after)))

poll_timeout-get_timeout :
    (deadline now : Timeval) (periods : ℕ) (lifespan : ℤ) (t : ℕ)
    → get_timeout deadline now ≡ pos t
    → poll_timeout deadline now periods lifespan ≡ pos t
unfolding poll_timeout
poll_timeout-get_timeout deadline now periods lifespan t h = rw h (ground arith)

-- For a deadline that is not past, and at least two milliseconds less than 2^31 milliseconds ahead, the
-- time-out of poll ends after the deadline, and less than two milliseconds after it, whatever the idle
-- state of the locker.
pub poll_timeout-meets_deadline :
    (deadline now : Timeval) (periods : ℕ) (lifespan : ℤ)
    → deadline.usec < 1000000
    → now.usec < 1000000
    → micros now ≤ micros deadline
    → micros deadline + 2000 ≤ micros now + 2147483648000
    → (t : ℕ) × (poll_timeout deadline now periods lifespan ≡ pos t)
      × (micros deadline < micros now + 1000 * t)
      × (micros now + 1000 * t < micros deadline + 2000)
unfolding get_timeout
poll_timeout-meets_deadline deadline now periods lifespan fits now_fits order near =
    let (after, before) = time_left_bounds deadline now fits now_fits in
    let (t, at, late, early) =
      soon (micros deadline) (micros now) (time_left deadline now) order near after before in
    (t, poll_timeout-get_timeout deadline now periods lifespan t at, late, early)

-- A deadline that is past by 2^31 milliseconds and two more at least, and by two less than 2^32 at
-- most, is taken for one ahead: the time-out of poll is not negative, and the same whatever the idle
-- state of the locker asks for.
poll_timeout-forgets_past :
    (deadline now : Timeval)
    → deadline.usec < 1000000
    → now.usec < 1000000
    → micros deadline + 2147483650000 ≤ micros now
    → micros now + 2000 ≤ micros deadline + 4294967296000
    → (t : ℕ) × ((periods : ℕ) (lifespan : ℤ) → poll_timeout deadline now periods lifespan ≡ pos t)
unfolding get_timeout
poll_timeout-forgets_past deadline now fits now_fits old recent =
    let (after, before) = time_left_bounds deadline now fits now_fits in
    let (t, at) =
      long_ago (micros deadline) (micros now) (time_left deadline now) old recent after before in
    (t, λ p l. poll_timeout-get_timeout deadline now p l t at)
