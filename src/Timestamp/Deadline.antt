-- ===== src/Timestamp/Deadline.antt =====
-- When the next timestamp can be handed out: flom_resource_timestamp_next_deadline against
-- flom_resource_timestamp_can_lock.
use flom.Prelude.{
  ℕ, ◌+◌, ◌*◌, ◌/◌, ◌≤◌, ◌<◌, ◌≡◌, ◌⊎◌, ◌↔◌, Bool, true, false, Option, none, some, String, arith,
  refl, subst,
}
use flom.Prelude.Int.{pos, ◌-ℤ◌, leb_ℤ}
use flom.Timestamp.{
  Timeval, Timestamp, can_lock, next_deadline, micro_interval, sec_interval, format_interval,
}

-- Microseconds since the epoch.
abbrev pub micros : Timeval → ℕ
micros t = t.sec * 1000000 + t.usec

-- The intervals of the formats.
pub data IsGrain : ℕ → ℕ → Type 0 where
  us1 : IsGrain 0 1
  us10 : IsGrain 0 10
  us100 : IsGrain 0 100
  us1000 : IsGrain 0 1000
  us10000 : IsGrain 0 10000
  us100000 : IsGrain 0 100000
  s1 : IsGrain 1 0
  s60 : IsGrain 60 0
  s3600 : IsGrain 3600 0

module _ (r : Timestamp) (now : Timeval)
    (room : leb_ℤ (r.total_quantity -ℤ r.locked_quantity) (pos 0) ≡ false)
    (order : micros r.last_timestamp ≤ micros now) (last_fits : r.last_timestamp.usec < 1000000)
    (now_fits : now.usec < 1000000) where
  deadline_lem :
      (s u : ℕ)
      → IsGrain s u
      → r.interval.sec ≡ s
      → r.interval.usec ≡ u
      → (can_lock r now ≡ true) ↔ (micros (next_deadline r) ≤ micros now)
  unfolding can_lock next_deadline
  deadline_lem s u IsGrain.us1 es eu =
      rw (es, eu, room) (ground (arith, order, last_fits, now_fits))
  deadline_lem s u IsGrain.us10 es eu =
      rw (es, eu, room) (ground (arith, order, last_fits, now_fits))
  deadline_lem s u IsGrain.us100 es eu =
      rw (es, eu, room) (ground (arith, order, last_fits, now_fits))
  deadline_lem s u IsGrain.us1000 es eu =
      rw (es, eu, room) (ground (arith, order, last_fits, now_fits))
  deadline_lem s u IsGrain.us10000 es eu =
      rw (es, eu, room) (ground (arith, order, last_fits, now_fits))
  deadline_lem s u IsGrain.us100000 es eu =
      rw (es, eu, room) (ground (arith, order, last_fits, now_fits))
  deadline_lem s u IsGrain.s1 es eu = rw (es, eu, room) (ground (arith, order, last_fits, now_fits))
  deadline_lem s u IsGrain.s60 es eu =
      rw (es, eu, room) (ground (arith, order, last_fits, now_fits))
  deadline_lem s u IsGrain.s3600 es eu =
      rw (es, eu, room) (ground (arith, order, last_fits, now_fits))

abbrev GrainOrNone : Option Timeval → Type 0
GrainOrNone none = Unit
GrainOrNone (some i) = IsGrain i.sec i.usec

micro-IsGrain :
    (has : String → Bool) → (micro_interval has 6 1 ≡ 0) ⊎ IsGrain 0 (micro_interval has 6 1)
unfolding micro_interval
micro-IsGrain has = ground (
  arith, IsGrain.us1, IsGrain.us10, IsGrain.us100, IsGrain.us1000, IsGrain.us10000,
  IsGrain.us100000,
)

sec-IsGrain : (has : String → Bool) → (sec_interval has ≡ 0) ⊎ IsGrain (sec_interval has) 0
unfolding sec_interval
sec-IsGrain has = ground (arith, IsGrain.s1, IsGrain.s60, IsGrain.s3600)

format_interval-GrainOrNone : (has : String → Bool) → GrainOrNone (format_interval has)
unfolding format_interval
format_interval-GrainOrNone has = ground (arith, micro-IsGrain has, sec-IsGrain has)

pub format_interval-IsGrain :
    (has : String → Bool) (i : Timeval) → format_interval has ≡ some i → IsGrain i.sec i.usec
format_interval-IsGrain has i h = subst GrainOrNone h (format_interval-GrainOrNone has)

-- For an interval that `flom_resource_timestamp_init` finds in a format, and times with microseconds
-- below a million, a resource with a free slot allows a lock exactly from the deadline on that it
-- computes, if the clock has not gone back behind the last timestamp.
pub can_lock_from_deadline :
    (has : String → Bool) (r : Timestamp) (now : Timeval)
    → format_interval has ≡ some r.interval
    → leb_ℤ (r.total_quantity -ℤ r.locked_quantity) (pos 0) ≡ false
    → micros r.last_timestamp ≤ micros now
    → r.last_timestamp.usec < 1000000
    → now.usec < 1000000
    → (can_lock r now ≡ true) ↔ (micros (next_deadline r) ≤ micros now)
can_lock_from_deadline has r now found room order last_fits now_fits =
    deadline_lem r now room order last_fits now_fits r.interval.sec r.interval.usec
      (format_interval-IsGrain has r.interval found) refl refl

-- A clock that goes back is not noticed: on a format with fractions of a second, and with a free slot,
-- a time of an earlier second than the last timestamp is allowed if its fraction is the larger one by a
-- tick.
can_lock_back_in_time :
    (r : Timestamp) (now : Timeval)
    → leb_ℤ (r.total_quantity -ℤ r.locked_quantity) (pos 0) ≡ false
    → 0 < r.interval.usec
    → now.sec < r.last_timestamp.sec
    → now.usec < 1000000
    → r.last_timestamp.usec / r.interval.usec < now.usec / r.interval.usec
    → (can_lock r now ≡ true) × (micros now < micros r.last_timestamp)
unfolding can_lock
can_lock_back_in_time r now room fractions back fits tick =
    (ground (arith, room, fractions, back, tick), omega (arith, back, fits))
