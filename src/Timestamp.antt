-- ===== src/Timestamp.antt =====
-- src/flom_resource_timestamp.c: a resource that hands out timestamps, no more than one for each tick
-- of its format.
pub mod Deadline
pub mod Serve
pub mod Rate
use Prim.Native.Nat.{◌/◌}
use flom.Prelude.{
  ℕ, zero, suc, ◌+◌, ◌-◌, ◌*◌, String, Bool, true, false, List, ltb, if◌then◌else◌, ◌||◌, ◌==◌,
  Option, none, some,
}
use flom.Prelude.Int.{ℤ, pos, ◌-ℤ◌, leb_ℤ}
use flom.Rsrc.Types.{ConnLock}

-- struct timeval, of a time that is not negative
pub record Timeval : Type 0 where
  pub sec : ℕ
  pub usec : ℕ

-- struct flom_rsrc_data_timestamp_s
pub record Timestamp : Type 0 where
  pub name : String
  pub format : String
  pub interval : Timeval
  pub total_quantity : ℤ
  pub locked_quantity : ℤ
  pub last_timestamp : Timeval
  pub holders : List (ConnLock Timeval)
  pub waitings : List (ConnLock Timeval)

-- flom_resource_timestamp_can_lock, at the time that gettimeofday gives
unfoldable pub can_lock : Timestamp → Timeval → Bool
can_lock r now =
    let i = r.interval in
    let last = r.last_timestamp in
    if leb_ℤ (r.total_quantity -ℤ r.locked_quantity) (pos 0)
    then false
    else if ltb 0 i.usec
    then if ltb last.sec now.sec then true else ltb (last.usec / i.usec) (now.usec / i.usec)
    else if ltb 0 i.sec
    then ltb (last.sec / i.sec) (now.sec / i.sec)
    else false

-- flom_resource_timestamp_next_deadline
unfoldable pub next_deadline : Timestamp → Timeval
next_deadline r =
    let i = r.interval in
    let last = r.last_timestamp in
    let sec = if ltb 0 i.sec then (last.sec / i.sec + 1) * i.sec else last.sec in
    let usec = if ltb 0 i.usec then (last.usec / i.usec + 1) * i.usec else 0 in
    if ltb 999999 usec
    then record { sec = sec + 1; usec = usec - 1000000 }
    else record { sec = sec; usec = usec }

-- micro_format, cut after so many digits
abbrev pub micro_format : ℕ → String
micro_format n =
    if n == 6
    then "#ffffff"
    else if n == 5
    then "#fffff"
    else if n == 4
    then "#ffff"
    else if n == 3
    then "#fff"
    else if n == 2
    then "#ff"
    else "#f"

-- The interval of a format, as flom_resource_timestamp_init finds it; `has` tells whether strstr finds a
-- string in the format. The loop over the fractions starts with 6 digits and one microsecond.
unfoldable pub micro_interval : (String → Bool) → ℕ → ℕ → ℕ
micro_interval has zero microsec = 0
micro_interval has (suc n) microsec =
    let rest = micro_interval has n (microsec * 10) in
    if has (micro_format (suc n)) then microsec else rest

unfoldable pub sec_interval : (String → Bool) → ℕ
sec_interval has =
    if has "%c" || has "%r" || has "%s" || has "%S" || has "%T" || has "%X"
    then 1
    else if has "%M" || has "%R"
    then 60
    else if has "%H" || has "%I"
    then 3600
    else 0

-- `none` is FLOM_RC_INVALID_TIMESTAMP_FORMAT.
unfoldable pub format_interval : (String → Bool) → Option Timeval
unfolding micro_interval sec_interval
format_interval has =
    let usec = micro_interval has 6 1 in
    let sec = if ltb 0 usec then 0 else sec_interval has in
    if ltb 0 usec
    then some (record { sec = 0; usec = usec })
    else if ltb 0 sec
    then some (record { sec = sec; usec = 0 })
    else none
