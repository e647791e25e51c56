-- ===== src/Timestamp/Rate.antt =====
-- How many locks a timestamp resource hands out: as many as it has at most, and one at most for each
-- tick of its format.
use flom.Prelude.{
  ℕ, suc, ◌+◌, ◌/◌, ◌≤◌, ◌<◌, ◌≡◌, Bool, true, false, inl, inr, Bool-cases, Option, some,
  Option-cases, String, List, [], ◌∷◌, ◌++◌, length, arith, refl,
}
use flom.Prelude.Int.{ℤ, pos, ◌+ℤ◌, ◌-ℤ◌, ◌≤ℤ◌, leb_ℤ, int_laws}
use flom.Rsrc.Types.{Rc, is_ok, Conn, LockBody, Msg, lock, unlock, other_verb}
use flom.Rsrc.Env.{Env, World}
use flom.Rsrc.Holders.{find_conn, remove_conn, length-remove_conn-found}
use flom.Rsrc.Scan.Rules.{After, scan-After, units}
use flom.Rsrc.Calls.{Cleaned, created, reply, reply_then, message, closed}
use flom.Rsrc.Calls.Answers.{forget_resource, release_msg_resource}
use flom.Timestamp.{Timeval, Timestamp, can_lock, next_deadline}
use flom.Timestamp.Deadline.{micros, IsGrain, format_interval-IsGrain}
use flom.Timestamp.Serve.{
  Clock, Timed, TimestampLock, new_lock, init, check, checked, stamped, get_rc, hold, grant_waiting,
  try_waiting, waitings, waitings-scan, let_go, clean_found, clean, timeout_waiting, timeout_queue,
  timeout, request, inmsg, init_number, init_infix, Event, called, timed_out, step, run,
  with_waitings,
}

-- The number of whole intervals from the epoch to the last timestamp.
unfoldable pub tick : Timeval → Timeval → ℕ
tick i t = micros t / micros i

-- A clock that does not go back.
pub record IsSteady (clock : Clock) : Type 0 where
  pub forward : (n : ℕ) → micros (clock.gettimeofday n) ≤ micros (clock.gettimeofday (suc n))
  pub fits : (n : ℕ) → (clock.gettimeofday n).usec < 1000000

module _ (r : Timestamp) (now then' : Timeval) (allowed : can_lock r now ≡ true)
    (order : micros r.last_timestamp ≤ micros now) (order' : micros now ≤ micros then')
    (last_fits : r.last_timestamp.usec < 1000000) (now_fits : now.usec < 1000000) where
  tick_lem :
      (s u : ℕ)
      → IsGrain s u
      → r.interval.sec ≡ s
      → r.interval.usec ≡ u
      → tick r.interval r.last_timestamp < tick r.interval then'
  unfolding can_lock tick
  tick_lem s u IsGrain.us1 es eu = let a = rw (es, eu) at allowed in rw (es, eu) (ground arith)
  tick_lem s u IsGrain.us10 es eu = let a = rw (es, eu) at allowed in rw (es, eu) (ground arith)
  tick_lem s u IsGrain.us100 es eu = let a = rw (es, eu) at allowed in rw (es, eu) (ground arith)
  tick_lem s u IsGrain.us1000 es eu = let a = rw (es, eu) at allowed in rw (es, eu) (ground arith)
  tick_lem s u IsGrain.us10000 es eu = let a = rw (es, eu) at allowed in rw (es, eu) (ground arith)
  tick_lem s u IsGrain.us100000 es eu = let a = rw (es, eu) at allowed in rw (es, eu) (ground arith)
  tick_lem s u IsGrain.s1 es eu = let a = rw (es, eu) at allowed in rw (es, eu) (ground arith)
  tick_lem s u IsGrain.s60 es eu = let a = rw (es, eu) at allowed in rw (es, eu) (ground arith)
  tick_lem s u IsGrain.s3600 es eu = let a = rw (es, eu) at allowed in rw (es, eu) (ground arith)

-- The books balance, and `n` holders at tick `t` have become no more holders than ticks have passed.
pub record IsPaced (clock : Clock) (n t : ℕ) (s : Timed) : Type 0 where
  pub grain : IsGrain s.resource.interval.sec s.resource.interval.usec
  pub booked : s.resource.locked_quantity ≡ pos (length s.resource.holders)
  pub within : s.resource.locked_quantity ≤ℤ s.resource.total_quantity
  pub fits : s.resource.last_timestamp.usec < 1000000
  pub past : micros s.resource.last_timestamp ≤ micros (clock.gettimeofday s.readings)
  pub rate : length s.resource.holders + t ≤ n + tick s.resource.interval s.resource.last_timestamp

positive_lem : (d : ℤ) → leb_ℤ d (pos 0) ≡ false → pos 1 ≤ℤ d
positive_lem d h = ground arith

can_lock-free :
    (r : Timestamp) (now : Timeval)
    → can_lock r now ≡ true
    → leb_ℤ (r.total_quantity -ℤ r.locked_quantity) (pos 0) ≡ false
unfolding can_lock
can_lock-free r now h = elim (Bool-cases (leb_ℤ (r.total_quantity -ℤ r.locked_quantity) (pos 0))) [
  | inl full ↦ let impossible = rw full at h in cc
  | inr free ↦ free
]

can_lock-room :
    (r : Timestamp) (now : Timeval)
    → can_lock r now ≡ true
    → r.locked_quantity +ℤ pos 1 ≤ℤ r.total_quantity
can_lock-room r now h =
    omega (int_laws, positive_lem (r.total_quantity -ℤ r.locked_quantity) (can_lock-free r now h))

plus_one : (q : ℤ) (n : ℕ) → q ≡ pos n → q +ℤ pos 1 ≡ pos (suc n)
plus_one q n h = rw h (omega int_laws)

minus_one : (q : ℤ) (n : ℕ) → q ≡ pos (suc n) → q -ℤ pos 1 ≡ pos n
minus_one q n h = rw h (omega int_laws)

module _ (clock : Clock) (steady : IsSteady clock) (n t : ℕ) where
  checked-IsPaced : (s : Timed) → IsPaced clock n t s → IsPaced clock n t (checked s)
  checked-IsPaced s v = record {
    grain = v.grain;
    booked = v.booked;
    within = v.within;
    fits = v.fits;
    past = omega (arith, v.past, steady.forward s.readings);
    rate = v.rate;
  }

  advances :
      (s : Timed)
      → IsPaced clock n t s
      → check clock s ≡ true
      → tick s.resource.interval s.resource.last_timestamp
        < tick s.resource.interval (clock.gettimeofday (suc s.readings))
  advances s v can =
      tick_lem s.resource (clock.gettimeofday s.readings) (clock.gettimeofday (suc s.readings)) can
        v.past (steady.forward s.readings) v.fits (steady.fits s.readings) _ _ v.grain refl refl

  stamped-IsPaced :
      (s : Timed)
      → IsPaced clock n t s
      → check clock s ≡ true
      → IsPaced clock n t (stamped clock (checked s))
  stamped-IsPaced s v can = record {
    grain = v.grain;
    booked = v.booked;
    within = v.within;
    fits = steady.fits (suc s.readings);
    past = steady.forward (suc s.readings);
    rate = omega (arith, v.rate, advances s v can);
  }

  hold-IsPaced :
      (s : Timed) (cl : TimestampLock)
      → IsPaced clock n t s
      → check clock s ≡ true
      → IsPaced clock n t (hold (stamped clock (checked s)) cl)
  unfolding hold
  hold-IsPaced s cl v can = record {
    grain = v.grain;
    booked = plus_one _ _ v.booked;
    within = can_lock-room s.resource (clock.gettimeofday s.readings) can;
    fits = steady.fits (suc s.readings);
    past = steady.forward (suc s.readings);
    rate = omega (arith, v.rate, advances s v can);
  }

  queue-IsPaced :
      (s : Timed) (queue : List TimestampLock)
      → IsPaced clock n t s
      → IsPaced clock n t (with_waitings s queue)
  queue-IsPaced s queue v = record {
    grain = v.grain;
    booked = v.booked;
    within = v.within;
    fits = v.fits;
    past = v.past;
    rate = v.rate;
  }

  deadline-IsPaced :
      (s : Timed) (d : Timeval)
      → IsPaced clock n t s
      → IsPaced clock n t (record s { deadline = d })
  deadline-IsPaced s d v = record {
    grain = v.grain;
    booked = v.booked;
    within = v.within;
    fits = v.fits;
    past = v.past;
    rate = v.rate;
  }

  let_go-IsPaced :
      (s : Timed) (c : Conn) (cl : TimestampLock)
      → find_conn s.resource.holders c ≡ some cl
      → IsPaced clock n t s
      → IsPaced clock n t (let_go s c)
  unfolding let_go
  let_go-IsPaced s c cl h v =
      let e = length-remove_conn-found s.resource.holders c cl h in
      let b =
        minus_one s.resource.locked_quantity (length (remove_conn s.resource.holders c))
          (rw e v.booked) in
      record {
        grain = v.grain;
        booked = b;
        within = omega (int_laws, v.within);
        fits = v.fits;
        past = v.past;
        rate = omega (arith, v.rate, e);
      }

  grant_waiting-IsPaced :
      (s : Timed) (uid : ℕ) (cl : TimestampLock) (text : String) (x : Rc × World)
      → IsPaced clock n t s
      → check clock s ≡ true
      → After
          (λ p. IsPaced clock n t p.0)
          (grant_waiting clock (stamped clock (checked s)) uid cl text x)
  unfolding grant_waiting
  grant_waiting-IsPaced s uid cl text (rc, w) v can = elim (Bool-cases (is_ok rc)) [
    | inl fine ↦ rw fine (hold-IsPaced s cl v can)
    | inr broken ↦ rw broken (stamped-IsPaced s v can)
  ]

  try_waiting-IsPaced :
      (e : Env) (uid : ℕ) (p : Timed × World) (cl : TimestampLock)
      → IsPaced clock n t p.0
      → Unit {0}
      → After (λ p. IsPaced clock n t p.0) (try_waiting clock e uid p cl)
  unfolding try_waiting
  try_waiting-IsPaced e uid (s, w) cl v q = elim (Bool-cases (check clock s)) [
    | inr cannot ↦ rw cannot (checked-IsPaced s v)
    | inl can ↦ elim (Bool-cases (is_ok (get_rc clock (checked s)))) [
      | inl got ↦ rw (can, got) (grant_waiting-IsPaced s uid cl _ _ v can)
      | inr broken ↦ rw (can, broken) (stamped-IsPaced s v can)
    ]
  ]

  waitings-IsPaced :
      (e : Env) (s : Timed) (uid : ℕ) (w : World)
      → IsPaced clock n t s
      → IsPaced clock n t (waitings clock e s uid w).resource
  waitings-IsPaced e s uid w v = rw waitings-scan (
      queue-IsPaced _ _ (
        scan-After (try_waiting clock e uid) (λ p. IsPaced clock n t p.0) (λ _. Unit {0})
          (try_waiting-IsPaced e uid) (s, w) s.resource.waitings v (units s.resource.waitings)))

  clean-IsPaced :
      (e : Env) (s : Timed) (uid : ℕ) (c : Conn) (w : World)
      → IsPaced clock n t s
      → IsPaced clock n t (clean clock e s uid c w).resource
  unfolding clean
  clean-IsPaced e s uid c w v =
      rw forget_resource (elim (Option-cases (find_conn s.resource.holders c)) [
        | inl missing ↦ rw (missing, clean_found) (queue-IsPaced s _ v)
        | inr (cl, found) ↦
            rw (found, clean_found)
              (waitings-IsPaced e (let_go s c) uid w (let_go-IsPaced s c cl found v))
      ])

  request-IsPaced :
      (e : Env) (s : Timed) (uid : ℕ) (c : Conn) (body : LockBody) (w : World)
      → IsPaced clock n t s
      → IsPaced clock n t (request clock e s uid c body w).resource
  unfolding request reply reply_then
  request-IsPaced e s uid c body w v =
      let seen = checked-IsPaced s v in
      let late = deadline-IsPaced (checked s) (next_deadline s.resource) seen in
      ground (
        arith,
        seen,
        late,
        queue-IsPaced _ (s.resource.waitings ++ new_lock c ∷ []) late,
        λ (h : check clock s ≡ true). stamped-IsPaced s v h,
        λ (h : check clock s ≡ true). hold-IsPaced s (new_lock c) v h,
      )

  inmsg-IsPaced :
      (e : Env) (s : Timed) (uid : ℕ) (c : Conn) (msg : Msg) (w : World)
      → IsPaced clock n t s
      → IsPaced clock n t (inmsg clock e s uid c msg w).resource
  unfolding inmsg
  inmsg-IsPaced e s uid c (lock body) w v = request-IsPaced e s uid c body w v
  inmsg-IsPaced e s uid c (unlock body) w v =
      ground (arith, release_msg_resource e (clean clock e s uid c w), clean-IsPaced e s uid c w v)
  inmsg-IsPaced e s uid c (other_verb o) w v = v

  timeout_waiting-IsPaced :
      (d : Cleaned Timed)
      → IsPaced clock n t d.resource
      → IsPaced clock n t (timeout_waiting clock d).resource
  unfolding timeout_waiting
  timeout_waiting-IsPaced d v = elim (Bool-cases (is_ok d.rc)) [
    | inl fine ↦ rw fine (deadline-IsPaced d.resource _ v)
    | inr broken ↦ rw broken v
  ]

  timeout_queue-IsPaced :
      (e : Env) (s : Timed) (uid : ℕ) (w : World) (queue : List TimestampLock)
      → IsPaced clock n t s
      → IsPaced clock n t (timeout_queue clock e s uid w queue).resource
  unfolding timeout_queue
  timeout_queue-IsPaced e s uid w [] v = v
  timeout_queue-IsPaced e s uid w (cl ∷ rest) v = elim (Bool-cases (check clock s)) [
    | inl can ↦
        rw can
          (timeout_waiting-IsPaced _ (waitings-IsPaced e (checked s) uid w (checked-IsPaced s v)))
    | inr cannot ↦ rw cannot (checked-IsPaced s v)
  ]

  timeout-IsPaced :
      (e : Env) (s : Timed) (uid : ℕ) (w : World)
      → IsPaced clock n t s
      → IsPaced clock n t (timeout clock e s uid w).resource
  unfolding timeout
  timeout-IsPaced e s uid w v = timeout_queue-IsPaced e s uid w s.resource.waitings v

  step-IsPaced :
      (p : Timed × World) (x : Env × Event)
      → IsPaced clock n t p.0
      → IsPaced clock n t (step clock p x).0
  unfolding step
  step-IsPaced (s, w) (e, called (message uid c msg)) v = inmsg-IsPaced e s uid c msg w v
  step-IsPaced (s, w) (e, called (closed uid c)) v = clean-IsPaced e s uid c w v
  step-IsPaced (s, w) (e, timed_out uid) v = timeout-IsPaced e s uid w v

  run-IsPaced :
      (p : Timed × World) (xs : List (Env × Event))
      → IsPaced clock n t p.0
      → IsPaced clock n t (run clock p xs).0
  unfolding run
  run-IsPaced p [] v = v
  run-IsPaced p (x ∷ xs) v = run-IsPaced (step clock p x) xs (step-IsPaced p x v)

init-IsPaced :
    (clock : Clock) (has : String → String → Bool) (infix_of : String → Rc × String)
    (digits : String → Option (List ℕ)) (e : Env) (w : World) (name : String) (start : Timeval)
    (s : Timed)
    → init has infix_of digits e w name start ≡ created s
    → pos 0 ≤ℤ s.resource.total_quantity
    → IsPaced clock 0 0 s
unfolding init init_infix init_number
init-IsPaced clock has infix_of digits e w name start s i total =
    ground (arith, format_interval-IsGrain (has s.resource.format) s.resource.interval)

rebased :
    (clock : Clock) (n t : ℕ) (s : Timed)
    → IsPaced clock n t s
    → IsPaced clock
        (length s.resource.holders)
        (tick s.resource.interval s.resource.last_timestamp)
        s
rebased clock n t s v = record {
  grain = v.grain;
  booked = v.booked;
  within = v.within;
  fits = v.fits;
  past = v.past;
  rate = omega arith;
}

-- After `flom_resource_timestamp_init` with a number that is not negative, on a clock that does not go
-- back, and any messages, disconnections and timeouts in any order, with any call to memory and
-- network failing: the locked quantity is the number of holders and at most the total. Over any
-- further events the number of holders grows by no more than the number of ticks between the last
-- timestamps before and after.
pub run-init-paced :
    (clock : Clock) (has : String → String → Bool) (infix_of : String → Rc × String)
    (digits : String → Option (List ℕ)) (e : Env) (w : World) (name : String) (start : Timeval)
    (s : Timed) (before after : List (Env × Event))
    → IsSteady clock
    → init has infix_of digits e w name start ≡ created s
    → pos 0 ≤ℤ s.resource.total_quantity
    → let p = run clock (s, w) before in
      let r = p.0.resource in
      let r' = (run clock p after).0.resource in
      (r.locked_quantity ≡ pos (length r.holders))
      × (r.locked_quantity ≤ℤ r.total_quantity)
      × (length r'.holders + tick r.interval r.last_timestamp
          ≤ length r.holders + tick r'.interval r'.last_timestamp)
run-init-paced clock has infix_of digits e w name start s before after steady i total =
    let p = run clock (s, w) before in
    let v : IsPaced clock 0 0 p.0 =
      run-IsPaced clock steady 0 0 (s, w) before
        (init-IsPaced clock has infix_of digits e w name start s i total) in
    let v' = run-IsPaced clock steady _ _ p after (rebased clock 0 0 p.0 v) in
    (v.booked, v.within, v'.rate)
