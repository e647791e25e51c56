-- ===== src/Daemon/Sound.antt =====
-- The invariant of one locker: its pipe, its connections and its counters (src/flom_locker.c and
-- src/flom_daemon.c).
use flom.Prelude.{
  ℕ, suc, ◌+◌, ◌<◌, ◌≤◌, ◌≡◌, refl, ap, Bool, true, false, List, [], ◌∷◌, length, length-append,
  arith,
}
use flom.Rsrc.Types.{Conn}
use flom.Daemon.{Client, Locker, is_open, sent_to, close_write, is_idle}
use flom.Daemon.Threads.{
  without, LockerStep, imports, message, client_gone_by_read, client_gone, timed_out, hung_up,
  locker_step, import_next, add_idle, close_read,
}

pub record IsSound (l : Locker) : Type 0 where
  pub counted : l.write_sequence ≡ l.read_sequence + length l.pipe
  pub closed : l.write_open ≡ false → (length l.pipe ≡ 0) × (length l.clients ≡ 0)
  pub idle : 0 < l.idle_periods → length l.clients ≡ 0
  pub closed_first : l.read_open ≡ false → l.write_open ≡ false

length-without : (conn : Conn) (cs : List Client) → length (without conn cs) ≤ length cs
unfolding without
length-without conn [] = omega arith
length-without conn (c ∷ cs) = ground (arith, length-without conn cs)

is_idle-counts :
    (l : Locker) → is_idle l ≡ true → (l.write_sequence ≡ l.read_sequence) × (0 < l.idle_periods)
is_idle-counts l h = ground (arith, h)

module _ (l : Locker) (v : IsSound l) where
  import_next-IsSound : (pipe : List Client) → l.pipe ≡ pipe → IsSound (import_next l pipe)
  unfolding import_next
  import_next-IsSound [] e = v
  import_next-IsSound (c ∷ rest) e =
      let n : length l.pipe ≡ suc (length rest) = ap length e in
      record {
        counted = omega (arith, v.counted, n);
        closed = λ h. absurd (omega (arith, (v.closed h).0, n));
        idle = λ h. absurd (omega (arith, h));
        closed_first = v.closed_first;
      }

  add_idle-IsSound : (clients : List Client) → l.clients ≡ clients → IsSound (add_idle l clients)
  unfolding add_idle
  add_idle-IsSound [] e = record {
    counted = v.counted;
    closed = v.closed;
    idle = λ h. ap length e;
    closed_first = v.closed_first;
  }
  add_idle-IsSound (c ∷ rest) e = v

  close_read-IsSound : (live : Bool) → l.write_open ≡ live → IsSound (close_read l live)
  unfolding close_read
  close_read-IsSound true e = v
  close_read-IsSound false e = record {
    counted = v.counted;
    closed = λ h. v.closed e;
    idle = v.idle;
    closed_first = λ h. e;
  }

  without-IsSound :
      (conn : Conn) (n : ℕ)
      → n ≤ l.idle_periods
      → IsSound (record l { idle_periods = n; clients = without conn l.clients })
  without-IsSound conn n h =
      let shorter = length-without conn l.clients in
      record {
        counted = v.counted;
        closed = λ shut. ((v.closed shut).0, omega (arith, (v.closed shut).1, shorter));
        idle = λ some_time. omega (arith, v.idle (omega (arith, some_time, h)), shorter);
        closed_first = v.closed_first;
      }

  pub locker_step-IsSound : (s : LockerStep) → IsSound (locker_step s l)
  unfolding locker_step
  locker_step-IsSound imports = import_next-IsSound l.pipe refl
  locker_step-IsSound message = record {
    counted = v.counted;
    closed = v.closed;
    idle = λ h. absurd (omega (arith, h));
    closed_first = v.closed_first;
  }
  locker_step-IsSound (client_gone_by_read c) = without-IsSound c 0 (omega arith)
  locker_step-IsSound (client_gone c) = without-IsSound c l.idle_periods (omega arith)
  locker_step-IsSound timed_out = add_idle-IsSound l.clients refl
  locker_step-IsSound hung_up = close_read-IsSound l.write_open refl

  pub sent_to-IsSound : (c : Client) → is_open l ≡ true → IsSound (sent_to c l)
  sent_to-IsSound c live = record {
    counted = rw (length-append {0} l.pipe (c ∷ [])) (omega (arith, v.counted));
    closed = λ h. let no = rw h at live in absurd (cc);
    idle = v.idle;
    closed_first = v.closed_first;
  }

  pub close_write-IsSound : is_idle l ≡ true → IsSound (close_write l)
  close_write-IsSound h =
      let counts = is_idle-counts l h in
      record {
        counted = v.counted;
        closed = λ shut. (omega (arith, v.counted, counts.0), v.idle counts.1);
        idle = v.idle;
        closed_first = λ shut. refl;
      }
