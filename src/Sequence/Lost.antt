-- ===== src/Sequence/Lost.antt =====
-- What a message that does not go out costs: the value that it should have told.
use mathlib.Core.List.{Mem, Nodup-cons, mem-cons_self}
use flom.Prelude.{ℕ, suc, ◌<◌, ◌≡◌, ap, subst, sym, refl, true, List, ◌∷◌, arith}
use flom.Rsrc.Types.{Rc}
use flom.Rsrc.Env.{Env, World}
use flom.Rsrc.Scan.{scan}
use flom.Rsrc.Scan.Rules.{scan-failed}
use flom.Rsrc.Calls.{Cleaned}
use flom.Rsrc.Calls.Answers.{notify-broken}
use flom.Sequence.{
  Sequence, ValueLock, can_lock, get, grant_waiting, try_waiting, waitings, waitings-scan, settle,
}
use flom.Sequence.Values.{Sound, values, get-Sound}

module _ (e : Env) (uid : ℕ) (r : Sequence) (w : World) (a : ValueLock) (rest : List ValueLock)
    (queue : r.waitings ≡ a ∷ rest) (can : can_lock r ≡ true) (copied : e.strdup w.log ≡ true)
    (serialized : e.serialize w.log ≡ Rc.ok) (broken : e.send a.conn w.log ≡ Rc.send_error) where
  abbrev left : Cleaned Sequence
  left = record { rc = Rc.send_error; resource = record (get r).1 { waitings = rest }; world = w }

  waitings-broken : waitings e uid r w ≡ left
  unfolding try_waiting grant_waiting
  waitings-broken = rw waitings-scan (
      subst (λ q. settle (scan (try_waiting e uid) (r, w) q) ≡ left) (sym queue)
        (ap settle (
          scan-failed (try_waiting e uid) (r, w) ((get r).1, w) a rest Rc.send_error
            (ground (
              arith,
              can,
              notify-broken e a.conn (e.print_uint (get r).0) w copied serialized broken,
            )))))

  -- A sequence with a free slot, whose values held and rolled back are distinct, positive and below a
  -- counter that is not about to wrap, serves the first of its queue, but the message does not go out.
  -- The value taken for it is then neither held nor rolled back, and it is below the counter, whether
  -- or not the sequence is transactional.
  waitings_loses_value :
      (b : ℕ)
      → Sound (suc b) r.next_value (values r)
      → let d = waitings e uid r w in
        (d.rc ≡ Rc.send_error)
        × ¬ Mem (get r).0 (values d.resource)
        × ((get r).0 < d.resource.next_value)
  waitings_loses_value b sound =
      let issued : Sound b (get r).1.next_value ((get r).0 ∷ values (get r).1) =
        get-Sound b r sound in
      rw waitings-broken
        (refl, (Nodup-cons.0 issued.distinct).0, issued.below (get r).0 mem-cons_self)
