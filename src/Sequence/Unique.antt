-- ===== src/Sequence/Unique.antt =====
-- No value of a sequence is in two hands: over any history that is shorter than the range of the counter.
use mathlib.Core.List.{Mem, Nodup, Nodup-nil, not-mem-nil}
use flom.Prelude.{
  ℕ, suc, ◌+◌, ◌≤◌, ◌<◌, ◌≡◌, refl, sym, subst, inl, inr, Bool-cases, Option-cases, Bool, Option,
  none, some, List, [], ◌∷◌, ◌++◌, arith, length, length-append, String,
}
use flom.Rsrc.Types.{Rc, is_ok, Conn, Msg, lock, unlock, other_verb, LockBody}
use flom.Rsrc.Env.{Env, World}
use flom.Rsrc.Holders.{find_conn, length-remove_conn}
use flom.Rsrc.Scan.{Scan, scan}
use flom.Rsrc.Scan.Rules.{After, Grows, scan-budget, scan-grows}
use flom.Rsrc.Calls.{Call, call, run, run-budget, message, closed, reply, reply_then, created}
use flom.Rsrc.Calls.Answers.{forget_resource, release_msg_resource}
use flom.Rsrc.Names.{RsrcType}
use flom.Sequence.{
  Sequence, ValueLock, init, init_number, can_lock, get, hold, enqueue, new_lock, new_waiting,
  let_go, set_rollback, grant_waiting, try_waiting, waitings, waitings-scan, clean_found, clean,
  request, unlock_found, inmsg, methods,
}
use flom.Sequence.Values.{
  Sound, Sound-tail, Sound-less, rolled, values, get-Sound, waitings-get, ahead, ahead-get,
}
use flom.Sequence.Release.{infos, let_go-Sound}

-- One value more for each that waits, and for each of `b` calls to come.
abbrev pub IsUnique : ℕ → Sequence → Type 0
IsUnique b r = Sound (length r.waitings + b) r.next_value (values r)

grant_waiting-Sound :
    (b uid : ℕ) (r : Sequence) (cl : ValueLock) (element : String) (n : Rc × World)
    → Sound b r.next_value (cl.info ∷ values r)
    → After (λ s. Sound b s.0.next_value (values s.0)) (grant_waiting uid r cl element n)
unfolding grant_waiting
grant_waiting-Sound b uid r cl element (rc, w) s = elim (Bool-cases (is_ok rc)) [
  | inl fine ↦ rw fine s
  | inr broken ↦ rw broken (Sound-tail b _ cl.info _ s)
]

try_waiting-Sound :
    (e : Env) (uid b : ℕ) (s : Sequence × World) (cl : ValueLock)
    → Sound (suc b) s.0.next_value (values s.0)
    → After (λ s. Sound b s.0.next_value (values s.0)) (try_waiting e uid s cl)
unfolding try_waiting
try_waiting-Sound e uid b (r, w) cl s = elim (Bool-cases (can_lock r)) [
  | inl can ↦ rw can (grant_waiting-Sound b uid _ _ _ _ (get-Sound b r s))
  | inr cannot ↦ rw cannot (Sound-less b (suc b) _ _ (omega arith) s)
]

try_waiting-Grows :
    (e : Env) (uid : ℕ) (s : Sequence × World) (cl : ValueLock)
    → Grows (λ s. ahead s.0.next_value) (ahead s.0.next_value) (try_waiting e uid s cl)
unfolding try_waiting grant_waiting
try_waiting-Grows e uid (r, w) cl = ground (arith, ahead-get r)

-- The loop keeps the values in order, and takes a new one for each record that leaves the queue at most.
waitings-IsUnique :
    (e : Env) (uid b : ℕ) (r : Sequence) (w : World)
    → IsUnique b r
    → IsUnique b (waitings e uid r w).resource
waitings-IsUnique e uid b r w u = rw waitings-scan (record {
  distinct = kept.distinct;
  positive = kept.positive;
  below = kept.below;
  started = kept.started;
  room = omega (arith, grown, kept.started, u.started, u.room);
})
  where
    end : Scan (Sequence × World) ValueLock
    end = scan (try_waiting e uid) (r, w) r.waitings

    kept : Sound (0 + b) end.state.0.next_value (values end.state.0)
    kept =
        scan-budget (try_waiting e uid) (λ k s. Sound (k + b) s.0.next_value (values s.0))
          (λ k s cl p.
            try_waiting-Sound e uid (k + b) s cl
              (Sound-less (suc (k + b)) (suc k + b) _ _ (omega arith) p))
          (λ k s p. Sound-less (0 + b) (k + b) _ _ (omega arith) p) (r, w) r.waitings u

    grown : end.state.0.next_value + length end.queue ≤ r.next_value + length r.waitings
    grown = ground (
      arith,
      scan-grows (try_waiting e uid) (λ s. ahead s.0.next_value) (try_waiting-Grows e uid) (r, w)
          r.waitings,
      kept.started,
      u.started,
    )

clean-IsUnique :
    (e : Env) (b : ℕ) (r : Sequence) (uid : ℕ) (c : Conn) (w : World)
    → IsUnique b r
    → IsUnique b (clean e r uid c w).resource
unfolding clean
clean-IsUnique e b r uid c w u = rw forget_resource (elim (Option-cases (find_conn r.holders c)) [
  | inl missing ↦
      rw (missing, clean_found)
        (Sound-less _ (length r.waitings + b) _ _ (omega (arith, length-remove_conn r.waitings c))
          u)
  | inr (cl, found) ↦
      rw (found, clean_found)
        (waitings-IsUnique e uid b _ w
          (unfold let_go in let_go-Sound (length r.waitings + b) r c cl found u))
])

request-IsUnique :
    (e : Env) (b : ℕ) (r : Sequence) (uid : ℕ) (c : Conn) (body : LockBody) (w : World)
    → IsUnique (suc b) r
    → IsUnique b (request e r uid c body w).resource
unfolding request reply reply_then
request-IsUnique e b r uid c body w u = ground (arith, holding, waiting, idle)
  where
    idle : IsUnique b r
    idle = Sound-less (length r.waitings + b) (length r.waitings + suc b) _ _ (omega arith) u

    waiting : IsUnique b (enqueue r (new_waiting c))
    waiting =
        Sound-less _ (length r.waitings + suc b) _ _
          (omega (arith, length-append r.waitings (new_waiting c ∷ []))) u

    holding : IsUnique b (hold (get r).1 (new_lock (get r).0 c))
    holding = rw waitings-get (
        get-Sound (length r.waitings + b) r (
          Sound-less (suc (length r.waitings + b)) (length r.waitings + suc b) _ _ (omega arith) u))

infos-set_rollback :
    (v : Bool) (c : Conn) (xs : List ValueLock) → infos (set_rollback v c xs) ≡ infos xs
unfolding set_rollback
infos-set_rollback v c [] = refl
infos-set_rollback v c (x ∷ xs) = ground (arith, infos-set_rollback v c xs)

unlock_found-IsUnique :
    (e : Env) (b : ℕ) (r : Sequence) (uid : ℕ) (c : Conn) (v : Bool) (w : World)
    (o : Option ValueLock)
    → IsUnique b r
    → IsUnique b (unlock_found e r uid c v w o).resource
unfolding unlock_found
unlock_found-IsUnique e b r uid c v w none u = u
unlock_found-IsUnique e b r uid c v w (some cl) u = rw release_msg_resource (
    clean-IsUnique e b _ uid c w (
      subst (λ xs. Sound (length r.waitings + b) r.next_value (xs ++ rolled r.rolled_back))
        (sym (infos-set_rollback v c r.holders)) u))

inmsg-IsUnique :
    (e : Env) (b : ℕ) (r : Sequence) (uid : ℕ) (c : Conn) (msg : Msg) (w : World)
    → IsUnique (suc b) r
    → IsUnique b (inmsg e r uid c msg w).resource
unfolding inmsg
inmsg-IsUnique e b r uid c (lock body) w u = request-IsUnique e b r uid c body w u
inmsg-IsUnique e b r uid c (unlock body) w u = ground (
  arith,
  Sound-less (length r.waitings + b) (length r.waitings + suc b) _ _ (le r) u,
  unlock_found-IsUnique e b r uid c body.rollback w (find_conn r.holders c),
)
  where
    le : (r : Sequence) → length r.waitings + b ≤ length r.waitings + suc b
    le r = omega arith
inmsg-IsUnique e b r uid c (other_verb v) w u =
    Sound-less (length r.waitings + b) (length r.waitings + suc b) _ _ (omega arith) u

call-IsUnique :
    (b : ℕ) (s : Sequence × World) (c : Env × Call)
    → IsUnique (suc b) s.0
    → IsUnique b (call methods s c).0
unfolding call
call-IsUnique b (r, w) (e, message uid c msg) u = inmsg-IsUnique e b r uid c msg w u
call-IsUnique b (r, w) (e, closed uid c) u =
    clean-IsUnique e b r uid c w
      (Sound-less (length r.waitings + b) (length r.waitings + suc b) _ _ (omega arith) u)

-- A resource without holders and values.
no_values-IsUnique :
    (b : ℕ) (r : Sequence)
    → r.holders ≡ []
    → r.waitings ≡ []
    → r.next_value ≡ 1
    → rolled r.rolled_back ≡ []
    → b + 1 < 4294967296
    → IsUnique b r
no_values-IsUnique b r h q n o less =
    rw (h, q, n, o)
      (record {
        distinct = Nodup-nil;
        positive = λ v m. absurd (not-mem-nil m);
        below = λ v m. absurd (not-mem-nil m);
        started = omega arith;
        room = omega arith;
      })

init-IsUnique :
    (matches : RsrcType → String → Bool) (digits : String → Option (List ℕ)) (e : Env) (w : World)
    (name : String) (r : Sequence) (b : ℕ)
    → init matches digits e w name ≡ created r
    → b + 1 < 4294967296
    → IsUnique b r
unfolding init init_number
init-IsUnique matches digits e w name r b i h =
    no_values-IsUnique b r (ground arith) (ground arith) (ground arith) (ground arith) h

-- After `flom_resource_sequence_init` and a history of fewer than 2^32 - 1 calls, in any order and with
-- any of the calls to memory and network failing, no value is held by two connections, or held while it
-- waits to be handed out again, and each is positive and below the counter.
pub run-init-unique_values :
    (matches : RsrcType → String → Bool) (digits : String → Option (List ℕ)) (e : Env) (w : World)
    (name : String) (r : Sequence) (cs : List (Env × Call))
    → init matches digits e w name ≡ created r
    → length cs + 1 < 4294967296
    → let s = (run methods (r, w) cs).0 in
      Nodup (values s) × ((v : ℕ) → Mem v (values s) → (0 < v) × (v < s.next_value))
run-init-unique_values matches digits e w name r cs i h =
    let u : IsUnique 0 (run methods (r, w) cs).0 =
      run-budget methods IsUnique call-IsUnique (r, w) cs
        (init-IsUnique matches digits e w name r (length cs) i h) in
    (u.distinct, λ v m. (u.positive v m, u.below v m))
