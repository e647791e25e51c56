-- ===== src/Numeric/Settled.antt =====
-- No lost wake-up on a numeric resource, if nobody asks for a negative quantity and the messages to
-- waiting clients go out.
use flom.Prelude.{
  ℕ, ◌≡◌, false, Option, none, List, [], ◌∷◌, ◌++◌, String, arith, All, All-imp, All-append, inl,
  inr, Option-cases,
}
use flom.Prelude.Int.{ℤ, ◌+ℤ◌, +ℤ_parts, -ℤ_parts}
use flom.Rsrc.Types.{Conn, Msg, lock, unlock, other_verb, LockBody}
use flom.Rsrc.Env.{Env, World, IsReliable}
use flom.Rsrc.Holders.{find_conn, All-remove_conn}
use flom.Rsrc.Scan.Rules.{After, IfBlocked, IsHonest, NoFailure, scan-ok, scan-settled}
use flom.Rsrc.Calls.{Call, call, run, run-induction, message, closed, reply, created}
use flom.Rsrc.Calls.Answers.{notify-reliable, forget_resource, release_msg_resource}
use flom.Numeric.{
  Numeric, QuantityLock, init, can_lock, new_lock, hold, let_go, try_waiting, waitings,
  waitings-scan, clean_found, clean, request, inmsg, methods,
}
use flom.Numeric.Accounting.{IsNat, AsksNat, IsBalanced}
use flom.Numeric.Bounds.{AsksNatCall, call-IsBalanced, init-IsBalanced}

abbrev pub IsBlocked : Numeric → QuantityLock → Type 0
IsBlocked r cl = can_lock r cl.info ≡ false

abbrev pub IsSettled : Numeric → Type 0
IsSettled r = All (IsBlocked r) r.waitings

-- A further lock leaves less to others.
can_lock-hold :
    (r : Numeric) (a : QuantityLock) (q : ℤ)
    → AsksNat a
    → can_lock r q ≡ false
    → can_lock (hold r a) q ≡ false
unfolding can_lock hold
can_lock-hold r a q n h = grind (
  arith,
  +ℤ_parts r.locked_quantity a.info,
  -ℤ_parts r.total_quantity r.locked_quantity,
  -ℤ_parts r.total_quantity (r.locked_quantity +ℤ a.info),
)

module _ (e : Env) where
  try_waiting_here :
      (s : Numeric × World) (cl : QuantityLock)
      → IfBlocked (λ s. IsBlocked s.0 cl) (try_waiting e s cl)
  unfolding try_waiting
  try_waiting_here (r, w) cl = ground arith

  try_waiting_later :
      (s : Numeric × World) (a b : QuantityLock)
      → AsksNat a
      → IsBlocked s.0 b
      → After (λ s. IsBlocked s.0 b) (try_waiting e s a)
  unfolding try_waiting
  try_waiting_later (r, w) a b n h = ground (arith, can_lock-hold r a b.info n h)

  try_waiting-IsHonest : (s : Numeric × World) (cl : QuantityLock) → IsHonest (try_waiting e s cl)
  unfolding try_waiting
  try_waiting-IsHonest (r, w) cl = ground arith

-- The queue is not looked at by the test.
IsBlocked-queue :
    (r : Numeric) (q xs : List QuantityLock)
    → All (IsBlocked r) xs
    → All (IsBlocked (record r { waitings = q })) xs
unfolding can_lock
IsBlocked-queue r q xs h =
    All-imp (IsBlocked r) (IsBlocked (record r { waitings = q })) (λ b p. p) xs h

module _ (e : Env) (reliable : IsReliable e) where
  try_waiting_fine : (s : Numeric × World) (cl : QuantityLock) → NoFailure (try_waiting e s cl)
  unfolding try_waiting
  try_waiting_fine (r, w) cl = ground (arith, notify-reliable e reliable cl.conn none w)

  waitings-IsSettled :
      (r : Numeric) (w : World) → All AsksNat r.waitings → IsSettled (waitings e r w).resource
  waitings-IsSettled r w q = rw waitings-scan (
      IsBlocked-queue _ _ _ (
        scan-settled (try_waiting e) AsksNat (λ s cl. IsBlocked s.0 cl) (try_waiting_here e)
          (try_waiting_later e) (try_waiting-IsHonest e) (r, w) r.waitings q
          (scan-ok (try_waiting e) try_waiting_fine (r, w) r.waitings)))

  clean-IsSettled :
      (r : Numeric) (uid : ℕ) (c : Conn) (w : World)
      → All AsksNat r.waitings
      → IsSettled r
      → IsSettled (clean e r uid c w).resource
  unfolding clean
  clean-IsSettled r uid c w q h = rw forget_resource (elim (Option-cases (find_conn r.holders c)) [
    | inl missing ↦
        rw (missing, clean_found)
          (IsBlocked-queue r _ _ (All-remove_conn (IsBlocked r) r.waitings c h))
    | inr (cl, found) ↦ rw (found, clean_found) (waitings-IsSettled _ w (unfold let_go in q))
  ])

hold-IsSettled :
    (r : Numeric) (cl : QuantityLock) → AsksNat cl → IsSettled r → IsSettled (hold r cl)
hold-IsSettled r cl n h =
    unfold hold in
    All-imp (IsBlocked r) (IsBlocked (hold r cl)) (λ b. can_lock-hold r cl b.info n) r.waitings h

request-IsSettled :
    (e : Env) (r : Numeric) (uid : ℕ) (c : Conn) (body : LockBody) (w : World)
    → IsNat body.quantity
    → IsSettled r
    → IsSettled (request e r uid c body w).resource
unfolding request reply
request-IsSettled e r uid c body w n h =
    let cl : QuantityLock = new_lock body.quantity c in
    ground (
      arith,
      hold-IsSettled r cl n h,
      λ (b : can_lock r body.quantity ≡ false).
          IsBlocked-queue r (r.waitings ++ cl ∷ []) (r.waitings ++ cl ∷ [])
            (All-append (IsBlocked r) r.waitings (cl ∷ []) h (b, tt)),
    )

abbrev Good : Numeric → Type 0
Good r = IsBalanced r × IsSettled r

-- Neither fails nor asks for a negative quantity.
abbrev pub IsGoodCall : Env × Call → Type 0
IsGoodCall (e, c) = IsReliable e × AsksNatCall (e, c)

inmsg-IsSettled :
    (e : Env) (r : Numeric) (uid : ℕ) (c : Conn) (msg : Msg) (w : World)
    → IsReliable e
    → AsksNatCall (e, message uid c msg)
    → All AsksNat r.waitings
    → IsSettled r
    → IsSettled (inmsg e r uid c msg w).resource
unfolding inmsg
inmsg-IsSettled e r uid c (lock body) w reliable n q h = request-IsSettled e r uid c body w n h
inmsg-IsSettled e r uid c (unlock body) w reliable n q h =
    ground
      (arith, release_msg_resource e (clean e r uid c w), clean-IsSettled e reliable r uid c w q h)
inmsg-IsSettled e r uid c (other_verb v) w reliable n q h = h

call-IsSettled :
    (s : Numeric × World) (c : Env × Call)
    → IsGoodCall c
    → All AsksNat s.0.waitings
    → IsSettled s.0
    → IsSettled (call methods s c).0
unfolding call
call-IsSettled (r, w) (e, message uid c msg) g q h = inmsg-IsSettled e r uid c msg w g.0 g.1 q h
call-IsSettled (r, w) (e, closed uid c) g q h = clean-IsSettled e g.0 r uid c w q h

-- After `flom_resource_numeric_init` with a number that is not negative and any history in which memory
-- and network serve and nobody asks for a negative quantity, each waiting connection asks for more
-- than what is left.
pub run-init-numeric-IsSettled :
    (digits : String → Option (List ℕ)) (e : Env) (w : World) (name : String) (r : Numeric)
    (cs : List (Env × Call))
    → init digits e w name ≡ created r
    → IsNat r.total_quantity
    → All IsGoodCall cs
    → IsSettled (run methods (r, w) cs).0
run-init-numeric-IsSettled digits e w name r cs i t g =
    (run-induction methods Good IsGoodCall
      (λ s c v g. (call-IsBalanced s c v.0 g.1, call-IsSettled s c g v.0.asked v.1)) (r, w) cs
      (init-IsBalanced digits e w name r i t, unfold init in ground arith) g).1
