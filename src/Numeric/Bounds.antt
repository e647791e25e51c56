-- ===== src/Numeric/Bounds.antt =====
-- After any history without negative quantities the books of a numeric resource balance; one negative
-- quantity, which the daemon does not refuse, is enough to hand out more than there is.
use flom.Prelude.{ℕ, ◌≡◌, Option, List, String, arith, All}
use flom.Prelude.Int.{pos, ◌≤ℤ◌}
use flom.Rsrc.Types.{Conn, Msg, lock, unlock, other_verb}
use flom.Rsrc.Env.{Env, World}
use flom.Rsrc.Calls.{Call, call, run, run-induction, message, closed, created}
use flom.Rsrc.Calls.Answers.{release_msg_resource}
use flom.Numeric.{Numeric, init, clean, inmsg, methods}
use flom.Numeric.Accounting.{
  total_held, total_held-IsNat, IsNat, IsBalanced, request-IsBalanced, clean-IsBalanced,
}

-- A call that does not ask for a negative quantity.
abbrev pub AsksNatCall : Env × Call → Type 0
AsksNatCall (e, message uid c (lock body)) = IsNat body.quantity
AsksNatCall (e, message uid c (unlock body)) = Unit
AsksNatCall (e, message uid c (other_verb v)) = Unit
AsksNatCall (e, closed uid c) = Unit

inmsg-IsBalanced :
    (e : Env) (r : Numeric) (uid : ℕ) (c : Conn) (msg : Msg) (w : World)
    → AsksNatCall (e, message uid c msg)
    → IsBalanced r
    → IsBalanced (inmsg e r uid c msg w).resource
unfolding inmsg
inmsg-IsBalanced e r uid c (lock body) w q v = request-IsBalanced e r uid c body w q v
inmsg-IsBalanced e r uid c (unlock body) w q v =
    ground (arith, release_msg_resource e (clean e r uid c w), clean-IsBalanced e r uid c w v)
inmsg-IsBalanced e r uid c (other_verb o) w q v = v

pub call-IsBalanced :
    (s : Numeric × World) (c : Env × Call)
    → IsBalanced s.0
    → AsksNatCall c
    → IsBalanced (call methods s c).0
unfolding call
call-IsBalanced (r, w) (e, message uid c msg) v q = inmsg-IsBalanced e r uid c msg w q v
call-IsBalanced (r, w) (e, closed uid c) v q = clean-IsBalanced e r uid c w v

pub init-IsBalanced :
    (digits : String → Option (List ℕ)) (e : Env) (w : World) (name : String) (r : Numeric)
    → init digits e w name ≡ created r
    → IsNat r.total_quantity
    → IsBalanced r
unfolding init total_held
init-IsBalanced digits e w name r i t = ground arith

-- After `flom_resource_numeric_init` with a number that is not negative, and any messages and
-- disconnections in any order, with any call to memory and network failing, but no request for a
-- negative quantity: the locked quantity is the sum of what the holders hold, it is not negative and
-- at most the total.
pub run-init-bounds :
    (digits : String → Option (List ℕ)) (e : Env) (w : World) (name : String) (r : Numeric)
    (cs : List (Env × Call))
    → init digits e w name ≡ created r
    → IsNat r.total_quantity
    → All AsksNatCall cs
    → let s = (run methods (r, w) cs).0 in
      (s.locked_quantity ≡ total_held s.holders)
      × (pos 0 ≤ℤ s.locked_quantity)
      × (s.locked_quantity ≤ℤ s.total_quantity)
run-init-bounds digits e w name r cs i t q =
    let v : IsBalanced (run methods (r, w) cs).0 =
      run-induction methods IsBalanced AsksNatCall call-IsBalanced (r, w) cs
        (init-IsBalanced digits e w name r i t) q in
    (v.booked, rw v.booked (total_held-IsNat _ v.held), v.within)
