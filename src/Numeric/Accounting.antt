-- ===== src/Numeric/Accounting.antt =====
-- The book-keeping of a numeric resource: what is locked is what the holders hold, and never more than
-- there is, provided that nobody asks for a negative quantity.
use flom.Prelude.{
  ℕ, ◌≡◌, sym, ap, inl, inr, Bool-cases, ◌==◌, true, some, List, [], ◌∷◌, ◌++◌, arith, All,
  All-append, Option-cases,
}
use flom.Prelude.Int.{
  ℤ, pos, ◌+ℤ◌, ◌-ℤ◌, ◌≤ℤ◌, int_laws, +ℤ_parts, +ℤ_cancel, +ℤ-ℤ_right_comm, leb_ℤ→le,
}
use flom.Rsrc.Types.{Rc, is_ok, Conn, LockBody}
use flom.Rsrc.Env.{Env, World}
use flom.Rsrc.Holders.{find_conn, remove_conn, All-remove_conn, find_conn-All}
use flom.Rsrc.Scan.Rules.{After, scan-After, scan-All}
use flom.Rsrc.Calls.{reply}
use flom.Rsrc.Calls.Answers.{forget_resource}
use flom.Numeric.{
  Numeric, QuantityLock, can_lock, new_lock, hold, let_go, grant_waiting, try_waiting, waitings,
  waitings-scan, clean_found, clean, request,
}

-- What the holders hold together.
unfoldable pub total_held : List QuantityLock → ℤ
total_held [] = pos 0
total_held (cl ∷ rest) = total_held rest +ℤ cl.info

abbrev pub IsNat : ℤ → Type 0
IsNat q = pos 0 ≤ℤ q

abbrev pub AsksNat : QuantityLock → Type 0
AsksNat cl = IsNat cl.info

pub record IsBalanced (r : Numeric) : Type 0 where
  pub booked : r.locked_quantity ≡ total_held r.holders
  pub within : r.locked_quantity ≤ℤ r.total_quantity
  pub held : All AsksNat r.holders
  pub asked : All AsksNat r.waitings

pub total_held-IsNat :
    (holders : List QuantityLock) → All AsksNat holders → IsNat (total_held holders)
unfolding total_held
total_held-IsNat [] h = omega arith
total_held-IsNat (cl ∷ rest) h =
    omega (arith, +ℤ_parts (total_held rest) cl.info, total_held-IsNat rest h.1, h.0)

total_held-remove_conn :
    (holders : List QuantityLock) (c : Conn) (cl : QuantityLock)
    → find_conn holders c ≡ some cl
    → total_held (remove_conn holders c) ≡ total_held holders -ℤ cl.info
unfolding total_held find_conn remove_conn
total_held-remove_conn [] c cl h = cc
total_held-remove_conn (x ∷ rest) c cl h = elim (Bool-cases (x.conn == c)) [
  | inl hit ↦
      let e : x.info ≡ cl.info = ground arith in
      rw (hit, e) (sym (+ℤ_cancel (total_held rest) cl.info))
  | inr miss ↦
      rw (miss, total_held-remove_conn rest c cl (rw miss at h))
        (+ℤ-ℤ_right_comm (total_held rest) cl.info x.info)
]

hold-IsBalanced :
    (r : Numeric) (cl : QuantityLock)
    → AsksNat cl
    → can_lock r cl.info ≡ true
    → IsBalanced r
    → IsBalanced (hold r cl)
unfolding hold can_lock total_held
hold-IsBalanced r cl q h v = record {
  booked = ap (λ t. t +ℤ cl.info) v.booked;
  within = omega (int_laws, v.within, leb_ℤ→le cl.info (r.total_quantity -ℤ r.locked_quantity) h);
  held = (q, v.held);
  asked = v.asked;
}

pub let_go-IsBalanced :
    (r : Numeric) (c : Conn) (cl : QuantityLock)
    → find_conn r.holders c ≡ some cl
    → IsBalanced r
    → IsBalanced (let_go r c cl)
unfolding let_go
let_go-IsBalanced r c cl h v = record {
  booked = rw v.booked (sym (total_held-remove_conn r.holders c cl h));
  within = omega (int_laws, v.within, find_conn-All AsksNat r.holders c cl h v.held);
  held = All-remove_conn AsksNat r.holders c v.held;
  asked = v.asked;
}

grant_waiting-IsBalanced :
    (r : Numeric) (cl : QuantityLock) (n : Rc × World)
    → AsksNat cl
    → can_lock r cl.info ≡ true
    → IsBalanced r
    → After (λ s. IsBalanced s.0) (grant_waiting r cl n)
unfolding grant_waiting
grant_waiting-IsBalanced r cl (rc, w) q can v = elim (Bool-cases (is_ok rc)) [
  | inl fine ↦ rw fine (hold-IsBalanced r cl q can v)
  | inr broken ↦ rw broken v
]

try_waiting-IsBalanced :
    (e : Env) (s : Numeric × World) (cl : QuantityLock)
    → IsBalanced s.0
    → AsksNat cl
    → After (λ s. IsBalanced s.0) (try_waiting e s cl)
unfolding try_waiting
try_waiting-IsBalanced e (r, w) cl v q = elim (Bool-cases (can_lock r cl.info)) [
  | inl can ↦ rw can (grant_waiting-IsBalanced r cl _ q can v)
  | inr cannot ↦ rw cannot v
]

-- Only the queue changes at the end of the loop.
pub IsBalanced-queue :
    (r : Numeric) (queue : List QuantityLock)
    → IsBalanced r
    → All AsksNat queue
    → IsBalanced (record r { waitings = queue })
IsBalanced-queue r queue v q = record {
  booked = v.booked;
  within = v.within;
  held = v.held;
  asked = q;
}

waitings-IsBalanced :
    (e : Env) (r : Numeric) (w : World) → IsBalanced r → IsBalanced (waitings e r w).resource
waitings-IsBalanced e r w v = rw waitings-scan (
    IsBalanced-queue _ _
      (scan-After (try_waiting e) (λ s. IsBalanced s.0) AsksNat (try_waiting-IsBalanced e) (r, w)
        r.waitings v v.asked)
      (scan-All (try_waiting e) AsksNat (r, w) r.waitings v.asked))

pub clean-IsBalanced :
    (e : Env) (r : Numeric) (uid : ℕ) (c : Conn) (w : World)
    → IsBalanced r
    → IsBalanced (clean e r uid c w).resource
unfolding clean
clean-IsBalanced e r uid c w v = rw forget_resource (elim (Option-cases (find_conn r.holders c)) [
  | inl missing ↦
      rw (missing, clean_found)
        (IsBalanced-queue r _ v (All-remove_conn AsksNat r.waitings c v.asked))
  | inr (cl, found) ↦
      rw (found, clean_found) (waitings-IsBalanced e _ w (let_go-IsBalanced r c cl found v))
])

pub request-IsBalanced :
    (e : Env) (r : Numeric) (uid : ℕ) (c : Conn) (body : LockBody) (w : World)
    → IsNat body.quantity
    → IsBalanced r
    → IsBalanced (request e r uid c body w).resource
unfolding request reply
request-IsBalanced e r uid c body w q v =
    let cl : QuantityLock = new_lock body.quantity c in
    ground (
      arith,
      λ (h : can_lock r body.quantity ≡ true). hold-IsBalanced r cl q h v,
      IsBalanced-queue r (r.waitings ++ cl ∷ []) v
          (All-append AsksNat r.waitings (cl ∷ []) v.asked (q, tt)),
    )
