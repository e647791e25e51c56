-- ===== src/Set/Places.antt =====
-- The array of a set and the index into it: what the writes to them keep.
use native.Mathlib.Nat.{mod-lt}
use flom.Prelude.{
  ℕ, zero, suc, ◌+◌, ◌%◌, ◌≡◌, refl, ap, Option, none, some, List, [], ◌∷◌, arith, length, All,
}
use flom.Rsrc.Types.{guint_mod, Conn}
use flom.Rsrc.Env.{Env, World}
use flom.Rsrc.Scan.Rules.{After, units, scan-After}
use flom.Set.{
  Set, Element, Waiting, can_lock, assign, hold, let_go, grant_waiting, try_element, try_waiting,
  waitings, waitings-scan,
}
use flom.Set.Search.{IsIndexed, IsHeld}

abbrev pub AllHeld : Set → Type 0
AllHeld r = All IsHeld r.elements

length-assign : (xs : List Element) (j : ℕ) (o : Option Conn) → length (assign xs j o) ≡ length xs
unfolding assign
length-assign [] j o = refl
length-assign (x ∷ xs) zero o = refl
length-assign (x ∷ xs) (suc j) o = ap suc (length-assign xs j o)

assign-AllHeld :
    (xs : List Element) (j : ℕ) (c : Conn) → All IsHeld xs → All IsHeld (assign xs j (some c))
unfolding assign
assign-AllHeld [] j c h = tt
assign-AllHeld (x ∷ xs) zero c h = (refl, h.1)
assign-AllHeld (x ∷ xs) (suc j) c h = (h.0, assign-AllHeld xs j c h.1)

pub hold-AllHeld : (r : Set) (j : ℕ) (c : Conn) → AllHeld r → AllHeld (hold r j c)
unfolding hold
hold-AllHeld r j c h = assign-AllHeld r.elements j c h

pub hold-IsIndexed : (r : Set) (j : ℕ) (c : Conn) → IsIndexed r → IsIndexed (hold r j c)
unfolding hold
hold-IsIndexed r j c v = record {
  inside = rw length-assign (mod-lt ((r.index + 1) % guint_mod) (omega (arith, v.inside)));
  small = rw length-assign v.small;
}

pub let_go-IsIndexed : (r : Set) (j : ℕ) → IsIndexed r → IsIndexed (let_go r j)
unfolding let_go
let_go-IsIndexed r j v = record {
  inside = rw length-assign v.inside;
  small = rw length-assign v.small;
}

pub queue-IsIndexed :
    (r : Set) (q : List Waiting) → IsIndexed r → IsIndexed (record r { waitings = q })
queue-IsIndexed r q v = record { inside = v.inside; small = v.small }

module _ (e : Env) where
  try_element-IsIndexed :
      (r : Set) (w : World) (c : Conn) (o : Option ℕ)
      → IsIndexed r
      → After (λ s. IsIndexed s.0) (try_element e r w c o)
  unfolding try_element grant_waiting
  try_element-IsIndexed r w c none v = v
  try_element-IsIndexed r w c (some j) v = ground (arith, v, hold-IsIndexed r j c v)

  pub try_waiting-IsIndexed :
      (s : Set × World) (cl : Waiting)
      → IsIndexed s.0
      → After (λ s. IsIndexed s.0) (try_waiting e s cl)
  unfolding try_waiting
  try_waiting-IsIndexed (r, w) cl v = try_element-IsIndexed r w cl.conn (can_lock r) v

  pub waitings-IsIndexed : (r : Set) (w : World) → IsIndexed r → IsIndexed (waitings e r w).resource
  waitings-IsIndexed r w v = rw waitings-scan (
      queue-IsIndexed _ _ (
        scan-After (try_waiting e) (λ s. IsIndexed s.0) (λ _. Unit)
          (λ s cl v _. try_waiting-IsIndexed s cl v) (r, w) r.waitings v (units r.waitings)))
