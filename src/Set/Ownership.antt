-- ===== src/Set/Ownership.antt =====
-- Who has an element keeps it: no call of another connection takes it away or gives it away again.
use mathlib.Core.Option
use flom.Prelude.{
  ℕ, zero, suc, ◌==◌, ==_iff, ◌≡◌, refl, ap, inl, inr, Bool-cases, Option-cases, Bool, true, false,
  Option, none, some, List, [], ◌∷◌, arith, length, All, subst,
}
use flom.Rsrc.Types.{Conn, Msg, lock, unlock, other_verb, LockBody}
use flom.Rsrc.Env.{Env, World}
use flom.Rsrc.Scan.Rules.{After, scan-After, units}
use flom.Rsrc.Calls.{Call, call, run, run-induction, message, closed, reply}
use flom.Rsrc.Calls.Answers.{forget_resource, release_msg_resource}
use flom.Set.{
  Set, Element, Waiting, is_free, search, can_lock, assign, hold, let_go, grant_waiting,
  try_element, try_waiting, waitings, waitings-scan, is_held_by, find_element, clean_found, clean,
  request_found, request, inmsg, methods,
}

-- The connection that has the element at a place of the array.
unfoldable pub holder_at : List Element → ℕ → Option Conn
holder_at [] j = none
holder_at (x ∷ xs) zero = x.conn
holder_at (x ∷ xs) (suc j) = holder_at xs j

abbrev pub Has : Conn → ℕ → Set → Type 0
Has c j r = holder_at r.elements j ≡ some c

holder_at-assign :
    (xs : List Element) (i j : ℕ) (o : Option Conn)
    → (j == i) ≡ false
    → holder_at (assign xs i o) j ≡ holder_at xs j
unfolding holder_at assign
holder_at-assign [] i j o h = refl
holder_at-assign (x ∷ xs) zero zero o h = cc
holder_at-assign (x ∷ xs) zero (suc j) o h = refl
holder_at-assign (x ∷ xs) (suc i) zero o h = refl
holder_at-assign (x ∷ xs) (suc i) (suc j) o h = holder_at-assign xs i j o (ground (arith, h))

holder_at-free : (xs : List Element) (j : ℕ) → is_free xs j ≡ true → holder_at xs j ≡ none
unfolding holder_at is_free
holder_at-free [] j h = refl
holder_at-free (x ∷ xs) zero h = elim (Option-cases x.conn) [
  | inl none_at ↦ none_at
  | inr (c, at) ↦ absurd (ground (arith, rw at at h))
]
holder_at-free (x ∷ xs) (suc j) h = holder_at-free xs j h

search-is_free : (r : Set) (n i j : ℕ) → search r n i ≡ some j → is_free r.elements j ≡ true
unfolding search
search-is_free r zero i j h = cc
search-is_free r (suc n) i j h = ground (arith, search-is_free r n (suc i) j)

is_held_by_self : (o : Option Conn) (c : Conn) → is_held_by o c ≡ true → o ≡ some c
unfolding is_held_by
is_held_by_self none c h = cc
is_held_by_self (some d) c h = ap some ((==_iff d c).0 h)

map-suc-some :
    (o : Option ℕ) (j : ℕ) → Option.map suc o ≡ some j → (k : ℕ) × (o ≡ some k) × (j ≡ suc k)
map-suc-some none j h = cc
map-suc-some (some k) j h = (k, refl, ground arith)

holder_at-find_element :
    (xs : List Element) (c : Conn) (j : ℕ) → find_element xs c ≡ some j → holder_at xs j ≡ some c
unfolding holder_at find_element
holder_at-find_element [] c j h = cc
holder_at-find_element (x ∷ xs) c j h = elim (Bool-cases (is_held_by x.conn c)) [
  | inl hit ↦ let at : j ≡ 0 = ground (arith, rw hit at h) in rw at (is_held_by_self x.conn c hit)
  | inr miss ↦
      let (k, found, at) = map-suc-some (find_element xs c) j (rw miss at h) in
      rw at (holder_at-find_element xs c k found)
]

module _ (c : Conn) (j : ℕ) where
  -- The place that changes is not that of `c`, which has something else in it.
  assign-Has :
      (xs : List Element) (i : ℕ) (o : Option Conn)
      → ¬ (holder_at xs i ≡ some c)
      → holder_at xs j ≡ some c
      → holder_at (assign xs i o) j ≡ some c
  assign-Has xs i o other h = elim (Bool-cases (j == i)) [
    | inl same ↦ absurd (other (subst (λ i. holder_at xs i ≡ some c) ((==_iff j i).0 same) h))
    | inr apart ↦ rw (holder_at-assign xs i j o apart) h
  ]

  hold-Has : (r : Set) (i : ℕ) (d : Conn) → can_lock r ≡ some i → Has c j r → Has c j (hold r i d)
  unfolding hold can_lock
  hold-Has r i d found h =
      assign-Has r.elements i (some d)
        (λ e.
          ground (
            arith,
            e,
            holder_at-free r.elements i (search-is_free r (length r.elements) 0 i found),
          ))
        h

  let_go-Has :
      (r : Set) (i : ℕ) (d : Conn)
      → find_element r.elements d ≡ some i
      → (d == c) ≡ false
      → Has c j r
      → Has c j (let_go r i)
  unfolding let_go
  let_go-Has r i d found other h =
      assign-Has r.elements i none
        (λ e. ground (arith, e, other, holder_at-find_element r.elements d i found)) h

  try_element-Has :
      (e : Env) (r : Set) (w : World) (d : Conn) (o : Option ℕ)
      → can_lock r ≡ o
      → Has c j r
      → After (λ s. Has c j s.0) (try_element e r w d o)
  unfolding try_element grant_waiting
  try_element-Has e r w d none found h = h
  try_element-Has e r w d (some i) found h = ground (arith, hold-Has r i d found h)

  try_waiting-Has :
      (e : Env) (s : Set × World) (cl : Waiting)
      → Has c j s.0
      → After (λ s. Has c j s.0) (try_waiting e s cl)
  unfolding try_waiting
  try_waiting-Has e (r, w) cl h = try_element-Has e r w cl.conn (can_lock r) refl h

  waitings-Has : (e : Env) (r : Set) (w : World) → Has c j r → Has c j (waitings e r w).resource
  waitings-Has e r w h = rw waitings-scan (
      scan-After (try_waiting e) (λ s. Has c j s.0) (λ _. Unit)
        (λ s cl h _. try_waiting-Has e s cl h) (r, w) r.waitings h (units r.waitings))

  clean_found-Has :
      (e : Env) (r : Set) (d : Conn) (w : World) (o : Option ℕ)
      → find_element r.elements d ≡ o
      → (d == c) ≡ false
      → Has c j r
      → Has c j (clean_found e r d w o).resource
  unfolding clean_found
  clean_found-Has e r d w none found other h = h
  clean_found-Has e r d w (some i) found other h =
      waitings-Has e _ w (let_go-Has r i d found other h)

  clean-Has :
      (e : Env) (r : Set) (uid : ℕ) (d : Conn) (w : World)
      → (d == c) ≡ false
      → Has c j r
      → Has c j (clean e r uid d w).resource
  unfolding clean
  clean-Has e r uid d w other h =
      rw forget_resource (clean_found-Has e r d w (find_element r.elements d) refl other h)

  request_found-Has :
      (e : Env) (r : Set) (uid : ℕ) (d : Conn) (wait : Bool) (w : World) (o : Option ℕ)
      → can_lock r ≡ o
      → Has c j r
      → Has c j (request_found e r uid d wait w o).resource
  unfolding request_found reply
  request_found-Has e r uid d wait w none found h = ground (arith, h)
  request_found-Has e r uid d wait w (some i) found h = ground (arith, hold-Has r i d found h)

  request-Has :
      (e : Env) (r : Set) (uid : ℕ) (d : Conn) (body : LockBody) (w : World)
      → Has c j r
      → Has c j (request e r uid d body w).resource
  unfolding request
  request-Has e r uid d body w h =
      ground (arith, h, request_found-Has e r uid d body.wait w (can_lock r) refl h)

  inmsg-Has :
      (e : Env) (r : Set) (uid : ℕ) (d : Conn) (msg : Msg) (w : World)
      → (d == c) ≡ false
      → Has c j r
      → Has c j (inmsg e r uid d msg w).resource
  unfolding inmsg
  inmsg-Has e r uid d (lock body) w other h = request-Has e r uid d body w h
  inmsg-Has e r uid d (unlock body) w other h =
      ground (arith, h, release_msg_resource e (clean e r uid d w), clean-Has e r uid d w other h)
  inmsg-Has e r uid d (other_verb v) w other h = h

abbrev pub caller : Call → Conn
caller (message uid d msg) = d
caller (closed uid d) = d

call-Has :
    (c : Conn) (j : ℕ) (s : Set × World) (x : Env × Call)
    → Has c j s.0
    → (caller x.1 == c) ≡ false
    → Has c j (call methods s x).0
unfolding call
call-Has c j (r, w) (e, message uid d msg) h other = inmsg-Has c j e r uid d msg w other h
call-Has c j (r, w) (e, closed uid d) h other = clean-Has c j e r uid d w other h

-- Mutual exclusion on the elements: an element that a connection has stays its own through any
-- sequence of messages and disconnections of other connections, with any call to memory and network
-- failing.
pub run-keeps_element :
    (c : Conn) (j : ℕ) (r : Set) (w : World) (cs : List (Env × Call))
    → holder_at r.elements j ≡ some c
    → All (λ x. (caller x.1 == c) ≡ false) cs
    → holder_at (run methods (r, w) cs).0.elements j ≡ some c
run-keeps_element c j r w cs h others =
    run-induction methods (Has c j) (λ x. (caller x.1 == c) ≡ false) (call-Has c j) (r, w) cs h
      others
