-- ===== src/Set/Settled.antt =====
-- No lost wake-up on a set: as long as the messages to waiting clients go out, somebody waits only if
-- each element is held.
use flom.Prelude.{
  ℕ, suc, ◌<◌, ◌≡◌, refl, ap, Bool, Option, none, some, List, [], ◌∷◌, map, String, arith, length,
  All, All-imp, All-append,
}
use flom.Rsrc.Types.{Rc, Conn, Msg, lock, unlock, other_verb}
use flom.Rsrc.Env.{Env, World, IsReliable}
use flom.Rsrc.Holders.{All-remove_conn}
use flom.Rsrc.Scan.{Scan, scan}
use flom.Rsrc.Scan.Rules.{
  After, IfBlocked, IsHonest, NoFailure, units, scan-After, scan-ok, scan-settled,
}
use flom.Rsrc.Calls.{Call, call, run, run-induction, message, closed, reply, created}
use flom.Rsrc.Calls.Answers.{notify-reliable, forget_resource, release_msg_resource}
use flom.Set.{
  Set, Waiting, new_element, new_waiting, init, init_names, can_lock, hold, enqueue, name_at,
  grant_waiting, try_element, try_waiting, waitings, waitings-scan, find_element, clean_found,
  clean, request_found, request, inmsg, methods,
}
use flom.Set.Search.{IsIndexed, IsHeld, can_lock-IsFirst}
use flom.Set.Places.{
  AllHeld, hold-AllHeld, hold-IsIndexed, let_go-IsIndexed, queue-IsIndexed, try_waiting-IsIndexed,
  waitings-IsIndexed,
}

-- Whoever waits, waits for elements that are all held.
abbrev pub IsSettled : Set → Type 0
IsSettled r = All (λ (cl : Waiting). All IsHeld r.elements) r.waitings

module _ (e : Env) where
  try_element_here :
      (r : Set) (w : World) (c : Conn) (o : Option ℕ)
      → can_lock r ≡ o
      → IfBlocked (λ s. can_lock s.0 ≡ none) (try_element e r w c o)
  unfolding try_element grant_waiting
  try_element_here r w c none h = h
  try_element_here r w c (some j) h = ground arith

  try_element_later :
      (r : Set) (w : World) (c : Conn) (o : Option ℕ)
      → can_lock r ≡ o
      → can_lock r ≡ none
      → After (λ s. can_lock s.0 ≡ none) (try_element e r w c o)
  unfolding try_element
  try_element_later r w c none h full = full
  try_element_later r w c (some j) h full = absurd (ground (arith, h, full))

  try_element-IsHonest :
      (r : Set) (w : World) (c : Conn) (o : Option ℕ) → IsHonest (try_element e r w c o)
  unfolding try_element grant_waiting
  try_element-IsHonest r w c none = tt
  try_element-IsHonest r w c (some j) = ground arith

  waitings-IsSettled :
      (r : Set) (w : World)
      → IsIndexed r
      → (waitings e r w).rc ≡ Rc.ok
      → IsSettled (waitings e r w).resource
  unfolding try_waiting
  waitings-IsSettled r w v h = rw waitings-scan (
      All-imp (λ cl. can_lock end.state.0 ≡ none) (λ cl. AllHeld end.state.0)
        (λ cl full. (can_lock-IsFirst end.state.0 indexed).1 full) end.queue
        (scan-settled (try_waiting e) (λ _. Unit) (λ s cl. can_lock s.0 ≡ none)
          (λ s cl. try_element_here s.0 s.1 cl.conn (can_lock s.0) refl)
          (λ s a b _. try_element_later s.0 s.1 a.conn (can_lock s.0) refl)
          (λ s cl. try_element-IsHonest s.0 s.1 cl.conn (can_lock s.0)) (r, w) r.waitings
          (units r.waitings) (rw waitings-scan at h)))
    where
      end : Scan (Set × World) Waiting
      end = scan (try_waiting e) (r, w) r.waitings

      indexed : IsIndexed end.state.0
      indexed =
          scan-After (try_waiting e) (λ s. IsIndexed s.0) (λ _. Unit)
            (λ s cl v _. try_waiting-IsIndexed e s cl v) (r, w) r.waitings v (units r.waitings)

module _ (e : Env) (reliable : IsReliable e) where
  try_element_fine :
      (r : Set) (w : World) (c : Conn) (o : Option ℕ) → NoFailure (try_element e r w c o)
  unfolding try_element grant_waiting
  try_element_fine r w c none = tt
  try_element_fine r w c (some j) =
      ground (arith, notify-reliable e reliable c (name_at r.elements j) w)

  waitings-ok : (r : Set) (w : World) → (waitings e r w).rc ≡ Rc.ok
  unfolding try_waiting
  waitings-ok r w = rw waitings-scan (
      scan-ok (try_waiting e) (λ s cl. try_element_fine s.0 s.1 cl.conn (can_lock s.0)) (r, w)
        r.waitings)

-- The invariant: an index in the array, and in reliable surroundings nobody waits in vain.
abbrev pub IsSound : Set → Type 0
IsSound r = IsIndexed r × IsSettled r

clean_found-IsSound :
    (e : Env) (r : Set) (c : Conn) (w : World) (o : Option ℕ)
    → IsReliable e
    → IsSound r
    → IsSound (clean_found e r c w o).resource
unfolding clean_found
clean_found-IsSound e r c w (some j) reliable (v, h) = (
  waitings-IsIndexed e _ w (let_go-IsIndexed r j v),
  waitings-IsSettled e _ w (let_go-IsIndexed r j v) (waitings-ok e reliable _ w),
)
clean_found-IsSound e r c w none reliable (v, h) =
    (queue-IsIndexed r _ v, All-remove_conn (λ (cl : Waiting). AllHeld r) r.waitings c h)

clean-IsSound :
    (e : Env) (r : Set) (uid : ℕ) (c : Conn) (w : World)
    → IsReliable e
    → IsSound r
    → IsSound (clean e r uid c w).resource
unfolding clean
clean-IsSound e r uid c w reliable h =
    rw forget_resource (clean_found-IsSound e r c w (find_element r.elements c) reliable h)

hold-IsSound : (r : Set) (j : ℕ) (c : Conn) → IsSound r → IsSound (hold r j c)
unfolding hold
hold-IsSound r j c (v, h) = (
  hold-IsIndexed r j c v,
  All-imp (λ cl. AllHeld r) (λ cl. AllHeld (hold r j c)) (λ cl held. hold-AllHeld r j c held)
      r.waitings h,
)

enqueue-IsSound :
    (r : Set) (c : Conn) → can_lock r ≡ none → IsSound r → IsSound (enqueue r (new_waiting c))
enqueue-IsSound r c full (v, h) = (
  queue-IsIndexed r _ v,
  All-append (λ cl. AllHeld r) r.waitings (new_waiting c ∷ []) h
      ((can_lock-IsFirst r v).1 full, tt),
)

request_found-IsSound :
    (e : Env) (r : Set) (uid : ℕ) (c : Conn) (wait : Bool) (w : World) (o : Option ℕ)
    → can_lock r ≡ o
    → IsSound r
    → IsSound (request_found e r uid c wait w o).resource
unfolding request_found reply
request_found-IsSound e r uid c wait w none full h = ground (arith, h, enqueue-IsSound r c full h)
request_found-IsSound e r uid c wait w (some j) found h = ground (arith, h, hold-IsSound r j c h)

inmsg-IsSound :
    (e : Env) (r : Set) (uid : ℕ) (c : Conn) (msg : Msg) (w : World)
    → IsReliable e
    → IsSound r
    → IsSound (inmsg e r uid c msg w).resource
unfolding inmsg request
inmsg-IsSound e r uid c (lock body) w reliable h =
    ground (arith, h, request_found-IsSound e r uid c body.wait w (can_lock r) refl h)
inmsg-IsSound e r uid c (unlock body) w reliable h =
    ground
      (arith, h, release_msg_resource e (clean e r uid c w), clean-IsSound e r uid c w reliable h)
inmsg-IsSound e r uid c (other_verb v) w reliable h = h

abbrev pub IsReliableCall : Env × Call → Type 0
IsReliableCall (e, c) = IsReliable e

call-IsSound :
    (s : Set × World) (c : Env × Call)
    → IsSound s.0
    → IsReliableCall c
    → IsSound (call methods s c).0
unfolding call
call-IsSound (r, w) (e, message uid c msg) h reliable = inmsg-IsSound e r uid c msg w reliable h
call-IsSound (r, w) (e, closed uid c) h reliable = clean-IsSound e r uid c w reliable h

length-map : (names : List String) → length (map new_element names) ≡ length names
length-map [] = refl
length-map (x ∷ xs) = ap suc (length-map xs)

new-IsSound :
    (r : Set) (names : List String)
    → r.elements ≡ map new_element names
    → r.index ≡ 0
    → r.waitings ≡ []
    → 0 < length names
    → length names < 2147483648
    → IsSound r
new-IsSound r names at zero_index idle some_name few =
    rw (at, zero_index, idle)
      (record { inside = rw length-map some_name; small = rw length-map few }, tt)

init-IsSound :
    (split : String → Option (List String)) (e : Env) (w : World) (name : String)
    (names : List String) (r : Set)
    → init split e w name ≡ created r
    → split name ≡ some names
    → 0 < length names
    → length names < 2147483648
    → IsSound r
unfolding init init_names
init-IsSound split e w name names r i s some_name few =
    new-IsSound r names (ground (arith, s)) (ground (arith, s)) (ground (arith, s)) some_name few

-- After `flom_resource_set_init` with a name that splits into one element at least, and fewer than
-- 2^31, and any sequence of messages and disconnections for which memory and network serve: somebody
-- waits only if each element of the set is held.
pub run-init-set-IsSettled :
    (split : String → Option (List String)) (e : Env) (w : World) (name : String)
    (names : List String) (r : Set) (cs : List (Env × Call))
    → init split e w name ≡ created r
    → split name ≡ some names
    → 0 < length names
    → length names < 2147483648
    → All IsReliableCall cs
    → IsSettled (run methods (r, w) cs).0
run-init-set-IsSettled split e w name names r cs i s some_name few reliable =
    (run-induction methods IsSound IsReliableCall call-IsSound (r, w) cs
      (init-IsSound split e w name names r i s some_name few) reliable).1
