-- ===== src/Set/Replies.antt =====
-- What a request for an element is answered, on every branch of flom_resource_set_inmsg.
use flom.Prelude.{
  ℕ, zero, suc, ◌+◌, ◌%◌, ◌≡◌, ◌∙◌, ◌⊎◌, refl, ap, List, [], ◌∷◌, ◌++◌, length, get_elem?, set,
  Option, none, some, true, false, String, arith, All, inl, inr, Option-cases,
}
use flom.Rsrc.Types.{guint_mod, Rc, Conn, LockBody}
use flom.Rsrc.Env.{Env, World, IsReliable, emit, vfs_add_locker_conn}
use flom.Rsrc.Calls.{Outcome}
use flom.Rsrc.Calls.Answers.{IsAnswerStep, reply-reliable}
use flom.Set.{
  Set, Element, is_free, assign, can_lock, hold, enqueue, new_waiting, name_at, request_found,
  request,
}
use flom.Set.Search.{IsIndexed, IsHeld, IsFirst, can_lock-IsFirst}

-- The resource `r` is left, and the client is answered `rc` and an element at the next step of its
-- connection.
abbrev pub Answers : World → Conn → Outcome Set → Set → Rc → Option String → Type 0
Answers w c o r rc element =
    (o.rc ≡ Rc.ok)
    × (o.resource ≡ r)
    × (o.reply ≡ some (record { step = w.last_step c + 8; rc = rc; element = element }))

module _ (e : Env) (r : Set) (uid : ℕ) (c : Conn) (body : LockBody) (w : World)
    (reliable : IsReliable e) (h : IsAnswerStep (w.last_step c + 8)) where
  found_lem :
      (j : ℕ)
      → can_lock r ≡ some j
      → Answers w c (request e r uid c body w) (hold r j c) Rc.ok (name_at r.elements j)
  unfolding request request_found emit
  found_lem j found = ground (
    arith,
    found,
    reliable.msg_frees w.log,
    reply-reliable e reliable (hold r j c) c Rc.ok (name_at r.elements j)
        (emit (vfs_add_locker_conn uid c true) w) h,
  )

  enqueued_lem :
      can_lock r ≡ none
      → body.wait ≡ true
      → Answers w c (request e r uid c body w) (enqueue r (new_waiting c)) Rc.lock_enqueued none
  unfolding request request_found emit
  enqueued_lem full waits = ground (
    arith,
    full,
    reliable.mallocs w.log,
    reliable.msg_frees w.log,
    reply-reliable e reliable (enqueue r (new_waiting c)) c Rc.lock_enqueued none
        (emit (vfs_add_locker_conn uid c false) w) h,
  )

  busy_lem :
      can_lock r ≡ none
      → body.wait ≡ false
      → Answers w c (request e r uid c body w) r Rc.lock_busy none
  unfolding request request_found
  busy_lem full waits =
      ground
        (arith, full, reliable.msg_frees w.log, reply-reliable e reliable r c Rc.lock_busy none w h)

-- A free element is a record without a connection, whose place an assignment changes.
free-assign :
    (xs : List Element) (j : ℕ) (c : Option Conn)
    → is_free xs j ≡ true
    → (n : String) × (get_elem? xs j ≡ some (record { name = n; conn = none }))
      × (assign xs j c ≡ set xs j (record { name = n; conn = c }))
      × (name_at xs j ≡ some n)
unfolding is_free assign name_at
free-assign [] j c h = cc
free-assign (x ∷ xs) zero c h = (x.name, ground (arith, h), refl, refl)
free-assign (x ∷ xs) (suc j) c h =
    let rest = free-assign xs j c h in (rest.0, rest.1, ap (◌∷◌ x) rest.2, rest.3)

-- The outcome of a request that is given the element `n` at the place `j`
abbrev pub Gives : Set → World → Conn → Outcome Set → ℕ → String → Type 0
Gives r w c o j n =
    (get_elem? r.elements j ≡ some (record { name = n; conn = none }))
    × Answers w c o
        (record {
          name = r.name;
          index = suc r.index % length r.elements;
          elements = set r.elements j (record { name = n; conn = some c });
          waitings = r.waitings;
        })
        Rc.ok (some n)

next_index : (r : Set) → IsIndexed r → (r.index + 1) % guint_mod ≡ suc r.index
next_index r v = omega (arith, v.inside, v.small)

given_lem :
    (r : Set) (w : World) (c : Conn) (o : Outcome Set) (j : ℕ)
    → IsIndexed r
    → is_free r.elements j ≡ true
    → Answers w c o (hold r j c) Rc.ok (name_at r.elements j)
    → (n : String) × Gives r w c o j n
unfolding hold
given_lem r w c o j v free (rc, left, reply) =
    let (n, there, assigned, named) = free-assign r.elements j (some c) free in
    (n, (there, (rc, left ∙ rw (next_index r v, assigned) refl, reply ∙ rw named refl)))

-- With memory, a connection that awaits an answer and an index within the array: either the client is
-- given the first free element of the round from the index, by its name, so that the element is then the
-- connection's, and the index moves on to the next place; or each element is held, and the client is put
-- at the end of the queue if it waits, and is else refused as busy. Nothing else of the resource changes.
pub set_request_replies :
    (e : Env) (r : Set) (uid : ℕ) (c : Conn) (body : LockBody) (w : World)
    → IsReliable e
    → IsAnswerStep (w.last_step c + 8)
    → IsIndexed r
    → let o = request e r uid c body w in
      ((j : ℕ) × ((i : ℕ) × IsFirst r j i) × ((n : String) × Gives r w c o j n))
      ⊎ (All IsHeld r.elements
          × (body.wait ≡ true
              → Answers w c o
                  (record {
                    name = r.name;
                    index = r.index;
                    elements = r.elements;
                    waitings =
                        r.waitings
                        ++ record { info = tt; name = none; rollback = false; conn = c } ∷ [];
                  })
                  Rc.lock_enqueued
                  none)
          × (body.wait ≡ false → Answers w c o r Rc.lock_busy none))
set_request_replies e r uid c body w reliable h v = elim (Option-cases (can_lock r)) [
  | inl full ↦ inr (
    (can_lock-IsFirst r v).1 full,
    enqueued_lem e r uid c body w reliable h full,
    busy_lem e r uid c body w reliable h full,
  )
  | inr (j, found) ↦
      let (i, first) = (can_lock-IsFirst r v).0 j found in
      inl (
        j,
        (i, first),
        given_lem r w c (request e r uid c body w) j v first.free
            (found_lem e r uid c body w reliable h j found),
      )
]
