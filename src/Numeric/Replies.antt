-- ===== src/Numeric/Replies.antt =====
-- What a request for a quantity is answered, on every branch of flom_resource_numeric_inmsg.
use flom.Prelude.{ℕ, ◌+◌, ◌≡◌, true, false, none, some, arith}
use flom.Prelude.Int.{◌-ℤ◌, ◌≤ℤ◌}
use flom.Rsrc.Types.{Rc, Conn, LockBody}
use flom.Rsrc.Env.{Env, World, IsReliable, emit, vfs_add_locker_conn}
use flom.Rsrc.Calls.{Outcome}
use flom.Rsrc.Calls.Answers.{IsAnswerStep, reply-reliable}
use flom.Numeric.{Numeric, can_lock, hold, enqueue, new_lock, request}

-- The resource `r` is left, and the client is answered `rc` at the next step of its connection.
abbrev pub Answers : World → Conn → Outcome Numeric → Numeric → Rc → Type 0
Answers w c o r rc =
    (o.rc ≡ Rc.ok)
    × (o.resource ≡ r)
    × (o.reply ≡ some (record { step = w.last_step c + 8; rc = rc; element = none }))

module _ (e : Env) (r : Numeric) (uid : ℕ) (c : Conn) (body : LockBody) (w : World)
    (reliable : IsReliable e) (h : IsAnswerStep (w.last_step c + 8)) where
  granted_lem :
      body.quantity ≤ℤ r.total_quantity -ℤ r.locked_quantity
      → Answers w c (request e r uid c body w) (hold r (new_lock body.quantity c)) Rc.ok
  unfolding request emit can_lock
  granted_lem fits = ground (
    arith,
    reliable.mallocs w.log,
    reliable.msg_frees w.log,
    reply-reliable e reliable (hold r (new_lock body.quantity c)) c Rc.ok none
        (emit (vfs_add_locker_conn uid c true) w) h,
  )

  enqueued_lem :
      ¬ (body.quantity ≤ℤ r.total_quantity -ℤ r.locked_quantity)
      → body.quantity ≤ℤ r.total_quantity
      → body.wait ≡ true
      → Answers w c
          (request e r uid c body w)
          (enqueue r (new_lock body.quantity c))
          Rc.lock_enqueued
  unfolding request emit can_lock
  enqueued_lem full possible waits = ground (
    arith,
    reliable.mallocs w.log,
    reliable.msg_frees w.log,
    reply-reliable e reliable (enqueue r (new_lock body.quantity c)) c Rc.lock_enqueued none
        (emit (vfs_add_locker_conn uid c false) w) h,
  )

  busy_lem :
      ¬ (body.quantity ≤ℤ r.total_quantity -ℤ r.locked_quantity)
      → body.quantity ≤ℤ r.total_quantity
      → body.wait ≡ false
      → Answers w c (request e r uid c body w) r Rc.lock_busy
  unfolding request can_lock
  busy_lem full possible waits =
      ground (arith, reliable.msg_frees w.log, reply-reliable e reliable r c Rc.lock_busy none w h)

  impossible_lem :
      ¬ (body.quantity ≤ℤ r.total_quantity -ℤ r.locked_quantity)
      → ¬ (body.quantity ≤ℤ r.total_quantity)
      → Answers w c (request e r uid c body w) r Rc.lock_impossible
  unfolding request can_lock
  impossible_lem full impossible =
      ground
        (arith, reliable.msg_frees w.log, reply-reliable e reliable r c Rc.lock_impossible none w h)

-- With memory and a connection that awaits an answer, a request is granted exactly as far as the
-- quantity that is left reaches; otherwise it waits at the end of the queue if the client waits, it is
-- refused as busy if the client does not, and as impossible, waiting or not, if it asks for more than
-- the total; a refusal leaves the resource as it was.
pub numeric_request_replies :
    (e : Env) (r : Numeric) (uid : ℕ) (c : Conn) (body : LockBody) (w : World)
    → IsReliable e
    → IsAnswerStep (w.last_step c + 8)
    → (body.quantity ≤ℤ r.total_quantity -ℤ r.locked_quantity
        → Answers w c (request e r uid c body w) (hold r (new_lock body.quantity c)) Rc.ok)
      × (¬ (body.quantity ≤ℤ r.total_quantity -ℤ r.locked_quantity)
          → body.quantity ≤ℤ r.total_quantity
          → body.wait ≡ true
          → Answers w c
              (request e r uid c body w)
              (enqueue r (new_lock body.quantity c))
              Rc.lock_enqueued)
      × (¬ (body.quantity ≤ℤ r.total_quantity -ℤ r.locked_quantity)
          → body.quantity ≤ℤ r.total_quantity
          → body.wait ≡ false
          → Answers w c (request e r uid c body w) r Rc.lock_busy)
      × (¬ (body.quantity ≤ℤ r.total_quantity -ℤ r.locked_quantity)
          → ¬ (body.quantity ≤ℤ r.total_quantity)
          → Answers w c (request e r uid c body w) r Rc.lock_impossible)
numeric_request_replies e r uid c body w reliable h = (
  granted_lem e r uid c body w reliable h,
  enqueued_lem e r uid c body w reliable h,
  busy_lem e r uid c body w reliable h,
  impossible_lem e r uid c body w reliable h,
)
