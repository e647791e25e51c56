-- ===== src/Sequence/Replies.antt =====
-- What a request for a value is answered, on every branch of flom_resource_sequence_inmsg.
use flom.Prelude.{ℕ, suc, ◌+◌, ◌≡◌, Option, none, some, true, false, String, arith}
use mathlib.Core.List.{Mem, Nodup-cons}
use flom.Rsrc.Types.{Rc, Conn, LockBody}
use flom.Rsrc.Env.{Env, World, IsReliable}
use flom.Rsrc.Calls.{Outcome, reply_then}
use flom.Rsrc.Calls.Answers.{IsAnswerStep, reply-reliable}
use flom.Sequence.{Sequence, can_lock, get, hold, enqueue, new_lock, new_waiting, request}
use flom.Sequence.Values.{Sound, values, get-Sound}

-- The resource `r` is left, and the client is answered `rc` and an element at the next step of its
-- connection.
abbrev pub Answers : World → Conn → Outcome Sequence → Sequence → Rc → Option String → Type 0
Answers w c o r rc element =
    (o.rc ≡ Rc.ok)
    × (o.resource ≡ r)
    × (o.reply ≡ some (record { step = w.last_step c + 8; rc = rc; element = element }))

module _ (e : Env) (r : Sequence) (uid : ℕ) (c : Conn) (body : LockBody) (w : World)
    (reliable : IsReliable e) (h : IsAnswerStep (w.last_step c + 8)) where
  value_lem :
      can_lock r ≡ true
      → Answers w c
          (request e r uid c body w)
          (hold (get r).1 (new_lock (get r).0 c))
          Rc.ok
          (some (e.print_uint (get r).0))
  unfolding request reply_then
  value_lem can = ground (
    arith,
    can,
    reliable.mallocs w.log,
    reliable.msg_frees w.log,
    reply-reliable e reliable (hold (get r).1 (new_lock (get r).0 c)) c Rc.ok
        (some (e.print_uint (get r).0)) w h,
  )

  enqueued_lem :
      can_lock r ≡ false
      → body.wait ≡ true
      → Answers w c (request e r uid c body w) (enqueue r (new_waiting c)) Rc.lock_enqueued none
  unfolding request reply_then
  enqueued_lem full waits = ground (
    arith,
    full,
    reliable.mallocs w.log,
    reliable.msg_frees w.log,
    reply-reliable e reliable (enqueue r (new_waiting c)) c Rc.lock_enqueued none w h,
  )

  busy_lem :
      can_lock r ≡ false
      → body.wait ≡ false
      → Answers w c (request e r uid c body w) r Rc.lock_busy none
  unfolding request
  busy_lem full waits =
      ground
        (arith, full, reliable.msg_frees w.log, reply-reliable e reliable r c Rc.lock_busy none w h)

-- With memory, a connection that awaits an answer, and values held and rolled back that are distinct,
-- positive and below a counter that is not about to wrap: a client that finds a free slot is given a
-- value, in decimal, that nobody holds and that is not left among the rolled back ones; any other is
-- put at the end of the queue if it waits, and is else refused as busy, with the resource as it was.
sequence_request_replies :
    (e : Env) (r : Sequence) (uid : ℕ) (c : Conn) (body : LockBody) (w : World) (b : ℕ)
    → IsReliable e
    → IsAnswerStep (w.last_step c + 8)
    → Sound (suc b) r.next_value (values r)
    → let o = request e r uid c body w in
      (can_lock r ≡ true
        → Answers w c o
            (hold (get r).1 (new_lock (get r).0 c))
            Rc.ok
            (some (e.print_uint (get r).0))
          × ¬ Mem (get r).0 (values (get r).1))
      × (can_lock r ≡ false
          → body.wait ≡ true
          → Answers w c o (enqueue r (new_waiting c)) Rc.lock_enqueued none)
      × (can_lock r ≡ false → body.wait ≡ false → Answers w c o r Rc.lock_busy none)
sequence_request_replies e r uid c body w b reliable h sound = (
  λ can.
      (value_lem e r uid c body w reliable h can, (Nodup-cons.0 (get-Sound b r sound).distinct).0),
  enqueued_lem e r uid c body w reliable h,
  busy_lem e r uid c body w reliable h,
)
