-- ===== src/Simple/Replies.antt =====
-- What a lock request is answered, on every branch of flom_resource_simple_inmsg.
use flom.Prelude.{
  ℕ, ◌+◌, ◌≡◌, inl, inr, Bool-cases, true, false, none, some, [], ◌∷◌, ◌++◌, arith, All,
}
use flom.Rsrc.Types.{Rc, Conn, LockBody}
use flom.Rsrc.Env.{Env, World, IsReliable, emit, vfs_add_locker_conn}
use flom.Rsrc.Calls.{Outcome}
use flom.Rsrc.Calls.Answers.{IsAnswerStep, reply-reliable}
use flom.Simple.{Simple, ModeLock, can_lock, hold, enqueue, new_lock, request}
use flom.Simple.Compatible.{Allows, can_lock_iff}

-- The resource `r` is left, and the client is answered `rc` at the next step of its connection.
abbrev pub Answers : World → Conn → Outcome Simple → Simple → Rc → Type 0
Answers w c o r rc =
    (o.rc ≡ Rc.ok)
    × (o.resource ≡ r)
    × (o.reply ≡ some (record { step = w.last_step c + 8; rc = rc; element = none }))

-- With memory and a connection that awaits an answer, a request that all holders allow is granted: the
-- connection becomes the first holder, with the mode that it asked for. Any other request is put at the
-- end of the queue, with its mode, if the client waits, and else is refused as busy. Nothing else of the
-- resource changes.
pub request_replies :
    (e : Env) (r : Simple) (uid : ℕ) (c : Conn) (body : LockBody) (w : World)
    → IsReliable e
    → IsAnswerStep (w.last_step c + 8)
    → (All (Allows body.mode) r.holders
        → Answers w c
            (request e r uid c body w)
            (record {
              name = r.name;
              holders =
                  record { info = body.mode; name = none; rollback = false; conn = c } ∷ r.holders;
              waitings = r.waitings;
            })
            Rc.ok)
      × (¬ All (Allows body.mode) r.holders
          → body.wait ≡ true
          → Answers w c
              (request e r uid c body w)
              (record {
                name = r.name;
                holders = r.holders;
                waitings =
                    r.waitings
                    ++ record { info = body.mode; name = none; rollback = false; conn = c } ∷ [];
              })
              Rc.lock_enqueued)
      × (¬ All (Allows body.mode) r.holders
          → body.wait ≡ false
          → Answers w c (request e r uid c body w) r Rc.lock_busy)
unfolding request emit
request_replies e r uid c body w reliable h = (
  λ allowed. ground (
    arith,
    (can_lock_iff r.holders body.mode).1 allowed,
    reliable.mallocs w.log,
    reliable.msg_frees w.log,
    reply-reliable e reliable (hold r cl) c Rc.ok none (emit (vfs_add_locker_conn uid c true) w) h,
  ),
  λ denied waits. ground (
    arith,
    cannot denied,
    reliable.mallocs w.log,
    reliable.msg_frees w.log,
    reply-reliable e reliable (enqueue r cl) c Rc.lock_enqueued none
        (emit (vfs_add_locker_conn uid c false) w) h,
  ),
  λ denied waits. ground (
    arith,
    cannot denied,
    reliable.msg_frees w.log,
    reply-reliable e reliable r c Rc.lock_busy none w h,
  ),
)
  where
    cl : ModeLock
    cl = new_lock body.mode c

    cannot : ¬ All (Allows body.mode) r.holders → can_lock r.holders body.mode ≡ false
    cannot denied = elim (Bool-cases (can_lock r.holders body.mode)) [
      | inl can ↦ absurd (denied ((can_lock_iff r.holders body.mode).0 can))
      | inr no_lock ↦ no_lock
    ]
