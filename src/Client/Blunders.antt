-- ===== src/Client/Blunders.antt =====
-- Where flom_client_lock of src/flom_client.c and the daemon do not fit together.
use flom.Prelude.{ℕ, String, Option, none, some, [], ◌∷◌, ◌≡◌, ◌∙◌, inl, inr, arith}
use flom.Prelude.Int.{◌-ℤ◌, ◌≤ℤ◌}
use flom.Rsrc.Types.{Rc, Conn, LockBody}
use flom.Rsrc.Env.{Env, World, IsReliable}
use flom.Numeric.{Numeric, request}
use flom.Numeric.Replies.{numeric_request_replies}
use flom.Config.{Config}
use flom.Client.{Net, wait_lock, returns, answered, waited, client_lock}
use flom.Client.Answers.{answer, IsWell, client_lock-first}

-- A client that waits for a numeric resource to be created, and asks for more than this then has: the
-- daemon refuses its lock as impossible, and changes nothing, but flom_client_lock returns FLOM_RC_OK.
pub refusal_taken_for_grant :
    (net : Net) (g : Config) (garbage : Rc) (element : Option String) (e : Env) (r : Numeric)
    (uid : ℕ) (c : Conn) (body : LockBody) (w : World)
    → IsWell net g
    → IsReliable e
    → w.last_step c ≡ 16
    → ¬ (body.quantity ≤ℤ r.total_quantity -ℤ r.locked_quantity)
    → ¬ (body.quantity ≤ℤ r.total_quantity)
    → let o = request e r uid c body w in
      (o.resource ≡ r)
      × (o.reply ≡ some (record { step = 24; rc = Rc.lock_impossible; element = none }))
      × (client_lock net g garbage element
            (answer 16 Rc.lock_wait_resource none ∷ answer 24 Rc.lock_impossible none ∷ [])
          ≡ returns Rc.ok element)
unfolding answered waited wait_lock
refusal_taken_for_grant net g garbage element e r uid c body w well reliable step full impossible =
    let replies =
      numeric_request_replies e r uid c body w reliable (inr (inl (ground (arith, step)))) in
    let refused = replies.3 full impossible in
    (
      refused.1,
      refused.2 ∙ ground (arith, step),
      client_lock-first net g garbage Rc.lock_wait_resource element none _ well ∙ ground arith,
    )
