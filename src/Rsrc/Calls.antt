-- ===== src/Rsrc/Calls.antt =====
-- The methods of a resource (struct flom_resource_s of src/flom_rsrc.h), what they return, and any
-- sequence of calls to them, as the loop of a locker thread (src/flom_locker.c) makes it.
pub mod Answers
use flom.Prelude.{
  ℕ, ◌+◌, ◌≡◌, String, Option, none, some, List, [], ◌∷◌, All, if◌then◌else◌, suc, length,
}
use flom.Rsrc.Types.{Rc, is_ok, Conn, Answer, Msg}
use flom.Rsrc.Env.{World, Env, Effect, vfs_del_conn, emit, step_incr, build_answer}

-- What `inmsg` leaves behind: `reply` is the message buffer, if it holds an answer.
pub record Outcome {ℓ} (R : Type ℓ) : Type ℓ where
  pub rc : Rc
  pub resource : R
  pub reply : Option Answer
  pub world : World

-- What `clean` and `waitings` leave behind.
pub record Cleaned {ℓ} (R : Type ℓ) : Type ℓ where
  pub rc : Rc
  pub resource : R
  pub world : World

-- What `init` leaves behind.
pub data Created {ℓ} (R : Type ℓ) : Type ℓ where
  created : R → Created R
  not_created : Rc → Created R

module _ {ℓ} {R : Type ℓ} where
  -- A THROW before anything was answered.
  abbrev pub refuse : Rc → R → World → Outcome R
  refuse rc r w = record { rc = rc; resource = r; reply = none; world = w }

  -- The end of each branch of the lock verb: the answer at the next step of the connection.
  unfoldable pub reply : Env → R → Conn → Rc → Option String → World → Outcome R
  unfolding build_answer
  reply e r c rc element w =
      let b = build_answer e w.log (w.last_step c + step_incr) rc element in
      record { rc = b.rc; resource = r; reply = b.answer; world = w }

  -- A notice to the virtual file system, for the resources that give it after the answer is built.
  unfoldable pub reply_then : Effect → Outcome R → Outcome R
  unfolding emit
  reply_then x o = if is_ok o.rc then record o { world = emit x o.world } else o

  -- The end of `clean`, which takes the connection off the virtual file system, unless the loop over
  -- the waiting queue failed.
  unfoldable pub forget : Conn → Cleaned R → Cleaned R
  unfolding emit
  forget c d =
      if is_ok d.rc then record d { rc = Rc.ok; world = emit (vfs_del_conn c) d.world } else d

  -- The end of the unlock verb: the input message is released if `clean` went well.
  unfoldable pub release_msg : Env → Cleaned R → Outcome R
  release_msg e d =
      let freed = e.msg_free d.world.log in
      refuse (if is_ok d.rc then freed else d.rc) d.resource d.world

-- The methods of a resource that a locker calls for a connection.
pub record Methods {ℓ} (R : Type ℓ) : Type ℓ where
  pub inmsg : Env → R → ℕ → Conn → Msg → World → Outcome R
  pub clean : Env → R → ℕ → Conn → World → Cleaned R

-- A message from a connection, or its end; each with the locker's uid.
pub data Call : Type 0 where
  message : ℕ → Conn → Msg → Call
  closed : ℕ → Conn → Call

module _ {ℓ} {R : Type ℓ} (m : Methods R) where
  unfoldable pub call : R × World → Env × Call → R × World
  call (r, w) (e, message uid c msg) = let o = m.inmsg e r uid c msg w in (o.resource, o.world)
  call (r, w) (e, closed uid c) = let d = m.clean e r uid c w in (d.resource, d.world)

  unfoldable pub run : R × World → List (Env × Call) → R × World
  run s [] = s
  run s (c ∷ cs) = run (call s c) cs

  -- An invariant that each call keeps holds after any sequence of them.
  pub run-induction {κ} :
      (P : R → Type κ) (Q : Env × Call → Type 0)
      → ((s : R × World) (c : Env × Call) → P s.0 → Q c → P (call s c).0)
      → (s : R × World) (cs : List (Env × Call)) → P s.0
      → All Q cs
      → P (run s cs).0
  unfolding run
  run-induction P Q keeps s [] p q = p
  run-induction P Q keeps s (c ∷ cs) p q =
      run-induction P Q keeps (call s c) cs (keeps s c p q.0) q.1

  -- The same with a budget of one unit for each call.
  pub run-budget {κ} :
      (P : ℕ → R → Type κ)
      → ((b : ℕ) (s : R × World) (c : Env × Call) → P (suc b) s.0 → P b (call s c).0)
      → (s : R × World) (cs : List (Env × Call)) → P (length cs) s.0
      → P 0 (run s cs).0
  unfolding run
  run-budget P spend s [] p = p
  run-budget P spend s (c ∷ cs) p = run-budget P spend (call s c) cs (spend (length cs) s c p)
