-- ===== src/Rsrc/Calls/Answers.antt =====
-- What an answer holds when nothing fails.
use flom.Prelude.{ℕ, ◌+◌, ◌≡◌, ◌⊎◌, String, Option, none, some, List, arith, true}
use flom.Rsrc.Types.{Rc, Conn}
use flom.Rsrc.Env.{Env, World, Effect, IsReliable, told, build_answer, notify}
use flom.Rsrc.Calls.{Cleaned, reply, forget, release_msg}

-- The steps at which a lock message gets its answer: the second to the fourth.
abbrev pub IsAnswerStep : ℕ → Type 0
IsAnswerStep s = (s ≡ 16) ⊎ (s ≡ 24) ⊎ (s ≡ 32)

module _ (e : Env) (reliable : IsReliable e) where
  pub build_answer-reliable :
      (l : List Effect) (step : ℕ) (rc : Rc) (element : Option String)
      → IsAnswerStep step
      → build_answer e l step rc element
        ≡ record { rc = Rc.ok; answer = some (record { step = step; rc = rc; element = element }) }
  unfolding build_answer
  build_answer-reliable l step rc none h = ground (arith, reliable.unique_ids l)
  build_answer-reliable l step rc (some s) h =
      ground (arith, reliable.unique_ids l, reliable.strdups l)

  pub notify-reliable :
      (c : Conn) (element : Option String) (w : World)
      → notify e c element w ≡ (Rc.ok, told c element w)
  unfolding notify
  notify-reliable c none w = ground (
    arith,
    reliable.serializes w.log,
    reliable.sends c w.log,
    reliable.msg_frees (told c none w).log,
  )
  notify-reliable c (some s) w = ground (
    arith,
    reliable.serializes w.log,
    reliable.sends c w.log,
    reliable.strdups w.log,
    reliable.msg_frees (told c (some s) w).log,
  )

  pub reply-reliable {ℓ} :
      {R : Type ℓ} (r : R) (c : Conn) (rc : Rc) (element : Option String) (w : World)
      → IsAnswerStep (w.last_step c + 8)
      → reply e r c rc element w ≡ record {
        rc = Rc.ok;
        resource = r;
        reply = some (record { step = w.last_step c + 8; rc = rc; element = element });
        world = w;
      }
  unfolding reply
  reply-reliable r c rc element w h =
      ground (arith, build_answer-reliable w.log (w.last_step c + 8) rc element h)

-- A message that can be written, but does not go out.
pub notify-broken :
    (e : Env) (c : Conn) (element : String) (w : World)
    → e.strdup w.log ≡ true
    → e.serialize w.log ≡ Rc.ok
    → e.send c w.log ≡ Rc.send_error
    → notify e c (some element) w ≡ (Rc.send_error, w)
unfolding notify
notify-broken e c element w copied serialized broken = ground arith

module _ {ℓ} {R : Type ℓ} where
  -- The resource is not touched by the end of a call.
  pub reply_resource :
      (e : Env) (r : R) (c : Conn) (rc : Rc) (element : Option String) (w : World)
      → (reply e r c rc element w).resource ≡ r
  unfolding reply
  reply_resource e r c rc element w = ground arith

  pub forget_resource : (c : Conn) (d : Cleaned R) → (forget c d).resource ≡ d.resource
  unfolding forget
  forget_resource c d = ground arith

  pub forget_rc : (c : Conn) (d : Cleaned R) → (forget c d).rc ≡ d.rc
  unfolding forget
  forget_rc c d = ground arith

  pub release_msg_resource : (e : Env) (d : Cleaned R) → (release_msg e d).resource ≡ d.resource
  unfolding release_msg
  release_msg_resource e d = ground arith
