-- ===== src/Client/Answers.antt =====
-- When flom_client_lock of src/flom_client.c says that the lock is there.
use flom.Prelude.{
  ℕ, String, true, Option, none, List, [], ◌∷◌, ◌++◌, map, ◌≡◌, ◌∙◌, ◌⊎◌, refl, arith, All,
}
use flom.Rsrc.Types.{Rc}
use flom.Config.{Config, is_zero}
use flom.Client.{
  Net, Received, read, arrived, wait_lock, returns, copy, waited, answered, check_peer_id,
  client_lock,
}

-- An answer of the daemon to a lock message.
abbrev pub answer : ℕ → Rc → Option String → Received
answer step rc element = read 1 Rc.ok (record {
  ready = true;
  right_level = true;
  is_lock = true;
  step = step;
  rc = rc;
  element = element;
})

-- The calls go well, and the peer's identity is not asked for.
pub record IsWell (net : Net) (g : Config) : Type 0 where
  pub unique_id : net.unique_id ≡ true
  pub strdup : net.strdup ≡ true
  pub serialize : net.serialize ≡ Rc.ok
  pub send : net.send ≡ Rc.ok
  pub msg_free : net.msg_free ≡ Rc.ok
  pub new_parser : net.new_parser ≡ true
  pub no_peer_check : is_zero g.tls_check_peer_id ≡ true

-- The codes that make a client wait.
abbrev pub IsDelay : Rc → Type 0
IsDelay rc = (rc ≡ Rc.lock_enqueued) ⊎ (rc ≡ Rc.lock_wait_resource)

pub client_lock-first :
    (net : Net) (g : Config) (garbage rc : Rc) (element el : Option String) (rest : List Received)
    → IsWell net g
    → client_lock net g garbage element (answer 16 rc el ∷ rest)
      ≡ answered garbage element
          (record {
            ready = true;
            right_level = true;
            is_lock = true;
            step = 16;
            rc = rc;
            element = el;
          })
          rc
          rest
unfolding client_lock check_peer_id
client_lock-first net g garbage rc element el rest well = ground (
  arith, well.unique_id, well.strdup, well.serialize, well.send, well.msg_free, well.new_parser,
  well.no_peer_check,
)

-- The messages that keep a client waiting: enqueued, at one of the first two steps of an answer.
abbrev pub IsEarly : ℕ → Type 0
IsEarly step = (step ≡ 16) ⊎ (step ≡ 24)

abbrev pub delays : List ℕ → List Received
delays = map (λ step. answer step Rc.lock_enqueued none)

wait_lock-delays :
    (mba rc : Rc) (steps : List ℕ) (step : ℕ) (el : Option String) (rest : List Received)
    → All IsEarly steps
    → (step ≡ 24) ⊎ (step ≡ 32)
    → rc ≡ Rc.ok
    → wait_lock mba (delays steps ++ answer step rc el ∷ rest)
      ≡ arrived (record {
        ready = true;
        right_level = true;
        is_lock = true;
        step = step;
        rc = rc;
        element = el;
      })
unfolding wait_lock
wait_lock-delays mba rc [] step el rest early last ok = ground (arith, last, ok)
wait_lock-delays mba rc (s ∷ steps) step el rest early last ok =
    ground (arith, early.0, wait_lock-delays Rc.lock_enqueued rc steps step el rest early.1 last ok)

-- If the daemon makes the client wait, with any number of messages that it is in the queue, and then
-- grants the lock, flom_client_lock returns FLOM_RC_OK with the element that was granted, if there is one.
pub client_lock-granted :
    (net : Net) (g : Config) (garbage delay : Rc) (element el : Option String) (steps : List ℕ)
    (step : ℕ) (rest : List Received)
    → IsWell net g
    → IsDelay delay
    → All IsEarly steps
    → (step ≡ 24) ⊎ (step ≡ 32)
    → client_lock net g garbage element
        (answer 16 delay none ∷ delays steps ++ answer step Rc.ok el ∷ rest)
      ≡ returns Rc.ok (copy el element)
unfolding answered waited
client_lock-granted net g garbage delay element el steps step rest well d early last =
    let ends = wait_lock-delays garbage Rc.ok steps step el rest early last refl in
    client_lock-first net g garbage delay element none _ well ∙ ground (arith, d, ends, last)
