-- ===== src/Client/Ends.antt =====
-- The end of the loop of flom_client_wait_lock of src/flom_client.c when the connection is gone.
use flom.Prelude.{
  ℕ, String, Option, none, List, [], ◌∷◌, ◌++◌, ◌≡◌, ◌≢◌, ◌∙◌, ◌==◌, ◌*◌, ◌||◌, not, refl, if-cases,
  arith, All,
}
use flom.Rsrc.Types.{Rc, is_ok}
use flom.Rsrc.Env.{step_incr}
use flom.Config.{Config}
use flom.Client.{
  Net, Received, Reply, read, failed, blocked, stopped, arrived, wait_lock, next_round, Waited,
  Locked, waiting, returns, answered, waited, check_peer_id, first_answer, client_lock,
}
use flom.Client.Answers.{answer, delays, IsWell, IsDelay, IsEarly, client_lock-first}

-- The loop has an end, or the client has one.
abbrev Ends : Waited → Type 0
Ends w = w ≢ blocked

abbrev Returns : Locked → Type 0
Returns l = l ≢ waiting

next_round-Ends : (mba : Rc) (m : Reply) (rest : Waited) → Ends rest → Ends (next_round mba m rest)
unfolding next_round
next_round-Ends mba m rest h = ground (arith, h)

wait_lock-Ends :
    (mba rc : Rc) (before after : List Received)
    → Ends (wait_lock mba (before ++ failed rc ∷ after))
unfolding wait_lock
wait_lock-Ends mba rc [] after = λ e. cc
wait_lock-Ends mba rc (failed rc' ∷ rest) after = λ e. cc
wait_lock-Ends mba rc (read n parsed m ∷ rest) after =
    let same = next_round-Ends mba m _ (wait_lock-Ends mba rc rest after) in
    let changed = next_round-Ends m.rc m _ (wait_lock-Ends m.rc rc rest after) in
    if-cases Ends (not (is_ok parsed)) _ _ (λ b e. cc)
      (λ b.
        if-cases Ends (not m.is_lock) _ _ (λ c. same)
          (λ c.
            if-cases Ends (m.step == 2 * step_incr) _ _ (λ d. changed)
              (λ d.
                if-cases Ends (m.step == 3 * step_incr) _ _ (λ f. changed)
                  (λ f.
                    if-cases Ends (m.step == 4 * step_incr) _ _
                      (λ g. if-cases Ends (is_ok m.rc) _ _ (λ k. changed) (λ k e. cc))
                      (λ g e. cc)))))

waited-Returns : (element : Option String) (w : Waited) → Ends w → Returns (waited element w)
unfolding waited
waited-Returns element blocked ends = λ e. ends refl
waited-Returns element (stopped code) ends = λ e. cc
waited-Returns element (arrived m) ends =
    if-cases Returns ((m.step == 3 * step_incr) || (m.step == 4 * step_incr)) _ _ (λ b e. cc)
      (λ b e. cc)

answered-Returns :
    (garbage : Rc) (element : Option String) (m : Reply) (code : Rc) (rest : List Received)
    → Ends (wait_lock garbage rest)
    → Returns (answered garbage element m code rest)
unfolding answered
answered-Returns garbage element m code rest ends =
    ground (arith, waited-Returns element (wait_lock garbage rest) ends)

module _ (net : Net) (g : Config) (garbage : Rc) (element : Option String) where
  check_peer_id-Returns : (l : Locked) → Returns l → Returns (check_peer_id net g element l)
  unfolding check_peer_id
  check_peer_id-Returns l h = ground (arith, h)

  first_answer-Returns :
      (rc : Rc) (before after : List Received)
      → Returns (first_answer net g garbage element (before ++ failed rc ∷ after))
  unfolding first_answer
  first_answer-Returns rc [] after = λ e. cc
  first_answer-Returns rc (failed rc' ∷ rest) after = λ e. cc
  first_answer-Returns rc (read n parsed m ∷ rest) after =
      let list = rest ++ failed rc ∷ after in
      let goes_on =
        check_peer_id-Returns (answered garbage element m m.rc list)
          (answered-Returns garbage element m m.rc list (wait_lock-Ends garbage rc rest after)) in
      ground (arith, goes_on)

  client_lock-Returns :
      (rc : Rc) (before after : List Received)
      → Returns (client_lock net g garbage element (before ++ failed rc ∷ after))
  unfolding client_lock
  client_lock-Returns rc before after = ground (arith, first_answer-Returns rc before after)

wait_lock-delays_lost :
    (mba rc : Rc) (steps : List ℕ) (after : List Received)
    → All IsEarly steps
    → wait_lock mba (delays steps ++ failed rc ∷ after) ≡ stopped rc
unfolding wait_lock
wait_lock-delays_lost mba rc [] after early = refl
wait_lock-delays_lost mba rc (s ∷ steps) after early =
    ground (arith, early.0, wait_lock-delays_lost Rc.lock_enqueued rc steps after early.1)

-- Once a call to receive fails, as on a connection that the daemon has closed, flom_client_lock returns,
-- whatever messages came before. If they were an answer that makes the client wait and any number of
-- messages that it is in the queue, it returns the code of the failed call, and the element is as before.
pub client_lock-ends :
    (net : Net) (g : Config) (garbage delay rc : Rc) (element : Option String) (steps : List ℕ)
    (before after : List Received)
    → IsWell net g
    → IsDelay delay
    → All IsEarly steps
    → (client_lock net g garbage element (before ++ failed rc ∷ after) ≢ waiting)
      × (client_lock net g garbage element
            (answer 16 delay none ∷ delays steps ++ failed rc ∷ after)
          ≡ returns rc element)
unfolding answered waited
client_lock-ends net g garbage delay rc element steps before after well d early = (
  client_lock-Returns net g garbage element rc before after,
  client_lock-first net g garbage delay element none _ well
      ∙ ground (arith, d, wait_lock-delays_lost garbage rc steps after early),
)
