-- ===== src/Client/Sound.antt =====
-- What has arrived when flom_client_lock of src/flom_client.c says that the lock is there.
use flom.Prelude.{
  ℕ, String, Bool, true, false, Option, List, [], ◌∷◌, ◌≡◌, ◌⊎◌, inl, inr, refl, arith, All,
  Bool-cases, ◌==◌, ◌||◌, ◌&&◌, not, subst, ==_iff, if◌then◌else◌,
}
use flom.Rsrc.Types.{Rc, is_ok}
use flom.Config.{Config, is_zero}
use flom.Client.{
  Net, Reply, Received, failed, read, Waited, blocked, stopped, arrived, is_enqueued, next_round,
  wait_lock, Locked, waiting, returns, waited, answered, check_peer_id, first_answer, client_lock,
}

-- Some message says that the lock is there.
abbrev pub HasGrant : List Received → Type 0
HasGrant [] = ⊥
HasGrant (failed rc ∷ rest) = HasGrant rest
HasGrant (read n parsed m ∷ rest) = (m.rc ≡ Rc.ok) ⊎ HasGrant rest

-- A call that fails has an error code, only answers to the lock message come, and one of step 24 either grants the lock or puts the client
-- in the queue.
abbrev pub IsHonest : Received → Type 0
IsHonest (failed rc) = is_ok rc ≡ false
IsHonest (read n parsed m) =
    (m.is_lock ≡ true) × (m.step ≡ 24 → (m.rc ≡ Rc.ok) ⊎ (m.rc ≡ Rc.lock_enqueued))

abbrev IsLast : Reply → Type 0
IsLast m = (m.step ≡ 24) ⊎ (m.step ≡ 32)

abbrev IsSound : List Received → Waited → Type 0
IsSound rs blocked = Unit
IsSound rs (stopped rc) = is_ok rc ≡ false
IsSound rs (arrived m) = IsLast m → HasGrant rs

IsSound-later :
    (n : ℕ) (parsed : Rc) (m : Reply) (rest : List Received) (w : Waited)
    → IsSound rest w
    → IsSound (read n parsed m ∷ rest) w
IsSound-later n parsed m rest blocked h = tt
IsSound-later n parsed m rest (stopped rc) h = h
IsSound-later n parsed m rest (arrived a) h = λ last. inr (h last)

next_round-IsSound :
    (rs : List Received) (rc : Rc) (m : Reply) (w : Waited)
    → IsSound rs w
    → (IsLast m → is_enqueued rc ≡ false → HasGrant rs)
    → IsSound rs (next_round rc m w)
unfolding next_round
next_round-IsSound rs rc m w h k = elim (Bool-cases (is_enqueued rc)) [
  | inl again ↦ rw again h
  | inr ends ↦ rw ends (λ last. k last ends)
]

is_ok_lem : (rc : Rc) → is_ok rc ≡ true → rc ≡ Rc.ok
is_ok_lem rc h = ground (arith, h)

decided : (rc : Rc) → (rc ≡ Rc.ok) ⊎ (rc ≡ Rc.lock_enqueued) → is_enqueued rc ≡ false → rc ≡ Rc.ok
unfolding is_enqueued
decided rc (inl ok) ends = ok
decided rc (inr again) ends = cc (rw again at ends)

-- The branches of a round, for a lock message.
round-IsSound :
    (rs : List Received) (parsed : Rc) (lock_verb a b c o : Bool) (same w : Waited)
    → lock_verb ≡ true
    → (a ≡ true → IsSound rs w)
    → (b ≡ true → IsSound rs w)
    → (c ≡ true → o ≡ true → IsSound rs w)
    → IsSound rs (
        if not (is_ok parsed)
        then stopped parsed
        else if not lock_verb
        then same
        else if a
        then w
        else if b
        then w
        else if c
        then if o then w else stopped Rc.lock_cant_lock
        else stopped Rc.protocol_error)
round-IsSound rs parsed lock_verb a b c o same w v pa pb pc = elim (Bool-cases (is_ok parsed)) [
  | inr bad ↦ rw bad bad
  | inl fine ↦ rw (fine, v) (chosen a b c o pa pb pc)
]
  where
    chosen :
        (a b c o : Bool)
        → (a ≡ true → IsSound rs w)
        → (b ≡ true → IsSound rs w)
        → (c ≡ true → o ≡ true → IsSound rs w)
        → IsSound rs (
            if a
            then w
            else if b
            then w
            else if c
            then if o then w else stopped Rc.lock_cant_lock
            else stopped Rc.protocol_error)
    chosen true b c o pa pb pc = pa refl
    chosen false true c o pa pb pc = pb refl
    chosen false false true true pa pb pc = pc refl refl
    chosen false false true false pa pb pc = refl
    chosen false false false o pa pb pc = refl

wait_lock-IsSound :
    (mba : Rc) (rs : List Received) → All IsHonest rs → IsSound rs (wait_lock mba rs)
unfolding wait_lock
wait_lock-IsSound mba [] h = tt
wait_lock-IsSound mba (failed rc ∷ rest) h = h.0
wait_lock-IsSound mba (read n parsed m ∷ rest) ((is_lock, at_24), h) =
    let rs = read n parsed m ∷ rest in
    let ih = IsSound-later n parsed m rest (wait_lock m.rc rest) (wait_lock-IsSound m.rc rest h) in
    round-IsSound rs parsed m.is_lock (m.step == 16) (m.step == 24) (m.step == 32) (is_ok m.rc)
      (next_round mba m (wait_lock mba rest)) (next_round m.rc m (wait_lock m.rc rest)) is_lock
      (λ s16.
        next_round-IsSound rs m.rc m (wait_lock m.rc rest) ih (λ last _. ground (arith, s16, last)))
      (λ s24.
        next_round-IsSound rs m.rc m (wait_lock m.rc rest) ih
          (λ _ ends. inl (decided m.rc (at_24 ((==_iff m.step 24).0 s24)) ends)))
      (λ s32 ok.
        next_round-IsSound rs m.rc m (wait_lock m.rc rest) ih (λ _ _. inl (is_ok_lem m.rc ok)))

-- The result has an error code, or some message of `rs` grants the lock.
abbrev IsJustified : List Received → Locked → Type 0
IsJustified rs waiting = Unit
IsJustified rs (returns rc el) = (is_ok rc ≡ false) ⊎ HasGrant rs

branches :
    (rs : List Received) (b : Bool) (x y : Locked)
    → IsJustified rs x
    → IsJustified rs y
    → IsJustified rs (if b then x else y)
branches rs true x y hx hy = hx
branches rs false x y hx hy = hy

failure :
    (rs : List Received) (rc : Rc) (element : Option String) (y : Locked)
    → IsJustified rs y
    → IsJustified rs (if not (is_ok rc) then returns rc element else y)
failure rs rc element y h = elim (Bool-cases (is_ok rc)) [
  | inl fine ↦ rw fine h
  | inr bad ↦ rw bad (inl bad)
]

waited-IsJustified :
    (element : Option String) (rs : List Received) (w : Waited)
    → IsSound rs w
    → IsJustified rs (waited element w)
unfolding waited
waited-IsJustified element rs blocked h = tt
waited-IsJustified element rs (stopped rc) h = inl h
waited-IsJustified element rs (arrived m) h = elim (Bool-cases ((m.step == 24) || (m.step == 32))) [
  | inl last ↦ rw last (inr (h (ground (arith, last))))
  | inr other ↦ rw other (inl refl)
]

IsJustified-later :
    (n : ℕ) (parsed : Rc) (m : Reply) (rest : List Received) (l : Locked)
    → IsJustified rest l
    → IsJustified (read n parsed m ∷ rest) l
IsJustified-later n parsed m rest waiting h = tt
IsJustified-later n parsed m rest (returns rc el) (inl bad) = inl bad
IsJustified-later n parsed m rest (returns rc el) (inr grant) = inr (inr grant)

answered-IsJustified :
    (garbage rc : Rc) (element : Option String) (m : Reply) (n : ℕ) (parsed : Rc)
    (rest : List Received)
    → m.rc ≡ rc
    → All IsHonest rest
    → IsJustified (read n parsed m ∷ rest) (answered garbage element m rc rest)
unfolding answered
answered-IsJustified garbage Rc.ok element m n parsed rest e h = inr (inl e)
answered-IsJustified garbage Rc.lock_enqueued element m n parsed rest e h =
    IsJustified-later n parsed m rest _
      (waited-IsJustified element rest (wait_lock garbage rest) (wait_lock-IsSound garbage rest h))
answered-IsJustified garbage Rc.lock_wait_resource element m n parsed rest e h =
    IsJustified-later n parsed m rest _
      (waited-IsJustified element rest (wait_lock garbage rest) (wait_lock-IsSound garbage rest h))
answered-IsJustified garbage _ element m n parsed rest e h = inl refl

check_peer_id-IsJustified :
    (net : Net) (g : Config) (element : Option String) (rs : List Received) (go : Locked)
    → IsJustified rs go
    → IsJustified rs (check_peer_id net g element go)
unfolding check_peer_id
check_peer_id-IsJustified net g element rs go h = branches rs (is_zero g.tls_check_peer_id) _ _ h (
    branches rs (not net.has_tls) _ _ (inl refl) (
      branches rs (not net.peer_name) _ _ (inl refl) (elim (Bool-cases (is_ok net.cert_check)) [
        | inl fine ↦ rw fine h
        | inr bad ↦ rw bad (inl bad)
      ])))

first_answer-IsJustified :
    (net : Net) (g : Config) (garbage : Rc) (element : Option String) (rs : List Received)
    → All IsHonest rs
    → IsJustified rs (first_answer net g garbage element rs)
unfolding first_answer
first_answer-IsJustified net g garbage element [] h = tt
first_answer-IsJustified net g garbage element (failed rc ∷ rest) h = inl h.0
first_answer-IsJustified net g garbage element (read n parsed m ∷ rest) h =
    let rs = read n parsed m ∷ rest in
    let go =
      check_peer_id-IsJustified net g element rs _
        (answered-IsJustified garbage m.rc element m n parsed rest refl h.1) in
    branches rs (n == 0) _ _ (inl refl) (
      branches rs (not net.new_parser) _ _ (inl refl) (
        branches rs (not (is_ok parsed)) _ _ (inl refl) (
          branches rs (not m.ready) _ _ (wrong_level rs m.right_level element)
            (branches rs (not (m.is_lock && (m.step == 16))) _ _ (inl refl) go))))
  where
    wrong_level :
        (rs : List Received) (b : Bool) (element : Option String)
        → IsJustified rs
            (returns (if b then Rc.msg_deserialize_error else Rc.protocol_level_mismatch) element)
    wrong_level rs true element = inl refl
    wrong_level rs false element = inl refl

client_lock-IsJustified :
    (net : Net) (g : Config) (garbage : Rc) (element : Option String) (rs : List Received)
    → All IsHonest rs
    → IsJustified rs (client_lock net g garbage element rs)
unfolding client_lock
client_lock-IsJustified net g garbage element rs h =
    branches rs (not net.unique_id) _ _ (inl refl) (
      branches rs (not net.strdup) _ _ (inl refl) (
        failure rs net.serialize element _ (
          failure rs net.send element _ (
            failure rs net.msg_free element _
              (first_answer-IsJustified net g garbage element rs h)))))

-- If the calls that fail have error codes, and the daemon sends answers to the lock message only, of which
-- those of step 24 either grant the lock or put the client in the queue, then flom_client_lock returns
-- FLOM_RC_OK only if a message that grants the lock has arrived.
pub client_lock-HasGrant :
    (net : Net) (g : Config) (garbage : Rc) (element el : Option String) (rs : List Received)
    → All IsHonest rs
    → client_lock net g garbage element rs ≡ returns Rc.ok el
    → HasGrant rs
client_lock-HasGrant net g garbage element el rs h e =
    elim (subst (IsJustified rs) e (client_lock-IsJustified net g garbage element rs h)) [
      | inl bad ↦ cc bad
      | inr grant ↦ grant
    ]
