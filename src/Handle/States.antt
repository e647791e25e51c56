-- ===== src/Handle/States.antt =====
-- The states that a handle goes through.
use flom.Prelude.{
  subst, not, ◌&&◌, if◌then◌else◌, Bool, true, false, Option, none, some, ◌≡◌, refl, inl, inr,
  Bool-cases,
}
use flom.Prelude.Int.{pos}
use flom.Rsrc.Types.{Rc, is_ok}
use flom.Config.{Config, Matches}
use flom.Handle.{
  HandleState, Handle, Client, Done, handle_lock, handle_unlock, handle_clean, handle_init, zeroed,
  is_transactional, locked_with, lock_connected, lock_after, lock_from, is_idle, with_config,
  disconnected_with, unlocked_with, unlock_from, is_open, is_shut, clean_shut, clean_unlocked,
  clean_from,
}

-- The calls of an application: flom_handle_init, with what its two allocations give, flom_handle_lock,
-- flom_handle_unlock or flom_handle_unlock_rollback, flom_handle_clean, and the setters, which change
-- nothing but the configuration.
pub data Api : Type 0 where
  api_init : Bool → Bool → Api
  api_lock : Api
  api_unlock : Bool → Api
  api_clean : Api
  api_set : (Config → Config) → Api

-- The states from which a lock may be asked for, from which the connection may be given up, and from
-- which a handle may be cleaned
pub data IsIdle : HandleState → Type 0 where
  idle_init : IsIdle HandleState.init
  idle_connected : IsIdle HandleState.connected
  idle_disconnected : IsIdle HandleState.disconnected

pub data IsOpen : HandleState → Type 0 where
  open_locked : IsOpen HandleState.locked
  open_connected : IsOpen HandleState.connected

pub data IsShut : HandleState → Type 0 where
  shut_init : IsShut HandleState.init
  shut_disconnected : IsShut HandleState.disconnected
  shut_locked : IsShut HandleState.locked

-- The code of an unlock that has released all: a rollback that the resource does not have is told.
pub data IsReleased : Bool → Rc → Type 0 where
  released : {rollback : Bool} → IsReleased rollback Rc.ok
  no_rollback : IsReleased true Rc.resource_is_not_transactional

-- The state machine of a handle: a call, the state before it, its code, and the state after it. A call
-- that fails leaves the state, or it stops half way: a handle that is connected but gets no lock, one
-- whose lock is released but whose connection is not, or one without memory.
pub data Does : Api → HandleState → Rc → HandleState → Type 0 where
  stays : {a : Api} {st : HandleState} {rc : Rc} → is_ok rc ≡ false → Does a st rc st
  inits : {m n : Bool} {st : HandleState} → Does (api_init m n) st Rc.ok HandleState.init
  starves :
      {m n : Bool} {st : HandleState} {rc : Rc}
      → is_ok rc ≡ false
      → Does (api_init m n) st rc HandleState.unset
  locks :
      {st : HandleState} {rc : Rc}
      → IsIdle st
      → is_ok rc ≡ true
      → Does api_lock st rc HandleState.locked
  is_refused :
      {st : HandleState} {rc : Rc}
      → IsIdle st
      → is_ok rc ≡ false
      → Does api_lock st rc HandleState.connected
  unlocks :
      {rollback : Bool} {st : HandleState} {rc : Rc}
      → IsOpen st
      → IsReleased rollback rc
      → Does (api_unlock rollback) st rc HandleState.disconnected
  hangs :
      {rollback : Bool} {rc : Rc}
      → is_ok rc ≡ false
      → Does (api_unlock rollback) HandleState.locked rc HandleState.connected
  cleans : {st : HandleState} → IsShut st → Does api_clean st Rc.ok HandleState.cleaned
  clean_hangs :
      {rc : Rc} → is_ok rc ≡ false → Does api_clean HandleState.locked rc HandleState.connected
  sets : {f : Config → Config} {st : HandleState} → Does (api_set f) st Rc.ok st

stays_open :
    {rollback : Bool} {st : HandleState} {rc : Rc}
    → IsOpen st
    → is_ok rc ≡ false
    → Does (api_unlock rollback) st rc HandleState.connected
stays_open open_locked bad = hangs bad
stays_open open_connected bad = stays bad

rollback-IsReleased :
    (rollback t : Bool)
    → IsReleased rollback (if rollback && not t then Rc.resource_is_not_transactional else Rc.ok)
rollback-IsReleased false t = released
rollback-IsReleased true true = released
rollback-IsReleased true false = no_rollback

IsReleased-ok : {b : Bool} {rc : Rc} → IsReleased b rc → b ≡ false → is_ok rc ≡ true
IsReleased-ok released e = refl
IsReleased-ok no_rollback e = cc

-- What flom_handle_clean does after an unlock without a rollback
after_unlock :
    {rc : Rc} {st : HandleState}
    → Does (api_unlock false) HandleState.locked rc st
    → (is_ok rc ≡ true → st ≡ HandleState.disconnected)
      × (is_ok rc ≡ false → Does api_clean HandleState.locked rc st)
after_unlock (stays bad) = (λ ok. let no : true ≡ false = rw⁻¹ ok bad in absurd (cc), λ b. stays b)
after_unlock (unlocks still_open told) =
    (λ ok. refl, λ bad. let no : true ≡ false = rw⁻¹ (IsReleased-ok told refl) bad in absurd (cc))
after_unlock (hangs bad) =
    (λ ok. let no : true ≡ false = rw⁻¹ ok bad in absurd (cc), λ b. clean_hangs b)

pub handle_init-Does :
    (ready : Rc) (room room' : Bool) (global : Config) (h : Handle)
    → let d = handle_init ready room room' global h in
      Does (api_init room room') h.state d.0 d.1.state
unfolding handle_init
handle_init-Does ready room room' global h = elim (Bool-cases (is_ok ready)) [
  | inr bad ↦ rw bad (stays bad)
  | inl fine ↦ rw fine (with_memory room room')
]
  where
    with_memory :
        (m n : Bool)
        → let d : Rc × Handle =
            if not m
            then (Rc.g_try_malloc_error, zeroed)
            else if not n
            then (Rc.g_try_malloc_error, zeroed)
            else (
              Rc.ok,
              record {
                state = HandleState.init;
                conn = true;
                config = some (record global { daemon_lifespan = pos 0 });
                locked_element = none;
              },
            ) in
          Does (api_init m n) h.state d.0 d.1.state
    with_memory false n = starves refl
    with_memory true false = starves refl
    with_memory true true = inits

module _ {ℓ} {S : Type ℓ} (client : Client S) where
  -- What a call on a handle in the state `st` does.
  abbrev pub Follows : Api → HandleState → Done S → Type 0
  Follows a st d = Does a st d.rc d.handle.state

  lock_connected-Follows :
      (st : HandleState) (g : Config) (h : Handle) (s : S)
      → h.state ≡ HandleState.connected
      → IsIdle st
      → Follows api_lock st (lock_connected client g h s)
  unfolding lock_connected locked_with
  lock_connected-Follows st g h s e idle =
      elim (Bool-cases (is_ok (client.lock g h.locked_element s).0)) [
        | inl ok ↦ rw ok (locks idle ok)
        | inr bad ↦ rw (bad, e) (is_refused idle bad)
      ]

  lock_after-Follows :
      (st : HandleState) (g : Config) (h : Handle) (x : Rc × S)
      → h.state ≡ st
      → IsIdle st
      → Follows api_lock st (lock_after client g h x)
  unfolding lock_after
  lock_after-Follows st g h (rc, s) e idle = elim (Bool-cases (is_ok rc)) [
    | inl ok ↦
        rw ok (lock_connected-Follows st g (record h { state = HandleState.connected }) s refl idle)
    | inr bad ↦ rw (bad, e) (stays bad)
  ]

  lock_from-Follows :
      (st : HandleState) (g : Config) (h : Handle) (s : S)
      → h.state ≡ st
      → Follows api_lock st (lock_from client st g h s)
  unfolding lock_from
  lock_from-Follows HandleState.connected g h s e =
      lock_connected-Follows HandleState.connected g h s e idle_connected
  lock_from-Follows HandleState.init g h s e =
      lock_after-Follows HandleState.init g h (client.connect g s) e idle_init
  lock_from-Follows HandleState.disconnected g h s e =
      lock_after-Follows HandleState.disconnected g h (client.connect g s) e idle_disconnected
  lock_from-Follows HandleState.unset g h s e = rw e (stays refl)
  lock_from-Follows HandleState.locked g h s e = rw e (stays refl)
  lock_from-Follows HandleState.cleaned g h s e = rw e (stays refl)

  with_config-Follows :
      (a : Api) (h : Handle) (s : S) (f : Config → Done S) (o : Option Config)
      → ((g : Config) → Follows a h.state (f g))
      → Follows a h.state (with_config client h s f o)
  unfolding with_config
  with_config-Follows a h s f none k = stays refl
  with_config-Follows a h s f (some g) k = elim (Bool-cases h.conn) [
    | inl there ↦ rw there (k g)
    | inr gone ↦ rw gone (stays refl)
  ]

  pub handle_lock-Follows :
      (ready : Rc) (h : Handle) (s : S) → Follows api_lock h.state (handle_lock client ready h s)
  unfolding handle_lock
  handle_lock-Follows ready h s = elim (Bool-cases (is_ok ready)) [
    | inr bad ↦ rw bad (stays bad)
    | inl fine ↦ rw fine (elim (Bool-cases (is_idle client h.state)) [
      | inr wrong ↦ rw wrong (stays refl)
      | inl idle ↦ rw idle (
          with_config-Follows api_lock h s (λ g. lock_from client h.state g h s) h.config
            (λ g. lock_from-Follows h.state g h s refl))
    ])
  ]

  disconnected_with-Follows :
      (rollback ignored : Bool) (st : HandleState) (h : Handle) (x : Rc × S)
      → h.state ≡ HandleState.connected
      → IsOpen st
      → IsReleased rollback (if ignored then Rc.resource_is_not_transactional else Rc.ok)
      → Follows (api_unlock rollback) st (disconnected_with client ignored h x)
  unfolding disconnected_with
  disconnected_with-Follows rollback ignored st h (rc, s) e still_open told =
      elim (Bool-cases (is_ok rc)) [
        | inl ok ↦ rw ok (unlocks still_open told)
        | inr bad ↦ rw (bad, e) (stays_open still_open bad)
      ]

  unlocked_with-Follows :
      (rollback ignored : Bool) (h : Handle) (x : Rc × S)
      → h.state ≡ HandleState.locked
      → IsReleased rollback (if ignored then Rc.resource_is_not_transactional else Rc.ok)
      → Follows (api_unlock rollback) HandleState.locked (unlocked_with client ignored h x)
  unfolding unlocked_with
  unlocked_with-Follows rollback ignored h (rc, s) e told = elim (Bool-cases (is_ok rc)) [
    | inl ok ↦ rw ok (
        disconnected_with-Follows rollback ignored HandleState.locked
          (record h { state = HandleState.connected }) (client.disconnect s) refl open_locked told)
    | inr bad ↦ rw (bad, e) (stays bad)
  ]

  unlock_from-Follows :
      (st : HandleState) (g : Config) (rollback undoes ignored : Bool) (h : Handle) (s : S)
      → h.state ≡ st
      → IsReleased rollback (if ignored then Rc.resource_is_not_transactional else Rc.ok)
      → Follows (api_unlock rollback) st (unlock_from client st g undoes ignored h s)
  unfolding unlock_from
  unlock_from-Follows HandleState.locked g rollback undoes ignored h s e told =
      unlocked_with-Follows rollback ignored h (client.unlock g undoes s) e told
  unlock_from-Follows HandleState.connected g rollback undoes ignored h s e told =
      disconnected_with-Follows rollback ignored HandleState.connected h (client.disconnect s) e
        open_connected told
  unlock_from-Follows HandleState.unset g rollback undoes ignored h s e told = rw e (stays refl)
  unlock_from-Follows HandleState.init g rollback undoes ignored h s e told = rw e (stays refl)
  unlock_from-Follows HandleState.disconnected g rollback undoes ignored h s e told =
      rw e (stays refl)
  unlock_from-Follows HandleState.cleaned g rollback undoes ignored h s e told = rw e (stays refl)

  pub handle_unlock-Follows :
      (matches : Matches) (ready : Rc) (rollback : Bool) (h : Handle) (s : S)
      → Follows (api_unlock rollback) h.state (handle_unlock client matches ready rollback h s)
  unfolding handle_unlock
  handle_unlock-Follows matches ready rollback h s = elim (Bool-cases (is_ok ready)) [
    | inr bad ↦ rw bad (stays bad)
    | inl fine ↦ rw fine (elim (Bool-cases (is_open client h.state)) [
      | inr wrong ↦ rw wrong (stays refl)
      | inl good ↦ rw good (
          with_config-Follows (api_unlock rollback) h s _ h.config (λ g.
            let t = is_transactional client matches g in
            unlock_from-Follows h.state g rollback (rollback && t) (rollback && not t) h s refl
              (rollback-IsReleased rollback t)))
    ])
  ]

  is_shut-IsShut : (st : HandleState) → is_shut client st ≡ true → IsShut st
  unfolding is_shut
  is_shut-IsShut HandleState.init h = shut_init
  is_shut-IsShut HandleState.disconnected h = shut_disconnected
  is_shut-IsShut _ h = cc h

  clean_shut-Follows :
      (h : Handle) (s : S)
      → Follows api_clean h.state (clean_shut client (record { rc = Rc.ok; handle = h; net = s }))
  unfolding clean_shut
  clean_shut-Follows h s = elim (Bool-cases (is_shut client h.state)) [
    | inl shut ↦ rw shut (cleans (is_shut-IsShut h.state shut))
    | inr wrong ↦ rw wrong (stays refl)
  ]

  clean_unlocked-Follows :
      (d : Done S)
      → Does (api_unlock false) HandleState.locked d.rc d.handle.state
      → Follows api_clean HandleState.locked (clean_unlocked client d)
  unfolding clean_unlocked clean_shut is_shut
  clean_unlocked-Follows d m = elim (Bool-cases (is_ok d.rc)) [
    | inl ok ↦ rw (ok, (after_unlock m).0 ok) (cleans shut_locked)
    | inr bad ↦ rw bad ((after_unlock m).1 bad)
  ]

  clean_from-Follows :
      (matches : Matches) (ready : Rc) (st : HandleState) (h : Handle) (s : S)
      → h.state ≡ st
      → Follows api_clean st (clean_from client matches ready st h s)
  unfolding clean_from
  clean_from-Follows matches ready HandleState.locked h s e =
      clean_unlocked-Follows (handle_unlock client matches ready false h s) (
        subst (λ st. Follows (api_unlock false) st (handle_unlock client matches ready false h s)) e
          (handle_unlock-Follows matches ready false h s))
  clean_from-Follows matches ready _ h s e =
      subst
        (λ st.
          Follows api_clean st (clean_shut client (record { rc = Rc.ok; handle = h; net = s })))
        e (clean_shut-Follows h s)

  pub handle_clean-Follows :
      (matches : Matches) (ready : Rc) (h : Handle) (s : S)
      → Follows api_clean h.state (handle_clean client matches ready h s)
  unfolding handle_clean
  handle_clean-Follows matches ready h s = elim (Bool-cases (is_ok ready)) [
    | inr bad ↦ rw bad (stays bad)
    | inl fine ↦ rw fine (clean_from-Follows matches ready h.state h s refl)
  ]
