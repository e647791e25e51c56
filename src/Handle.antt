-- ===== src/Handle.antt =====
-- src/flom_handle.c: the handles of the client library, as a state machine over the calls of
-- src/flom_client.c, which come as a record of functions on a state of the network.
-- `ready` is what flom_init_check returns.
pub mod Setters
pub mod Addresses
pub mod States
pub mod Runs
pub mod Release
use flom.Prelude.{String, Bool, true, false, not, ◌&&◌, Option, none, some, if◌then◌else◌}
use flom.Prelude.Int.{pos}
use flom.Rsrc.Types.{Rc, is_ok}
use flom.Rsrc.Names.{get_transactional}
use flom.Config.{Config, Matches}

-- flom_handle_state_t; `unset` is the 0 of a handle that was not initialized.
pub data HandleState : Type 0 where
  unset init connected locked disconnected cleaned : HandleState

-- flom_handle_t: whether the connection data is there, and the configuration, if it is.
pub record Handle : Type 0 where
  pub state : HandleState
  pub conn : Bool
  pub config : Option Config
  pub locked_element : Option String

-- flom_client_connect, flom_client_lock, flom_client_unlock and flom_client_disconnect.
pub record Client {ℓ} (S : Type ℓ) : Type ℓ where
  pub connect : Config → S → Rc × S
  pub lock : Config → Option String → S → Rc × Option String × S
  pub unlock : Config → Bool → S → Rc × S
  pub disconnect : S → Rc × S

-- What a call leaves behind.
pub record Done {ℓ} (S : Type ℓ) : Type ℓ where
  pub rc : Rc
  pub handle : Handle
  pub net : S

abbrev pub zeroed : Handle
zeroed = record { state = HandleState.unset; conn = false; config = none; locked_element = none }

-- flom_handle_init: `room` and `room'` are the two allocations; `global` is the global configuration.
unfoldable pub handle_init : Rc → Bool → Bool → Config → Handle → Rc × Handle
handle_init ready room room' global h =
    if not (is_ok ready)
    then (ready, h)
    else if not room
    then (Rc.g_try_malloc_error, zeroed)
    else if not room'
    then (Rc.g_try_malloc_error, zeroed)
    else (
      Rc.ok,
      record {
        state = HandleState.init;
        conn = true;
        config = some (record global { daemon_lifespan = pos 0 });
        locked_element = none;
      },
    )

-- flom_handle_new; `room` is the allocation of the handle itself.
keep_ok : Rc × Handle → Option Handle
keep_ok (rc, h) = if is_ok rc then some h else none

unfoldable pub handle_new : Rc → Bool → Bool → Bool → Config → Option Handle
unfolding keep_ok handle_init
handle_new ready room room' room'' global =
    if not (is_ok ready)
    then none
    else if not room
    then none
    else keep_ok (handle_init ready room' room'' global zeroed)

module _ {ℓ} {S : Type ℓ} (client : Client S) where
  abbrev refuse : Rc → Handle → S → Done S
  refuse rc h s = record { rc = rc; handle = h; net = s }

  -- flom_handle_lock
  locked_with : Handle → Rc × Option String × S → Done S
  locked_with h (rc, element, s) = record {
    rc = rc;
    handle = record h {
      state = if is_ok rc then HandleState.locked else h.state;
      locked_element = element;
    };
    net = s;
  }

  lock_connected : Config → Handle → S → Done S
  unfolding locked_with
  lock_connected g h s = locked_with h (client.lock g h.locked_element s)

  lock_after : Config → Handle → Rc × S → Done S
  unfolding lock_connected
  lock_after g h (rc, s) =
      let done = lock_connected g (record h { state = HandleState.connected }) s in
      if is_ok rc then done else refuse rc h s

  lock_from : HandleState → Config → Handle → S → Done S
  unfolding lock_after lock_connected
  lock_from HandleState.connected g h s = lock_connected g h s
  lock_from HandleState.init g h s = lock_after g h (client.connect g s)
  lock_from HandleState.disconnected g h s = lock_after g h (client.connect g s)
  lock_from _ g h s = refuse Rc.api_invalid_sequence h s

  -- The test on the state comes before the one on the connection data. Configuration and connection
  -- data are there or not together.
  is_idle : HandleState → Bool
  is_idle HandleState.init = true
  is_idle HandleState.connected = true
  is_idle HandleState.disconnected = true
  is_idle _ = false

  with_config : Handle → S → (Config → Done S) → Option Config → Done S
  with_config h s f none = refuse Rc.obj_corrupted h s
  with_config h s f (some g) = if h.conn then f g else refuse Rc.obj_corrupted h s

  unfoldable pub handle_lock : Rc → Handle → S → Done S
  unfolding lock_from is_idle with_config
  handle_lock ready h s =
      if not (is_ok ready)
      then refuse ready h s
      else if not (is_idle h.state)
      then refuse Rc.api_invalid_sequence h s
      else with_config h s (λ g. lock_from h.state g h s) h.config

  -- flom_handle_unlock_internal: `ignored` is `ignored_rollback`.
  disconnected_with : Bool → Handle → Rc × S → Done S
  disconnected_with ignored h (rc, s) =
      if is_ok rc
      then record {
        rc = if ignored then Rc.resource_is_not_transactional else Rc.ok;
        handle = record h { state = HandleState.disconnected; locked_element = none };
        net = s;
      }
      else refuse rc h s

  unlocked_with : Bool → Handle → Rc × S → Done S
  unfolding disconnected_with
  unlocked_with ignored h (rc, s) =
      let done =
        disconnected_with ignored (record h { state = HandleState.connected })
          (client.disconnect s) in
      if is_ok rc then done else refuse rc h s

  unlock_from : HandleState → Config → Bool → Bool → Handle → S → Done S
  unfolding unlocked_with disconnected_with
  unlock_from HandleState.locked g rollback ignored h s =
      unlocked_with ignored h (client.unlock g rollback s)
  unlock_from HandleState.connected g rollback ignored h s =
      disconnected_with ignored h (client.disconnect s)
  unlock_from _ g rollback ignored h s = refuse Rc.api_invalid_sequence h s

  abbrev is_transactional : Matches → Config → Bool
  is_transactional matches g = transactional matches g.resource_name
    where
      transactional : Matches → Option String → Bool
      transactional matches none = false
      transactional matches (some name) = get_transactional matches name

  is_open : HandleState → Bool
  is_open HandleState.locked = true
  is_open HandleState.connected = true
  is_open _ = false

  unfoldable pub handle_unlock : Matches → Rc → Bool → Handle → S → Done S
  unfolding unlock_from is_open with_config
  handle_unlock matches ready rollback h s =
      if not (is_ok ready)
      then refuse ready h s
      else if not (is_open h.state)
      then refuse Rc.api_invalid_sequence h s
      else with_config h s
          (λ g.
            let transactional = is_transactional matches g in
            unlock_from h.state g (rollback && transactional) (rollback && not transactional) h s)
          h.config

  -- flom_handle_clean
  is_shut : HandleState → Bool
  is_shut HandleState.init = true
  is_shut HandleState.disconnected = true
  is_shut _ = false

  clean_shut : Done S → Done S
  unfolding is_shut
  clean_shut d =
      if is_shut d.handle.state
      then record d { rc = Rc.ok; handle = record zeroed { state = HandleState.cleaned } }
      else record d { rc = Rc.api_invalid_sequence }

  clean_unlocked : Done S → Done S
  unfolding clean_shut
  clean_unlocked d = if is_ok d.rc then clean_shut d else d

  clean_from : Matches → Rc → HandleState → Handle → S → Done S
  unfolding clean_unlocked
  clean_from matches ready HandleState.locked h s =
      clean_unlocked (handle_unlock matches ready false h s)
  clean_from matches ready _ h s = clean_shut (refuse Rc.ok h s)

  unfoldable pub handle_clean : Matches → Rc → Handle → S → Done S
  unfolding clean_from
  handle_clean matches ready h s =
      if not (is_ok ready) then refuse ready h s else clean_from matches ready h.state h s

  -- flom_handle_delete, whatever flom_handle_clean returns: the handle is freed with what it then holds.
  unfoldable pub handle_delete : Matches → Rc → Handle → S → Handle × S
  unfolding handle_clean
  handle_delete matches ready h s =
      let d = handle_clean matches ready h s in if is_ok ready then (d.handle, d.net) else (h, s)
