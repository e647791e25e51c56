-- ===== src/Handle/Setters.antt =====
-- The setters of src/flom_handle.c. A handle whose configuration is gone is refused by its state, except
-- by the setter of the trace file, which then writes to the global configuration; that one is left out.
use flom.Prelude.{String, Bool, true, false, Option, none, some, if◌then◌else◌}
use flom.Prelude.Int.{ℤ}
use flom.Rsrc.Types.{Rc, LockMode}
use flom.Config.{
  Config, Matches, RealPath, set_socket_name, set_resource_name, set_resource_quantity,
  set_resource_idle_lifespan, set_resource_create, set_resource_timeout, set_lock_mode,
  set_unicast_address, set_unicast_port, set_multicast_address, set_multicast_port,
  set_discovery_attempts, set_discovery_timeout, set_discovery_ttl, set_tls_certificate,
  set_tls_private_key, set_tls_ca_certificate, set_tls_check_peer_id,
}
use flom.Handle.{HandleState, Handle}

-- The states in which the address of the daemon can change, and those in which the resource can.
unfoldable pub is_unconnected : HandleState → Bool
is_unconnected HandleState.init = true
is_unconnected HandleState.disconnected = true
is_unconnected _ = false

unfoldable pub is_unlocked : HandleState → Bool
is_unlocked HandleState.connected = true
is_unlocked HandleState.init = true
is_unlocked HandleState.disconnected = true
is_unlocked _ = false

-- The code that is returned, and the handle that is left.
abbrev pub Set : Type 0
Set = Rc × Handle

abbrev pub immutable : Handle → Set
immutable h = (Rc.api_immutable_handle, h)

on_config : (Config → Config) → Option Config → Handle → Handle
on_config f none h = h
on_config f (some g) h = record h { config = some (f g) }

-- A setter that returns FLOM_RC_OK, and one that hands back the code of the configuration's setter.
unfoldable pub setting : Bool → (Config → Config) → Handle → Set
unfolding on_config
setting allowed f h = if allowed then (Rc.ok, on_config f h.config h) else immutable h

try_config : (Config → Rc × Config) → Option Config → Handle → Set
try_config f none h = (Rc.ok, h)
try_config f (some g) h = let (rc, g') = f g in (rc, record h { config = some g' })

unfoldable pub trying : Bool → (Config → Rc × Config) → Handle → Set
unfolding try_config
trying allowed f h = if allowed then try_config f h.config h else immutable h

unfoldable pub handle_set_discovery_attempts : ℤ → Handle → Set
handle_set_discovery_attempts v h = setting (is_unconnected h.state) (set_discovery_attempts v) h

unfoldable pub handle_set_discovery_timeout : ℤ → Handle → Set
handle_set_discovery_timeout v h = setting (is_unconnected h.state) (set_discovery_timeout v) h

unfoldable pub handle_set_discovery_ttl : ℤ → Handle → Set
handle_set_discovery_ttl v h = setting (is_unconnected h.state) (set_discovery_ttl v) h

unfoldable pub handle_set_lock_mode : LockMode → Handle → Set
handle_set_lock_mode v h = setting (is_unlocked h.state) (set_lock_mode v) h

unfoldable pub handle_set_multicast_port : ℤ → Handle → Set
handle_set_multicast_port v h = setting (is_unconnected h.state) (set_multicast_port v) h

unfoldable pub handle_set_unicast_port : ℤ → Handle → Set
handle_set_unicast_port v h = setting (is_unconnected h.state) (set_unicast_port v) h

unfoldable pub handle_set_resource_create : ℤ → Handle → Set
handle_set_resource_create v h = setting (is_unconnected h.state) (set_resource_create v) h

unfoldable pub handle_set_resource_idle_lifespan : ℤ → Handle → Set
handle_set_resource_idle_lifespan v h =
    setting (is_unlocked h.state) (set_resource_idle_lifespan v) h

-- The code of flom_config_set_resource_name is not looked at.
unfoldable pub handle_set_resource_name : Matches → String → Handle → Set
handle_set_resource_name matches v h =
    setting (is_unlocked h.state) (λ g. (set_resource_name matches v g).1) h

unfoldable pub handle_set_resource_quantity : ℤ → Handle → Set
handle_set_resource_quantity v h = setting (is_unlocked h.state) (set_resource_quantity v) h

unfoldable pub handle_set_resource_timeout : ℤ → Handle → Set
handle_set_resource_timeout v h = setting (is_unlocked h.state) (set_resource_timeout v) h

unfoldable pub handle_set_tls_certificate : RealPath → String → Handle → Set
handle_set_tls_certificate realpath v h =
    trying (is_unconnected h.state) (set_tls_certificate realpath v) h

unfoldable pub handle_set_tls_private_key : RealPath → String → Handle → Set
handle_set_tls_private_key realpath v h =
    trying (is_unconnected h.state) (set_tls_private_key realpath v) h

unfoldable pub handle_set_tls_ca_certificate : RealPath → String → Handle → Set
handle_set_tls_ca_certificate realpath v h =
    trying (is_unconnected h.state) (set_tls_ca_certificate realpath v) h

unfoldable pub handle_set_tls_check_peer_id : ℤ → Handle → Set
handle_set_tls_check_peer_id v h = setting (is_unconnected h.state) (set_tls_check_peer_id v) h

-- An address takes the place of the two other kinds: these are reset by their own setters, which only
-- return a code. With a NULL none is reset.
reset_multicast : Handle → Handle
reset_multicast h = (setting (is_unconnected h.state) (set_multicast_address none) h).1

reset_unicast : Handle → Handle
reset_unicast h = (setting (is_unconnected h.state) (set_unicast_address none) h).1

reset_socket : Handle → Handle
reset_socket h = (trying (is_unconnected h.state) (set_socket_name none) h).1

unfoldable pub handle_set_multicast_address : Option String → Handle → Set
unfolding reset_unicast reset_socket
handle_set_multicast_address none h =
    setting (is_unconnected h.state) (set_multicast_address none) h
handle_set_multicast_address (some v) h =
    let (rc, h') = setting (is_unconnected h.state) (set_multicast_address (some v)) h in
    if is_unconnected h.state then (rc, reset_unicast (reset_socket h')) else (rc, h')

unfoldable pub handle_set_unicast_address : Option String → Handle → Set
unfolding reset_multicast reset_socket
handle_set_unicast_address none h = setting (is_unconnected h.state) (set_unicast_address none) h
handle_set_unicast_address (some v) h =
    let (rc, h') = setting (is_unconnected h.state) (set_unicast_address (some v)) h in
    if is_unconnected h.state then (rc, reset_multicast (reset_socket h')) else (rc, h')

-- Here the others are reset first.
unfoldable pub handle_set_socket_name : Option String → Handle → Set
unfolding reset_unicast reset_multicast
handle_set_socket_name none h = trying (is_unconnected h.state) (set_socket_name none) h
handle_set_socket_name (some v) h =
    if is_unconnected h.state
    then trying true (set_socket_name (some v)) (reset_multicast (reset_unicast h))
    else immutable h
