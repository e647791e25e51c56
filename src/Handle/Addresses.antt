-- ===== src/Handle/Addresses.antt =====
-- What the setters of src/flom_handle.c make of the address of the daemon and of the resource's name.
use flom.Prelude.{String, true, false, Option, none, some, ◌≡◌, refl, leb}
use flom.Rsrc.Types.{Rc}
use flom.Rsrc.Names.{get_transactional}
use flom.Config.{
  Config, Matches, local_socket_size, strlen, is_valid_name, set_socket_name, set_resource_name,
  set_unicast_address, set_multicast_address,
}
use flom.Handle.{HandleState, Handle}
use flom.Handle.Setters.{
  is_unconnected, is_unlocked, Set, setting, trying, handle_set_socket_name,
  handle_set_unicast_address, handle_set_multicast_address, handle_set_resource_name,
}

-- The local socket, the unicast and the multicast address that a handle is configured for.
abbrev pub Targets : Handle → Option String → Option String → Option String → Type 0
Targets h socket unicast multicast =
    (g : Config) × (h.config ≡ some g)
    × (g.socket_name ≡ socket)
    × (g.unicast_address ≡ unicast)
    × (g.multicast_address ≡ multicast)

abbrev pub IsAddressed : Set → Rc → Option String → Option String → Option String → Type 0
IsAddressed (rc, h) code socket unicast multicast = (rc ≡ code) × Targets h socket unicast multicast

-- A handle with the configuration `g`.
abbrev pub configured : HandleState → Config → Option String → Handle
configured st g element = record {
  state = st;
  conn = true;
  config = some g;
  locked_element = element;
}

-- On a handle that is not connected, an address takes the place of any that was configured: a network
-- address always, and the name of a local socket if it is short enough. One that is too long is refused,
-- but the network addresses are gone all the same.
pub handle_set_addresses :
    (st : HandleState) (g : Config) (element : Option String) (a : String)
    → is_unconnected st ≡ true
    → let h = configured st g element in
      IsAddressed (handle_set_unicast_address (some a) h) Rc.ok none (some a) none
      × IsAddressed (handle_set_multicast_address (some a) h) Rc.ok none none (some a)
      × (leb local_socket_size (strlen a) ≡ false
          → IsAddressed (handle_set_socket_name (some a) h) Rc.ok (some a) none none)
      × (leb local_socket_size (strlen a) ≡ true
          → IsAddressed
              (handle_set_socket_name (some a) h)
              Rc.buffer_overflow
              g.socket_name
              none
              none)
unfolding handle_set_unicast_address handle_set_multicast_address handle_set_socket_name setting
    trying set_unicast_address set_multicast_address set_socket_name is_unconnected
handle_set_addresses HandleState.init g element a idle = (
  (refl, (_, refl, refl, refl, refl)),
  (refl, (_, refl, refl, refl, refl)),
  λ short. rw short (refl, (_, refl, refl, refl, refl)),
  λ long. rw long (refl, (_, refl, refl, refl, refl)),
)
handle_set_addresses HandleState.disconnected g element a idle = (
  (refl, (_, refl, refl, refl, refl)),
  (refl, (_, refl, refl, refl, refl)),
  λ short. rw short (refl, (_, refl, refl, refl, refl)),
  λ long. rw long (refl, (_, refl, refl, refl, refl)),
)
handle_set_addresses _ g element a idle = cc idle

-- A name that no resource can have is not taken, but flom_handle_set_resource_name returns FLOM_RC_OK, and
-- the handle goes on with the old name, marked as that of a transactional resource if the refused name is.
handle_set_resource_name-ignores :
    (matches : Matches) (st : HandleState) (g : Config) (element : Option String) (name : String)
    → is_unlocked st ≡ true
    → is_valid_name matches name ≡ false
    → handle_set_resource_name matches name (configured st g element) ≡ (
      Rc.ok,
      configured st (record g { resource_transactional = get_transactional matches name }) element,
    )
unfolding handle_set_resource_name setting set_resource_name
handle_set_resource_name-ignores matches st g element name free invalid = rw (free, invalid) refl
