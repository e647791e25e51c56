-- ===== src/Examples/Handle.antt =====
-- Runs of a handle, and its theorems at them.
use flom.Prelude.{◌≡◌, refl, String, Bool, true, false, none, some, List, [], ◌∷◌, if◌then◌else◌}
use flom.Rsrc.Types.{Rc}
use flom.Rsrc.Names.{get_type, get_transactional}
use flom.Handle.{
  HandleState, Handle, Client, handle_lock, handle_unlock, handle_clean, handle_delete, handle_init,
}
use flom.Handle.States.{Api, api_init, api_lock, api_unlock, api_clean, api_set}
use flom.Handle.Runs.{Made, api, apis}
use flom.Handle.Addresses.{IsAddressed, configured, handle_set_addresses}
use flom.Handle.Setters.{
  handle_set_unicast_address, handle_set_multicast_address, handle_set_socket_name, is_unconnected,
}
use flom.Handle.Release.{handle_lock-handle_delete-leaks}
use flom.Examples.Client.{matches, plain}

-- The calls made on the network; `grants` is whether the daemon grants locks.
abbrev counting : Bool → Client (List String)
counting grants = record {
  connect = λ g s. (Rc.ok, "connect" ∷ s);
  lock = λ g element s. (if grants then Rc.ok else Rc.lock_busy, none, "lock" ∷ s);
  unlock = λ g rollback s. (Rc.ok, "unlock" ∷ s);
  disconnect = λ s. (Rc.ok, "disconnect" ∷ s);
}

abbrev fresh : Handle
fresh = configured HandleState.init plain none

abbrev session : List Api
session =
    api_lock
    ∷ api_clean
    ∷ api_lock
    ∷ api_init true true
    ∷ api_set (λ g. g)
    ∷ api_lock
    ∷ api_unlock false
    ∷ api_clean
    ∷ []

abbrev made : Api → Rc → HandleState → Made
made a rc st = record { call = a; rc = rc; state = st }

session_runs : apis (counting true) matches Rc.ok plain fresh [] session ≡ (
    made api_lock Rc.ok HandleState.locked
    ∷ made api_clean Rc.ok HandleState.cleaned
    ∷ made api_lock Rc.api_invalid_sequence HandleState.cleaned
    ∷ made (api_init true true) Rc.ok HandleState.init
    ∷ made (api_set (λ g. g)) Rc.ok HandleState.init
    ∷ made api_lock Rc.ok HandleState.locked
    ∷ made (api_unlock false) Rc.ok HandleState.disconnected
    ∷ made api_clean Rc.ok HandleState.cleaned
    ∷ [])
unfolding apis api handle_init handle_lock handle_unlock handle_clean get_transactional get_type
session_runs = refl

handle_lock-handle_delete-leaks_example :
    let d = handle_lock (counting false) Rc.ok fresh [] in
    (d.rc ≡ Rc.lock_busy)
    × (handle_delete (counting false) matches Rc.ok d.handle d.net
        ≡ (configured HandleState.connected plain none, "lock" ∷ "connect" ∷ []))
handle_lock-handle_delete-leaks_example =
    handle_lock-handle_delete-leaks (counting false) matches Rc.ok plain none none []
      ("connect" ∷ []) ("lock" ∷ "connect" ∷ []) Rc.lock_busy refl refl refl refl

abbrev long_name : String
long_name =
    "/tmp/0123456789012345678901234567890123456789012345678901234567890123456789012345678901234567890123456789012345678901234567890123456789"

-- A name that is too long, on a handle that is configured for the network.
handle_set_addresses_example :
    let h = configured HandleState.init (record plain { unicast_address = some "host" }) none in
    IsAddressed (handle_set_unicast_address (some long_name) h) Rc.ok none (some long_name) none
    × IsAddressed (handle_set_multicast_address (some long_name) h) Rc.ok none none (some long_name)
    × (true ≡ false
        → IsAddressed (handle_set_socket_name (some long_name) h) Rc.ok (some long_name) none none)
    × (true ≡ true
        → IsAddressed (handle_set_socket_name (some long_name) h) Rc.buffer_overflow none none none)
unfolding is_unconnected
handle_set_addresses_example =
    handle_set_addresses HandleState.init (record plain { unicast_address = some "host" }) none
      long_name refl
