-- ===== src/Config/Check.antt =====
-- What flom_config_check of src/flom_config.c guarantees.
use flom.Prelude.{String, true, false, ◌||◌, ◌&&◌, ◌⊎◌, inl, inr, Bool-cases, ◌≡◌, refl, arith}
use flom.Prelude.Int.{ℤ, pos}
use flom.Rsrc.Types.{is_ok, LockMode}
use flom.Rsrc.Names.{RsrcType}
use flom.Config.{
  Config, Matches, is_some, is_zero, has_modes, is_numeric, type_of_name, use_default_socket, is_ex,
  is_one, check_mode, check_quantity, check_peer, set_lock_mode, set_resource_quantity, check,
}

-- Either a local socket or a network address is configured, and not both.
abbrev pub HasOnePeer : Config → Type 0
HasOnePeer g =
    ((is_some g.socket_name ≡ true)
      × (is_some g.unicast_address ≡ false)
      × (is_some g.multicast_address ≡ false))
    ⊎ ((is_some g.socket_name ≡ false)
        × ((is_some g.unicast_address || is_some g.multicast_address) ≡ true))

abbrev pub FitsType : RsrcType → Config → Type 0
FitsType t g =
    ((has_modes t ≡ true) ⊎ (g.lock_mode ≡ LockMode.ex))
    × ((is_numeric t ≡ true) ⊎ (g.resource_quantity ≡ pos 1))

abbrev pub HasPeerFiles : Config → Type 0
HasPeerFiles g =
    (is_zero g.tls_check_peer_id ≡ true)
    ⊎ ((is_some g.tls_certificate ≡ true)
        × (is_some g.tls_private_key ≡ true)
        × (is_some g.tls_ca_certificate ≡ true))

use_default_socket-HasOnePeer :
    (default : String) (g : Config)
    → (is_some g.socket_name && (is_some g.unicast_address || is_some g.multicast_address)) ≡ false
    → HasOnePeer (use_default_socket default g)
unfolding use_default_socket
use_default_socket-HasOnePeer default g h = ground (arith, h)

is_ex_lem : (m : LockMode) → is_ex m ≡ true → m ≡ LockMode.ex
unfolding is_ex
is_ex_lem m h = ground (arith, h)

is_one_lem : (n : ℤ) → is_one n ≡ true → n ≡ pos 1
unfolding is_one
is_one_lem n h = ground (arith, h)

check_mode-fits :
    (t : RsrcType) (g : Config) → (has_modes t ≡ true) ⊎ ((check_mode t g).lock_mode ≡ LockMode.ex)
unfolding check_mode set_lock_mode
check_mode-fits t g = elim (Bool-cases (has_modes t)) [
  | inl modes ↦ inl modes
  | inr none_else ↦ elim (Bool-cases (is_ex g.lock_mode)) [
    | inl ex ↦ inr (rw ex (is_ex_lem g.lock_mode ex))
    | inr other ↦ inr (rw (other, none_else) refl)
  ]
]

check_quantity-fits :
    (t : RsrcType) (g : Config)
    → (is_numeric t ≡ true) ⊎ ((check_quantity t g).resource_quantity ≡ pos 1)
unfolding check_quantity set_resource_quantity
check_quantity-fits t g = elim (Bool-cases (is_numeric t)) [
  | inl numeric ↦ inl numeric
  | inr other ↦ elim (Bool-cases (is_one g.resource_quantity)) [
    | inl one ↦ inr (rw one (is_one_lem g.resource_quantity one))
    | inr more ↦ inr (rw (more, other) refl)
  ]
]

-- Mode and quantity do not touch the addresses and the files.
abbrev Peer : Config → Config → Type 0
Peer g g' =
    (g'.socket_name ≡ g.socket_name)
    × (g'.unicast_address ≡ g.unicast_address)
    × (g'.multicast_address ≡ g.multicast_address)

check_mode-Peer : (t : RsrcType) (g : Config) → Peer g (check_mode t g)
unfolding check_mode set_lock_mode
check_mode-Peer t g = ground arith

check_quantity-Peer :
    (t : RsrcType) (g : Config)
    → Peer g (check_quantity t g) × ((check_quantity t g).lock_mode ≡ g.lock_mode)
unfolding check_quantity set_resource_quantity
check_quantity-Peer t g = ground arith

HasOnePeer-Peer : (g g' : Config) → Peer g g' → HasOnePeer g → HasOnePeer g'
HasOnePeer-Peer g g' (s, u, m) h = rw (s, u, m) h

check_peer-config : (g : Config) → (check_peer g).1 ≡ g
unfolding check_peer
check_peer-config g = ground arith

check_peer-HasPeerFiles : (g : Config) → is_ok (check_peer g).0 ≡ true → HasPeerFiles g
unfolding check_peer
check_peer-HasPeerFiles g h = ground (arith, h)

use_default_socket-name :
    (default : String) (g : Config) → (use_default_socket default g).resource_name ≡ g.resource_name
unfolding use_default_socket
use_default_socket-name default g = ground arith

-- The last part of the check, for a configuration that is not both local and on the network.
settled-IsConsistent :
    (t : RsrcType) (g : Config)
    → HasOnePeer g
    → let d = check_peer (check_quantity t (check_mode t g)) in
      is_ok d.0 ≡ true → HasOnePeer d.1 × FitsType t d.1 × HasPeerFiles d.1
settled-IsConsistent t g one h =
    let m = check_mode t g in
    let q = check_quantity t m in
    let (kept, mode) = check_quantity-Peer t m in
    let fits : FitsType t q = (rw mode (check_mode-fits t g), check_quantity-fits t m) in
    rw (check_peer-config q) (
      HasOnePeer-Peer m q kept (HasOnePeer-Peer g m (check_mode-Peer t g) one),
      fits,
      check_peer-HasPeerFiles q h,
    )

-- A configuration that flom_config_check accepts has either a local socket or a network address; a mode
-- other than the exclusive one only for a simple or a hierarchical resource; a quantity other than 1 only
-- for a numeric one; and if the identity of the peer is to be checked, all three TLS files.
pub check-IsConsistent :
    (matches : Matches) (default : String) (g : Config)
    → is_ok (check matches default g).0 ≡ true
    → let g' = (check matches default g).1 in
      HasOnePeer g' × FitsType (type_of_name matches g.resource_name) g' × HasPeerFiles g'
unfolding check use_default_socket
check-IsConsistent matches default g h =
    elim (Bool-cases
      (is_some g.socket_name && (is_some g.unicast_address || is_some g.multicast_address))) [
        | inl both ↦ cc (rw both at h)
        | inr fine ↦
            rw (fine, use_default_socket-name default g)
              (settled-IsConsistent (type_of_name matches g.resource_name)
                (use_default_socket default g) (use_default_socket-HasOnePeer default g fine)
                (rw (fine, use_default_socket-name default g) at h))
      ]
