-- ===== src/Config.antt =====
-- src/flom_config.c and src/flom_config.h: the configuration of a client or of the daemon, its setters,
-- and flom_config_check. A configuration is a value here: the strings of a copy are copies. The digits
-- and the meaning of resource names come from Rsrc/Names; what realpath finds is an argument, and so is
-- the name of the default socket.
pub mod Check
use text.Mathlib.Text.{◌==◌ as str_eq}
use flom.Prelude.{
  ℕ, zero, suc, String, Bool, true, false, not, ◌&&◌, ◌||◌, Option, none, some, leb, if◌then◌else◌,
}
use flom.Prelude.Int.{ℤ, pos, negsuc}
use flom.Rsrc.Types.{Rc, LockMode}
use flom.Rsrc.Names.{RsrcType, get_type, get_transactional}

-- flom_config_t, without the trace and signal options and the TCP keepalive times.
pub record Config : Type 0 where
  pub command_trace_file : Option String
  pub resource_name : Option String
  pub resource_transactional : Bool
  pub resource_create : ℤ
  pub resource_timeout : ℤ
  pub resource_quantity : ℤ
  pub lock_mode : LockMode
  pub resource_idle_lifespan : ℤ
  pub socket_name : Option String
  pub daemon_lifespan : ℤ
  pub unicast_address : Option String
  pub unicast_port : ℤ
  pub multicast_address : Option String
  pub multicast_port : ℤ
  pub discovery_attempts : ℤ
  pub discovery_timeout : ℤ
  pub discovery_ttl : ℤ
  pub tls_certificate : Option String
  pub tls_private_key : Option String
  pub tls_ca_certificate : Option String
  pub tls_check_peer_id : ℤ

-- LOCAL_SOCKET_SIZE: the room in a sockaddr_un.
abbrev pub local_socket_size : ℕ
local_socket_size = 108

-- strlen
abbrev pub strlen : String → ℕ
strlen (String.[]) = 0
strlen (String.◌∷◌ c s) = suc (strlen s)

unfoldable pub set_socket_name : Option String → Config → Rc × Config
set_socket_name none g = (Rc.ok, record g { socket_name = none })
set_socket_name (some s) g =
    if leb local_socket_size (strlen s)
    then (Rc.buffer_overflow, g)
    else (Rc.ok, record g { socket_name = some s })

-- A name is valid if it is not the reserved one and has a type; the flag for transactions is that of the
-- given name, valid or not.
abbrev pub Matches : Type 0
Matches = RsrcType → String → Bool

is_null : RsrcType → Bool
is_null RsrcType.null = true
is_null _ = false

unfoldable pub is_valid_name : Matches → String → Bool
unfolding is_null
is_valid_name matches name =
    if str_eq name "_RESOURCE" then false else not (is_null (get_type matches name))

unfoldable pub set_resource_name : Matches → String → Config → Rc × Config
set_resource_name matches name g =
    let g' = record g { resource_transactional = get_transactional matches name } in
    if is_valid_name matches name
    then (Rc.ok, record g' { resource_name = some name })
    else (Rc.invalid_resource_name, g')

-- if (0 > value) value = -value
abbrev pub magnitude : ℤ → ℤ
magnitude (pos n) = pos n
magnitude (negsuc n) = pos (suc n)

abbrev pub is_zero : ℤ → Bool
is_zero (pos zero) = true
is_zero (pos (suc n)) = false
is_zero (negsuc n) = false

-- The setters that keep the old value in place of 0.
abbrev unless_zero : ℤ → Config → Config → Config
unless_zero value g g' = if is_zero value then g else g'

unfoldable pub set_resource_quantity : ℤ → Config → Config
set_resource_quantity value g =
    unless_zero value g (record g { resource_quantity = magnitude value })

unfoldable pub set_resource_idle_lifespan : ℤ → Config → Config
set_resource_idle_lifespan value g =
    unless_zero value g (record g { resource_idle_lifespan = magnitude value })

unfoldable pub set_resource_create : ℤ → Config → Config
set_resource_create value g = record g { resource_create = value }

unfoldable pub set_resource_timeout : ℤ → Config → Config
set_resource_timeout value g = record g { resource_timeout = value }

unfoldable pub set_lock_mode : LockMode → Config → Config
set_lock_mode value g = record g { lock_mode = value }

unfoldable pub set_unicast_address : Option String → Config → Config
set_unicast_address address g = record g { unicast_address = address }

unfoldable pub set_unicast_port : ℤ → Config → Config
set_unicast_port port g = record g { unicast_port = magnitude port }

unfoldable pub set_multicast_address : Option String → Config → Config
set_multicast_address address g = record g { multicast_address = address }

unfoldable pub set_multicast_port : ℤ → Config → Config
set_multicast_port port g = record g { multicast_port = magnitude port }

-- The setters that put 1 in place of 0.
abbrev one_for_zero : ℤ → ℤ
one_for_zero value = if is_zero value then pos 1 else magnitude value

unfoldable pub set_discovery_attempts : ℤ → Config → Config
set_discovery_attempts value g = record g { discovery_attempts = one_for_zero value }

unfoldable pub set_discovery_timeout : ℤ → Config → Config
set_discovery_timeout value g = record g { discovery_timeout = magnitude value }

unfoldable pub set_discovery_ttl : ℤ → Config → Config
set_discovery_ttl value g = record g { discovery_ttl = one_for_zero value }

-- The TLS files are kept as the absolute paths that `realpath` finds, if it finds one.
abbrev pub RealPath : Type 0
RealPath = String → Option String

keep_path : Option String → (String → Config) → Config → Rc × Config
keep_path none f g = (Rc.realpath_error, g)
keep_path (some path) f g = (Rc.ok, f path)

unfoldable pub set_tls_certificate : RealPath → String → Config → Rc × Config
unfolding keep_path
set_tls_certificate realpath value g =
    keep_path (realpath value) (λ path. record g { tls_certificate = some path }) g

unfoldable pub set_tls_private_key : RealPath → String → Config → Rc × Config
unfolding keep_path
set_tls_private_key realpath value g =
    keep_path (realpath value) (λ path. record g { tls_private_key = some path }) g

unfoldable pub set_tls_ca_certificate : RealPath → String → Config → Rc × Config
unfolding keep_path
set_tls_ca_certificate realpath value g =
    keep_path (realpath value) (λ path. record g { tls_ca_certificate = some path }) g

unfoldable pub set_tls_check_peer_id : ℤ → Config → Config
set_tls_check_peer_id value g = record g { tls_check_peer_id = value }

unfoldable pub set_command_trace_file : Option String → Config → Config
set_command_trace_file file g = record g { command_trace_file = file }

abbrev pub is_some : Option String → Bool
is_some none = false
is_some (some s) = true

unfoldable pub is_ex : LockMode → Bool
is_ex LockMode.ex = true
is_ex _ = false

-- The types that know modes beside the exclusive one.
abbrev pub has_modes : RsrcType → Bool
has_modes RsrcType.simple = true
has_modes RsrcType.hier = true
has_modes _ = false

abbrev pub is_numeric : RsrcType → Bool
is_numeric RsrcType.numeric = true
is_numeric _ = false

unfoldable pub is_one : ℤ → Bool
is_one (pos (suc zero)) = true
is_one _ = false

-- flom_config_check, where getifaddrs is available. Mode and quantity are matched with the type of the
-- name, which is never NULL after flom_config_reset.
unfoldable pub type_of_name : Matches → Option String → RsrcType
type_of_name matches none = RsrcType.null
type_of_name matches (some name) = get_type matches name

unfoldable pub use_default_socket : String → Config → Config
use_default_socket default g =
    if is_some g.socket_name
    then g
    else if is_some g.unicast_address
    then g
    else if is_some g.multicast_address
    then g
    else record g { socket_name = some default }

unfoldable pub check_mode : RsrcType → Config → Config
check_mode t g =
    if is_ex g.lock_mode then g else if has_modes t then g else set_lock_mode LockMode.ex g

unfoldable pub check_quantity : RsrcType → Config → Config
check_quantity t g =
    if is_one g.resource_quantity
    then g
    else if is_numeric t
    then g
    else set_resource_quantity (pos 1) g

unfoldable pub check_peer : Config → Rc × Config
check_peer g =
    if is_zero g.tls_check_peer_id
    then (Rc.ok, g)
    else if is_some g.tls_certificate && is_some g.tls_private_key && is_some g.tls_ca_certificate
    then (Rc.ok, g)
    else (Rc.invalid_option, g)

unfoldable pub check : Matches → String → Config → Rc × Config
check matches default g =
    let g' = use_default_socket default g in
    let t = type_of_name matches g'.resource_name in
    if is_some g.socket_name && (is_some g.unicast_address || is_some g.multicast_address)
    then (Rc.invalid_option, g)
    else check_peer (check_quantity t (check_mode t g'))
