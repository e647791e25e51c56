-- ===== src/Examples/Client.antt =====
-- The configuration and the client's side of a lock on concrete data, and their theorems there.
use text.Mathlib.Text.{◌==◌ as str_eq}
use flom.Prelude.{◌≡◌, ◌≢◌, refl, ap, inl, inr, true, false, none, some, List, [], ◌∷◌, All, arith}
use flom.Prelude.Int.{◌-ℤ◌, ◌≤ℤ◌, pos, negsuc}
use flom.Rsrc.Types.{Rc, is_ok, LockMode, LockBody}
use flom.Rsrc.Env.{World}
use flom.Rsrc.Names.{RsrcType, get_type}
use flom.Numeric.{Numeric, request}
use flom.Config.{
  Config, Matches, check, type_of_name, use_default_socket, check_mode, check_quantity, check_peer,
  is_one, is_ex, set_lock_mode,
}
use flom.Config.Check.{HasOnePeer, FitsType, HasPeerFiles, check-IsConsistent}
use flom.Client.{Net, Received, failed, returns, waiting, client_lock, copy}
use flom.Client.Answers.{answer, IsWell, client_lock-granted}
use flom.Client.Sound.{IsHonest, HasGrant, client_lock-HasGrant}
use flom.Client.Blunders.{refusal_taken_for_grant}
use flom.Client.Ends.{client_lock-ends}
use flom.Examples.{fine, fine-IsReliable}

-- A name that starts like "r[" is that of a numeric resource.
abbrev pub matches : Matches
matches RsrcType.numeric s = str_eq s "r[5]"
matches RsrcType.simple s = str_eq s "r"
matches _ s = false

abbrev pub plain : Config
plain = record {
  command_trace_file = none;
  resource_name = some "r[5]";
  resource_transactional = false;
  resource_create = pos 1;
  resource_timeout = negsuc 0;
  resource_quantity = pos 3;
  lock_mode = LockMode.pr;
  resource_idle_lifespan = pos 0;
  socket_name = none;
  daemon_lifespan = pos 0;
  unicast_address = none;
  unicast_port = pos 28015;
  multicast_address = none;
  multicast_port = pos 28015;
  discovery_attempts = pos 2;
  discovery_timeout = pos 500;
  discovery_ttl = pos 1;
  tls_certificate = none;
  tls_private_key = none;
  tls_ca_certificate = none;
  tls_check_peer_id = pos 0;
}

check_runs :
    check matches "/tmp/flom-me" plain
    ≡ (Rc.ok, record plain { socket_name = some "/tmp/flom-me"; lock_mode = LockMode.ex })
unfolding check type_of_name get_type use_default_socket check_mode check_quantity check_peer is_one
    is_ex set_lock_mode
check_runs = refl

check-IsConsistent_example :
    let g = (check matches "/tmp/flom-me" plain).1 in
    HasOnePeer g × FitsType (type_of_name matches (some "r[5]")) g × HasPeerFiles g
check-IsConsistent_example =
    check-IsConsistent matches "/tmp/flom-me" plain (ap (λ d. is_ok d.0) check_runs)

abbrev net : Net
net = record {
  unique_id = true;
  strdup = true;
  serialize = Rc.ok;
  send = Rc.ok;
  msg_free = Rc.ok;
  new_parser = true;
  has_tls = false;
  peer_name = true;
  cert_check = Rc.ok;
}

net-IsWell : IsWell net plain
net-IsWell = record {
  unique_id = refl;
  strdup = refl;
  serialize = refl;
  send = refl;
  msg_free = refl;
  new_parser = refl;
  no_peer_check = refl;
}

abbrev queued : List Received
queued =
    answer 16 Rc.lock_wait_resource none
    ∷ answer 24 Rc.lock_enqueued none
    ∷ answer 32 Rc.ok (some "x")
    ∷ []

client_lock-granted_example :
    client_lock net plain Rc.ok none queued ≡ returns Rc.ok (copy (some "x") none)
client_lock-granted_example =
    client_lock-granted net plain Rc.ok Rc.lock_wait_resource none (some "x") (24 ∷ []) 32 []
      net-IsWell (inr refl) (inr refl, tt) (inr refl)

queued-IsHonest : All IsHonest queued
queued-IsHonest = ((refl, λ e. ground arith), ((refl, λ e. inr refl), ((refl, λ e. inl refl), tt)))

client_lock-HasGrant_example : HasGrant queued
client_lock-HasGrant_example =
    client_lock-HasGrant net plain Rc.ok none (copy (some "x") none) queued queued-IsHonest
      client_lock-granted_example

-- A resource of 5 units, of which a waiting client wants 6.
abbrev small : Numeric
small = record {
  name = "r[5]";
  total_quantity = pos 5;
  locked_quantity = pos 0;
  holders = [];
  waitings = [];
}

abbrev greedy : LockBody
greedy = record { name = "r[5]"; mode = LockMode.ex; wait = true; quantity = pos 6 }

abbrev told_to_wait : World
told_to_wait = record { last_step = λ c. 16; log = [] }

too_many : ¬ (pos 6 ≤ℤ pos 5 -ℤ pos 0)
unfolding ◌-ℤ◌
too_many h = ground arith

refusal_taken_for_grant_example :
    let o = request fine small 9 1 greedy told_to_wait in
    (o.resource ≡ small)
    × (o.reply ≡ some (record { step = 24; rc = Rc.lock_impossible; element = none }))
    × (client_lock net plain Rc.ok none
          (answer 16 Rc.lock_wait_resource none ∷ answer 24 Rc.lock_impossible none ∷ [])
        ≡ returns Rc.ok none)
refusal_taken_for_grant_example =
    refusal_taken_for_grant net plain Rc.ok none fine small 9 1 greedy told_to_wait net-IsWell
      fine-IsReliable refl too_many (λ h. ground arith)

-- The daemon ends while the client is in the queue.
client_lock-ends_example :
    let list =
      answer 16 Rc.lock_wait_resource none
      ∷ answer 24 Rc.lock_enqueued none
      ∷ failed Rc.recv_error
      ∷ [] in
    (client_lock net plain Rc.ok none list ≢ waiting)
    × (client_lock net plain Rc.ok none list ≡ returns Rc.recv_error none)
client_lock-ends_example =
    client_lock-ends net plain Rc.ok Rc.lock_wait_resource Rc.recv_error none (24 ∷ [])
      (answer 16 Rc.lock_wait_resource none ∷ answer 24 Rc.lock_enqueued none ∷ []) [] net-IsWell
      (inr refl) (inr refl, tt)
