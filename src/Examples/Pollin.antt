-- ===== src/Examples/Pollin.antt =====
-- A first message of a client that gets to a locker, and one that ends the daemon.
use flom.Prelude.{◌≡◌, refl, Bool, true, false, ◌&&◌, some, List, [], ◌∷◌, ◌++◌}
use flom.Rsrc.Types.{Rc}
use flom.Rsrc.Names.{RsrcType, decimal}
use flom.Msg.{Bytes, MsgState, init, is, check_protocol, kind}
use flom.Msg.Numbers.{strtol, digits_of}
use flom.Locker.{to_int}
use flom.Msg.Write.{Codec, codes}
use flom.Msg.Read.{
  Memory, Event, started, ended, parse_error, deserialize, start_element, end_element, attributes,
  attribute, read_msg, read_resource, on_resource, resource_name, read_name,
}
use flom.Msg.Levels.{HasLevel}
use flom.Daemon.{
  Client, Daemon, Calls, transfer, transfer_absent, transfer_new, transfer_conn, scan_incubator,
  find_locker, modify, start_rc,
}
use flom.Daemon.Pollin.{
  Visit, hand_over, dispatch, check_peer, take_ready, take, pollin, after_pollin, wish_of,
}
use flom.Daemon.Polls.{pollin-moved, pollin-malformed}
use flom.Conns.{remove_index_fast, refill, last, drop_last}

abbrev plain : Codec
plain = record {
  type_of = λ s. RsrcType.simple;
  base64_encode = λ s. some s;
  base64_decode = λ s. some s;
}

abbrev memory : Memory
memory = record { duplicates = λ s. true; reallocates = λ s. true }

abbrev same : Bytes → Bytes → Bool
same a b = true

abbrev works : Calls
works = record {
  reply = Rc.ok;
  resource_init = Rc.ok;
  pipe = true;
  thread_new = true;
  write_token = λ c. true;
  write_conn = λ c. true;
}

abbrev opening : List Event
opening =
    started "msg" (("level", codes "3") ∷ ("verb", codes "1") ∷ ("step", codes "8") ∷ [])
    ∷ started "resource" (("name", codes "r") ∷ ("create", codes "1") ∷ [])
    ∷ []

abbrev visit : List Event → Visit
visit list = record {
  recv = Rc.ok;
  empty = false;
  events = list;
  close = Rc.ok;
  checks_peer = false;
  has_tls = false;
  peer_name = true;
  cert_check = λ name. Rc.ok;
  getnameinfo = true;
  discover_reply = Rc.ok;
  mngmnt = Rc.ok;
}

abbrev newcomer : Client
newcomer = record {
  conn = 1;
  wait = false;
  closed = false;
  wish = record { name = []; create = false; wait = false };
}

abbrev one_client : Daemon
one_client = record { conns = newcomer ∷ []; lockers = []; last_uid = 1 }

abbrev lock_it : List Event
lock_it = opening ++ ended "msg" ∷ []

moves : (pollin same plain memory (visit lock_it) works one_client 0 newcomer init).moved ≡ true
unfolding pollin take take_ready check_peer dispatch hand_over wish_of deserialize start_element
    end_element attributes attribute read_msg read_resource read_name on_resource resource_name
    strtol to_int decimal digits_of check_protocol kind transfer transfer_absent transfer_new
    transfer_conn scan_incubator find_locker modify start_rc remove_index_fast refill last drop_last
moves = refl

pollin-moved_example :
    let r = pollin same plain memory (visit lock_it) works one_client 0 newcomer init in
    (r.message.state ≡ MsgState.ready)
    × (check_protocol r.message true ≡ true)
    × ((is r.message.verb 1 && is r.message.step 8) ≡ true)
    × HasLevel r.message.level
pollin-moved_example =
    pollin-moved same plain memory (visit lock_it) works one_client 0 newcomer moves

pollin-malformed_example :
    let r =
      pollin same plain memory
        (visit (opening ++ parse_error ∷ []))
        works
        one_client
        0
        newcomer
        init in
    (after_pollin r.rc Rc.ok ≡ Rc.g_markup_parse_context_parse_error) × (r.daemon ≡ one_client)
pollin-malformed_example =
    pollin-malformed same plain memory (visit (opening ++ parse_error ∷ [])) works one_client 0
      newcomer init opening [] refl refl refl
