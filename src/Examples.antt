-- ===== src/Examples.antt =====
-- The data that the tests of the components share: surroundings where nothing fails, and a daemon that
-- has done nothing yet.
pub mod Simple
pub mod Numeric
pub mod Sequence
pub mod Set
pub mod Timestamp
pub mod Names
pub mod Locker
pub mod Hier
pub mod Conns
pub mod Msg
pub mod Daemon
pub mod Pollin
pub mod Client
pub mod Handle
use flom.Prelude.{ℕ, ◌≡◌, refl, true, List, [], some, none, String}
use flom.Rsrc.Types.{Rc, Answer}
use flom.Rsrc.Env.{Env, World, IsReliable}

abbrev pub fine : Env
fine = record {
  try_malloc = λ l. true;
  strdup = λ l. true;
  queue_new = λ l. true;
  array_new = λ l. true;
  unique_id = λ l. true;
  serialize = λ l. Rc.ok;
  send = λ c l. Rc.ok;
  msg_free = λ l. Rc.ok;
  print_uint = λ n. "number";
}

pub fine-IsReliable : IsReliable fine
fine-IsReliable = record {
  mallocs = λ l. refl;
  strdups = λ l. refl;
  queue_news = λ l. refl;
  array_news = λ l. refl;
  unique_ids = λ l. refl;
  serializes = λ l. refl;
  sends = λ c l. refl;
  msg_frees = λ l. refl;
}

-- Each connection has sent the first message of its lock verb.
abbrev pub start : World
start = record { last_step = λ c. 8; log = [] }
