-- ===== src/Handle/Runs.antt =====
-- Any sequence of calls of src/flom_handle.c on a handle.
use mathlib.Core.Option
use flom.Prelude.{Option, none, some, List, [], ◌∷◌, ◌≡◌}
use flom.Rsrc.Types.{Rc}
use flom.Config.{Config, Matches}
use flom.Handle.{
  HandleState, Handle, Client, Done, handle_init, handle_lock, handle_unlock, handle_clean,
}
use flom.Handle.States.{Api, api_init, api_lock, api_unlock, api_clean, api_set, Does}

-- A call that was made, with its code and the state that it left
pub record Made : Type 0 where
  pub call : Api
  pub rc : Rc
  pub state : HandleState

abbrev initialized {ℓ} : {S : Type ℓ} → S → Rc × Handle → Done S
initialized s (rc, h) = record { rc = rc; handle = h; net = s }

-- One call; `ready` is what flom_init_check returns, and `global` the global configuration.
unfoldable pub api {ℓ} : {S : Type ℓ} → Client S → Matches → Rc → Config → Handle → S → Api → Done S
api client matches ready global h s (api_init room room') =
    initialized s (handle_init ready room room' global h)
api client matches ready global h s api_lock = handle_lock client ready h s
api client matches ready global h s (api_unlock rollback) =
    handle_unlock client matches ready rollback h s
api client matches ready global h s api_clean = handle_clean client matches ready h s
api client matches ready global h s (api_set f) = record {
  rc = Rc.ok;
  handle = record h { config = Option.map f h.config };
  net = s;
}

-- The calls one after another, whatever each returns
unfoldable pub apis {ℓ} :
    {S : Type ℓ} → Client S → Matches → Rc → Config → Handle → S → List Api → List Made
apis client matches ready global h s [] = []
apis client matches ready global h s (a ∷ rest) =
    let d = api client matches ready global h s a in
    record { call = a; rc = d.rc; state = d.handle.state }
    ∷ apis client matches ready global d.handle d.net rest

-- Calls that the state machine can make from a state, each from the state that the last one left
unfoldable pub IsRun : HandleState → List Made → Type 0
IsRun st [] = Unit
IsRun st (m ∷ rest) = Does m.call st m.rc m.state × IsRun m.state rest

abbrev StartsAt : Option Handle → Type 0
StartsAt none = Unit
StartsAt (some h) = h.state ≡ HandleState.init
