-- ===== src/Examples/Conns.antt =====
-- The array of connections, at one whose first and last connection are marked.
use mathlib.Core.List.{Perm}
use flom.Prelude.{ℕ, ◌≡◌, refl, some, List, [], ◌∷◌, map}
use flom.Rsrc.Types.{Rc}
use flom.Conns.{
  Connection, ConnState, is_removed, clean, clean_loop, remove_index_fast, refill, last, drop_last,
  free,
}
use flom.Conns.Sweep.{those, stays, terminated, clean-free-sweep}

abbrev at : ℕ → ConnState → Connection
at c s = record { conn = c; state = s; fd = some c }

abbrev four : List Connection
four =
    at 1 ConnState.remove
    ∷ at 2 ConnState.daemon
    ∷ at 3 ConnState.locker
    ∷ at 4 ConnState.remove
    ∷ []

clean_runs : clean four ≡ record {
  rc = Rc.ok;
  array = at 3 ConnState.locker ∷ at 2 ConnState.daemon ∷ [];
  deleted = at 4 ConnState.remove ∷ at 1 ConnState.remove ∷ [];
}
unfolding clean clean_loop remove_index_fast refill last drop_last is_removed
clean_runs = refl

abbrev broken : ℕ → Rc
broken fd = Rc.other fd

clean-free-sweep_example :
    ((clean four).rc ≡ Rc.ok)
    × Perm (clean four).array (those stays four)
    × Perm (clean four).deleted (those is_removed four)
    × ((free broken four).rc ≡ Rc.ok)
    × ((free broken four).array ≡ [])
    × Perm (free broken four).deleted (map (terminated broken) four)
clean-free-sweep_example = clean-free-sweep broken four
