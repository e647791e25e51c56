-- ===== src/Examples/Numeric.antt =====
-- Runs of the numeric resource, and its theorems at them.
use flom.Prelude.{ℕ, ◌≡◌, refl, inl, String, Option, some, List, [], ◌∷◌, All, arith}
use flom.Prelude.Int.{pos, negsuc, ◌≤ℤ◌, ◌-ℤ◌, ◌+ℤ◌}
use flom.Rsrc.Types.{Rc, lock}
use flom.Rsrc.Env.{Env, notify}
use flom.Rsrc.Scan.{run_waitings, waitings_loop}
use flom.Rsrc.Holders.{find_conn, remove_conn}
use flom.Rsrc.Names.{get_number, to_gint, strtol, decimal}
use flom.Rsrc.Calls.{Call, message, closed, created, call, run, reply, forget}
use flom.Numeric.{
  init, can_lock, new_lock, hold, let_go, request, inmsg, clean, waitings, try_waiting, methods,
}
use flom.Numeric.Accounting.{total_held}
use flom.Numeric.Bounds.{run-init-bounds, AsksNatCall}
use flom.Numeric.Settled.{IsSettled, IsGoodCall, run-init-numeric-IsSettled}
use flom.Numeric.Replies.{Answers}
use flom.Numeric.Overcommit.{ask, free_units, negative_request_overcommits}
use flom.Examples.{fine, fine-IsReliable, start}

abbrev ten : String → Option (List ℕ)
ten name = some (49 ∷ 48 ∷ [])

-- Connection 1 takes 6 of 10, 2 wants 7, 3 takes 3, 1 leaves.
abbrev history : List (Env × Call)
history =
    (fine, message 9 1 (lock (ask "r[10]" (pos 6))))
    ∷ (fine, message 9 2 (lock (ask "r[10]" (pos 7))))
    ∷ (fine, message 9 3 (lock (ask "r[10]" (pos 3))))
    ∷ (fine, closed 9 1)
    ∷ []

history_runs : (run methods (free_units "r[10]" 10, start) history).0 ≡ record {
  name = "r[10]";
  total_quantity = pos 10;
  locked_quantity = pos 10;
  holders = new_lock (pos 7) 2 ∷ new_lock (pos 3) 3 ∷ [];
  waitings = [];
}
unfolding run call inmsg request can_lock hold let_go clean waitings run_waitings waitings_loop
    try_waiting notify reply forget find_conn remove_conn ◌-ℤ◌ ◌+ℤ◌
history_runs = refl

init_runs : init ten fine start "r[10]" ≡ created (free_units "r[10]" 10)
unfolding init get_number to_gint strtol decimal
init_runs = refl

asked : All AsksNatCall history
asked = (omega arith, (omega arith, (omega arith, (tt, tt))))

run-init-bounds_example :
    let s = (run methods (free_units "r[10]" 10, start) history).0 in
    (s.locked_quantity ≡ total_held s.holders)
    × (pos 0 ≤ℤ s.locked_quantity)
    × (s.locked_quantity ≤ℤ s.total_quantity)
run-init-bounds_example =
    run-init-bounds ten fine start "r[10]" (free_units "r[10]" 10) history init_runs (omega arith)
      asked

good : All IsGoodCall history
good = (
  (fine-IsReliable, omega arith),
  ((fine-IsReliable, omega arith), ((fine-IsReliable, omega arith), ((fine-IsReliable, tt), tt))),
)

run-init-numeric-IsSettled_example :
    IsSettled (run methods (free_units "r[10]" 10, start) history).0
run-init-numeric-IsSettled_example =
    run-init-numeric-IsSettled ten fine start "r[10]" (free_units "r[10]" 10) history init_runs
      (omega arith) good

negative_request_overcommits_example :
    let r = (request fine (free_units "r[10]" 10) 9 1 (ask "r[10]" (negsuc 4)) start).resource in
    Answers start 2
      (request fine r 9 2 (ask "r[10]" (pos 15)) start)
      (hold r (new_lock (pos 15) 2))
      Rc.ok
negative_request_overcommits_example =
    negative_request_overcommits fine "r[10]" 10 4 9 1 2 start start fine-IsReliable (inl refl)
      (inl refl)
