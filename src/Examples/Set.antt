-- ===== src/Examples/Set.antt =====
-- Runs of the set resource, and its theorems at them.
use flom.Prelude.{
  false, inl, ◌⊎◌, ℕ, ◌≡◌, refl, true, String, Option, none, some, List, [], ◌∷◌, arith, All,
}
use flom.Prelude.Int.{pos}
use flom.Rsrc.Types.{Rc, LockMode, LockBody, lock}
use flom.Rsrc.Env.{Env, notify}
use flom.Rsrc.Scan.{run_waitings, waitings_loop}
use flom.Rsrc.Calls.{Call, message, closed, created, call, run, reply, forget}
use flom.Set.{
  new_waiting, Set, init, is_free, search, can_lock, assign, name_at, hold, let_go, find_element,
  request, inmsg, clean, waitings, try_waiting, methods,
}
use flom.Set.Replies.{Gives, Answers, set_request_replies}
use flom.Set.Search.{IsIndexed, IsHeld, IsFirst, can_lock-IsFirst}
use flom.Set.Ownership.{holder_at, run-keeps_element}
use flom.Set.Settled.{IsSettled, IsReliableCall, run-init-set-IsSettled}
use flom.Examples.{fine, fine-IsReliable, start}

abbrev two_names : List String
two_names = "red" ∷ "blue" ∷ []

abbrev split : String → Option (List String)
split name = some two_names

abbrev empty : Set
empty = record {
  name = "red.blue";
  index = 0;
  elements = record { name = "red"; conn = none } ∷ record { name = "blue"; conn = none } ∷ [];
  waitings = [];
}

-- Connection 1 has the first element.
abbrev one_held : Set
one_held = record empty {
  index = 1;
  elements = record { name = "red"; conn = some 1 } ∷ record { name = "blue"; conn = none } ∷ [];
}

abbrev ask : LockBody
ask = record { name = "red.blue"; mode = LockMode.nl; wait = true; quantity = pos 1 }

-- Connections 2 and 3 ask for an element, and 2 ends.
abbrev others : List (Env × Call)
others = (fine, message 9 2 (lock ask)) ∷ (fine, message 9 3 (lock ask)) ∷ (fine, closed 9 2) ∷ []

others-run : (run methods (one_held, start) others).0 ≡ record one_held {
  index = 1;
  elements = record { name = "red"; conn = some 1 } ∷ record { name = "blue"; conn = some 3 } ∷ [];
}
unfolding run call inmsg request can_lock search is_free assign name_at hold let_go clean
    find_element waitings run_waitings waitings_loop try_waiting notify reply forget
others-run = refl

init_runs : init split fine start "red.blue" ≡ created empty
unfolding init
init_runs = refl

indexed : IsIndexed one_held
indexed = record { inside = omega arith; small = omega arith }

can_lock-IsFirst_example :
    ((j : ℕ) → can_lock one_held ≡ some j → (i : ℕ) × IsFirst one_held j i)
    × (can_lock one_held ≡ none → All IsHeld one_held.elements)
can_lock-IsFirst_example = can_lock-IsFirst one_held indexed

holds : holder_at one_held.elements 0 ≡ some 1
unfolding holder_at
holds = refl

run-keeps_element_example : holder_at (run methods (one_held, start) others).0.elements 0 ≡ some 1
run-keeps_element_example =
    run-keeps_element 1 0 one_held start others holds (refl, (refl, (refl, tt)))

reliable : All IsReliableCall others
reliable = (fine-IsReliable, (fine-IsReliable, (fine-IsReliable, tt)))

run-init-set-IsSettled_example : IsSettled (run methods (empty, start) others).0
run-init-set-IsSettled_example =
    run-init-set-IsSettled split fine start "red.blue" two_names empty others init_runs refl
      (omega arith) (omega arith) reliable

set_request_replies_example :
    let o = request fine one_held 9 2 ask start in
    ((j : ℕ) × ((i : ℕ) × IsFirst one_held j i) × ((n : String) × Gives one_held start 2 o j n))
    ⊎ (All IsHeld one_held.elements
        × (true ≡ true
            → Answers start 2 o
                (record one_held { waitings = new_waiting 2 ∷ [] })
                Rc.lock_enqueued
                none)
        × (true ≡ false → Answers start 2 o one_held Rc.lock_busy none))
set_request_replies_example =
    set_request_replies fine one_held 9 2 ask start fine-IsReliable (inl refl) indexed
