-- ===== src/Examples/Simple.antt =====
-- Runs of the simple resource, and its theorems at them.
use mathlib.Core.List.{Perm}
use flom.Prelude.{◌≡◌, refl, inl, true, false, some, List, [], ◌∷◌, ◌++◌, All, ◌==◌, if◌then◌else◌}
use flom.Prelude.Int.{pos}
use flom.Rsrc.Types.{Rc, LockMode, LockBody, lock}
use flom.Rsrc.Env.{Env, notify}
use flom.Rsrc.Scan.{run_waitings, waitings_loop}
use flom.Rsrc.Holders.{find_conn, remove_conn}
use flom.Rsrc.Calls.{Call, message, closed, created, call, run, reply, forget}
use flom.Rsrc.Modes.{lock_table}
use flom.Simple.{
  Simple, init, can_lock, new_lock, request, inmsg, clean, waitings, try_waiting, methods,
}
use flom.Simple.Compatible.{Allows, IsExclusive}
use flom.Simple.Exclusion.{run-init-IsExclusive}
use flom.Simple.Settled.{IsSettled, IsReliableCall, run-init-IsSettled}
use flom.Simple.Replies.{Answers, request_replies}
use flom.Simple.Handover.{requests, requests-clean}
use flom.Examples.{fine, fine-IsReliable, start}

abbrev empty : Simple
empty = record { name = "r"; holders = []; waitings = [] }

abbrev ask : LockMode → LockBody
ask m = record { name = "r"; mode = m; wait = true; quantity = pos 1 }

-- Connection 1 reads, 2 wants to write, 3 reads too, 1 leaves, 3 leaves.
abbrev history : List (Env × Call)
history =
    (fine, message 9 1 (lock (ask LockMode.pr)))
    ∷ (fine, message 9 2 (lock (ask LockMode.ex)))
    ∷ (fine, message 9 3 (lock (ask LockMode.pr)))
    ∷ (fine, closed 9 1)
    ∷ []

history_runs : (run methods (empty, start) history).0 ≡ record {
  name = "r";
  holders = new_lock LockMode.pr 3 ∷ [];
  waitings = new_lock LockMode.ex 2 ∷ [];
}
unfolding run call inmsg request can_lock lock_table clean waitings run_waitings waitings_loop
    try_waiting notify reply forget find_conn remove_conn
history_runs = refl

init_runs : init fine start "r" ≡ created empty
unfolding init
init_runs = refl

run-init-IsExclusive_example : IsExclusive (run methods (empty, start) history).0.holders
run-init-IsExclusive_example = run-init-IsExclusive fine start "r" empty history init_runs

All-reliable : All IsReliableCall history
All-reliable = (fine-IsReliable, (fine-IsReliable, (fine-IsReliable, (fine-IsReliable, tt))))

run-init-IsSettled_example : IsSettled (run methods (empty, start) history).0
run-init-IsSettled_example = run-init-IsSettled fine start "r" empty history init_runs All-reliable

-- One reader holds the lock, and one writer waits.
abbrev contended : Simple
contended = record {
  name = "r";
  holders = new_lock LockMode.pr 1 ∷ [];
  waitings = new_lock LockMode.ex 2 ∷ [];
}

request_replies_example :
    (All (Allows LockMode.pr) contended.holders
      → Answers start 3
          (request fine contended 9 3 (ask LockMode.pr) start)
          (record {
            name = contended.name;
            holders = new_lock LockMode.pr 3 ∷ contended.holders;
            waitings = contended.waitings;
          })
          Rc.ok)
    × (¬ All (Allows LockMode.pr) contended.holders
        → true ≡ true
        → Answers start 3
            (request fine contended 9 3 (ask LockMode.pr) start)
            (record {
              name = contended.name;
              holders = contended.holders;
              waitings = contended.waitings ++ new_lock LockMode.pr 3 ∷ [];
            })
            Rc.lock_enqueued)
    × (¬ All (Allows LockMode.pr) contended.holders
        → true ≡ false
        → Answers start 3
            (request fine contended 9 3 (ask LockMode.pr) start)
            contended
            Rc.lock_busy)
request_replies_example =
    request_replies fine contended 9 3 (ask LockMode.pr) start fine-IsReliable (inl refl)

found_1 : find_conn contended.holders 1 ≡ some (new_lock LockMode.pr 1)
unfolding find_conn
found_1 = refl

requests-clean_example : Perm (1 ∷ requests (clean fine contended 9 1 start).resource) (1 ∷ 2 ∷ [])
requests-clean_example =
    requests-clean fine fine-IsReliable contended 9 1 start (new_lock LockMode.pr 1) found_1

-- The socket of connection 2 is broken.
abbrev broken : Env
broken = record fine { send = λ c l. if c == 2 then Rc.send_error else Rc.ok }
