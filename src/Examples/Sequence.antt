-- ===== src/Examples/Sequence.antt =====
-- Runs of the sequence resource, and its theorems at them.
use mathlib.Core.List.{Mem, Nodup, Nodup-nil, not-mem-nil}
use flom.Prelude.{
  false, length, All, ◌==◌, if◌then◌else◌, ℕ, ◌≡◌, refl, true, false, String, Option, some, List,
  [], ◌∷◌, ◌<◌, arith, Bool,
}
use flom.Prelude.Int.{pos, ◌-ℤ◌, ◌+ℤ◌, ◌≤ℤ◌}
use flom.Rsrc.Types.{Rc, LockMode, LockBody, lock}
use flom.Rsrc.Env.{Env, notify}
use flom.Rsrc.Scan.{run_waitings, waitings_loop}
use flom.Rsrc.Holders.{find_conn, remove_conn}
use flom.Rsrc.Names.{RsrcType, get_number, to_gint, strtol, decimal, get_transactional, get_type}
use flom.Rsrc.Calls.{Call, message, closed, created, call, run, reply, reply_then, forget}
use flom.Sequence.{
  Sequence, init, can_lock, get, new_waiting, fresh, let_go, request, inmsg, clean, waitings,
  try_waiting, methods,
}
use flom.Sequence.Values.{values}
use flom.Sequence.Values.{Sound}
use flom.Sequence.Slots.{run-init-slots}
use flom.Sequence.Settled.{IsSettled, IsReliableCall, run-init-sequence-IsSettled}
use flom.Sequence.Unique.{run-init-unique_values}
use flom.Examples.{fine, fine-IsReliable, start}

-- The name of a transactional sequence of two.
abbrev two : String → Option (List ℕ)
two name = some (50 ∷ [])

is_sequence_name : RsrcType → String → Bool
is_sequence_name RsrcType.sequence name = true
is_sequence_name t name = false

abbrev empty : Sequence
empty = record {
  name = "_S_r[2]";
  total_quantity = pos 2;
  locked_quantity = pos 0;
  next_value = 1;
  rolled_back = some [];
  holders = [];
  waitings = [];
}

abbrev ask : LockBody
ask = record { name = "_S_r[2]"; mode = LockMode.nl; wait = true; quantity = pos 1 }

-- Connections 1 and 2 get values, 3 waits, 1 ends without a commit.
abbrev history : List (Env × Call)
history =
    (fine, message 9 1 (lock ask))
    ∷ (fine, message 9 2 (lock ask))
    ∷ (fine, message 9 3 (lock ask))
    ∷ (fine, closed 9 1)
    ∷ []

-- The value of connection 1 is handed out again.
history_runs : values (run methods (empty, start) history).0 ≡ 1 ∷ 2 ∷ []
unfolding run call inmsg request can_lock get let_go clean waitings run_waitings waitings_loop
    try_waiting notify reply reply_then forget find_conn remove_conn ◌-ℤ◌ ◌+ℤ◌ fresh
history_runs = refl

init_runs : init is_sequence_name two fine start "_S_r[2]" ≡ created empty
unfolding init get_number to_gint strtol decimal get_transactional get_type is_sequence_name
init_runs = refl

run-init-unique_values_example :
    let s = (run methods (empty, start) history).0 in
    Nodup (values s) × ((v : ℕ) → Mem v (values s) → (0 < v) × (v < s.next_value))
run-init-unique_values_example =
    run-init-unique_values is_sequence_name two fine start "_S_r[2]" empty history init_runs
      (omega arith)

run-init-slots_example :
    let s = (run methods (empty, start) history).0 in
    (s.locked_quantity ≡ pos (length s.holders)) × (pos (length s.holders) ≤ℤ s.total_quantity)
run-init-slots_example =
    run-init-slots is_sequence_name two fine start "_S_r[2]" empty history init_runs (omega arith)

reliable : All IsReliableCall history
reliable = (fine-IsReliable, (fine-IsReliable, (fine-IsReliable, (fine-IsReliable, tt))))

run-init-sequence-IsSettled_example : IsSettled (run methods (empty, start) history).0
run-init-sequence-IsSettled_example =
    run-init-sequence-IsSettled is_sequence_name two fine start "_S_r[2]" empty history init_runs
      reliable

-- The socket of connection 2 is broken, and it is the first to wait.
abbrev broken : Env
broken = record fine { send = λ c l. if c == 2 then Rc.send_error else Rc.ok }

abbrev one_waits : Sequence
one_waits = record empty { waitings = new_waiting 2 ∷ [] }

free_slot : can_lock one_waits ≡ true
unfolding can_lock ◌-ℤ◌
free_slot = refl

no_values : Sound 1 1 []
no_values = record {
  distinct = Nodup-nil;
  positive = λ v m. absurd (not-mem-nil m);
  below = λ v m. absurd (not-mem-nil m);
  started = omega arith;
  room = omega arith;
}
