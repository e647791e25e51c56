-- ===== src/Examples/Hier.antt =====
-- Runs of the hierarchical resource, and its theorems at them.
use mathlib.Core.List.{Perm}
use text.Mathlib.Text.{◌==◌ as str_eq}
use flom.Prelude.{
  ◌≡◌, ◌↔◌, refl, inl, String, Bool, true, false, none, some, List, [], ◌∷◌, All, if◌then◌else◌,
}
use flom.Prelude.Int.{pos}
use flom.Rsrc.Types.{Rc, LockMode, LockBody, lock, unlock}
use flom.Rsrc.Env.{Env}
use flom.Rsrc.Calls.{Call, message, created, run}
use flom.Simple.{ModeLock}
use flom.Hier.Tree.{Node, node, nil, cons, can_lock, add_locker, gc, chain}
use flom.Hier.Entries.{Adds, entries, add_locker-Adds}
use flom.Hier.Compatible.{Tolerates, can_lock_paths_iff}
use flom.Hier.Pruned.{IsPruned, gc-IsPruned}
use flom.Hier.Exclusive.{IsExclusive}
use flom.Hier.Exclusion.{run-init-IsExclusive_paths}
use flom.Hier.Replies.{IsAnswered, request_paths_replies}
use flom.Hier.{compare_name, Hier, Split, levels, init, new_lock, request, methods}
use flom.Examples.{fine, fine-IsReliable, start}

-- The names of the examples as their levels.
abbrev split : Split
split none = ("", [])
split (some s) =
    if str_eq s "/a/b"
    then ("a", "b" ∷ [])
    else if str_eq s "/a/c"
    then ("a", "c" ∷ [])
    else ("a", [])

abbrev starts : String → Bool
starts s = true

abbrev empty : Hier
empty = record {
  name = some "/a/b";
  root = node "a" [] (cons (node "b" [] nil) nil);
  waitings = [];
  dangling = false;
}

abbrev ask : String → LockMode → LockBody
ask n m = record { name = n; mode = m; wait = true; quantity = pos 1 }

-- Connection 1 writes below /a/b, 2 below /a/c, 3 wants to read all of /a, and 1 unlocks.
abbrev history : List (Env × Call)
history =
    (fine, message 9 1 (lock (ask "/a/b" LockMode.ex)))
    ∷ (fine, message 9 2 (lock (ask "/a/c" LockMode.ex)))
    ∷ (fine, message 9 3 (lock (ask "/a" LockMode.pr)))
    ∷ (fine, message 9 1 (unlock (record { name = "/a/b"; rollback = false })))
    ∷ []

abbrev after : Hier
after = (run (methods split starts) (empty, start) history).0

init_runs : init split starts fine start "/a/b" ≡ created empty
unfolding init chain
init_runs = refl

run-init-IsExclusive_paths_example : IsExclusive (entries after.root)
unfolding compare_name
run-init-IsExclusive_paths_example =
    run-init-IsExclusive_paths split starts fine start "/a/b" empty history init_runs
      (refl, (refl, (refl, (tt, tt))))

-- Connection 2 writes below /a/c, and a node beside it holds nothing.
abbrev tree : Node
tree =
    node "a" []
      (cons (node "b" [] nil) (cons (node "c" (new_lock LockMode.ex none 2 ∷ []) nil) nil))

can_lock_paths_iff_example :
    (can_lock tree LockMode.ex ("a" ∷ "b" ∷ []) ≡ true)
    ↔ All (Tolerates ("a" ∷ "b" ∷ []) LockMode.ex) (entries tree)
can_lock_paths_iff_example = can_lock_paths_iff tree LockMode.ex ("a" ∷ "b" ∷ [])

abbrev mine : ModeLock
mine = new_lock LockMode.ex none 1

add_locker-Adds_example :
    let g = add_locker fine ("a" ∷ "b" ∷ "d" ∷ []) mine tree start in
    Adds ("a" ∷ "b" ∷ "d" ∷ [], mine) (entries tree) g.rc (entries g.tree)
add_locker-Adds_example = add_locker-Adds fine ("a" ∷ "b" ∷ "d" ∷ []) mine tree start refl

gc-IsPruned_example : IsPruned (gc tree) × (entries (gc tree) ≡ entries tree)
gc-IsPruned_example = gc-IsPruned tree

abbrev busy : Hier
busy = record { name = some "/a/b"; root = tree; waitings = []; dangling = false }

request_paths_replies_example :
    let path = levels split (some "/a") in
    let o = request split fine busy 9 3 (ask "/a" LockMode.pr) start in
    let free = All (Tolerates path LockMode.pr) (entries tree) in
    (free
      → IsAnswered start 3 o Rc.ok
        × Perm (entries o.resource.root) ((path, new_lock LockMode.pr none 3) ∷ entries tree)
        × (o.resource ≡ record busy { root = o.resource.root }))
    × (¬ free
        → true ≡ true
        → IsAnswered start 3 o Rc.lock_enqueued
          × (o.resource ≡ record busy { waitings = new_lock LockMode.pr (some "/a") 3 ∷ [] }))
    × (¬ free → true ≡ false → IsAnswered start 3 o Rc.lock_busy × (o.resource ≡ busy))
request_paths_replies_example =
    request_paths_replies split fine busy 9 3 (ask "/a" LockMode.pr) start fine-IsReliable
      (inl refl) refl

-- Two locks for /x that reach the resource /a, with which no connection comes to its locker.
abbrev foreign_split : Split
foreign_split none = ("", [])
foreign_split (some s) = if str_eq s "/x" then ("x", []) else ("a", [])

abbrev foreign : List (Env × Call)
foreign =
    (fine, message 9 1 (lock (ask "/x" LockMode.ex)))
    ∷ (fine, message 9 2 (lock (ask "/x" LockMode.ex)))
    ∷ []

abbrev root_only : Hier
root_only = record { name = some "/a"; root = node "a" [] nil; waitings = []; dangling = false }

abbrev both : List (List String × ModeLock)
both =
    ("a" ∷ "x" ∷ [], new_lock LockMode.ex none 1)
    ∷ ("a" ∷ "x" ∷ [], new_lock LockMode.ex none 2)
    ∷ []

-- Both are exclusive locks on the path a, x.
foreign_locks :
    entries (run (methods foreign_split starts) (root_only, start) foreign).0.root ≡ both
unfolding run entries flom.Rsrc.Calls.call flom.Hier.inmsg request can_lock add_locker
    flom.Hier.Tree.finish chain flom.Rsrc.Calls.reply flom.Hier.Tree.add_leaves
foreign_locks = refl
