-- ===== src/Hier/Exclusion.antt =====
-- Mutual exclusion on paths, from flom_resource_hier_init through any sequence of calls.
use mathlib.Core.List.{Pairwise}
use text.Mathlib.Text.{◌==◌ as str_eq}
use flom.Prelude.{
  String, Bool, true, some, List, [], ◌∷◌, ◌++◌, ◌≡◌, refl, sym, subst, arith, inl, inr, Bool-cases,
  All,
}
use flom.Rsrc.Types.{is_ok, lock, unlock, other_verb}
use flom.Rsrc.Env.{Env, World, emit, node_added}
use flom.Rsrc.Calls.{Call, Created, call, run, run-induction, message, closed, created, not_created}
use flom.Hier.Tree.{Leaves, nil, cons, name_of, Grown, chain}
use flom.Hier.Entries.{entries, entries_leaves}
use flom.Hier.Exclusive.{IsExclusive}
use flom.Hier.Routed.{Inv, clean-Inv, inmsg-Inv}
use flom.Hier.{Hier, Split, init, init_root, init_tree, compare_name, methods}

-- A resource that was created holds nothing.
abbrev IsFresh : Created Hier → Type 0
IsFresh (created r) = (entries r.root ≡ []) × (r.waitings ≡ [])
IsFresh (not_created rc) = Unit

append-is_nil {ℓ} : {A : Type ℓ} (xs ys : List A) → xs ++ ys ≡ [] → xs ≡ []
append-is_nil [] ys h = refl
append-is_nil (x ∷ xs) ys h = cc

init_root-IsFresh :
    (e : Env) (w : World) (name : String) (kids : Leaves)
    → entries_leaves kids ≡ []
    → IsFresh (init_root e w name kids)
unfolding init_root entries
init_root-IsFresh e w name nil h = tt
init_root-IsFresh e w name (cons root rest) h = elim (Bool-cases (e.queue_new w.log)) [
  | inl room ↦ rw room (append-is_nil (entries root) (entries_leaves rest) h, refl)
  | inr full ↦ rw full tt
]

chain-empty :
    (e : Env) (l : String) (ls : List String) (w : World)
    → entries_leaves (chain e l ls [] w).tree ≡ []
unfolding chain entries
chain-empty e l [] w = ground arith
chain-empty e l (l' ∷ ls) w = ground (arith, chain-empty e l' ls (emit (node_added l) w))

init_tree-IsFresh :
    (e : Env) (name : String) (g : Grown Leaves)
    → entries_leaves g.tree ≡ []
    → IsFresh (init_tree e name g)
unfolding init_tree
init_tree-IsFresh e name g h = elim (Bool-cases (is_ok g.rc)) [
  | inl ok ↦ rw ok (init_root-IsFresh e g.world name g.tree h)
  | inr bad ↦ rw bad tt
]

init-IsFresh :
    (split : Split) (starts : String → Bool) (e : Env) (w : World) (name : String)
    → IsFresh (init split starts e w name)
unfolding init
init-IsFresh split starts e w name =
    let (l, ls) = split (some name) in
    elim (Bool-cases (starts name)) [
      | inr bad ↦ rw bad tt
      | inl path ↦ elim (Bool-cases (e.strdup w.log)) [
        | inr full ↦ rw (path, full) tt
        | inl room ↦
            rw (path, room) (init_tree-IsFresh e name (chain e l ls [] w) (chain-empty e l ls w))
      ]
    ]

-- No lock message, or one whose name flom_resource_hier_compare_name takes as the resource's. The daemon
-- sees to it only for the message with which a connection comes to a locker (flom_accept_loop_transfer);
-- flom_locker_loop_pollin does not compare the names of the later messages of the connection.
abbrev IsOurs : Split → (String → Bool) → Hier → Env × Call → Type 0
IsOurs split starts r (e, message uid c (lock body)) = compare_name split starts r body.name ≡ true
IsOurs split starts r (e, message uid c (unlock body)) = Unit
IsOurs split starts r (e, message uid c (other_verb v)) = Unit
IsOurs split starts r (e, closed uid c) = Unit

compare_name-root :
    (split : Split) (starts : String → Bool) (r : Hier) (name : String)
    → compare_name split starts r name ≡ true
    → str_eq (split (some name)).0 (name_of r.root) ≡ true
unfolding compare_name
compare_name-root split starts r name h = ground (arith, h)

call-Inv :
    (split : Split) (starts : String → Bool) (r : Hier) (s : Hier × World) (c : Env × Call)
    → Inv split (name_of r.root) s.0
    → IsOurs split starts r c
    → Inv split (name_of r.root) (call (methods split starts) s c).0
unfolding call
call-Inv split starts r (s, w) (e, message uid c (lock body)) h ours =
    inmsg-Inv split (name_of r.root) starts e s uid c (lock body) w
      (compare_name-root split starts r body.name ours) h
call-Inv split starts r (s, w) (e, message uid c (unlock body)) h ours =
    inmsg-Inv split (name_of r.root) starts e s uid c (unlock body) w tt h
call-Inv split starts r (s, w) (e, message uid c (other_verb v)) h ours =
    inmsg-Inv split (name_of r.root) starts e s uid c (other_verb v) w tt h
call-Inv split starts r (s, w) (e, closed uid c) h ours =
    clean-Inv split (name_of r.root) e s uid c w h

-- Mutual exclusion on paths. After `flom_resource_hier_init`, and whatever lock messages, other messages
-- and disconnections follow in whatever order, with any of the calls to memory and network failing, any
-- two locks in the tree whose paths are equal, or one a prefix of the other, have modes that the lock
-- table lets stand together. The condition is that the name of each lock message, also of a later one of
-- a connection, is one that `flom_resource_hier_compare_name` takes: its first level is the root's name.
pub run-init-IsExclusive_paths :
    (split : Split) (starts : String → Bool) (e : Env) (w : World) (name : String) (r : Hier)
    (cs : List (Env × Call))
    → init split starts e w name ≡ created r
    → All (IsOurs split starts r) cs
    → IsExclusive (entries (run (methods split starts) (r, w) cs).0.root)
run-init-IsExclusive_paths split starts e w name r cs i ours =
    let (none_held, none_wait) = subst IsFresh i (init-IsFresh split starts e w name) in
    let start : Inv split (name_of r.root) r =
      ((refl, subst IsExclusive (sym none_held) Pairwise.nil), rw none_wait tt) in
    let end =
      run-induction (methods split starts) (Inv split (name_of r.root)) (IsOurs split starts r)
        (call-Inv split starts r) (r, w) cs start ours in
    end.0.1
