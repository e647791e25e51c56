-- ===== src/Hier/Pruned.antt =====
-- flom_resource_hier_gc: what is left of the tree.
use flom.Prelude.{false, ◌≡◌, inl, inr, Bool-cases, if◌then◌else◌}
use flom.Hier.Tree.{Node, Leaves, node, nil, cons, gc, gc_leaves, is_empty}
use flom.Hier.Entries.{entries}
use flom.Hier.Release.{entries-gc}

-- Each node below the root holds a lock or has a child, and thus leads to a lock.
unfoldable mutual
  pub IsPruned : Node → Type 0
  IsPruned (node n hs kids) = ArePruned kids

  pub ArePruned : Leaves → Type 0
  ArePruned nil = Unit
  ArePruned (cons c rest) = (is_empty c ≡ false) × IsPruned c × ArePruned rest

drop_empty-ArePruned :
    (c : Node) (rest : Leaves)
    → IsPruned c
    → ArePruned rest
    → ArePruned (if is_empty c then rest else cons c rest)
unfolding IsPruned
drop_empty-ArePruned c rest h hs = elim (Bool-cases (is_empty c)) [
  | inl empty ↦ rw empty hs
  | inr full ↦ rw full (full, h, hs)
]

mutual
  unfolding gc IsPruned

  pruned : (t : Node) → IsPruned (gc t)
  pruned (node n hs kids) = pruned_leaves kids

  pruned_leaves : (kids : Leaves) → ArePruned (gc_leaves kids)
  pruned_leaves nil = tt
  pruned_leaves (cons c rest) =
      drop_empty-ArePruned (gc c) (gc_leaves rest) (pruned c) (pruned_leaves rest)

-- flom_resource_hier_gc takes no lock off the tree, and leaves no node below the root that has neither
-- locks nor children.
pub gc-IsPruned : (t : Node) → IsPruned (gc t) × (entries (gc t) ≡ entries t)
gc-IsPruned t = (pruned t, entries-gc t)
