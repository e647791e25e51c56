-- ===== src/Hier/Exclusive.antt =====
-- Sets of locks of a tree that can be held at once, and how the functions on trees keep them so.
use mathlib.Core.Logic.Or
use mathlib.Core.List.{Perm, Mem, Pairwise, Pairwise-cons, not-mem-nil, eq-or-mem_of_mem-cons}
use mathlib.Core.List.Perm
use flom.Prelude.{
  String, true, some, List, [], ◌∷◌, ◌≡◌, sym, ◌∙◌, subst, inl, inr, Bool-cases, All,
}
use flom.Rsrc.Types.{Rc, is_ok, Conn}
use flom.Rsrc.Env.{Env, World}
use flom.Rsrc.Modes.{lock_table, lock_table_symm}
use flom.Simple.{ModeLock}
use flom.Hier.Tree.{Node, can_lock, add_locker}
use flom.Hier.Entries.{Entry, Adds, IsAt, entries, add_locker-Adds}
use flom.Hier.Compatible.{comparable, comparable_symm, Tolerates, can_lock_paths_iff}
use flom.Hier.Release.{Takes}

-- Two locks with comparable paths have compatible modes.
abbrev pub Beside : Entry → Entry → Type 0
Beside (p, a) (q, b) = comparable p q ≡ true → lock_table a.info b.info ≡ true

abbrev pub IsExclusive : List Entry → Type 0
IsExclusive = Pairwise Beside

Beside-prop : (x y : Entry) → IsProp (Beside x y)
Beside-prop x y = hlevel

Beside-symm : (x y : Entry) → Beside x y → Beside y x
Beside-symm (p, a) (q, b) h e = lock_table_symm b.info a.info ∙ h (comparable_symm p q ∙ e)

IsExclusive-perm : (xs ys : List Entry) → Perm xs ys → IsExclusive xs → IsExclusive ys
IsExclusive-perm xs ys p h = Perm.pairwise {R = Beside} Beside-prop Beside-symm p h

All-mem {ℓ κ} :
    {A : Type ℓ} (P : A → Type κ)
    → ((a : A) → IsProp (P a))
    → (xs : List A) (a : A) → All P xs
    → Mem a xs
    → P a
All-mem P prop [] a h m = absurd (not-mem-nil m)
All-mem P prop (x ∷ xs) a h m =
    Or.elim (prop a) (eq-or-mem_of_mem-cons m) (λ e. subst P (sym e) h.0)
      (λ m'. All-mem P prop xs a h.1 m')

Adds-IsExclusive :
    (path : List String) (cl : ModeLock) (before after : List Entry) (rc : Rc)
    → Adds (path, cl) before rc after
    → All (Tolerates path cl.info) before
    → IsExclusive before
    → IsExclusive after
Adds-IsExclusive path cl before after rc (good, bad) t h = elim (Bool-cases (is_ok rc)) [
  | inl ok ↦ IsExclusive-perm _ after (Perm.symm (good ok)) (
      Pairwise-cons.1 (
        λ x m e.
            lock_table_symm cl.info x.1.info
            ∙ All-mem (Tolerates path cl.info) (λ y. hlevel) before x t m e,
        h,
      ))
  | inr failed ↦ IsExclusive-perm before after (Perm.symm (bad failed)) h
]

-- A lock that flom_resource_hier_can_lock allows can be added.
pub add_locker-IsExclusive :
    (e : Env) (path : List String) (cl : ModeLock) (t : Node) (w : World)
    → IsAt path t
    → can_lock t cl.info path ≡ true
    → IsExclusive (entries t)
    → IsExclusive (entries (add_locker e path cl t w).tree)
add_locker-IsExclusive e path cl t w root allowed h =
    Adds-IsExclusive path cl (entries t) _ _ (add_locker-Adds e path cl t w root)
      ((can_lock_paths_iff t cl.info path).0 allowed) h

pub Takes-IsExclusive :
    (c : Conn) (before : List Entry) (cl : ModeLock) (t : Node)
    → Takes c before (some (cl, t))
    → IsExclusive before
    → IsExclusive (entries t)
Takes-IsExclusive c before cl t (conn, (path, p)) h =
    (Pairwise-cons.0 (IsExclusive-perm before _ p h)).1
