-- ===== src/Hier/Names.antt =====
-- No function on trees changes the name of the root.
use text.Mathlib.Text.{◌==◌ as str_eq}
use flom.Prelude.{
  String, Bool, true, false, not, Option, none, some, List, [], ◌∷◌, ◌≡◌, refl, inl, inr,
  Bool-cases, Option-cases,
}
use flom.Rsrc.Types.{Conn}
use flom.Rsrc.Env.{Env, World}
use flom.Rsrc.Holders.{find_conn}
use flom.Simple.{ModeLock}
use flom.Hier.Tree.{
  Node, Leaves, node, name_of, Grown, finish, pick, descend, add_locker, gc, take_here, has_leaves,
  in_next, take_next, relink, taken, take_lock,
}

name_of-finish :
    (e : Env) (ls : List String) (b : Bool) (cl : ModeLock) (t : Node) (w : World)
    → name_of (finish e ls b cl t w).tree ≡ name_of t
unfolding finish
name_of-finish e [] b cl (node n hs kids) w = refl
name_of-finish e (l ∷ ls) true cl (node n hs kids) w = refl
name_of-finish e (l ∷ ls) false cl (node n hs kids) w = refl

name_of-stay :
    (e : Env) (ls : List String) (b : Bool) (cl : ModeLock) (t : Node) (w : World)
    → name_of (descend e ls false b cl t w).tree ≡ name_of t
unfolding descend
name_of-stay e [] b cl t w = name_of-finish e [] b cl t w
name_of-stay e (l ∷ ls) b cl t w = name_of-finish e (l ∷ ls) true cl t w

name_of-pick :
    (n : String) (hs : List ModeLock) (o : Option (Grown Leaves)) (stay : Grown Node)
    → name_of stay.tree ≡ n
    → name_of (pick n hs o stay).tree ≡ n
unfolding pick
name_of-pick n hs none stay h = h
name_of-pick n hs (some g) stay h = refl

name_of-descend :
    (e : Env) (ls : List String) (b : Bool) (cl : ModeLock) (t : Node) (w : World)
    → name_of (descend e ls true b cl t w).tree ≡ name_of t
unfolding descend
name_of-descend e [] b cl t w = name_of-finish e [] b cl t w
name_of-descend e (l ∷ ls) b cl (node n hs kids) w = elim (Bool-cases (str_eq l n)) [
  | inl hit ↦ rw hit (
      name_of-pick n hs (in_next ls (λ leaf. descend e ls true false cl leaf w) kids)
        (descend e ls false (not (has_leaves kids)) cl (node n hs kids) w)
        (name_of-stay e ls (not (has_leaves kids)) cl (node n hs kids) w))
  | inr miss ↦ rw miss (name_of-finish e (l ∷ ls) true cl (node n hs kids) w)
]

pub name_of-add_locker :
    (e : Env) (ls : List String) (cl : ModeLock) (t : Node) (w : World)
    → name_of (add_locker e ls cl t w).tree ≡ name_of t
unfolding add_locker
name_of-add_locker e ls cl t w = name_of-descend e ls true cl t w

pub name_of-gc : (t : Node) → name_of (gc t) ≡ name_of t
unfolding gc
name_of-gc (node n hs kids) = refl

-- The tree that is left, if a lock is taken off, has the name.
abbrev pub KeepsName : String → Option (ModeLock × Node) → Type 0
KeepsName n none = Unit
KeepsName n (some (cl, t)) = name_of t ≡ n

take_here-KeepsName : (c : Conn) (t : Node) → KeepsName (name_of t) (take_here c t)
unfolding take_here
take_here-KeepsName c (node n hs kids) = elim (Option-cases (find_conn hs c)) [
  | inl nobody ↦ rw nobody tt
  | inr (cl, hit) ↦ rw hit refl
]

taken-KeepsName :
    (n : String) (hs : List ModeLock) (o : Option (Option (ModeLock × Leaves)))
    (here : Option (ModeLock × Node))
    → KeepsName n here
    → KeepsName n (taken n hs o here)
unfolding taken relink
taken-KeepsName n hs none here h = h
taken-KeepsName n hs (some none) here h = tt
taken-KeepsName n hs (some (some (cl, kids))) here h = refl

pub take_lock-KeepsName :
    (c : Conn) (ls : List String) (t : Node) → KeepsName (name_of t) (take_lock c ls t)
unfolding take_lock
take_lock-KeepsName c [] t = take_here-KeepsName c t
take_lock-KeepsName c (l ∷ ls) (node n hs kids) = elim (Bool-cases (str_eq l n)) [
  | inl hit ↦ rw hit (
      taken-KeepsName n hs (take_next ls (take_lock c ls) kids) _
        (take_here-KeepsName c (node n hs kids)))
  | inr miss ↦ rw miss (take_lock-KeepsName c ls (node n hs kids))
]
