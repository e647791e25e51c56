-- ===== src/Hier/Entries.antt =====
-- The locks of a tree, each with its path, and what the functions on trees do to them.
use mathlib.Core.List.{Perm, perm_middle, append_assoc, perm_append_singleton}
use mathlib.Core.List.Perm
use mathlib.Core.Option
use text.Mathlib.Text.{◌==◌ as str_eq}
use text.Mathlib.TextEquality.{eq_iff}
use flom.Prelude.{
  String, Bool, true, false, not, Option, none, some, List, [], ◌∷◌, ◌++◌, map, ◌≡◌, refl, arith,
  inl, inr, Bool-cases, append-nil,
}
use flom.Rsrc.Types.{Rc, is_ok}
use flom.Rsrc.Env.{Env, World, emit, node_added}
use flom.Simple.{ModeLock}
use flom.Hier.Tree.{
  Node, Leaves, node, nil, cons, name_of, Grown, chain, add_leaves, has_leaves, in_leaf, in_next,
  finish, pick, behind, descend, add_locker,
}

abbrev pub Entry : Type 0
Entry = List String × ModeLock

abbrev pub at : String → ModeLock → Entry
at n cl = (n ∷ [], cl)

abbrev pub under : String → Entry → Entry
under n (p, cl) = (n ∷ p, cl)

unfoldable mutual
  pub entries : Node → List Entry
  entries (node n hs kids) = map (at n) hs ++ map (under n) (entries_leaves kids)

  pub entries_leaves : Leaves → List Entry
  entries_leaves nil = []
  entries_leaves (cons c rest) = entries c ++ entries_leaves rest

entries_leaves-add_leaves :
    (a b : Leaves) → entries_leaves (add_leaves a b) ≡ entries_leaves a ++ entries_leaves b
unfolding entries add_leaves
entries_leaves-add_leaves nil b = refl
entries_leaves-add_leaves (cons c rest) b = ground (
  arith,
  entries_leaves-add_leaves rest b,
  append_assoc (entries c) (entries_leaves rest) (entries_leaves b),
)

-- The entry `x` is new if the code is `ok`, and nothing else changes.
abbrev pub Adds : Entry → List Entry → Rc → List Entry → Type 0
Adds x before rc after =
    (is_ok rc ≡ true → Perm after (x ∷ before)) × (is_ok rc ≡ false → Perm after before)

chain-entries :
    (e : Env) (l : String) (ls : List String) (cl : ModeLock) (w : World)
    → let g = chain e l ls (cl ∷ []) w in
      (is_ok g.rc ≡ true → entries_leaves g.tree ≡ (l ∷ ls, cl) ∷ [])
      × (is_ok g.rc ≡ false → entries_leaves g.tree ≡ [])
unfolding chain entries
chain-entries e l [] cl w = (ground arith, ground arith)
chain-entries e l (l' ∷ ls) cl w =
    let ih = chain-entries e l' ls cl (emit (node_added l) w) in
    (ground (arith, ih.0), ground (arith, ih.1))

-- Entries below a node, and beside other nodes.
Adds-node :
    (n : String) (hs : List ModeLock) (p : List String) (cl : ModeLock) (before after : List Entry)
    (rc : Rc)
    → Adds (p, cl) before rc after
    → Adds
        (n ∷ p, cl)
        (map (at n) hs ++ map (under n) before)
        rc
        (map (at n) hs ++ map (under n) after)
Adds-node n hs p cl before after rc (good, bad) = (
  λ ok. Perm.trans (Perm.append_left _ (Perm.map (under n) (good ok))) (perm_middle _ _),
  λ no. Perm.append_left _ (Perm.map (under n) (bad no)),
)

Adds-first :
    (x : Entry) (before after rest : List Entry) (rc : Rc)
    → Adds x before rc after
    → Adds x (before ++ rest) rc (after ++ rest)
Adds-first x before after rest rc (good, bad) =
    (λ ok. Perm.append_right rest (good ok), λ no. Perm.append_right rest (bad no))

Adds-later :
    (x : Entry) (before after first : List Entry) (rc : Rc)
    → Adds x before rc after
    → Adds x (first ++ before) rc (first ++ after)
Adds-later x before after first rc (good, bad) = (
  λ ok. Perm.trans (Perm.append_left first (good ok)) (perm_middle first before),
  λ no. Perm.append_left first (bad no),
)

perm_middle_nil : (xs : List Entry) (x : Entry) → Perm (xs ++ x ∷ []) (x ∷ xs)
perm_middle_nil xs x = perm_append_singleton x xs

finish-Adds :
    (e : Env) (ls : List String) (cl : ModeLock) (n : String) (hs : List ModeLock) (kids : Leaves)
    (w : World)
    → let t = node n hs kids in
      let g = finish e ls true cl t w in Adds (n ∷ ls, cl) (entries t) g.rc (entries g.tree)
unfolding finish entries
finish-Adds e [] cl n hs kids w = (λ ok. Perm.refl _, λ no. cc)
finish-Adds e (l ∷ ls) cl n hs kids w =
    let (good, bad) = chain-entries e l ls cl w in
    rw entries_leaves-add_leaves (
      Adds-node n hs (l ∷ ls) cl (entries_leaves kids) _ _
        (λ ok. rw (good ok) (perm_middle_nil _ _), λ no. rw (bad no, append-nil) (Perm.refl _)))

-- The same for the leaf that is found, if one is.
abbrev AddsIn : Entry → List Entry → Option (Grown Leaves) → Type 0
AddsIn x before none = Unit
AddsIn x before (some g) = Adds x before g.rc (entries_leaves g.tree)

behind-AddsIn :
    (x : Entry) (before : List Entry) (c : Node) (o : Option (Grown Leaves))
    → AddsIn x before o
    → AddsIn x (entries c ++ before) (Option.map (behind c) o)
unfolding behind entries
behind-AddsIn x before c none a = tt
behind-AddsIn x before c (some g) a = Adds-later x before _ (entries c) g.rc a

module _ (x : Entry) (s : String) (f : Node → Grown Node)
    (adds : (c : Node)
      → str_eq s (name_of c) ≡ true
      → Adds x (entries c) (f c).rc (entries (f c).tree)) where
  in_leaf-AddsIn : (kids : Leaves) → AddsIn x (entries_leaves kids) (in_leaf s f kids)
  unfolding in_leaf entries
  in_leaf-AddsIn nil = tt
  in_leaf-AddsIn (cons c rest) = elim (Bool-cases (str_eq s (name_of c))) [
    | inl hit ↦ rw hit (Adds-first x (entries c) _ (entries_leaves rest) _ (adds c hit))
    | inr miss ↦
        rw miss (behind-AddsIn x (entries_leaves rest) c (in_leaf s f rest) (in_leaf-AddsIn rest))
  ]

-- The first of the levels is the name of the node.
abbrev pub IsAt : List String → Node → Type 0
IsAt [] t = ⊥
IsAt (s ∷ ls) t = str_eq s (name_of t) ≡ true

pick-Adds :
    (n : String) (hs : List ModeLock) (kids : Leaves) (ls : List String) (cl : ModeLock)
    (o : Option (Grown Leaves)) (stay : Grown Node)
    → AddsIn (ls, cl) (entries_leaves kids) o
    → Adds (n ∷ ls, cl) (entries (node n hs kids)) stay.rc (entries stay.tree)
    → let g = pick n hs o stay in Adds (n ∷ ls, cl) (entries (node n hs kids)) g.rc (entries g.tree)
unfolding pick entries
pick-Adds n hs kids ls cl none stay found a = a
pick-Adds n hs kids ls cl (some g) stay found a = Adds-node n hs ls cl _ _ g.rc found

stay-Adds :
    (e : Env) (ls : List String) (b : Bool) (cl : ModeLock) (n : String) (hs : List ModeLock)
    (kids : Leaves) (w : World)
    → let t = node n hs kids in
      let g = descend e ls false b cl t w in Adds (n ∷ ls, cl) (entries t) g.rc (entries g.tree)
unfolding descend
stay-Adds e [] b cl n hs kids w = unfold finish in finish-Adds e [] cl n hs kids w
stay-Adds e (l ∷ ls) b cl n hs kids w = finish-Adds e (l ∷ ls) cl n hs kids w

next-AddsIn :
    (x : Entry) (ls : List String) (f : Node → Grown Node) (kids : Leaves)
    → ((c : Node) → IsAt ls c → Adds x (entries c) (f c).rc (entries (f c).tree))
    → AddsIn x (entries_leaves kids) (in_next ls f kids)
unfolding in_next
next-AddsIn x [] f kids adds = tt
next-AddsIn x (s ∷ ls) f kids adds = in_leaf-AddsIn x s f adds kids

descend-found :
    (e : Env) (ls : List String) (b : Bool) (cl : ModeLock) (n : String) (hs : List ModeLock)
    (kids : Leaves) (w : World)
    → AddsIn
        (ls, cl)
        (entries_leaves kids)
        (in_next ls (λ leaf. descend e ls true false cl leaf w) kids)
    → let t = node n hs kids in
      let g = descend e (n ∷ ls) true b cl t w in
      Adds (n ∷ ls, cl) (entries t) g.rc (entries g.tree)
unfolding descend
descend-found e ls b cl n hs kids w found =
    rw ((eq_iff n n).1 refl)
      (pick-Adds n hs kids ls cl _ _ found (stay-Adds e ls (not (has_leaves kids)) cl n hs kids w))

descend-Adds :
    (e : Env) (ls : List String) (b : Bool) (cl : ModeLock) (t : Node) (w : World)
    → IsAt ls t
    → let g = descend e ls true b cl t w in Adds (ls, cl) (entries t) g.rc (entries g.tree)
descend-Adds e [] b cl t w h = absurd h
descend-Adds e (l ∷ ls) b cl (node n hs kids) w h = rw ((eq_iff l n).0 h) (
    descend-found e ls b cl n hs kids w
      (next-AddsIn (ls, cl) ls _ kids (λ c. descend-Adds e ls false cl c w)))

-- flom_resource_hier_add_locker, at a name that starts at the root of the tree, adds the lock at this
-- name and changes no other, and if it fails, no lock at all.
pub add_locker-Adds :
    (e : Env) (ls : List String) (cl : ModeLock) (t : Node) (w : World)
    → IsAt ls t
    → let g = add_locker e ls cl t w in Adds (ls, cl) (entries t) g.rc (entries g.tree)
unfolding add_locker
add_locker-Adds e ls cl t w h = descend-Adds e ls true cl t w h
