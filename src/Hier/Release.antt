-- ===== src/Hier/Release.antt =====
-- flom_resource_hier_gc and the search of flom_resource_hier_clean: what they take off the tree.
use mathlib.Core.List.{Perm, perm_middle}
use mathlib.Core.List.Perm
use mathlib.Core.Option
use mathlib.Core.Option.{some_inj}
use text.Mathlib.Text.{◌==◌ as str_eq}
use flom.Prelude.{
  String, true, Option, none, some, List, [], ◌∷◌, ◌++◌, map, ◌≡◌, refl, ap, sym, ◌∙◌, subst, inl,
  inr, Bool-cases, ◌==◌, ==_iff, if◌then◌else◌, Option-cases,
}
use flom.Rsrc.Types.{Conn}
use flom.Rsrc.Holders.{find_conn, remove_conn}
use flom.Simple.{ModeLock}
use flom.Hier.Tree.{
  Node, Leaves, node, nil, cons, name_of, gc, gc_leaves, is_empty, take_here, put_back, step_over,
  take_leaf, take_next, relink, taken, take_lock,
}
use flom.Hier.Entries.{Entry, at, under, entries, entries_leaves}

entries-is_empty : (t : Node) → is_empty t ≡ true → entries t ≡ []
unfolding is_empty entries
entries-is_empty (node n [] nil) h = refl
entries-is_empty (node n [] (cons c rest)) h = cc
entries-is_empty (node n (cl ∷ hs) kids) h = cc

drop_empty :
    (c : Node) (rest : Leaves) (es : List Entry)
    → entries c ≡ es
    → entries_leaves (if is_empty c then rest else cons c rest) ≡ es ++ entries_leaves rest
unfolding entries
drop_empty c rest es h = elim (Bool-cases (is_empty c)) [
  | inl empty ↦ rw (empty, sym h, entries-is_empty c empty) refl
  | inr full ↦ rw (full, h) refl
]

mutual
  unfolding gc entries

  kept : (t : Node) → entries (gc t) ≡ entries t
  kept (node n hs kids) = ap (λ es. map (at n) hs ++ map (under n) es) (kept_leaves kids)

  kept_leaves : (kids : Leaves) → entries_leaves (gc_leaves kids) ≡ entries_leaves kids
  kept_leaves nil = refl
  kept_leaves (cons c rest) =
      drop_empty (gc c) (gc_leaves rest) (entries c) (kept c)
      ∙ ap (λ es. entries c ++ es) (kept_leaves rest)

pub entries-gc : (t : Node) → entries (gc t) ≡ entries t
entries-gc t = kept t

-- The found lock, at some path, is what the search takes off.
abbrev pub TakesIn : Conn → List Entry → Option (ModeLock × Leaves) → Type 0
TakesIn c before none = Unit
TakesIn c before (some (cl, kids)) =
    (cl.conn ≡ c) × ((path : List String) × Perm before ((path, cl) ∷ entries_leaves kids))

abbrev pub Takes : Conn → List Entry → Option (ModeLock × Node) → Type 0
Takes c before none = Unit
Takes c before (some (cl, t)) =
    (cl.conn ≡ c) × ((path : List String) × Perm before ((path, cl) ∷ entries t))

find_conn-perm :
    (hs : List ModeLock) (c : Conn) (cl : ModeLock)
    → find_conn hs c ≡ some cl
    → (cl.conn ≡ c) × Perm hs (cl ∷ remove_conn hs c)
unfolding find_conn remove_conn
find_conn-perm [] c cl h = cc
find_conn-perm (x ∷ hs) c cl h = elim (Bool-cases (x.conn == c)) [
  | inl hit ↦ rw hit (
      subst (λ y. (y.conn ≡ c) × Perm (x ∷ hs) (y ∷ hs)) (some_inj.0 (rw hit at h))
        ((==_iff x.conn c).0 hit, Perm.refl _))
  | inr miss ↦
      let (conn, p) = find_conn-perm hs c cl (rw miss at h) in
      rw miss (conn, Perm.trans (Perm.cons x p) (Perm.swap cl x _))
]

here-perm :
    (n : String) (hs hs' : List ModeLock) (cl : ModeLock) (es : List Entry)
    → Perm hs (cl ∷ hs')
    → Perm (map (at n) hs ++ es) (at n cl ∷ map (at n) hs' ++ es)
here-perm n hs hs' cl es p = Perm.append_right es (Perm.map (at n) p)

take_here-Takes : (c : Conn) (t : Node) → Takes c (entries t) (take_here c t)
unfolding take_here entries
take_here-Takes c (node n hs kids) = elim (Option-cases (find_conn hs c)) [
  | inl nobody ↦ rw nobody tt
  | inr (cl, hit) ↦
      let (conn, p) = find_conn-perm hs c cl hit in rw hit (conn, (n ∷ [], here-perm n hs _ cl _ p))
]

put_back-TakesIn :
    (c : Conn) (before : List Entry) (rest : Leaves) (o : Option (ModeLock × Node))
    → Takes c before o
    → TakesIn c (before ++ entries_leaves rest) (Option.map (put_back rest) o)
unfolding put_back entries
put_back-TakesIn c before rest none h = tt
put_back-TakesIn c before rest (some (cl, t)) (conn, (path, p)) =
    (conn, (path, Perm.append_right (entries_leaves rest) p))

-- The result for the leaf that is found, if one is.
abbrev TakesNext : Conn → List Entry → Option (Option (ModeLock × Leaves)) → Type 0
TakesNext c before none = Unit
TakesNext c before (some o) = TakesIn c before o

step_over-TakesNext :
    (c : Conn) (before : List Entry) (first : Node) (o : Option (Option (ModeLock × Leaves)))
    → TakesNext c before o
    → TakesNext c (entries first ++ before) (Option.map (Option.map (step_over first)) o)
unfolding step_over entries
step_over-TakesNext c before first none h = tt
step_over-TakesNext c before first (some none) h = tt
step_over-TakesNext c before first (some (some (cl, kids))) (conn, (path, p)) =
    (conn, (path, Perm.trans (Perm.append_left (entries first) p) (perm_middle _ _)))

module _ (c : Conn) (f : Node → Option (ModeLock × Node))
    (takes : (t : Node) → Takes c (entries t) (f t)) where
  take_leaf-TakesNext :
      (s : String) (kids : Leaves) → TakesNext c (entries_leaves kids) (take_leaf s f kids)
  unfolding take_leaf entries
  take_leaf-TakesNext s nil = tt
  take_leaf-TakesNext s (cons t rest) = elim (Bool-cases (str_eq s (name_of t))) [
    | inl hit ↦ rw hit (put_back-TakesIn c (entries t) rest (f t) (takes t))
    | inr miss ↦ rw miss (
        step_over-TakesNext c (entries_leaves rest) t (take_leaf s f rest)
          (take_leaf-TakesNext s rest))
  ]

  take_next-TakesNext :
      (ls : List String) (kids : Leaves) → TakesNext c (entries_leaves kids) (take_next ls f kids)
  unfolding take_next
  take_next-TakesNext [] kids = tt
  take_next-TakesNext (s ∷ ls) kids = take_leaf-TakesNext s kids

taken-Takes :
    (c : Conn) (n : String) (hs : List ModeLock) (kids : Leaves)
    (o : Option (Option (ModeLock × Leaves))) (here : Option (ModeLock × Node))
    → TakesNext c (entries_leaves kids) o
    → Takes c (entries (node n hs kids)) here
    → Takes c (entries (node n hs kids)) (taken n hs o here)
unfolding taken relink entries
taken-Takes c n hs kids none here found h = h
taken-Takes c n hs kids (some none) here found h = tt
taken-Takes c n hs kids (some (some (cl, kids'))) here (conn, (path, p)) h = (
  conn,
  (
    n ∷ path,
    Perm.trans (Perm.append_left (map (at n) hs) (Perm.map (under n) p)) (perm_middle _ _),
  ),
)

-- The search of flom_resource_hier_clean takes one lock of the connection off the tree, if it finds one.
pub take_lock-Takes :
    (c : Conn) (ls : List String) (t : Node) → Takes c (entries t) (take_lock c ls t)
unfolding take_lock
take_lock-Takes c [] t = take_here-Takes c t
take_lock-Takes c (l ∷ ls) (node n hs kids) = elim (Bool-cases (str_eq l n)) [
  | inl hit ↦ rw hit (
      taken-Takes c n hs kids (take_next ls (take_lock c ls) kids) (take_here c (node n hs kids))
        (take_next-TakesNext c (take_lock c ls) (take_lock-Takes c ls) ls kids)
        (take_here-Takes c (node n hs kids)))
  | inr miss ↦ rw miss (take_lock-Takes c ls (node n hs kids))
]
