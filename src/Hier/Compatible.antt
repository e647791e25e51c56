-- ===== src/Hier/Compatible.antt =====
-- flom_resource_hier_can_lock against its description on the locks of the tree: a lock can be taken on a
-- path exactly if it is compatible with each lock on a prefix or an extension of the path.
use text.Mathlib.Text.{◌==◌ as str_eq}
use text.Mathlib.TextEquality.{eq_iff}
use flom.Prelude.{
  String, Bool, true, false, List, [], ◌∷◌, map, ◌≡◌, ◌↔◌, refl, arith, inl, inr, Bool-cases, All,
  All-append_iff, All-of_forall, All-map_iff, if◌then◌else◌,
}
use flom.Rsrc.Types.{LockMode}
use flom.Simple.{ModeLock, can_lock as holders_allow}
use flom.Simple.Compatible.{Allows, can_lock_iff as holders_allow_iff}
use flom.Hier.Tree.{Node, Leaves, node, nil, cons, can_lock, can_lock_leaves}
use flom.Hier.Entries.{Entry, at, under, entries, entries_leaves}

-- One path is a prefix of the other.
unfoldable pub comparable : List String → List String → Bool
comparable [] q = true
comparable (l ∷ p) [] = true
comparable (l ∷ p) (n ∷ q) = let deeper = comparable p q in if str_eq l n then deeper else false

pub comparable_symm : (p q : List String) → comparable p q ≡ comparable q p
unfolding comparable
comparable_symm [] [] = refl
comparable_symm [] (n ∷ q) = refl
comparable_symm (l ∷ p) [] = refl
comparable_symm (l ∷ p) (n ∷ q) = grind (arith, comparable_symm p q, eq_iff l n, eq_iff n l)

comparable-nil : (p : List String) → comparable p [] ≡ true
unfolding comparable
comparable-nil [] = refl
comparable-nil (l ∷ p) = refl

-- A lock of a mode on a path beside a lock of the tree.
abbrev pub Tolerates : List String → LockMode → Entry → Type 0
Tolerates path mode (q, cl) = comparable path q ≡ true → Allows mode cl

and_first : (a b : Bool) → (if a then b else false) ≡ true → a ≡ true
and_first a b h = ground (arith, h)

and_second : (a b : Bool) → (if a then b else false) ≡ true → b ≡ true
and_second a b h = ground (arith, h)

and_both : (a b : Bool) → a ≡ true → b ≡ true → (if a then b else false) ≡ true
and_both a b h k = ground (arith, h, k)

node_iff :
    (P Q : Entry → Type 0) (mode : LockMode) (n : String) (hs : List ModeLock) (kids : Leaves)
    (deeper : Bool)
    → ((cl : ModeLock) → P (at n cl) ↔ Allows mode cl)
    → ((x : Entry) → P (under n x) ↔ Q x)
    → ((deeper ≡ true) ↔ All Q (entries_leaves kids))
    → ((if holders_allow hs mode then deeper else false) ≡ true) ↔ All P (entries (node n hs kids))
unfolding entries
node_iff P Q mode n hs kids deeper here below ih =
    let held = All-map_iff P (Allows mode) (at n) here hs in
    let others = All-map_iff P Q (under n) below (entries_leaves kids) in
    let both = All-append_iff P (map (at n) hs) (map (under n) (entries_leaves kids)) in
    let allow = holders_allow_iff hs mode in
    (
      λ h.
          both.1 (held.1 (allow.0 (and_first _ deeper h)), others.1 (ih.0 (and_second _ deeper h))),
      λ h. let (a, b) = both.0 h in and_both _ deeper (allow.1 (held.0 a)) (ih.1 (others.0 b)),
    )

-- A level of another name: nothing below it is comparable.
miss_lem :
    (l : String) (path : List String) (mode : LockMode) (n : String) (hs : List ModeLock)
    (kids : Leaves)
    → str_eq l n ≡ false
    → All (Tolerates (l ∷ path) mode) (entries (node n hs kids))
unfolding entries comparable
miss_lem l path mode n hs kids miss =
    let other : (q : List String) → comparable (l ∷ path) (n ∷ q) ≡ false = λ q. rw miss refl in
    (All-append_iff (Tolerates (l ∷ path) mode) (map (at n) hs)
        (map (under n) (entries_leaves kids))).1
      (
        (All-map_iff {0, 0, 0, 0} (Tolerates (l ∷ path) mode) (λ _. Unit) (at n)
              (λ cl. (λ _. tt, λ _ e. ground (arith, e, other []))) hs).1
            (All-of_forall {0, 0} (λ _. Unit) (λ _. tt) hs),
        (All-map_iff {0, 0, 0, 0} (Tolerates (l ∷ path) mode) (λ _. Unit) (under n)
              (λ x. (λ _. tt, λ _ e. ground (arith, e, other x.0))) (entries_leaves kids)).1
            (All-of_forall {0, 0} (λ _. Unit) (λ _. tt) (entries_leaves kids)),
      )

module _ (l : String) (path : List String) (mode : LockMode) (n : String)
    (hit : str_eq l n ≡ true) where
  hit_at : (cl : ModeLock) → Tolerates (l ∷ path) mode (at n cl) ↔ Allows mode cl
  unfolding comparable
  hit_at cl = (λ h. h (rw hit (comparable-nil path)), λ h _. h)

  hit_under : (x : Entry) → Tolerates (l ∷ path) mode (under n x) ↔ Tolerates path mode x
  unfolding comparable
  hit_under (q, cl) = (λ h e. h (rw hit e), λ h e. h (rw hit at e))

mutual
  unfolding can_lock comparable entries

  below_iff :
      (t : Node) (mode : LockMode) (path : List String)
      → (can_lock t mode path ≡ true) ↔ All (Tolerates path mode) (entries t)
  below_iff (node n hs kids) mode [] =
      node_iff (Tolerates [] mode) (Tolerates [] mode) mode n hs kids _
        (λ cl. (λ h. h refl, λ h _. h)) (λ x. (λ h. h, λ h. h)) (leaves_iff kids mode [])
  below_iff (node n hs kids) mode (l ∷ path) = elim (Bool-cases (str_eq l n)) [
    | inl hit ↦ rw hit (
        node_iff (Tolerates (l ∷ path) mode) (Tolerates path mode) mode n hs kids _
          (hit_at l path mode n hit) (hit_under l path mode n hit) (leaves_iff kids mode path))
    | inr miss ↦ rw miss (λ h. miss_lem l path mode n hs kids miss, λ h. refl)
  ]

  leaves_iff :
      (kids : Leaves) (mode : LockMode) (path : List String)
      → (can_lock_leaves kids mode path ≡ true) ↔ All (Tolerates path mode) (entries_leaves kids)
  leaves_iff nil mode path = (λ h. tt, λ h. refl)
  leaves_iff (cons c rest) mode path =
      let first = below_iff c mode path in
      let others = leaves_iff rest mode path in
      let both = All-append_iff (Tolerates path mode) (entries c) (entries_leaves rest) in
      (
        λ h. both.1 (first.0 (and_first _ _ h), others.0 (and_second _ _ h)),
        λ h. let (a, b) = both.0 h in and_both _ _ (first.1 a) (others.1 b),
      )

-- flom_resource_hier_can_lock allows a mode on a path exactly if the lock table allows it beside each
-- lock of the tree whose path is a prefix or an extension of the asked path.
pub can_lock_paths_iff :
    (t : Node) (mode : LockMode) (path : List String)
    → (can_lock t mode path ≡ true) ↔ All (Tolerates path mode) (entries t)
can_lock_paths_iff t mode path = below_iff t mode path
