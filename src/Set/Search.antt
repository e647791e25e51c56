-- ===== src/Set/Search.antt =====
-- The search for a free element: flom_resource_set_can_lock goes round the array once, from the index.
use native.Mathlib.Nat.{mod-eq_of_lt, add-mod_left}
use flom.Prelude.{
  ℕ, zero, suc, ◌+◌, ◌-◌, ◌%◌, ◌≤◌, ◌<◌, ltb, ◌≡◌, refl, sym, inl, inr, Bool-cases, if◌then◌else◌,
  ◌==◌, ==_iff, true, false, none, some, List, [], ◌∷◌, arith, length, All, subst,
}
use flom.Rsrc.Types.{guint_mod}
use flom.Set.{Set, Element, is_none, is_free, search, can_lock}

-- The index is a place of the array, whose places fit a guint twice.
pub record IsIndexed (r : Set) : Type 0 where
  pub inside : r.index < length r.elements
  pub small : length r.elements < 2147483648

abbrev pub IsHeld : Element → Type 0
IsHeld x = is_none x.conn ≡ false

-- The `i`-th place of the round.
abbrev pub place : Set → ℕ → ℕ
place r i = (r.index + i) % length r.elements

-- The place `j` is free, and it is the first such one of the round, the `i`-th.
pub record IsFirst (r : Set) (j i : ℕ) : Type 0 where
  pub round : i < length r.elements
  pub at : j ≡ place r i
  pub free : is_free r.elements j ≡ true
  pub first : (k : ℕ) → k < i → is_free r.elements (place r k) ≡ false

module _ (r : Set) (v : IsIndexed r) where
  no_wrap :
      (i : ℕ) → i < length r.elements → (i + r.index) % guint_mod % length r.elements ≡ place r i
  no_wrap i h = rw (small, comm) refl
    where
      small : (i + r.index) % guint_mod ≡ i + r.index
      small = omega (arith, v.inside, v.small)

      comm : i + r.index ≡ r.index + i
      comm = omega arith

  search_round :
      (n i : ℕ)
      → i < length r.elements
      → search r (suc n) i
        ≡ (if is_free r.elements (place r i) then some (place r i) else search r n (suc i))
  unfolding search
  search_round n i h = rw (no_wrap i h) refl

  first_suc :
      (i : ℕ)
      → is_free r.elements (place r i) ≡ false
      → ((k : ℕ) → k < i → is_free r.elements (place r k) ≡ false)
      → (k : ℕ) → k < suc i
      → is_free r.elements (place r k) ≡ false
  first_suc i h before k less = elim (Bool-cases (k == i)) [
    | inl same ↦ subst (λ k. is_free r.elements (place r k) ≡ false) (sym ((==_iff k i).0 same)) h
    | inr other ↦ before k (ground (arith, other))
  ]

  search-IsFirst :
      (n i j : ℕ)
      → i + n ≡ length r.elements
      → ((k : ℕ) → k < i → is_free r.elements (place r k) ≡ false)
      → search r n i ≡ some j
      → (m : ℕ) × IsFirst r j m
  unfolding search
  search-IsFirst zero i j e before h = cc
  search-IsFirst (suc n) i j e before h = elim (Bool-cases (is_free r.elements (place r i))) [
    | inl free ↦
        let at : j ≡ place r i = ground (arith, rw (search_round n i (omega arith)) at h) in
        (i, record { round = omega arith; at = at; free = rw at free; first = before })
    | inr held ↦
        search-IsFirst n (suc i) j (omega arith) (first_suc i held before)
          (rw (search_round n i (omega arith), held) at h)
  ]

  search-none :
      (n i k : ℕ)
      → i + n ≡ length r.elements
      → search r n i ≡ none
      → i ≤ k
      → k < length r.elements
      → is_free r.elements (place r k) ≡ false
  search-none zero i k e h le less = absurd (omega arith)
  search-none (suc n) i k e h le less = elim (Bool-cases (is_free r.elements (place r i))) [
    | inl free ↦ absurd (ground (arith, rw (search_round n i (omega arith), free) at h))
    | inr held ↦ elim (Bool-cases (k == i)) [
      | inl same ↦
          subst (λ k. is_free r.elements (place r k) ≡ false) (sym ((==_iff k i).0 same)) held
      | inr other ↦
          search-none n (suc i) k (omega arith) (rw (search_round n i (omega arith), held) at h)
            (ground (arith, other)) less
    ]
  ]

-- Each place of the array is one of the round.
places : (index len p : ℕ) → index < len → p < len → (k : ℕ) × (k < len) × ((index + k) % len ≡ p)
places index len p i h = elim (Bool-cases (ltb p index)) [
  | inl before ↦
      let back : index + (p + len - index) ≡ len + p = ground (arith, before) in
      (p + len - index, ground (arith, before), rw (back, add-mod_left len p) (mod-eq_of_lt h))
  | inr after ↦
      let there : index + (p - index) ≡ p = ground (arith, after) in
      (p - index, ground (arith, after), rw there (mod-eq_of_lt h))
]

All-IsHeld : (xs : List Element) → ((p : ℕ) → p < length xs → is_free xs p ≡ false) → All IsHeld xs
unfolding is_free
All-IsHeld [] h = tt
All-IsHeld (x ∷ xs) h = (h 0 (omega arith), All-IsHeld xs (λ p less. h (suc p) (omega arith)))

-- With an index that is a place of the array, and fewer than 2^31 elements, the search finds the first
-- free element of the round that starts at the index, and if it finds none, each element of the set is
-- held.
pub can_lock-IsFirst :
    (r : Set)
    → IsIndexed r
    → ((j : ℕ) → can_lock r ≡ some j → (i : ℕ) × IsFirst r j i)
      × (can_lock r ≡ none → All IsHeld r.elements)
unfolding can_lock
can_lock-IsFirst r v = (
  λ j h.
      search-IsFirst r v (length r.elements) 0 j (omega arith) (λ k less. absurd (omega arith)) h,
  λ h. All-IsHeld r.elements (λ p less.
      let (k, inside, there) = places r.index (length r.elements) p v.inside less in
      subst (λ p. is_free r.elements p ≡ false) there
        (search-none r v (length r.elements) 0 k (omega arith) h (omega arith) inside)),
)
