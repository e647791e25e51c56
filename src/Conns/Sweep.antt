-- ===== src/Conns/Sweep.antt =====
-- What flom_conns_clean and flom_conns_free leave.
use mathlib.Core.List.{Perm, perm_middle}
use mathlib.Core.List.Perm
use flom.Prelude.{
  ℕ, zero, suc, ◌<◌, ◌≡◌, refl, ap, subst, ◌∙◌, Bool, true, false, not, inl, inr, Bool-cases, List,
  [], ◌∷◌, ◌++◌, append-nil, append_assoc, length, length-append, get_elem?-length,
  get_elem?-append_length, set, map, if◌then◌else◌, arith,
}
use flom.Rsrc.Types.{Rc}
use flom.Conns.{
  Connection, is_removed, last, drop_last, refill, remove_index_fast, terminate, close_fd, Swept,
  clean_loop, clean, close_all, free,
}

module _ {ℓ} {A : Type ℓ} (p : A → Bool) where
  unfoldable pub those : List A → List A
  those [] = []
  those (x ∷ xs) = let rest = those xs in if p x then x ∷ rest else rest

  those-cons :
      (x : A) (l l' : List A) → Perm (those l) (those l') → Perm (those (x ∷ l)) (those (x ∷ l'))
  unfolding those
  those-cons x l l' h = elim (Bool-cases (p x)) [
    | inl first ↦ rw first (Perm.cons x h)
    | inr other ↦ rw other h
  ]

  those-swap : (x y : A) (l : List A) → Perm (those (x ∷ y ∷ l)) (those (y ∷ x ∷ l))
  unfolding those
  those-swap x y l = elim (Bool-cases (p x)) [
    | inr other ↦ rw other (Perm.refl _)
    | inl first ↦ elim (Bool-cases (p y)) [
      | inl too ↦ rw (first, too) (Perm.swap _ _ _)
      | inr other ↦ rw (first, other) (Perm.refl _)
    ]
  ]

  those-last : (x : A) (xs : List A) → Perm (those (last x xs ∷ drop_last x xs)) (those (x ∷ xs))
  unfolding last drop_last
  those-last x [] = Perm.refl _
  those-last x (y ∷ ys) =
      Perm.trans (those-swap (last y ys) x (drop_last y ys))
        (those-cons x (last y ys ∷ drop_last y ys) (y ∷ ys) (those-last y ys))

  those-refill : (xs : List A) → Perm (those (refill xs)) (those xs)
  unfolding refill
  those-refill [] = Perm.refl _
  those-refill (x ∷ xs) = those-last x xs

module _ {ℓ} {A : Type ℓ} where
  length-drop_last : (x : A) (xs : List A) → length (drop_last x xs) ≡ length xs
  unfolding drop_last
  length-drop_last x [] = refl
  length-drop_last x (y ∷ ys) = ap suc (length-drop_last y ys)

  pub length-refill : (xs : List A) → length (refill xs) ≡ length xs
  unfolding refill
  length-refill [] = refl
  length-refill (x ∷ xs) = ap suc (length-drop_last x xs)

  pub remove_index_fast-append :
      (seen rest : List A) (x : A)
      → remove_index_fast (seen ++ x ∷ rest) (length seen) ≡ seen ++ refill rest
  unfolding remove_index_fast
  remove_index_fast-append [] rest x = refl
  remove_index_fast-append (y ∷ seen) rest x = ap (◌∷◌ y) (remove_index_fast-append seen rest x)

abbrev pub stays : Connection → Bool
stays c = not (is_removed c)

-- What the loop makes of the connections that it has not seen.
record IsSwept (seen rest deleted : List Connection) (r : Swept) : Type 0 where
  fine : r.rc ≡ Rc.ok
  left : Perm r.array (seen ++ those stays rest)
  gone : Perm r.deleted (deleted ++ those is_removed rest)

loop_end :
    (fuel : ℕ) (seen deleted : List Connection)
    → clean_loop (suc fuel) (length seen) seen deleted
      ≡ record { rc = Rc.ok; array = seen; deleted = deleted }
unfolding clean_loop
loop_end fuel seen deleted = ground (arith, get_elem?-length seen)

module _ (fuel : ℕ) (seen rest deleted : List Connection) (c : Connection) where
  loop_removes :
      is_removed c ≡ true
      → clean_loop (suc fuel) (length seen) (seen ++ c ∷ rest) deleted
        ≡ clean_loop fuel (length seen) (seen ++ refill rest) (c ∷ deleted)
  unfolding clean_loop
  loop_removes h =
      ground (arith, get_elem?-append_length seen rest c, remove_index_fast-append seen rest c)

  loop_keeps :
      is_removed c ≡ false
      → clean_loop (suc fuel) (length seen) (seen ++ c ∷ rest) deleted
        ≡ clean_loop fuel (length (seen ++ c ∷ [])) ((seen ++ c ∷ []) ++ rest) deleted
  unfolding clean_loop
  loop_keeps h = ground (
    arith,
    get_elem?-append_length seen rest c,
    append_assoc seen (c ∷ []) rest,
    length-append seen (c ∷ []),
  )

  IsSwept-removes :
      (r : Swept)
      → is_removed c ≡ true
      → IsSwept seen (refill rest) (c ∷ deleted) r
      → IsSwept seen (c ∷ rest) deleted r
  unfolding those
  IsSwept-removes r h v = record {
    fine = v.fine;
    left = rw h (Perm.trans v.left (Perm.append_left seen (those-refill stays rest)));
    gone = rw h (
        Perm.trans v.gone (
          Perm.trans (Perm.cons c (Perm.append_left deleted (those-refill is_removed rest)))
            (Perm.symm (perm_middle deleted (those is_removed rest)))));
  }

  IsSwept-keeps :
      (r : Swept)
      → is_removed c ≡ false
      → IsSwept (seen ++ c ∷ []) rest deleted r
      → IsSwept seen (c ∷ rest) deleted r
  unfolding those
  IsSwept-keeps r h v = record {
    fine = v.fine;
    left = rw h (rw append_assoc at v.left);
    gone = rw h v.gone;
  }

clean_loop-IsSwept :
    (fuel : ℕ) (seen rest deleted : List Connection)
    → length rest < fuel
    → IsSwept seen rest deleted (clean_loop fuel (length seen) (seen ++ rest) deleted)
unfolding those
clean_loop-IsSwept zero seen rest deleted h = absurd (omega arith)
clean_loop-IsSwept (suc fuel) seen [] deleted h = rw append-nil (
    rw (loop_end fuel seen deleted) (record {
      fine = refl;
      left = rw append-nil (Perm.refl _);
      gone = rw append-nil (Perm.refl _);
    }))
clean_loop-IsSwept (suc fuel) seen (c ∷ rest) deleted h = elim (Bool-cases (is_removed c)) [
  | inl removed ↦ rw (loop_removes fuel seen rest deleted c removed) (
      IsSwept-removes fuel seen rest deleted c _ removed (
        clean_loop-IsSwept fuel seen (refill rest) (c ∷ deleted)
          (rw length-refill (omega (arith, h)))))
  | inr kept ↦ rw (loop_keeps fuel seen rest deleted c kept) (
      IsSwept-keeps fuel seen rest deleted c _ kept
        (clean_loop-IsSwept fuel (seen ++ c ∷ []) rest deleted (omega (arith, h))))
]

clean-IsSwept : (array : List Connection) → IsSwept [] array [] (clean array)
unfolding clean
clean-IsSwept array = clean_loop-IsSwept (suc (length array)) [] array [] (omega arith)

abbrev pub terminated : (ℕ → Rc) → Connection → Connection
terminated close c = (terminate close c).1

terminate-removed : (close : ℕ → Rc) (c : Connection) → is_removed (terminated close c) ≡ true
unfolding terminate is_removed
terminate-removed close c = ground arith

module _ (close : ℕ → Rc) where
  set-append :
      (seen rest : List Connection) (c d : Connection)
      → set (seen ++ c ∷ rest) (length seen) d ≡ seen ++ d ∷ rest
  set-append [] rest c d = refl
  set-append (x ∷ seen) rest c d = ap (◌∷◌ x) (set-append seen rest c d)

  close_fd-append :
      (seen rest : List Connection) (c : Connection)
      → (close_fd close (seen ++ c ∷ rest) (length seen)).1
        ≡ (seen ++ terminated close c ∷ []) ++ rest
  unfolding close_fd
  close_fd-append seen rest c = ground (
    arith,
    get_elem?-append_length seen rest c,
    set-append seen rest c (terminated close c),
    append_assoc seen (terminated close c ∷ []) rest,
  )

  close_all-map :
      (seen rest : List Connection)
      → close_all close (length rest) (length seen) (seen ++ rest)
        ≡ seen ++ map (terminated close) rest
  unfolding close_all
  close_all-map seen [] = refl
  close_all-map seen (c ∷ rest) =
      let d = terminated close c in
      let longer : length (seen ++ d ∷ []) ≡ suc (length seen) = rw length-append (omega arith) in
      rw (close_all, close_fd-append seen rest c)
        (subst
          (λ k.
            close_all close (length rest) k ((seen ++ d ∷ []) ++ rest)
            ≡ seen ++ d ∷ map (terminated close) rest)
          longer
          (close_all-map (seen ++ d ∷ []) rest
            ∙ append_assoc seen (d ∷ []) (map (terminated close) rest)))

  those-terminated :
      (cs : List Connection)
      → (those is_removed (map (terminated close) cs) ≡ map (terminated close) cs)
        × (those stays (map (terminated close) cs) ≡ [])
  unfolding those
  those-terminated [] = (refl, refl)
  those-terminated (c ∷ cs) = ground (arith, terminate-removed close c, those-terminated cs)

-- The loop of flom_conns_clean ends well: what is left are the connections that are not marked for
-- removal, and each that is marked is deleted once. flom_conns_free deletes each connection once, after
-- it was terminated, and leaves none, whatever the closing of the sockets gives.
pub clean-free-sweep :
    (close : ℕ → Rc) (array : List Connection)
    → ((clean array).rc ≡ Rc.ok)
      × Perm (clean array).array (those stays array)
      × Perm (clean array).deleted (those is_removed array)
      × ((free close array).rc ≡ Rc.ok)
      × ((free close array).array ≡ [])
      × Perm (free close array).deleted (map (terminated close) array)
unfolding free
clean-free-sweep close array =
    let v = clean-IsSwept array in
    let u : IsSwept [] (map (terminated close) array) [] (free close array) =
      rw (close_all-map close [] array) (clean-IsSwept (map (terminated close) array)) in
    let all = those-terminated close array in
    (v.fine, v.left, v.gone, u.fine, Perm.eq-nil (rw all.1 at u.left), rw all.0 at u.gone)
