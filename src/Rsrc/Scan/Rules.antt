-- ===== src/Rsrc/Scan/Rules.antt =====
-- What the loop of the `waitings` functions keeps and reaches, from what one round does.
use mathlib.Core.List.{Perm, perm_middle}
use mathlib.Core.List.Perm
use flom.Prelude.{ℕ, suc, ◌+◌, ◌≤◌, length, ◌≡◌, refl, false, List, [], ◌∷◌, ◌++◌, map, arith, All}
use flom.Rsrc.Types.{Rc, is_ok}
use flom.Rsrc.Scan.{Scan, Step, continue, blocked, granted, failed, scan}

module _ {ℓ κ} {S : Type ℓ} where
  -- `P` holds after the round, however it ends.
  abbrev pub After : (S → Type κ) → Step S → Type κ
  After P (blocked s) = P s
  After P (granted s) = P s
  After P (failed rc s) = P s

  -- `P` holds after a round that blocks.
  abbrev pub IfBlocked : (S → Type κ) → Step S → Type κ
  IfBlocked P (blocked s) = P s
  IfBlocked P (granted s) = Unit
  IfBlocked P (failed rc s) = Unit

module _ {ℓ} {S : Type ℓ} where
  -- A round that fails has an error to report.
  abbrev pub IsHonest : Step S → Type 0
  IsHonest (blocked s) = Unit
  IsHonest (granted s) = Unit
  IsHonest (failed rc s) = is_ok rc ≡ false

  abbrev pub NoFailure : Step S → Type 0
  NoFailure (blocked s) = Unit
  NoFailure (granted s) = Unit
  NoFailure (failed rc s) = ⊥

module _ {ℓ} {S A : Type ℓ} (a : A) (rest : List A) (next : S → Scan S A) where
  continue-After :
      (P : S → Type 0) (r : Step S)
      → ((s : S) → P s → P (next s).state)
      → After P r
      → P (continue a rest next r).state
  continue-After P (blocked s) ih p = ih s p
  continue-After P (granted s) ih p = ih s p
  continue-After P (failed rc s) ih p = p

  continue-All :
      (Q : A → Type 0) (r : Step S)
      → ((s : S) → All Q (next s).queue)
      → Q a
      → All Q rest
      → All Q (continue a rest next r).queue
  continue-All Q (blocked s) ih q qs = (q, ih s)
  continue-All Q (granted s) ih q qs = ih s
  continue-All Q (failed rc s) ih q qs = qs

  continue-ok :
      (r : Step S)
      → ((s : S) → (next s).rc ≡ Rc.ok)
      → NoFailure r
      → (continue a rest next r).rc ≡ Rc.ok
  continue-ok (blocked s) ih f = ih s
  continue-ok (granted s) ih f = ih s
  continue-ok (failed rc s) ih f = absurd f

  continue-settled :
      (B : S → A → Type 0) (r : Step S)
      → ((s : S) → (next s).rc ≡ Rc.ok → All (B (next s).state) (next s).queue)
      → ((s : S) → B s a → B (next s).state a)
      → IfBlocked (λ s. B s a) r
      → IsHonest r
      → (continue a rest next r).rc ≡ Rc.ok
      → All (B (continue a rest next r).state) (continue a rest next r).queue
  continue-settled B (blocked s) ih stays b f e = (stays s b, ih s e)
  continue-settled B (granted s) ih stays b f e = ih s e
  continue-settled B (failed rc s) ih stays b f e = ground (arith, f, e)

module _ {ℓ} {S A : Type ℓ} (step : S → A → Step S) where
  pub scan-After :
      (P : S → Type 0) (Q : A → Type 0)
      → ((s : S) (a : A) → P s → Q a → After P (step s a))
      → (s : S) (queue : List A) → P s
      → All Q queue
      → P (scan step s queue).state
  unfolding scan
  scan-After P Q keeps s [] p q = p
  scan-After P Q keeps s (a ∷ rest) p q =
      continue-After a rest _ P (step s a) (λ s' p'. scan-After P Q keeps s' rest p' q.1)
        (keeps s a p q.0)

  -- What holds of all records of the queue holds of all that are left.
  pub scan-All :
      (Q : A → Type 0) (s : S) (queue : List A) → All Q queue → All Q (scan step s queue).queue
  unfolding scan
  scan-All Q s [] q = tt
  scan-All Q s (a ∷ rest) q =
      continue-All a rest _ Q (step s a) (λ s'. scan-All Q s' rest q.1) q.0 q.1

  pub scan-ok :
      ((s : S) (a : A) → NoFailure (step s a))
      → (s : S) (queue : List A) → (scan step s queue).rc ≡ Rc.ok
  unfolding scan
  scan-ok fine s [] = refl
  scan-ok fine s (a ∷ rest) =
      continue-ok a rest _ (step s a) (λ s'. scan-ok fine s' rest) (fine s a)

-- A budget of one unit for each record: `P` may use it up.
module _ {ℓ} {S A : Type ℓ} (step : S → A → Step S) (P : ℕ → S → Type 0)
    (spend : (b : ℕ) (s : S) (a : A) → P (suc b) s → After (P b) (step s a))
    (less : (b : ℕ) (s : S) → P b s → P 0 s) where
  continue-budget :
      (a : A) (rest : List A) (next : S → Scan S A) (b : ℕ) (r : Step S)
      → ((s : S) → P b s → P 0 (next s).state)
      → After (P b) r
      → P 0 (continue a rest next r).state
  continue-budget a rest next b (blocked s) ih p = ih s p
  continue-budget a rest next b (granted s) ih p = ih s p
  continue-budget a rest next b (failed rc s) ih p = less b s p

  pub scan-budget : (s : S) (queue : List A) → P (length queue) s → P 0 (scan step s queue).state
  unfolding scan
  scan-budget s [] p = p
  scan-budget s (a ∷ rest) p =
      continue-budget a rest _ (length rest) (step s a) (λ s'. scan-budget s' rest)
        (spend (length rest) s a p)

-- What `f` measures grows by one at most for each record that leaves the queue.
module _ {ℓ} {S : Type ℓ} where
  abbrev pub Grows : (S → ℕ) → ℕ → Step S → Type 0
  Grows f n (blocked s) = f s ≤ n
  Grows f n (granted s) = f s ≤ suc n
  Grows f n (failed rc s) = f s ≤ suc n

module _ {ℓ} {S A : Type ℓ} (step : S → A → Step S) (f : S → ℕ)
    (grows : (s : S) (a : A) → Grows f (f s) (step s a)) where
  continue-Grows :
      (a : A) (rest : List A) (next : S → Scan S A) (n : ℕ) (r : Step S)
      → ((s : S) → f (next s).state + length (next s).queue ≤ f s + length rest)
      → Grows f n r
      → f (continue a rest next r).state + length (continue a rest next r).queue
        ≤ n + suc (length rest)
  continue-Grows a rest next n (blocked s) ih g = omega (arith, ih s)
  continue-Grows a rest next n (granted s) ih g = omega (arith, ih s)
  continue-Grows a rest next n (failed rc s) ih g = omega arith

  pub scan-grows :
      (s : S) (queue : List A)
      → f (scan step s queue).state + length (scan step s queue).queue ≤ f s + length queue
  unfolding scan
  scan-grows s [] = omega arith
  scan-grows s (a ∷ rest) =
      continue-Grows a rest _ (f s) (step s a) (λ s'. scan-grows s' rest) (grows s a)

-- The loop by its first round.
module _ {ℓ} {S A : Type ℓ} (step : S → A → Step S) (s s' : S) (a : A) (rest : List A) where
  pub scan-granted : step s a ≡ granted s' → scan step s (a ∷ rest) ≡ scan step s' rest
  unfolding scan
  scan-granted h = rw h

  pub scan-failed :
      (rc : Rc)
      → step s a ≡ failed rc s'
      → scan step s (a ∷ rest) ≡ record { rc = rc; state = s'; queue = rest }
  unfolding scan
  scan-failed rc h = rw h

pub units {ℓ} : {A : Type ℓ} (xs : List A) → All (λ _. Unit {0}) xs
units [] = tt
units (x ∷ xs) = (tt, units xs)

-- No lost wake-up: once the loop ends well, all that is left is blocked by the state that is left, if
-- a round leaves what is blocked so.
module _ {ℓ} {S A : Type ℓ} (step : S → A → Step S) (Q : A → Type 0) (B : S → A → Type 0)
    (here : (s : S) (a : A) → IfBlocked (λ s'. B s' a) (step s a))
    (later : (s : S) (a b : A) → Q a → B s b → After (λ s'. B s' b) (step s a))
    (honest : (s : S) (a : A) → IsHonest (step s a)) where
  scan-stays :
      (a : A) (s : S) (queue : List A) → All Q queue → B s a → B (scan step s queue).state a
  scan-stays a s queue q b =
      scan-After step (λ s. B s a) Q (λ s a' p q'. later s a' a q' p) s queue b q

  pub scan-settled :
      (s : S) (queue : List A)
      → All Q queue
      → (scan step s queue).rc ≡ Rc.ok
      → All (B (scan step s queue).state) (scan step s queue).queue
  unfolding scan
  scan-settled s [] q e = tt
  scan-settled s (a ∷ rest) q e =
      continue-settled a rest _ B (step s a) (λ s'. scan-settled s' rest q.1)
        (λ s'. scan-stays a s' rest q.1) (here s a) (honest s a) e

-- No request is lost: what `f` lists of the state and what `g` lists of the queue are together the
-- same afterwards, if a round that grants moves the record over.
abbrev pub Moves {ℓ} :
    {S A : Type ℓ} {B : Type 0} → (S → List B) → (A → B) → S → A → Step S → Type 0
Moves f g s a (blocked s') = f s' ≡ f s
Moves f g s a (granted s') = f s' ≡ g a ∷ f s
Moves f g s a (failed rc s') = ⊥

module _ {ℓ} {S A : Type ℓ} {B : Type 0} (step : S → A → Step S) (f : S → List B) (g : A → B)
    (moves : (s : S) (a : A) → Moves f g s a (step s a)) where
  continue-perm :
      (a : A) (rest : List A) (next : S → Scan S A) (s : S) (r : Step S)
      → ((s : S) → Perm (f (next s).state ++ map g (next s).queue) (f s ++ map g rest))
      → Moves f g s a r
      → Perm
          (f (continue a rest next r).state ++ map g (continue a rest next r).queue)
          (f s ++ g a ∷ map g rest)
  continue-perm a rest next s (blocked s') ih m =
      Perm.trans (perm_middle _ _)
        (Perm.trans (Perm.cons (g a) (rw m at (ih s'))) (Perm.symm (perm_middle _ _)))
  continue-perm a rest next s (granted s') ih m =
      Perm.trans (rw m at (ih s')) (Perm.symm (perm_middle _ _))
  continue-perm a rest next s (failed rc s') ih m = elim m [ ]

  pub scan-perm :
      (s : S) (queue : List A)
      → Perm (f (scan step s queue).state ++ map g (scan step s queue).queue) (f s ++ map g queue)
  unfolding scan
  scan-perm s [] = Perm.refl _
  scan-perm s (a ∷ rest) = continue-perm a rest _ s (step s a) (λ s'. scan-perm s' rest) (moves s a)
