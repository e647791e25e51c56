-- ===== src/Rsrc/Scan.antt =====
-- The loop that the `waitings` functions of all the resources share: it peeks at place i of the queue,
-- pops the record if it can be locked, and goes on to i + 1 if it cannot.
pub mod Rules
use flom.Prelude.{
  ℕ, zero, suc, ◌<◌, ◌≡◌, refl, none, some, List, [], ◌∷◌, ◌++◌, append_assoc, append-nil, arith,
  length, get_elem?, erase_idx, length-append, get_elem?-append_length, get_elem?-length,
  erase_idx-append_length,
}
use flom.Rsrc.Types.{Rc}

-- What one round does to the state `S`: the record at hand stays, or it leaves the queue, with its
-- lock or with an error that ends the loop.
pub data Step {ℓ} (S : Type ℓ) : Type ℓ where
  blocked : S → Step S
  granted : S → Step S
  failed : Rc → S → Step S

pub record Scan {ℓ} (S A : Type ℓ) : Type ℓ where
  pub rc : Rc
  pub state : S
  pub queue : List A

module _ {ℓ} {S A : Type ℓ} where
  -- The loop, on fuel: `none` at place i is the `NULL == cl` that ends it.
  unfoldable pub waitings_loop : (S → A → Step S) → ℕ → ℕ → S → List A → Scan S A
  waitings_loop step zero i s queue = record { rc = Rc.internal_error; state = s; queue = queue }
  waitings_loop step (suc fuel) i s queue = elim (get_elem? queue i) [
    | none ↦ record { rc = Rc.ok; state = s; queue = queue }
    | some cl ↦ elim (step s cl) [
      | blocked s' ↦ waitings_loop step fuel (suc i) s' queue
      | granted s' ↦ waitings_loop step fuel i s' (erase_idx queue i)
      | failed rc s' ↦ record { rc = rc; state = s'; queue = erase_idx queue i }
    ]
  ]

  -- Each round looks at one more record, so one round for each and one for the end are enough.
  unfoldable pub run_waitings : (S → A → Step S) → S → List A → Scan S A
  run_waitings step s queue = waitings_loop step (suc (length queue)) 0 s queue

  -- The same by recursion on the queue.
  abbrev pub keep : A → Scan S A → Scan S A
  keep cl r = record r { queue = cl ∷ r.queue }

  abbrev pub continue : A → List A → (S → Scan S A) → Step S → Scan S A
  continue cl rest next (blocked s) = keep cl (next s)
  continue cl rest next (granted s) = next s
  continue cl rest next (failed rc s) = record { rc = rc; state = s; queue = rest }

  pub scan : (S → A → Step S) → S → List A → Scan S A
  scan step s [] = record { rc = Rc.ok; state = s; queue = [] }
  scan step s (cl ∷ rest) = continue cl rest (λ s'. scan step s' rest) (step s cl)

  abbrev behind : List A → Scan S A → Scan S A
  behind seen r = record r { queue = seen ++ r.queue }

  waitings_loop-scan :
      (step : S → A → Step S) (fuel : ℕ) (seen rest : List A) (s : S)
      → length rest < fuel
      → waitings_loop step fuel (length seen) s (seen ++ rest) ≡ behind seen (scan step s rest)
  unfolding waitings_loop scan
  waitings_loop-scan step zero seen rest s h = elim h [ ]
  waitings_loop-scan step (suc fuel) seen [] s h =
      ground (arith, append-nil seen, get_elem?-length seen)
  waitings_loop-scan step (suc fuel) seen (cl ∷ rest) s h =
      round (step s cl) refl (waitings_loop-scan step fuel)
    where
      Ih : Type ℓ
      Ih =
          (seen rest : List A) (s : S)
          → length rest < fuel
          → waitings_loop step fuel (length seen) s (seen ++ rest) ≡ behind seen (scan step s rest)

      round :
          (r : Step S)
          → step s cl ≡ r
          → Ih
          → waitings_loop step (suc fuel) (length seen) s (seen ++ cl ∷ rest)
            ≡ behind seen (scan step s (cl ∷ rest))
      round (blocked s') e ih = ground (
        arith,
        get_elem?-append_length seen rest cl,
        ih (seen ++ cl ∷ []) rest s',
        append_assoc seen (cl ∷ []) rest,
        append_assoc seen (cl ∷ []) (scan step s' rest).queue,
        length-append seen (cl ∷ []),
      )
      round (granted s') e ih = ground (
        arith,
        get_elem?-append_length seen rest cl,
        erase_idx-append_length seen rest cl,
        ih seen rest s',
      )
      round (failed rc s') e ih =
          ground (arith, get_elem?-append_length seen rest cl, erase_idx-append_length seen rest cl)

  -- The fuel is enough: the loop is the recursion on the queue.
  pub run_waitings-scan :
      (step : S → A → Step S) (s : S) (queue : List A)
      → run_waitings step s queue ≡ scan step s queue
  unfolding run_waitings
  run_waitings-scan step s queue =
      waitings_loop-scan step (suc (length queue)) [] queue s (omega arith)
