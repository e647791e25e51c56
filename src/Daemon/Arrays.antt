-- ===== src/Daemon/Arrays.antt =====
-- The arrays of lockers and of connections: what holds of their members after each change of one.
use flom.Prelude.{
  ℕ, zero, suc, ◌≡◌, ◌≢◌, refl, ap, subst, Bool, true, some, List, [], ◌∷◌, ◌++◌, length, get_elem?,
  set, All, arith,
}
use flom.Conns.{remove_index_fast, refill, last, drop_last}
use flom.Daemon.{Client, Locker, modify, check_lockers, is_open, sent_to, close_write, is_idle}

-- The locker at a place is open.
unfoldable pub OpenAt : ℕ → List Locker → Type 0
OpenAt i [] = ⊥
OpenAt zero (l ∷ ls) = is_open l ≡ true
OpenAt (suc i) (l ∷ ls) = OpenAt i ls

pub modify-All :
    (P : Locker → Type 0) (f : Locker → Locker)
    → ((l : Locker) → P l → P (f l))
    → (i : ℕ) (ls : List Locker) → All P ls
    → All P (modify i f ls)
unfolding modify
modify-All P f keeps i [] h = tt
modify-All P f keeps zero (l ∷ ls) h = (keeps l h.0, h.1)
modify-All P f keeps (suc i) (l ∷ ls) h = (h.0, modify-All P f keeps i ls h.1)

pub modify-All_open :
    (P : Locker → Type 0) (f : Locker → Locker)
    → ((l : Locker) → is_open l ≡ true → P l → P (f l))
    → (i : ℕ) (ls : List Locker) → OpenAt i ls
    → All P ls
    → All P (modify i f ls)
unfolding modify OpenAt
modify-All_open P f keeps i [] o h = tt
modify-All_open P f keeps zero (l ∷ ls) o h = (keeps l o h.0, h.1)
modify-All_open P f keeps (suc i) (l ∷ ls) o h = (h.0, modify-All_open P f keeps i ls o h.1)

pub sent_to-OpenAt :
    (c : Client) (i : ℕ) (ls : List Locker) → OpenAt i ls → OpenAt i (modify i (sent_to c) ls)
unfolding modify OpenAt
sent_to-OpenAt c i [] o = o
sent_to-OpenAt c zero (l ∷ ls) o = o
sent_to-OpenAt c (suc i) (l ∷ ls) o = sent_to-OpenAt c i ls o

pub new-OpenAt :
    (l : Locker) (ls : List Locker) → is_open l ≡ true → OpenAt (length ls) (ls ++ l ∷ [])
unfolding OpenAt
new-OpenAt l [] o = o
new-OpenAt l (x ∷ ls) o = new-OpenAt l ls o

pub check_lockers-All :
    (P : Locker → Type 0)
    → ((l : Locker) → is_idle l ≡ true → P l → P (close_write l))
    → (close : ℕ → Bool) (ls : List Locker) → All P ls
    → All P (check_lockers close ls).1.lockers
unfolding check_lockers
check_lockers-All P keeps close [] h = tt
check_lockers-All P keeps close (l ∷ ls) h =
    ground (arith, λ (e : is_idle l ≡ true). keeps l e h.0, check_lockers-All P keeps close ls h.1)

module _ {A : Type 0} (P : A → Type 0) where
  All-last : (x : A) (xs : List A) → P x → All P xs → P (last x xs) × All P (drop_last x xs)
  unfolding last drop_last
  All-last x [] p h = (p, tt)
  All-last x (y ∷ ys) p h = let rest = All-last y ys h.0 h.1 in (rest.0, (p, rest.1))

  pub All-refill : (xs : List A) → All P xs → All P (refill xs)
  unfolding refill
  All-refill [] h = tt
  All-refill (x ∷ xs) h = All-last x xs h.0 h.1

  pub All-remove_index_fast : (xs : List A) (i : ℕ) → All P xs → All P (remove_index_fast xs i)
  unfolding remove_index_fast
  All-remove_index_fast [] i h = tt
  All-remove_index_fast (x ∷ xs) zero h = All-refill xs h.1
  All-remove_index_fast (x ∷ xs) (suc i) h = (h.0, All-remove_index_fast xs i h.1)

  pub All-set : (xs : List A) (i : ℕ) (v : A) → P v → All P xs → All P (set xs i v)
  All-set [] i v p h = tt
  All-set (x ∷ xs) zero v p h = (p, h.1)
  All-set (x ∷ xs) (suc i) v p h = (h.0, All-set xs i v p h.1)

  pub All-get_elem? : (xs : List A) (i : ℕ) (v : A) → get_elem? xs i ≡ some v → All P xs → P v
  All-get_elem? [] i v e h = cc
  All-get_elem? (x ∷ xs) zero v e h = subst P (ground (arith, e)) h.0
  All-get_elem? (x ∷ xs) (suc i) v e h = All-get_elem? xs i v e h.1

  All-of_last : (x : A) (xs : List A) → P (last x xs) → All P (drop_last x xs) → P x × All P xs
  unfolding last drop_last
  All-of_last x [] p h = (p, tt)
  All-of_last x (y ∷ ys) p h = (h.0, All-of_last y ys p h.1)

  pub All-of_refill : (xs : List A) → All P (refill xs) → All P xs
  unfolding refill
  All-of_refill [] h = tt
  All-of_refill (x ∷ xs) h = All-of_last x xs h.0 h.1

  -- What holds of the others holds of each of them.
  pub All-others :
      (xs : List A) (i j : ℕ) (v : A)
      → All P (remove_index_fast xs i)
      → get_elem? xs j ≡ some v
      → j ≢ i
      → P v
  unfolding remove_index_fast
  All-others [] i j v h e other = cc
  All-others (x ∷ xs) zero zero v h e other = absurd (other refl)
  All-others (x ∷ xs) zero (suc j) v h e other = All-get_elem? xs j v e (All-of_refill xs h)
  All-others (x ∷ xs) (suc i) zero v h e other = subst P (ground (arith, e)) h.0
  All-others (x ∷ xs) (suc i) (suc j) v h e other =
      All-others xs i j v h.1 e (λ same. other (ap suc same))
