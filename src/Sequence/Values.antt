-- ===== src/Sequence/Values.antt =====
-- The values of a sequence: flom_resource_sequence_get and what it does to the values in circulation.
use mathlib.Core.List.{
  Perm, Mem, Nodup, Nodup-cons, perm_middle, mem-cons_self, mem-cons_of_mem, mem-cons,
}
use mathlib.Core.List.Perm
use mathlib.Core.Logic.Or
use native.Mathlib.Bridge.{le_prop}
use flom.Prelude.{
  ℕ, suc, ◌+◌, ◌%◌, ◌≤◌, ◌<◌, ◌≡◌, refl, subst, ◌==◌, false, Option, none, some, List, [], ◌∷◌,
  ◌++◌, map, if◌then◌else◌, arith,
}
use flom.Sequence.{Sequence, guint_mod, fresh, take_back, get}

-- The values in use are distinct, positive and below the next one, and the counter does not wrap for
-- the next `b` values.
pub record Sound (b next : ℕ) (issued : List ℕ) : Type 0 where
  pub distinct : Nodup issued
  pub positive : (v : ℕ) → Mem v issued → 0 < v
  pub below : (v : ℕ) → Mem v issued → v < next
  pub started : 0 < next
  pub room : next + b < 4294967296

pub Sound-perm : (b next : ℕ) {xs ys : List ℕ} → Perm ys xs → Sound b next xs → Sound b next ys
Sound-perm b next p s = record {
  distinct = Perm.nodup (Perm.symm p) s.distinct;
  positive = λ v m. s.positive v ((Perm.mem_iff p).0 m);
  below = λ v m. s.below v ((Perm.mem_iff p).0 m);
  started = s.started;
  room = s.room;
}

pub Sound-tail : (b next x : ℕ) (xs : List ℕ) → Sound b next (x ∷ xs) → Sound b next xs
Sound-tail b next x xs s = record {
  distinct = (Nodup-cons.0 s.distinct).1;
  positive = λ v m. s.positive v (mem-cons_of_mem x m);
  below = λ v m. s.below v (mem-cons_of_mem x m);
  started = s.started;
  room = s.room;
}

pub Sound-less : (b c next : ℕ) (xs : List ℕ) → b ≤ c → Sound c next xs → Sound b next xs
Sound-less b c next xs h s = record {
  distinct = s.distinct;
  positive = s.positive;
  below = s.below;
  started = s.started;
  room = omega (arith, s.room);
}

Sound-fresh : (b next : ℕ) (xs : List ℕ) → Sound (suc b) next xs → Sound b (next + 1) (next ∷ xs)
Sound-fresh b next xs s = record {
  distinct = Nodup-cons.1 (λ m. omega (arith, s.below next m), s.distinct);
  positive = λ v m. Or.elim le_prop (mem-cons.0 m) (λ e. rw e s.started) (s.positive v);
  below =
      λ v m. Or.elim le_prop (mem-cons.0 m) (λ e. omega arith) (λ m. omega (arith, s.below v m));
  started = omega arith;
  room = omega (arith, s.room);
}

abbrev pub rolled : Option (List ℕ) → List ℕ
rolled none = []
rolled (some vs) = vs

-- The values that the holders have, and those that were rolled back.
abbrev pub values : Sequence → List ℕ
values r = map (λ cl. cl.info) r.holders ++ rolled r.rolled_back

-- The counter wraps past `guint_mod`, which is out of reach here.
fresh-Sound :
    (b : ℕ) (r : Sequence) (xs : List ℕ)
    → Sound (suc b) r.next_value xs
    → Sound b (fresh r).1.next_value ((fresh r).0 ∷ xs)
unfolding fresh
fresh-Sound b r xs s = rw nonzero (rw small (Sound-fresh b r.next_value xs s))
  where
    nonzero : (r.next_value == 0) ≡ false
    nonzero = ground (arith, s.started)

    small : (r.next_value + 1) % guint_mod ≡ r.next_value + 1
    small = omega (arith, s.room)

values-fresh : (r : Sequence) → values (fresh r).1 ≡ values r
unfolding fresh
values-fresh r = ground arith

take_back-Sound :
    (b : ℕ) (r : Sequence) (o : Option (List ℕ))
    → r.rolled_back ≡ o
    → Sound (suc b) r.next_value (values r)
    → Sound b (take_back r o).1.next_value ((take_back r o).0 ∷ values (take_back r o).1)
unfolding take_back
take_back-Sound b r none e s = rw values-fresh (fresh-Sound b r (values r) s)
take_back-Sound b r (some []) e s = rw values-fresh (fresh-Sound b r (values r) s)
take_back-Sound b r (some (v ∷ vs)) e s =
    rw nonzero (Sound-less b (suc b) _ _ (omega arith) (Sound-perm (suc b) _ (Perm.symm middle) s'))
  where
    infos : List ℕ
    infos = map (λ cl. cl.info) r.holders

    s' : Sound (suc b) r.next_value (infos ++ v ∷ vs)
    s' = subst (λ o. Sound (suc b) r.next_value (infos ++ rolled o)) e s

    middle : Perm (infos ++ v ∷ vs) (v ∷ infos ++ vs)
    middle = perm_middle infos vs

    nonzero : (v == 0) ≡ false
    nonzero = ground (arith, s'.positive v ((Perm.mem_iff middle).1 mem-cons_self))

-- A value that is handed out is new: it is none of those in use, and they stay distinct.
pub get-Sound :
    (b : ℕ) (r : Sequence)
    → Sound (suc b) r.next_value (values r)
    → Sound b (get r).1.next_value ((get r).0 ∷ values (get r).1)
unfolding get
get-Sound b r s = take_back-Sound b r r.rolled_back refl s

-- What `get` leaves as it is.
pub holders-get : (r : Sequence) → (get r).1.holders ≡ r.holders
unfolding get take_back fresh
holders-get r = ground arith

pub waitings-get : (r : Sequence) → (get r).1.waitings ≡ r.waitings
unfolding get take_back fresh
waitings-get r = ground arith

-- The next value that the counter gives, whether or not it is at 0.
abbrev pub ahead : ℕ → ℕ
ahead n = if n == 0 then 1 else n

pub ahead-get : (r : Sequence) → ahead (get r).1.next_value ≤ suc (ahead r.next_value)
unfolding get take_back fresh
ahead-get r = ground arith
