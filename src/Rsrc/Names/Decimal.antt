-- ===== src/Rsrc/Names/Decimal.antt =====
-- The number in a name, against a decimal printer.
use native.Mathlib.Nat.{pow-suc}
use flom.Prelude.{
  Bool-cases, inl, inr, ℕ, zero, suc, ◌+◌, ◌-◌, ◌*◌, ◌/◌, ◌%◌, ◌^◌, ◌≤◌, ◌<◌, ltb, if◌then◌else◌,
  ◌≡◌, refl, ap, some, List, [], ◌∷◌, ◌++◌, length, take, length-append, arith,
}
use flom.Prelude.Int.{pos, negsuc}
use flom.Rsrc.Names.{Number, decimal, strtol, to_gint, get_number}

-- The decimal digits of a number below 10 ^ fuel, as character codes.
unfoldable pub digits : ℕ → ℕ → List ℕ
digits zero n = []
digits (suc fuel) n =
    let rest = digits fuel (n / 10) in
    if ltb n 10 then (48 + n) ∷ [] else rest ++ (48 + n % 10) ∷ []

decimal-append :
    (acc : ℕ) (ds : List ℕ) (d : ℕ) → decimal acc (ds ++ d ∷ []) ≡ decimal acc ds * 10 + (d - 48)
unfolding decimal
decimal-append acc [] d = refl
decimal-append acc (x ∷ ds) d = decimal-append (acc * 10 + (x - 48)) ds d

shorter : (fuel n : ℕ) → n < 10 ^ suc fuel → n / 10 < 10 ^ fuel
shorter fuel n h = omega (arith, h, pow-suc 10 fuel)

pub decimal-digits : (fuel n : ℕ) → n < 10 ^ fuel → decimal 0 (digits fuel n) ≡ n
unfolding decimal digits
decimal-digits zero n h = omega (arith, h)
decimal-digits (suc fuel) n h = elim (Bool-cases (ltb n 10)) [
  | inl one_digit ↦ rw one_digit (omega arith)
  | inr more ↦
      rw (more, decimal-append, decimal-digits fuel (n / 10) (shorter fuel n h)) (omega arith)
]

length-digits : (fuel n : ℕ) → length (digits fuel n) ≤ fuel
unfolding digits
length-digits zero n = omega arith
length-digits (suc fuel) n = elim (Bool-cases (ltb n 10)) [
  | inl one_digit ↦ rw one_digit (omega arith)
  | inr more ↦ rw (more, length-append) (omega (arith, length-digits fuel (n / 10)))
]

take_all : (k : ℕ) (xs : List ℕ) → length xs ≤ k → take k xs ≡ xs
take_all zero [] h = refl
take_all zero (x ∷ xs) h = absurd (omega arith)
take_all (suc k) [] h = refl
take_all (suc k) (x ∷ xs) h = ap (◌∷◌ x) (take_all k xs (omega arith))

read_back : (n : ℕ) → n < 4294967296 → get_number (some (digits 10 n)) ≡ Number.number (to_gint n)
unfolding get_number strtol to_gint
read_back n h =
    rw
      (
        take_all 999 (digits 10 n) (omega (arith, length-digits 10 n)),
        decimal-digits 10 n (omega (arith, h)),
      )
      (ground (arith, h))

-- The number in a name, printed in decimal, is read back if it fits a gint; from 2^31 on, and below
-- 2^32, it is read as a negative quantity.
get_number-digits :
    (n k : ℕ)
    → n < 2147483648
    → k < 2147483648
    → (get_number (some (digits 10 n)) ≡ Number.number (pos n))
      × (get_number (some (digits 10 (2147483648 + k))) ≡ Number.number (negsuc (2147483647 - k)))
unfolding to_gint
get_number-digits n k small large = (
  rw (read_back n (omega (arith, small))) (ground (arith, small)),
  rw (read_back (2147483648 + k) (omega (arith, large))) (ground (arith, large)),
)
