-- ===== src/Msg/Numbers.antt =====
-- Integers in messages: printed by "%d", read by strtol and assigned to an int.
use flom.Prelude.{
  ℕ, zero, suc, ◌+◌, ◌-◌, ◌/◌, ◌%◌, ◌^◌, ◌≤◌, ◌<◌, ltb, leb, ◌==◌, ◌&&◌, ◌||◌, Bool, Bool-cases,
  inl, inr, ◌≡◌, refl, if◌then◌else◌, List, [], ◌∷◌, All, All-append, arith,
}
use flom.Prelude.Int.{ℤ, pos, negsuc}
use flom.Locker.{to_int}
use flom.Rsrc.Names.{decimal, long_max, to_gint}
use flom.Rsrc.Names.Decimal.{digits, decimal-digits}

-- "%d"; ten digits are enough for an int.
unfoldable pub print_int : ℤ → List ℕ
print_int (pos n) = digits 10 n
print_int (negsuc n) = 45 ∷ digits 10 (suc n)

-- "%hu"
unfoldable pub print_port : ℕ → List ℕ
print_port n = digits 5 n

abbrev is_digit : ℕ → Bool
is_digit c = leb 48 c && leb c 57

abbrev is_space : ℕ → Bool
is_space c = c == 32 || leb 9 c && leb c 13

unfoldable pub digits_of : List ℕ → List ℕ
digits_of [] = []
digits_of (c ∷ cs) = let rest = digits_of cs in if is_digit c then c ∷ rest else []

unfoldable pub skip_space : List ℕ → List ℕ
skip_space [] = []
skip_space (c ∷ cs) = let rest = skip_space cs in if is_space c then rest else c ∷ cs

-- strtol in base 10; past the range of a long it stays at its end.
abbrev minus : ℕ → ℤ
minus zero = pos 0
minus (suc n) = negsuc n

abbrev at_most : ℕ → ℕ → ℕ
at_most top v = if ltb top v then top else v

unfoldable pub signed : List ℕ → ℤ
signed [] = pos 0
signed (c ∷ cs) =
    if c == 45
    then minus (at_most (long_max + 1) (decimal 0 (digits_of cs)))
    else if c == 43
    then pos (at_most long_max (decimal 0 (digits_of cs)))
    else pos (at_most long_max (decimal 0 (digits_of (c ∷ cs))))

unfoldable pub strtol : List ℕ → ℤ
unfolding signed skip_space
strtol s = signed (skip_space s)

-- A long assigned to an in_port_t keeps its low 16 bits.
unfoldable pub to_port : ℤ → ℕ
to_port (pos n) = n % 2 ^ 16
to_port (negsuc n) = (2 ^ 64 - suc n) % 2 ^ 16

-- The range of an int.
abbrev pub IsInt : ℤ → Type 0
IsInt (pos n) = n < 2147483648
IsInt (negsuc n) = n < 2147483648

abbrev IsDigit : ℕ → Type 0
IsDigit c = (48 ≤ c) × (c ≤ 57)

digits-IsDigit : (fuel n : ℕ) → All IsDigit (digits fuel n)
unfolding digits
digits-IsDigit zero n = tt
digits-IsDigit (suc fuel) n = elim (Bool-cases (ltb n 10)) [
  | inl one_digit ↦ rw one_digit (ground (arith, one_digit))
  | inr more ↦ rw more (
      All-append IsDigit (digits fuel (n / 10)) ((48 + n % 10) ∷ []) (digits-IsDigit fuel (n / 10))
        (omega arith))
]

digits_of-digit : (cs : List ℕ) → All IsDigit cs → digits_of cs ≡ cs
unfolding digits_of
digits_of-digit [] h = refl
digits_of-digit (c ∷ cs) h = ground (arith, digits_of-digit cs h.1)

strtol-digits : (cs : List ℕ) → All IsDigit cs → strtol cs ≡ pos (at_most long_max (decimal 0 cs))
unfolding strtol decimal
strtol-digits [] h = refl
strtol-digits (c ∷ cs) h = ground (arith, digits_of-digit (c ∷ cs) h, h.0)

strtol-minus :
    (cs : List ℕ)
    → All IsDigit cs
    → strtol (45 ∷ cs) ≡ minus (at_most (long_max + 1) (decimal 0 cs))
unfolding strtol
strtol-minus cs h = rw (digits_of-digit cs h) refl

-- An int that is printed is read back.
pub strtol-print_int : (z : ℤ) → IsInt z → to_int (strtol (print_int z)) ≡ z
unfolding print_int to_int to_gint
strtol-print_int (pos n) h =
    rw (strtol-digits (digits 10 n) (digits-IsDigit 10 n), decimal-digits 10 n (omega (arith, h)))
      (ground (arith, h))
strtol-print_int (negsuc n) h =
    rw
      (
        strtol-minus (digits 10 (suc n)) (digits-IsDigit 10 (suc n)),
        decimal-digits 10 (suc n) (omega (arith, h)),
      )
      (ground (arith, h))

pub strtol-print_port : (n : ℕ) → n < 65536 → to_port (strtol (print_port n)) ≡ n
unfolding print_port to_port
strtol-print_port n h =
    rw (strtol-digits (digits 5 n) (digits-IsDigit 5 n), decimal-digits 5 n (omega (arith, h)))
      (ground (arith, h))
