-- ===== src/Rsrc/Names.antt =====
-- The type of a resource and the number in its name: flom_rsrc_get_type, flom_rsrc_get_transactional and
-- flom_rsrc_get_number of src/flom_rsrc.c. The regular expressions are matched by the C library, so
-- whether a name matches, and the digits that the second group finds, are arguments.
pub mod Decimal
use Prim.Native.Char.{code}
use flom.Prelude.{
  String, Bool, true, false, ◌==◌, ℕ, ◌+◌, ◌-◌, ◌*◌, ◌%◌, ◌^◌, Option, none, some, List, [], ◌∷◌,
  ltb, if◌then◌else◌, take,
}
use flom.Prelude.Int.{ℤ, pos, sub_ℕ}
use flom.Rsrc.Types.{Rc}

pub data Number : Type 0 where
  number : ℤ → Number
  no_number : Rc → Number

-- The value of decimal digits, as strtol reads them; past LONG_MAX it stays there.
unfoldable pub decimal : ℕ → List ℕ → ℕ
decimal acc [] = acc
decimal acc (d ∷ ds) = decimal (acc * 10 + (d - 48)) ds

abbrev pub long_max : ℕ
long_max = 2 ^ 63 - 1

unfoldable pub strtol : List ℕ → ℕ
unfolding decimal
strtol ds = let v = decimal 0 ds in if ltb long_max v then long_max else v

-- A `long` assigned to a `gint` keeps its low 32 bits, read as a signed number.
unfoldable pub to_gint : ℕ → ℤ
to_gint n = let low = n % 2 ^ 32 in if ltb low (2 ^ 31) then pos low else sub_ℕ low (2 ^ 32)

-- The digits go through a buffer of 1000 bytes, one of them for the end.
unfoldable pub get_number : Option (List ℕ) → Number
unfolding strtol to_gint
get_number none = Number.no_number (Rc.other 128)
get_number (some ds) = Number.number (to_gint (strtol (take 999 ds)))

-- flom_rsrc_type_t
pub data RsrcType : Type 0 where
  null simple numeric set hier sequence timestamp : RsrcType

-- flom_rsrc_get_type: the first expression that the name matches.
unfoldable pub get_type : (RsrcType → String → Bool) → String → RsrcType
get_type matches name =
    if matches RsrcType.simple name
    then RsrcType.simple
    else if matches RsrcType.numeric name
    then RsrcType.numeric
    else if matches RsrcType.set name
    then RsrcType.set
    else if matches RsrcType.hier name
    then RsrcType.hier
    else if matches RsrcType.sequence name
    then RsrcType.sequence
    else if matches RsrcType.timestamp name
    then RsrcType.timestamp
    else RsrcType.null

-- 'S' == resource_name[1]
second_is_s : String → Bool
second_is_s (String.◌∷◌ a (String.◌∷◌ b rest)) = code b == b'S'
second_is_s other = false

is_sequence : RsrcType → Bool
is_sequence RsrcType.sequence = true
is_sequence other = false

-- flom_rsrc_get_transactional
unfoldable pub get_transactional : (RsrcType → String → Bool) → String → Bool
unfolding get_type second_is_s is_sequence
get_transactional matches name =
    if is_sequence (get_type matches name) then second_is_s name else false
