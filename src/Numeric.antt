-- ===== src/Numeric.antt =====
-- The number formatting of src/result.cpp: 128-bit integers and DECIMAL cells as text.
pub mod Groups
pub mod Signed
pub mod Scaled
mod Tests
use Prim.Native.Nat.{bit_or}
use php_duckdb.Prelude.{
  ℕ, zero, suc, ◌+◌, ◌-◌, ◌*◌, ◌/◌, ◌%◌, ◌^◌, Bool, true, false, not, ◌&&◌, ◌||◌, List, [], ◌∷◌,
  ◌++◌, Option, none, some, Bytes, codes, ltb, leb, ◌==◌, if◌then◌else◌, length, take, drop,
  replicate,
}
use php_duckdb.Prelude.Int.{ℤ, pos, negsuc}
use php_duckdb.Prelude.Decimal.{decimal, emit_padded}

abbrev pub group_base : ℕ
group_base = 1000000000

-- The pass `for (i = 3; i >= 0; i--)` over the limbs, which the list holds from `limbs[3]` down:
-- the quotients that are stored back, and the remainder that is left.
unfoldable pub divide : ℕ → List ℕ → List ℕ × ℕ
divide rem [] = ([], rem)
divide rem (limb ∷ limbs) =
    let cur = bit_or (rem * 2 ^ 32) limb in
    let (quotients, rem') = divide (cur % group_base) limbs in
    ((cur / group_base % 2 ^ 32) ∷ quotients, rem')

abbrev pub any_nonzero : List ℕ → Bool
any_nonzero [] = false
any_nonzero (limb ∷ limbs) = not (limb == 0) || any_nonzero limbs

-- `groups[5]` is filled from the least significant group on; the list holds the newest group first.
-- The first argument is the room that is left: `none` is a write behind the array.
unfoldable pub collect : ℕ → List ℕ → List ℕ → Option (List ℕ)
collect zero limbs groups = if any_nonzero limbs then none else some groups
collect (suc room) limbs groups =
    let (quotients, rem) = divide 0 limbs in
    let rest = collect room quotients (rem ∷ groups) in
    if any_nonzero limbs then rest else some groups

-- `snprintf(buf, sizeof(buf), "%09u", group)`.
unfoldable pub padded_group : ℕ → Bytes
unfolding emit_padded decimal
padded_group g = if ltb g group_base then emit_padded 9 g [] else decimal g

unfoldable pub append_groups : List ℕ → Bytes
unfolding padded_group
append_groups [] = []
append_groups (g ∷ groups) = padded_group g ++ append_groups groups

unfoldable pub join_groups : List ℕ → Bytes
unfolding append_groups decimal
join_groups [] = []
join_groups (g ∷ groups) = decimal g ++ append_groups groups

abbrev pub map_join : Option (List ℕ) → Option Bytes
map_join none = none
map_join (some groups) = some (join_groups groups)

-- `duckdb_u128_to_string(hi, lo)`.
unfoldable pub u128_to_string : ℕ → ℕ → Option Bytes
unfolding decimal collect join_groups
u128_to_string hi lo =
    if hi == 0
    then some (decimal lo)
    else map_join
        (collect 5 ((hi / 2 ^ 32) ∷ (hi % 2 ^ 32) ∷ (lo / 2 ^ 32) ∷ (lo % 2 ^ 32) ∷ []) [])

-- A `duckdb_hugeint` as bits: `upper` is the two's complement pattern of the signed upper half.
pub record Hugeint : Type 0 where
  pub upper : ℕ
  pub lower : ℕ

abbrev pub is_negative : ℕ → Bool
is_negative upper = leb (2 ^ 63) upper

-- `~lower + 1` and `~upper + (lo == 0)` in 64 bits.
abbrev pub negated_lo : Hugeint → ℕ
negated_lo v = (2 ^ 64 - 1 - v.lower + 1) % 2 ^ 64

abbrev pub negated_hi : Hugeint → ℕ
negated_hi v = (2 ^ 64 - 1 - v.upper + (if negated_lo v == 0 then 1 else 0)) % 2 ^ 64

abbrev pub with_minus : Option Bytes → Option Bytes
with_minus none = none
with_minus (some text) = some (b'-' ∷ text)

unfoldable pub hugeint_to_string : Hugeint → Option Bytes
unfolding u128_to_string
hugeint_to_string v =
    if is_negative v.upper
    then with_minus (u128_to_string (negated_hi v) (negated_lo v))
    else u128_to_string v.upper v.lower

unfoldable pub uhugeint_to_string : Hugeint → Option Bytes
unfolding u128_to_string
uhugeint_to_string v = u128_to_string v.upper v.lower

-- The cell of a DECIMAL, by its internal type.
pub data Unscaled : Type 0 where
  smallint integer bigint : ℤ → Unscaled
  hugeint : Hugeint → Unscaled

pub record Magnitude : Type 0 where
  pub negative : Bool
  pub hi : ℕ
  pub lo : ℕ

-- A signed word as its unsigned pattern.
abbrev pub to_u64 : ℤ → ℕ
to_u64 (pos n) = n
to_u64 (negsuc n) = 2 ^ 64 - suc n

abbrev pub negate_small : ℤ → Magnitude
negate_small (pos n) = record { negative = false; hi = 0; lo = n }
negate_small (negsuc n) = record { negative = true; hi = 0; lo = suc n }

abbrev pub negate_big : ℤ → Magnitude
negate_big (pos n) = record { negative = false; hi = 0; lo = n }
negate_big (negsuc n) = record {
  negative = true;
  hi = 0;
  lo = (2 ^ 64 - to_u64 (negsuc n)) % 2 ^ 64;
}

unfoldable pub magnitude : Unscaled → Magnitude
magnitude (smallint v) = negate_small v
magnitude (integer v) = negate_small v
magnitude (bigint v) = negate_big v
magnitude (hugeint v) =
    if is_negative v.upper
    then record { negative = true; hi = negated_hi v; lo = negated_lo v }
    else record { negative = false; hi = v.upper; lo = v.lower }

-- `if (digits.length() <= scale) digits.insert(0, scale - digits.length() + 1, '0');`
unfoldable pub fill_zeros : ℕ → Bytes → Bytes
fill_zeros scale digits =
    if leb (length digits) scale
    then replicate (scale - length digits + 1) b'0' ++ digits
    else digits

-- `digits.insert(digits.length() - scale, ".");`
unfoldable pub put_point : ℕ → Bytes → Bytes
put_point scale digits =
    let whole = length digits - scale in take whole digits ++ b'.' ∷ drop whole digits

unfoldable pub insert_point : ℕ → Bytes → Bytes
insert_point scale digits =
    if ltb 0 scale then put_point scale (fill_zeros scale digits) else digits

abbrev pub finish_decimal : Bool → ℕ → Option Bytes → Option Bytes
finish_decimal negative scale none = none
finish_decimal negative scale (some digits) =
    some (if negative then b'-' ∷ insert_point scale digits else insert_point scale digits)

-- `duckdb_decimal_render`, with the scale of the logical type.
unfoldable pub decimal_render : ℕ → Unscaled → Option Bytes
decimal_render scale v =
    let m = magnitude v in finish_decimal m.negative scale (u128_to_string m.hi m.lo)
