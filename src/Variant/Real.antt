-- ===== src/Variant/Real.antt =====
-- `real` of src/variant_decode.cpp: the text of a floating-point number in a geometry or in JSON.
use php_duckdb.Prelude.{
  ℕ, zero, suc, ◌-◌, Bool, true, ◌&&◌, [], ◌∷◌, ◌++◌, Option, none, some, Bytes, codes, length,
  take, drop, replicate, ltb, leb, if◌then◌else◌,
}
use php_duckdb.Prelude.Int.{ℤ, pos, negsuc}
use php_duckdb.Prelude.Decimal.{decimal}

-- What is asked of a number by its bits: its class, its sign, and what `zend_dtoa` gives for it, its
-- shortest digits, the place of the point and whether it is negative.
pub record Floats : Type 0 where
  pub is_nan : ℕ → Bool
  pub is_infinite : ℕ → Bool
  pub is_zero : ℕ → Bool
  pub has_sign : ℕ → Bool
  pub dtoa : ℕ → Option (Bytes × ℤ × Bool)

abbrev pub pred : ℤ → ℤ
pred (pos zero) = negsuc 0
pred (pos (suc n)) = pos n
pred (negsuc n) = negsuc (suc n)

-- `n >= -k` and `n < k`.
abbrev pub at_least_minus : ℕ → ℤ → Bool
at_least_minus k (pos n) = true
at_least_minus k (negsuc n) = ltb n k

abbrev pub below : ℕ → ℤ → Bool
below k (pos n) = ltb n k
below k (negsuc n) = true

-- The digits around a point at the place `point`.
unfoldable pub fixed : Bool → Bytes → ℤ → Bytes
fixed geometry digits (negsuc n) = codes "0." ++ replicate (suc n) b'0' ++ digits
fixed geometry digits (pos zero) = codes "0." ++ digits
fixed geometry digits (pos (suc n)) =
    if leb (length digits) (suc n)
    then digits ++ replicate (suc n - length digits) b'0' ++ (if geometry then [] else codes ".0")
    else take (suc n) digits ++ (b'.' ∷ drop (suc n) digits)

-- The exponent behind the `e`.
unfoldable pub exponent_text : Bool → ℤ → Bytes
exponent_text geometry (pos n) =
    (if geometry then b'+' ∷ [] else [])
    ++ (if geometry && ltb n 10 then b'0' ∷ [] else [])
    ++ decimal n
exponent_text geometry (negsuc n) =
    (b'-' ∷ (if geometry && ltb (suc n) 10 then b'0' ∷ [] else [])) ++ decimal (suc n)

unfoldable pub scientific : Bool → Bytes → ℤ → Bytes
scientific geometry [] exponent = []
scientific geometry (d ∷ []) exponent = d ∷ b'e' ∷ exponent_text geometry exponent
scientific geometry (d ∷ e ∷ digits) exponent =
    (d ∷ b'.' ∷ e ∷ digits) ++ (b'e' ∷ exponent_text geometry exponent)

abbrev pub is_fixed : Bool → ℤ → Bool
is_fixed geometry exponent =
    at_least_minus (if geometry then 4 else 6) exponent
    && below (if geometry then 16 else 21) exponent

abbrev pub with_sign : Bool → Bytes → Bytes
with_sign negative text = if negative then b'-' ∷ text else text

-- The text of digits, if there are any.
unfoldable pub from_digits : Bool → Option (Bytes × ℤ × Bool) → Option Bytes
from_digits geometry none = none
from_digits geometry (some ([], point, negative)) = none
from_digits geometry (some (d ∷ digits, point, negative)) =
    let exponent = pred point in
    some (
      with_sign negative (
        if is_fixed geometry exponent
        then fixed geometry (d ∷ digits) point
        else scientific geometry (d ∷ digits) exponent))

-- `real`; nothing stands for its exceptions.
unfoldable pub real : Floats → Bool → ℕ → Option Bytes
real f geometry x =
    if f.is_nan x
    then some (if geometry then codes "nan" else codes "NaN")
    else if f.is_infinite x
    then some (with_sign (f.has_sign x) (if geometry then codes "inf" else codes "Infinity"))
    else if f.is_zero x
    then some (with_sign (f.has_sign x) (if geometry then codes "0" else codes "0.0"))
    else from_digits geometry (f.dtoa x)
