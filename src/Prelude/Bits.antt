-- ===== src/Prelude/Bits.antt =====
-- Joining disjoint bit fields by `|` is addition, and a mask of low ones is a remainder.
use Prim.Native.Nat.{
  ℕ, zero, suc, ◌+◌, ◌-◌, ◌*◌, ◌/◌, ◌%◌, ◌^◌, ◌≤◌, ◌<◌, max, min, digits, bit_or, bit_and,
  bit_or-bitwise, bit_and-bitwise,
}
use mathlib.Core.Path.{◌≡◌, refl, sym, ◌∙◌, ap}
use mathlib.Core.Bool.{Bool, true, ◌&&◌}
use php_duckdb.Prelude.Tests.{◌==◌, ==_iff}
use native.Mathlib.Nat.{pow-zero, pow-suc, one-le-pow}
use native.Mathlib.Omega.{arith}

-- What the native operations mean is a recursion on fuel; any fuel that covers `a` serves.
module _ (pass : ℕ → ℕ) (digit : ℕ → ℕ → ℕ) where
  spare_fuel : (m n a b : ℕ) → a ≤ m → a ≤ n → digits pass digit m a b ≡ digits pass digit n a b
  spare_fuel zero zero zero b p q = refl
  spare_fuel zero (suc n) zero b p q = refl
  spare_fuel (suc m) zero zero b p q = refl
  spare_fuel (suc m) (suc n) zero b p q = refl
  spare_fuel zero n (suc a) b p q = absurd (omega arith)
  spare_fuel (suc m) zero (suc a) b p q = absurd (omega arith)
  spare_fuel (suc m) (suc n) (suc a) b p q =
      ap (λ (t : ℕ). t * 2 + digit (suc a % 2) (b % 2))
        (spare_fuel m n (suc a / 2) (b / 2) (omega arith) (omega arith))

pub or_halves : (a b : ℕ) → bit_or a b ≡ bit_or (a / 2) (b / 2) * 2 + max (a % 2) (b % 2)
or_halves zero b = omega (arith, bit_or-bitwise 0 b, bit_or-bitwise 0 (b / 2))
or_halves (suc a) b = omega (
  arith,
  bit_or-bitwise (suc a) b,
  bit_or-bitwise (suc a / 2) (b / 2),
  spare_fuel (λ x. x) max a (suc a / 2) (suc a / 2) (b / 2) (omega arith) (omega arith),
)

pub and_halves : (a b : ℕ) → bit_and a b ≡ bit_and (a / 2) (b / 2) * 2 + min (a % 2) (b % 2)
and_halves zero b = omega (arith, bit_and-bitwise 0 b, bit_and-bitwise 0 (b / 2))
and_halves (suc a) b = omega (
  arith,
  bit_and-bitwise (suc a) b,
  bit_and-bitwise (suc a / 2) (b / 2),
  spare_fuel (λ x. 0) min a (suc a / 2) (suc a / 2) (b / 2) (omega arith) (omega arith),
)

zero-bit_or : (b : ℕ) → bit_or 0 b ≡ b
zero-bit_or b = bit_or-bitwise 0 b

-- Induction on a bound, since each round halves the operand.
or_zero_below : (n a : ℕ) → a ≤ n → bit_or a 0 ≡ a
or_zero_below zero zero h = refl
or_zero_below zero (suc a) h = absurd (omega arith)
or_zero_below (suc n) zero h = refl
or_zero_below (suc n) (suc a) h =
    omega (arith, or_halves (suc a) 0, or_zero_below n (suc a / 2) (omega arith))

pub bit_or-zero : (a : ℕ) → bit_or a 0 ≡ a
bit_or-zero a = or_zero_below a a (omega arith)

and_zero_below : (n a : ℕ) → a ≤ n → bit_and a 0 ≡ 0
and_zero_below zero zero h = refl
and_zero_below zero (suc a) h = absurd (omega arith)
and_zero_below (suc n) zero h = refl
and_zero_below (suc n) (suc a) h =
    omega (arith, and_halves (suc a) 0, and_zero_below n (suc a / 2) (omega arith))

pub bit_and-zero : (a : ℕ) → bit_and a 0 ≡ 0
bit_and-zero a = and_zero_below a a (omega arith)

double : (q k : ℕ) → q * 2 ^ suc k ≡ 2 * (q * 2 ^ k)
double q k = omega (arith, ap (λ (t : ℕ). q * t) (pow-suc 2 k))

-- `(q << k) | r` and `r | (q << k)` for `r` of `k` bits.
pub high-or-low : (k q r : ℕ) → r < 2 ^ k → bit_or (q * 2 ^ k) r ≡ q * 2 ^ k + r
high-or-low zero q r h =
    let e : r ≡ 0 = omega arith in
    let s : q * 2 ^ 0 ≡ q = omega arith in
    omega (arith, ap (bit_or (q * 2 ^ 0)) e, bit_or-zero (q * 2 ^ 0))
high-or-low (suc k) q r h =
    let e : q * 2 ^ suc k / 2 ≡ q * 2 ^ k = omega (arith, double q k) in
    omega (
      arith,
      or_halves (q * 2 ^ suc k) r,
      double q k,
      ap (λ (t : ℕ). bit_or t (r / 2)) e,
      high-or-low k q (r / 2) (omega (arith, pow-suc 2 k)),
    )

pub low-or-high : (k q r : ℕ) → r < 2 ^ k → bit_or r (q * 2 ^ k) ≡ r + q * 2 ^ k
low-or-high zero q r h =
    let e : r ≡ 0 = omega arith in
    omega (arith, ap (λ (t : ℕ). bit_or t (q * 2 ^ 0)) e, zero-bit_or (q * 2 ^ 0))
low-or-high (suc k) q r h =
    let e : q * 2 ^ suc k / 2 ≡ q * 2 ^ k = omega (arith, double q k) in
    omega (
      arith,
      or_halves r (q * 2 ^ suc k),
      double q k,
      ap (bit_or (r / 2)) e,
      low-or-high k q (r / 2) (omega (arith, pow-suc 2 k)),
    )

and-fields : (k q r : ℕ) → r < 2 ^ k → bit_and (q * 2 ^ k + r) (2 ^ k - 1) ≡ r
and-fields zero q r h = omega (arith, bit_and-zero (q * 2 ^ 0 + r))
and-fields (suc k) q r h =
    let positive = one-le-pow k 2 (omega arith) in
    let e : (2 ^ suc k - 1) / 2 ≡ 2 ^ k - 1 = omega (arith, pow-suc 2 k) in
    let e' : (q * 2 ^ suc k + r) / 2 ≡ q * 2 ^ k + r / 2 = omega (arith, double q k) in
    omega (
      arith,
      and_halves (q * 2 ^ suc k + r) (2 ^ suc k - 1),
      pow-suc 2 k,
      double q k,
      ap (bit_and ((q * 2 ^ suc k + r) / 2)) e,
      ap (λ (t : ℕ). bit_and t (2 ^ k - 1)) e',
      and-fields k q (r / 2) (omega (arith, pow-suc 2 k)),
    )

-- `a & (2 ^ k - 1)`.
pub and-low_mask : (k a : ℕ) → bit_and a (2 ^ k - 1) ≡ a % 2 ^ k
and-low_mask k a =
    let positive = one-le-pow k 2 (omega arith) in
    let whole : a / 2 ^ k * 2 ^ k + a % 2 ^ k ≡ a = grind arith in
    ap (λ (t : ℕ). bit_and t (2 ^ k - 1)) (sym whole)
    ∙ and-fields k (a / 2 ^ k) (a % 2 ^ k) (grind arith)

-- The library has no law for the power of a sum.
pub pow-add : (b m n : ℕ) → b ^ (m + n) ≡ b ^ m * b ^ n
pow-add b m zero = let e : m + 0 ≡ m = omega arith in rw (e, pow-zero) (omega arith)
pow-add b m (suc n) =
    let e : m + suc n ≡ suc (m + n) = omega arith in
    rw (e, pow-suc b (m + n))
      (omega (
        arith,
        ap (λ (t : ℕ). t * b) (pow-add b m n),
        pow-suc b n,
        ap (λ (t : ℕ). b ^ m * t) (pow-suc b n),
      ))

-- A claim about every value of a small range, by evaluation.
pub holds_below : ℕ → (ℕ → Bool) → Bool
holds_below zero test = true
holds_below (suc n) test = test n && holds_below n test

pub holds_below→holds :
    (n : ℕ) (test : ℕ → Bool) → holds_below n test ≡ true → (x : ℕ) → x < n → test x ≡ true
unfolding holds_below
holds_below→holds zero test e x h = absurd (omega arith)
holds_below→holds (suc n) test e x h = ground (arith, holds_below→holds n test (ground arith) x)

-- `(b & 0x80) == 0` on a byte.
pub top_bit : (b : ℕ) → b < 256 → bit_and b 0x80 ≡ b / 128 * 128
unfolding holds_below
top_bit b h = (==_iff _ _).0 (holds_below→holds 256 (λ x. bit_and x 0x80 == x / 128 * 128) refl b h)

pub high_bits : (b : ℕ) → b < 256 → bit_and b 0xf0 ≡ b / 16 * 16
unfolding holds_below
high_bits b h = (==_iff _ _).0 (holds_below→holds 256 (λ x. bit_and x 0xf0 == x / 16 * 16) refl b h)
