-- ===== src/Cells/Uuid.antt =====
-- UUID cells: the text holds the hexadecimal digits of the stored number, with its top bit flipped.
use php_duckdb.Prelude.{
  ℕ, zero, suc, ◌+◌, ◌-◌, ◌*◌, ◌/◌, ◌%◌, ◌^◌, ◌<◌, ◌≡◌, sym, ap, ◌∙◌, [], ◌∷◌, ◌++◌, append_assoc,
  append-nil, arith, Bytes, ltb, ◌==◌, if◌then◌else◌,
}
use native.Mathlib.Nat.{pow-suc}
use php_duckdb.Numeric.{Hugeint}
use php_duckdb.Numeric.Signed.{IsHugeint}
use php_duckdb.Cells.Scalar.{hex_digit, hex, flip_top, uuid_to_string}

-- The reader of hexadecimal digits, which skips dashes.
abbrev pub digit_of : ℕ → ℕ
digit_of c = if ltb c b'a' then c - b'0' else c - b'a' + 10

unfoldable pub read_hex : ℕ → Bytes → ℕ
read_hex acc [] = acc
read_hex acc (c ∷ s) = if c == b'-' then read_hex acc s else read_hex (acc * 16 + digit_of c) s

digit_step :
    (d acc : ℕ) (rest : Bytes)
    → d < 16
    → read_hex acc (hex_digit d ∷ rest) ≡ read_hex (acc * 16 + d) rest
unfolding read_hex
digit_step d acc rest h = grind arith

scale_step : (a p : ℕ) → a * (16 * p) ≡ a * p * 16
scale_step a p = ground (arith)

hex_step :
    (w n acc : ℕ) (rest : Bytes)
    → n < 16 ^ w
    → read_hex acc (hex w n ++ rest) ≡ read_hex (acc * 16 ^ w + n) rest
unfolding hex
hex_step zero n acc rest h =
    ap (λ (t : ℕ). read_hex t rest) {x = acc} {y = acc * 16 ^ 0 + n} (ground arith)
hex_step (suc w) n acc rest h =
    let low : n / 16 < 16 ^ w = omega (arith, pow-suc 16 w) in
    let e : (acc * 16 ^ w + n / 16) * 16 + n % 16 ≡ acc * 16 ^ suc w + n =
      omega (arith, ap (λ (t : ℕ). acc * t) (pow-suc 16 w), scale_step acc (16 ^ w)) in
    rw (
      append_assoc (hex w (n / 16)) (hex_digit (n % 16) ∷ []) rest,
      hex_step w (n / 16) acc (hex_digit (n % 16) ∷ rest) low,
      digit_step (n % 16) (acc * 16 ^ w + n / 16) rest (omega arith),
      e,
    )

group_step :
    (w n acc : ℕ) (rest : Bytes)
    → n < 16 ^ w
    → read_hex acc (hex w n ++ b'-' ∷ rest) ≡ read_hex (acc * 16 ^ w + n) rest
unfolding read_hex
group_step w n acc rest h = hex_step w n acc (b'-' ∷ rest) h

last_step : (w n acc : ℕ) → n < 16 ^ w → read_hex acc (hex w n) ≡ acc * 16 ^ w + n
unfolding read_hex
last_step w n acc h =
    let e : hex w n ++ [] ≡ hex w n = append-nil (hex w n) in
    ap (read_hex acc) (sym e) ∙ hex_step w n acc [] h

flip_top-le : (upper : ℕ) → upper < 2 ^ 64 → flip_top upper < 2 ^ 64
flip_top-le upper h = ground arith

-- For two 64-bit halves the hexadecimal digits of the text of a UUID, read as one number without the
-- dashes, give the stored number with its top bit flipped.
pub uuid_to_string-read :
    (v : Hugeint)
    → IsHugeint v
    → read_hex 0 (uuid_to_string v) ≡ flip_top v.upper * 2 ^ 64 + v.lower
unfolding uuid_to_string
uuid_to_string-read v f =
    let u : ℕ = flip_top v.upper in
    let h : u < 2 ^ 64 = flip_top-le v.upper f.upper_fits in
    let l : v.lower < 2 ^ 64 = f.lower_fits in
    group_step 8 (u / 2 ^ 32) 0 _ (omega arith)
    ∙ group_step 4 (u / 2 ^ 16 % 2 ^ 16) _ _ (omega arith)
    ∙ group_step 4 (u % 2 ^ 16) _ _ (omega arith)
    ∙ group_step 4 (v.lower / 2 ^ 48) _ _ (omega arith)
    ∙ hex_step 4 (v.lower / 2 ^ 32 % 2 ^ 16) _ _ (omega arith)
    ∙ last_step 8 (v.lower % 2 ^ 32) _ (omega arith)
    ∙ omega arith
