-- ===== src/Bignum/Limbs.antt =====
-- The decimal limbs: each pass over them multiplies the number that they stand for by 2 ^ 32 and
-- adds a word, with no overflow of the machine words.
use Prim.Native.Nat.{bit_or}
use php_duckdb.Prelude.{
  ℕ, zero, suc, ◌+◌, ◌-◌, ◌*◌, ◌/◌, ◌%◌, ◌^◌, ◌<◌, ◌≡◌, List, [], ◌∷◌, arith, ◌==◌, Bool-cases, inl,
  inr,
}
use php_duckdb.Prelude.Bits.{high-or-low}
use php_duckdb.Bignum.{decimal_base, push_rest, add_word}

abbrev pub limbs_value : List ℕ → ℕ
limbs_value [] = 0
limbs_value (d ∷ ds) = d + decimal_base * limbs_value ds

-- Every limb is below the base, and the limbs from any place on are not all zero.
abbrev pub IsCanonical : List ℕ → Type 0
IsCanonical [] = Unit {0}
IsCanonical (d ∷ ds) = (d < decimal_base) × (0 < d + decimal_base * limbs_value ds) × IsCanonical ds

push_rest-value : (fuel hi : ℕ) → hi < fuel → limbs_value (push_rest fuel hi) ≡ hi
unfolding push_rest
push_rest-value zero hi h = absurd (omega arith)
push_rest-value (suc fuel) hi h = ground (arith, push_rest-value fuel (hi / decimal_base))

push_rest-IsCanonical : (fuel hi : ℕ) → hi < fuel → IsCanonical (push_rest fuel hi)
unfolding push_rest
push_rest-IsCanonical zero hi h = absurd (omega arith)
push_rest-IsCanonical (suc fuel) hi h = elim (Bool-cases (hi == 0)) [
  | inl done ↦ rw done tt
  | inr more ↦ rw more (
    omega arith,
    ground (arith, push_rest-value fuel (hi / decimal_base)),
    push_rest-IsCanonical fuel (hi / decimal_base) (ground arith),
  )
]

-- One round: the limb and the carry share out `digit * 2 ^ 32 + hi`.
abbrev wide : ℕ → ℕ → ℕ
wide digit hi = bit_or (digit * 2 ^ 32) hi

abbrev carry : ℕ → ℕ → ℕ
carry digit hi = wide digit hi / decimal_base % 2 ^ 32

abbrev kept : ℕ → ℕ → ℕ
kept digit hi = (wide digit hi + 2 ^ 64 - decimal_base * carry digit hi) % 2 ^ 64 % 2 ^ 32

round_shares :
    (digit hi : ℕ)
    → digit < decimal_base
    → hi < 2 ^ 32
    → (kept digit hi + decimal_base * carry digit hi ≡ digit * 2 ^ 32 + hi)
      × (kept digit hi < decimal_base)
      × (carry digit hi < 2 ^ 32)
round_shares digit hi p q = omega (arith, high-or-low 32 digit hi q)

pub add_word-value :
    (hi : ℕ) (ds : List ℕ)
    → hi < 2 ^ 32
    → IsCanonical ds
    → limbs_value (add_word hi ds) ≡ limbs_value ds * 2 ^ 32 + hi
unfolding add_word
add_word-value hi [] q c = omega (arith, push_rest-value (suc hi) hi (omega arith))
add_word-value hi (d ∷ ds) q (p, _, c) =
    let (shared, _, small) = round_shares d hi p q in
    omega (arith, shared, add_word-value (carry d hi) ds small c)

pub add_word-IsCanonical :
    (hi : ℕ) (ds : List ℕ) → hi < 2 ^ 32 → IsCanonical ds → IsCanonical (add_word hi ds)
unfolding add_word
add_word-IsCanonical hi [] q c = push_rest-IsCanonical (suc hi) hi (omega arith)
add_word-IsCanonical hi (d ∷ ds) q (p, positive, c) =
    let (shared, low, small) = round_shares d hi p q in
    (
      low,
      omega (arith, shared, add_word-value (carry d hi) ds small c),
      add_word-IsCanonical (carry d hi) ds small c,
    )
