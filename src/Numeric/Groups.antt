-- ===== src/Numeric/Groups.antt =====
-- Repeated division of a 128-bit number by 10 ^ 9 gives its decimal print in five groups at most.
use php_duckdb.Prelude.{
  ℕ, zero, suc, ◌+◌, ◌*◌, ◌/◌, ◌%◌, ◌^◌, ◌<◌, ◌≡◌, inl, inr, refl, sym, ap, ◌∙◌, true, false, List,
  [], ◌∷◌, ◌++◌, some, arith, Bytes, All, ◌==◌, lt→ltb, Bool-cases,
}
use php_duckdb.Prelude.Bits.{high-or-low}
use php_duckdb.Prelude.Decimal.{
  decimal, emit, emit_padded, emit-emit_padded, emit-decimal, emit_padded-append,
}
use native.Mathlib.Nat.{pow-suc}
use php_duckdb.Numeric.{
  group_base, divide, any_nonzero, collect, padded_group, append_groups, join_groups,
  u128_to_string,
}

-- The number of limbs behind `acc`, most significant first.
abbrev pub number : ℕ → List ℕ → ℕ
number acc [] = acc
number acc (limb ∷ limbs) = number (acc * 2 ^ 32 + limb) limbs

abbrev pub IsLimb : ℕ → Type 0
IsLimb limb = limb < 2 ^ 32

-- One pass is a long division of `rem` followed by the limbs.
divide_lem :
    (rem acc : ℕ) (limbs : List ℕ)
    → rem < group_base
    → All IsLimb limbs
    → let r = divide rem limbs in
      (number acc r.0 * group_base + r.1 ≡ number (acc * group_base + rem) limbs)
      × (r.1 < group_base)
      × All IsLimb r.0
unfolding divide
divide_lem rem acc [] p h = (refl, p, tt)
divide_lem rem acc (limb ∷ limbs) p (l, h) =
    let joined = high-or-low 32 rem limb l in
    let cur = rem * 2 ^ 32 + limb in
    let q : cur / group_base % 2 ^ 32 ≡ cur / group_base = omega arith in
    let (e, low, small) =
      divide_lem (cur % group_base) (acc * 2 ^ 32 + cur / group_base) limbs (omega arith) h in
    rw (joined, q) (e ∙ ap (λ (t : ℕ). number t limbs) (omega arith), low, (omega arith, small))

number_pos : (acc : ℕ) (limbs : List ℕ) → 0 < acc → 0 < number acc limbs
number_pos acc [] p = p
number_pos acc (limb ∷ limbs) p = number_pos (acc * 2 ^ 32 + limb) limbs (omega arith)

any_nonzero-false :
    (acc : ℕ) (limbs : List ℕ) → acc ≡ 0 → any_nonzero limbs ≡ false → number acc limbs ≡ 0
any_nonzero-false acc [] z e = z
any_nonzero-false acc (limb ∷ limbs) z e =
    any_nonzero-false (acc * 2 ^ 32 + limb) limbs (ground arith) (ground arith)

any_nonzero-true : (acc : ℕ) (limbs : List ℕ) → any_nonzero limbs ≡ true → 0 < number acc limbs
any_nonzero-true acc [] e = cc
any_nonzero-true acc (limb ∷ limbs) e = elim (Bool-cases (limb == 0)) [
  | inl z ↦ any_nonzero-true (acc * 2 ^ 32 + limb) limbs (ground arith)
  | inr n ↦ number_pos (acc * 2 ^ 32 + limb) limbs (ground arith)
]

padded_group_lem :
    (g : ℕ) (out : Bytes) → g < group_base → padded_group g ++ out ≡ emit_padded 9 g out
unfolding padded_group
padded_group_lem g out h = rw (lt→ltb g group_base h) (sym (emit_padded-append 9 g [] out))

group_step :
    (q rem n : ℕ) (groups : List ℕ)
    → rem < group_base
    → 0 < q
    → q * group_base + rem ≡ n
    → emit q (append_groups (rem ∷ groups)) ≡ emit n (append_groups groups)
unfolding append_groups
group_step q rem n groups low p e =
    ap (emit q) (padded_group_lem rem (append_groups groups) low)
    ∙ emit-emit_padded 9 rem q (append_groups groups) low p
    ∙ ap (λ (t : ℕ). emit t (append_groups groups)) {x = rem + 10 ^ 9 * q} {y = n} (omega arith)

last_group :
    (q rem n : ℕ) (groups : List ℕ)
    → q ≡ 0
    → q * group_base + rem ≡ n
    → join_groups (rem ∷ groups) ≡ emit n (append_groups groups)
unfolding join_groups
last_group q rem n groups z e =
    sym (emit-decimal rem (append_groups groups))
    ∙ ap (λ (t : ℕ). emit t (append_groups groups)) {x = rem} {y = n} (omega arith)

collect_done :
    (room : ℕ) (limbs groups : List ℕ)
    → any_nonzero limbs ≡ false
    → collect room limbs groups ≡ some groups
unfolding collect
collect_done zero limbs groups e = rw e
collect_done (suc room) limbs groups e = rw e

-- With room for the digits, the groups that are collected print the number in front of what the
-- groups before them print.
collect_lem :
    (room : ℕ) (limbs groups : List ℕ)
    → All IsLimb limbs
    → 0 < number 0 limbs
    → number 0 limbs < group_base ^ room
    → (gs : List ℕ) × (collect room limbs groups ≡ some gs)
      × (join_groups gs ≡ emit (number 0 limbs) (append_groups groups))
unfolding collect
collect_lem zero limbs groups h p q = absurd (omega arith)
collect_lem (suc room) limbs groups h p q =
    let (quotients, rem) = divide 0 limbs in
    let (e, low, small) = divide_lem 0 0 limbs (omega arith) h in
    let more : any_nonzero limbs ≡ true = elim (Bool-cases (any_nonzero limbs)) [
      | inl t ↦ t
      | inr f ↦ absurd (omega (arith, any_nonzero-false 0 limbs refl f))
    ] in
    rw more (elim (Bool-cases (any_nonzero quotients)) [
      | inl t ↦
          let (gs, c, j) =
            collect_lem room quotients (rem ∷ groups) small (any_nonzero-true 0 quotients t)
              (omega (arith, e, pow-suc group_base room)) in
          (
            gs,
            c,
            j
                ∙ group_step (number 0 quotients) rem (number 0 limbs) groups low
                    (any_nonzero-true 0 quotients t) e,
          )
      | inr f ↦ (
        rem ∷ groups,
        collect_done room quotients (rem ∷ groups) f,
        last_group (number 0 quotients) rem (number 0 limbs) groups
            (any_nonzero-false 0 quotients refl f) e,
      )
    ])

-- The four limbs of a 128-bit number stand for it.
number_halves :
    (hi lo : ℕ)
    → number 0 ((hi / 2 ^ 32) ∷ (hi % 2 ^ 32) ∷ (lo / 2 ^ 32) ∷ (lo % 2 ^ 32) ∷ [])
      ≡ hi * 2 ^ 64 + lo
number_halves hi lo = omega arith

-- For all 64-bit halves the conversion keeps within its five groups and gives the decimal notation
-- of `hi * 2 ^ 64 + lo`.
pub u128_to_string-decimal :
    (hi lo : ℕ)
    → hi < 2 ^ 64
    → lo < 2 ^ 64
    → u128_to_string hi lo ≡ some (decimal (hi * 2 ^ 64 + lo))
unfolding u128_to_string
u128_to_string-decimal hi lo p q = elim (Bool-cases (hi == 0)) [
  | inl z ↦ rw z (ap (λ (t : ℕ). some (decimal t)) {x = lo} {y = hi * 2 ^ 64 + lo} (ground arith))
  | inr n ↦
      let limbs : List ℕ = (hi / 2 ^ 32) ∷ (hi % 2 ^ 32) ∷ (lo / 2 ^ 32) ∷ (lo % 2 ^ 32) ∷ [] in
      let (gs, c, j) =
        collect_lem 5 limbs [] (omega arith) (ground (arith, number_halves hi lo)) (omega arith) in
      rw (n, c) (ap some (j ∙ (unfold append_groups decimal in ap decimal (number_halves hi lo))))
]
