-- ===== src/Variant/Quote.antt =====
-- `quote` of src/variant_decode.cpp: a text as a string of JSON.
pub mod Utf8
use mathlib.Core.Path.{subst}
use php_duckdb.Prelude.{
  ℕ, zero, suc, ◌+◌, ◌-◌, ◌*◌, ◌/◌, ◌%◌, ◌<◌, ◌≡◌, inl, inr, refl, sym, true, ◌&&◌, ◌||◌, [], ◌∷◌,
  ◌++◌, append_assoc, Option, none, some, arith, Bytes, ltb, leb, ◌==◌, ==_iff, if◌then◌else◌,
  Bool-cases,
}

abbrev pub hex_digit : ℕ → ℕ
hex_digit d = if ltb d 10 then b'0' + d else b'a' + (d - 10)

abbrev pub backslash : ℕ
backslash = 92

-- One byte, with an escape where JSON asks for one.
abbrev pub escape : ℕ → Bytes
escape c =
    if c == b'"'
    then backslash ∷ b'"' ∷ []
    else if c == backslash
    then backslash ∷ backslash ∷ []
    else if c == 8
    then backslash ∷ b'b' ∷ []
    else if c == 12
    then backslash ∷ b'f' ∷ []
    else if c == 10
    then backslash ∷ b'n' ∷ []
    else if c == 13
    then backslash ∷ b'r' ∷ []
    else if c == 9
    then backslash ∷ b't' ∷ []
    else if ltb c 32
    then backslash ∷ b'u' ∷ b'0' ∷ b'0' ∷ hex_digit (c / 16) ∷ hex_digit (c % 16) ∷ []
    else c ∷ []

abbrev pub escaped : Bytes → Bytes
escaped [] = b'"' ∷ []
escaped (c ∷ s) = escape c ++ escaped s

-- `quote`.
unfoldable pub quote : Bytes → Bytes
quote s = b'"' ∷ escaped s

-- Strings of JSON by their grammar: where a reader of one is, inside an escape or not, with the hexadecimal
-- digits that are left and the number that those before make.
pub data Mode : Type 0 where
  plain escape_begun : Mode
  digits_left : ℕ → ℕ → Mode

abbrev digit_value : ℕ → Option ℕ
digit_value c =
    if leb b'0' c && leb c b'9'
    then some (c - b'0')
    else if leb b'a' c && leb c b'f'
    then some (c - b'a' + 10)
    else if leb b'A' c && leb c b'F'
    then some (c - b'A' + 10)
    else none

-- The byte that a short escape stands for.
abbrev short_escape : ℕ → Option ℕ
short_escape c =
    if c == b'"' || (c == backslash || c == b'/')
    then some c
    else if c == b'b'
    then some 8
    else if c == b'f'
    then some 12
    else if c == b'n'
    then some 10
    else if c == b'r'
    then some 13
    else if c == b't'
    then some 9
    else none

abbrev with_byte : ℕ → Option (Bytes × Bytes) → Option (Bytes × Bytes)
with_byte c none = none
with_byte c (some (s, rest)) = some (c ∷ s, rest)

abbrev or_none : Option ℕ → (ℕ → Option (Bytes × Bytes)) → Option (Bytes × Bytes)
or_none none f = none
or_none (some n) f = f n

-- The string that the bytes begin with, behind its opening quote, and the bytes behind its closing one. Bytes below
-- 32 stand in no string, and escapes above 7f are left to other readers.
unfoldable pub read_string : Mode → Bytes → Option (Bytes × Bytes)
read_string mode [] = none
read_string plain (c ∷ s) =
    let rest = read_string plain s in
    let escape = read_string escape_begun s in
    if c == b'"'
    then some ([], s)
    else if c == backslash
    then escape
    else if ltb c 32
    then none
    else with_byte c rest
read_string escape_begun (c ∷ s) =
    let rest = read_string plain s in
    let digits = read_string (digits_left 3 0) s in
    if c == b'u' then digits else or_none (short_escape c) (λ b. with_byte b rest)
read_string (digits_left zero n) (c ∷ s) =
    let rest = read_string plain s in
    or_none (digit_value c)
      (λ d. if ltb (16 * n + d) 128 then with_byte (16 * n + d) rest else none)
read_string (digits_left (suc k) n) (c ∷ s) =
    or_none (digit_value c) (λ d. read_string (digits_left k (16 * n + d)) s)

abbrev pub read_json_string : Bytes → Option (Bytes × Bytes)
read_json_string [] = none
read_json_string (c ∷ s) = if c == b'"' then read_string plain s else none

digit_value-hex_digit : (d : ℕ) → d < 16 → digit_value (hex_digit d) ≡ some d
digit_value-hex_digit d h = ground arith

-- What an escaped byte does to the reader, whatever stands behind it.
abbrev IsEscape : ℕ → Type 0
IsEscape c =
    (s rest out : Bytes)
    → read_string plain rest ≡ some (s, out)
    → read_string plain (escape c ++ rest) ≡ some (c ∷ s, out)

known-IsEscape : (k c : ℕ) → IsEscape k → (c == k) ≡ true → IsEscape c
known-IsEscape k c h e = subst IsEscape (sym ((==_iff c k).0 e)) h

quote-IsEscape : IsEscape b'"'
unfolding read_string
quote-IsEscape s rest out h = rw h

backslash-IsEscape : IsEscape backslash
unfolding read_string
backslash-IsEscape s rest out h = rw h

b-IsEscape : IsEscape 8
unfolding read_string
b-IsEscape s rest out h = rw h

f-IsEscape : IsEscape 12
unfolding read_string
f-IsEscape s rest out h = rw h

n-IsEscape : IsEscape 10
unfolding read_string
n-IsEscape s rest out h = rw h

r-IsEscape : IsEscape 13
unfolding read_string
r-IsEscape s rest out h = rw h

t-IsEscape : IsEscape 9
unfolding read_string
t-IsEscape s rest out h = rw h

control_escape :
    (c : ℕ)
    → ltb c 32 ≡ true
    → (s rest out : Bytes) → read_string plain rest ≡ some (s, out)
    → read_string plain
        (backslash ∷ b'u' ∷ b'0' ∷ b'0' ∷ hex_digit (c / 16) ∷ hex_digit (c % 16) ∷ rest)
      ≡ some (c ∷ s, out)
unfolding read_string
control_escape c e s rest out h =
    let n : 16 * (0 + c / 16) + c % 16 ≡ c = omega arith in
    let small : ltb c 128 ≡ true = ground arith in
    rw
      (
        digit_value-hex_digit (c / 16) (ground arith),
        digit_value-hex_digit (c % 16) (ground arith),
        h,
        n,
        small,
      )
      refl

any_byte-IsEscape : (c : ℕ) → IsEscape c
unfolding read_string
any_byte-IsEscape c = elim (Bool-cases (c == b'"')) [
  | inl e ↦ known-IsEscape b'"' c quote-IsEscape e
  | inr e0 ↦ elim (Bool-cases (c == backslash)) [
    | inl e ↦ known-IsEscape backslash c backslash-IsEscape e
    | inr e1 ↦ elim (Bool-cases (c == 8)) [
      | inl e ↦ known-IsEscape 8 c b-IsEscape e
      | inr e2 ↦ elim (Bool-cases (c == 12)) [
        | inl e ↦ known-IsEscape 12 c f-IsEscape e
        | inr e3 ↦ elim (Bool-cases (c == 10)) [
          | inl e ↦ known-IsEscape 10 c n-IsEscape e
          | inr e4 ↦ elim (Bool-cases (c == 13)) [
            | inl e ↦ known-IsEscape 13 c r-IsEscape e
            | inr e5 ↦ elim (Bool-cases (c == 9)) [
              | inl e ↦ known-IsEscape 9 c t-IsEscape e
              | inr e6 ↦ elim (Bool-cases (ltb c 32)) [
                | inl e ↦ λ s rest out h.
                    rw (e0, e1, e2, e3, e4, e5, e6, e) (control_escape c e s rest out h)
                | inr e ↦
                    λ s rest out h. rw (e0, e1, e2, e3, e4, e5, e6, e) (rw (e0, e1, e, h) refl)
              ]
            ]
          ]
        ]
      ]
    ]
  ]
]

escaped_read : (s rest : Bytes) → read_string plain (escaped s ++ rest) ≡ some (s, rest)
unfolding read_string
escaped_read [] rest = refl
escaped_read (c ∷ s) rest =
    rw (append_assoc (escape c) (escaped s) rest)
      (any_byte-IsEscape c s (escaped s ++ rest) rest (escaped_read s rest))

pub quoted_read : (s rest : Bytes) → read_json_string (quote s ++ rest) ≡ some (s, rest)
unfolding quote
quoted_read s rest = escaped_read s rest
