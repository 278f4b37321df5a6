-- ===== src/TypeGrammar/Progress.antt =====
-- The parser always answers: its rounds are enough for every declaration.
use php_duckdb.Prelude.{
  ℕ, zero, suc, ◌-◌, ◌≤◌, ◌<◌, ◌≡◌, ◌≢◌, refl, Bool, true, false, not, ◌&&◌, ◌||◌, List, [], ◌∷◌,
  ◌++◌, arith, Bytes, codes, length, ◌==◌, if◌then◌else◌, bytes_eq,
}
use php_duckdb.TypeLexer
use php_duckdb.TypeLexer.Progress.{tokenize-enough}
use php_duckdb.TypeLexer.{Token, word_kind, number_kind, Lexed, tokens, refused, tokenize}
use php_duckdb.TypeGrammar.{
  Problem, lexical, expected_time_zone, expected_char, expected_unit, out_of_rounds, Parsed, parsed,
  problem, and_then, at, next, upper, word, ident, need, member, type_name, starts_quoted,
  internal_types, dotted, precision, time_zone, national, varying, interval, to_unit, unit, head,
  parameter, has_fields, has_types, comma, continues, parameters, parenthesised, bracket, arrays,
  type, type_levels, Canonical, rejected, complete, canonicalize_tokens, canonicalize,
  character_names,
}

-- The exceptions of the grammar itself.
abbrev is_own : Problem → Bool
is_own out_of_rounds = false
is_own (lexical e) = false
is_own _ = true

-- An exception of the grammar, or at most so many tokens left.
abbrev pub Leaves : {A : Type 0} → ℕ → Parsed A → Type 0
Leaves count (parsed a ts) = length ts ≤ count
Leaves count (problem p) = is_own p ≡ true

and_then-Leaves :
    {A B : Type 0} (m n : ℕ) (r : Parsed A) (f : A → List Token → Parsed B)
    → Leaves m r
    → ((a : A) (ts : List Token) → length ts ≤ m → Leaves n (f a ts))
    → Leaves n (and_then r f)
and_then-Leaves m n (parsed a ts) f h k = k a ts h
and_then-Leaves m n (problem p) f h k = h

if-Leaves :
    {A : Type 0} (n : ℕ) (b : Bool) (r s : Parsed A)
    → (b ≡ true → Leaves n r)
    → (b ≡ false → Leaves n s)
    → Leaves n (if b then r else s)
if-Leaves n true r s h k = h refl
if-Leaves n false r s h k = k refl

next-le : (ts : List Token) → length (next ts) ≤ length ts
next-le [] = omega arith
next-le (t ∷ ts) = omega arith

-- A token that is there is taken.
next-lt :
    (kind n : ℕ) (ts : List Token) → at kind ts ≡ true → length ts ≤ suc n → length (next ts) ≤ n
next-lt kind n [] e h = cc
next-lt kind n (t ∷ ts) e h = omega arith

ident-Leaves : (n : ℕ) (ts : List Token) → length ts ≤ suc n → Leaves n (ident ts)
ident-Leaves n [] h = refl
ident-Leaves n (t ∷ ts) h =
    if-Leaves n (t.kind == word_kind) _ _ (λ e. omega arith)
      (λ e. if-Leaves n (t.kind == b'"') _ _ (λ e'. omega arith) (λ e'. refl))

weaken-Leaves : {A : Type 0} (m n : ℕ) (r : Parsed A) → m ≤ n → Leaves m r → Leaves n r
weaken-Leaves m n (parsed a ts) le h = omega arith
weaken-Leaves m n (problem p) le h = h

need-Leaves : (kind n : ℕ) (ts : List Token) → length ts ≤ suc n → Leaves n (need kind ts)
need-Leaves kind n ts h = if-Leaves n (at kind ts) _ _ (λ e. next-lt kind n ts e h) (λ e. refl)

type_name-Leaves : (n : ℕ) (ts : List Token) → length ts ≤ suc n → Leaves n (type_name ts)
type_name-Leaves n ts h = and_then-Leaves n n (ident ts) _ (ident-Leaves n ts h) (λ text ts' k.
    if-Leaves n (member (if starts_quoted text then text else upper text) internal_types) _ _
      (λ e. refl) (λ e. k))

dotted-Leaves : (n : ℕ) (ts : List Token) (name : Bytes) → length ts ≤ n → Leaves n (dotted name ts)
unfolding dotted
dotted-Leaves n [] name h = h
dotted-Leaves n (t ∷ []) name h = if-Leaves n (t.kind == b'.') _ _ (λ e. refl) (λ e. h)
dotted-Leaves n (t ∷ u ∷ ts) name h =
    if-Leaves n (t.kind == b'.') _ _
      (λ e.
        if-Leaves n (u.kind == word_kind) _ _ (λ e1. dotted-Leaves n ts _ (omega arith))
          (λ e1.
            if-Leaves n (u.kind == b'"') _ _ (λ e2. dotted-Leaves n ts _ (omega arith))
              (λ e2. refl)))
      (λ e. h)

-- The words that belong to a name are taken or left.
precision-Leaves :
    (n : ℕ) (name : Bytes) (ts : List Token) → length ts ≤ n → Leaves n (precision name ts)
precision-Leaves n name ts h =
    if-Leaves n (bytes_eq name (codes "DOUBLE") && word (codes "PRECISION") ts)
      (parsed (name ++ codes " PRECISION") (next ts)) (parsed name ts)
      (λ e. omega (arith, next-le ts)) (λ e. h)

time_zone-Leaves :
    (n : ℕ) (name : Bytes) (ts : List Token) → length ts ≤ n → Leaves n (time_zone name ts)
time_zone-Leaves n name ts h =
    let left : length (next (next (next ts))) ≤ n =
      omega (arith, next-le ts, next-le (next ts), next-le (next (next ts))) in
    if-Leaves n
      ((bytes_eq name (codes "TIME") || bytes_eq name (codes "TIMESTAMP"))
        && (word (codes "WITH") ts || word (codes "WITHOUT") ts))
      _ (parsed name ts)
      (λ e.
        if-Leaves n (not (word (codes "TIME") (next ts))) (problem expected_time_zone) _
          (λ e1. refl)
          (λ e1.
            if-Leaves n (not (word (codes "ZONE") (next (next ts)))) (problem expected_time_zone) _
              (λ e2. refl) (λ e2. left)))
      (λ e. h)

national-Leaves :
    (n : ℕ) (name : Bytes) (ts : List Token) → length ts ≤ n → Leaves n (national name ts)
national-Leaves n name ts h =
    let left : length (next ts) ≤ n = omega (arith, next-le ts) in
    if-Leaves n (bytes_eq name (codes "NATIONAL")) _ (parsed name ts)
      (λ e.
        if-Leaves n (not (word (codes "CHAR") ts) && not (word (codes "CHARACTER") ts))
          (problem expected_char) _ (λ e1. refl) (λ e1. left))
      (λ e. h)

varying-Leaves :
    (n : ℕ) (name : Bytes) (ts : List Token) → length ts ≤ n → Leaves n (varying name ts)
varying-Leaves n name ts h =
    if-Leaves n (member name character_names && word (codes "VARYING") ts)
      (parsed (name ++ codes " VARYING") (next ts)) (parsed name ts)
      (λ e. omega (arith, next-le ts)) (λ e. h)

to_unit-Leaves :
    (n : ℕ) (name : Bytes) (ts : List Token) → length ts ≤ n → Leaves n (to_unit name ts)
to_unit-Leaves n name ts h =
    let left : length (next (next ts)) ≤ n = omega (arith, next-le ts, next-le (next ts)) in
    if-Leaves n (word (codes "TO") ts) _ (parsed name ts)
      (λ e. if-Leaves n (not (unit (next ts))) (problem expected_unit) _ (λ e1. refl) (λ e1. left))
      (λ e. h)

interval-Leaves :
    (n : ℕ) (name : Bytes) (ts : List Token) → length ts ≤ n → Leaves n (interval name ts)
interval-Leaves n name ts h =
    if-Leaves n (bytes_eq name (codes "INTERVAL") && unit ts) _ (parsed name ts)
      (λ e. to_unit-Leaves n _ (next ts) (omega (arith, next-le ts))) (λ e. h)

head-Leaves : (n : ℕ) (ts : List Token) → length ts ≤ suc n → Leaves n (head ts)
head-Leaves n ts h =
    and_then-Leaves n n _ interval
      (and_then-Leaves n n _ varying
        (and_then-Leaves n n _ national
          (and_then-Leaves n n _ time_zone
            (and_then-Leaves n n _ precision
              (and_then-Leaves n n _ dotted (type_name-Leaves n ts h)
                (λ name ts'. dotted-Leaves n ts' name))
              (precision-Leaves n))
            (time_zone-Leaves n))
          (national-Leaves n))
        (varying-Leaves n))
      (interval-Leaves n)

-- A parser of types that takes at least one token.
abbrev Advances : (List Token → Parsed Bytes) → Type 0
Advances type = (n : ℕ) (ts : List Token) → length ts ≤ suc n → Leaves n (type ts)

parameter-Leaves :
    (type : List Token → Parsed Bytes) (base : Bytes) (n : ℕ) (ts : List Token)
    → Advances type
    → length ts ≤ suc n
    → Leaves n (parameter type base ts)
parameter-Leaves type base n ts adv h =
    if-Leaves n (has_fields base) _ _
      (λ e. and_then-Leaves n n (ident ts) _ (ident-Leaves n ts h) (λ field ts1 k.
        and_then-Leaves n n (type ts1) _ (adv n ts1 (omega arith)) (λ text ts2 l. l)))
      (λ e.
        if-Leaves n (has_types base) _ _
          (λ e1.
            if-Leaves n (at number_kind ts) _ _ (λ e2. next-lt number_kind n ts e2 h)
              (λ e2. adv n ts h))
          (λ e1.
            if-Leaves n (at b'\'' ts) _ _ (λ e2. next-lt b'\'' n ts e2 h)
              (λ e2.
                if-Leaves n (at number_kind ts) _ _ (λ e3. next-lt number_kind n ts e3 h)
                  (λ e3. refl))))

comma-Leaves :
    (first : Bool) (name : Bytes) (n : ℕ) (ts : List Token)
    → length ts ≤ n
    → Leaves n (comma first name ts)
comma-Leaves first name n ts h =
    if-Leaves n first _ _ (λ e. h)
      (λ e.
        and_then-Leaves n n (need b',' ts) _ (need-Leaves b',' n ts (omega arith)) (λ c ts' k. k))

continues-Leaves :
    (n : ℕ) (ts : List Token) (f : List Token → Parsed Bytes)
    → (0 < length ts → Leaves n (f ts))
    → Leaves n (continues ts f)
continues-Leaves n [] f h = refl
continues-Leaves n (t ∷ ts) f h = h (omega arith)

parameters-Leaves :
    (type : List Token → Parsed Bytes) (base : Bytes) (rounds n : ℕ) (first : Bool) (name : Bytes)
    (ts : List Token)
    → Advances type
    → length ts ≤ n
    → n < rounds
    → Leaves n (parameters type base rounds first name ts)
unfolding parameters
parameters-Leaves type base zero n first name ts adv h k = absurd (omega arith)
parameters-Leaves type base (suc rounds) n first name ts adv h k =
    if-Leaves n (at b')' ts) _ _
      (λ e. if-Leaves n first _ _ (λ e1. refl) (λ e1. omega (arith, next-le ts)))
      (λ e.
        and_then-Leaves n n (comma first name ts) _ (comma-Leaves first name n ts h)
          (λ name' ts1 h1.
            and_then-Leaves (n - 1) n (parameter type base ts1) _
              (parameter-Leaves type base (n - 1) ts1 adv (omega arith))
              (λ text ts2 h2. continues-Leaves n ts2 _ (λ some.
                weaken-Leaves (n - 1) n _ (omega arith) (
                  parameters-Leaves type base rounds (n - 1) false (name' ++ text) ts2 adv h2
                    (omega arith))))))

parenthesised-Leaves :
    (type : List Token → Parsed Bytes) (n : ℕ) (name : Bytes) (ts : List Token)
    → Advances type
    → length ts ≤ n
    → Leaves n (parenthesised type name ts)
parenthesised-Leaves type n name [] adv h = h
parenthesised-Leaves type n name (t ∷ ts) adv h =
    if-Leaves n (t.kind == b'(') _ _
      (λ e. weaken-Leaves (length ts) n _ (omega arith) (
        parameters-Leaves type name (suc (length ts)) (length ts) true _ ts adv (omega arith)
          (omega arith)))
      (λ e. h)

bracket-Leaves :
    (n : ℕ) (name : Bytes) (ts : List Token) → length ts ≤ n → Leaves n (bracket name ts)
bracket-Leaves n name ts h =
    if-Leaves n (at number_kind ts) _ _
      (λ e.
        and_then-Leaves n n (need b']' (next ts)) _
          (need-Leaves b']' n (next ts) (omega (arith, next-le ts))) (λ c ts' k. k))
      (λ e.
        and_then-Leaves n n (need b']' ts) _ (need-Leaves b']' n ts (omega arith)) (λ c ts' k. k))

arrays-Leaves :
    (levels n : ℕ) (name : Bytes) (ts : List Token)
    → length ts ≤ n
    → Leaves n (arrays levels name ts)
unfolding arrays
arrays-Leaves zero n name ts h = if-Leaves n (at b'[' ts) _ _ (λ e. refl) (λ e. h)
arrays-Leaves (suc levels) n name ts h =
    if-Leaves n (at b'[' ts) _ _
      (λ e.
        and_then-Leaves n n (bracket name (next ts)) _
          (bracket-Leaves n name (next ts) (omega (arith, next-le ts))) (arrays-Leaves levels n))
      (λ e. h)

type-Advances : (levels : ℕ) → Advances (type levels)
unfolding type
type-Advances zero n ts h = refl
type-Advances (suc levels) n ts h =
    and_then-Leaves n n _ (arrays levels)
      (and_then-Leaves n n (head ts) _ (head-Leaves n ts h)
        (λ name ts'. parenthesised-Leaves (type levels) n name ts' (type-Advances levels)))
      (arrays-Leaves levels n)

-- Neither the parameters nor the tokens ran out of rounds.
abbrev HasAnswered : Canonical → Type 0
HasAnswered c = (c ≢ rejected out_of_rounds) × (c ≢ rejected (lexical TypeLexer.out_of_rounds))

complete-HasAnswered : (n : ℕ) (r : Parsed Bytes) → Leaves n r → HasAnswered (complete r)
complete-HasAnswered n (problem out_of_rounds) h = absurd (cc)
complete-HasAnswered n (problem (lexical e)) h = absurd (cc)
complete-HasAnswered n (problem _) h = ((λ e. cc), (λ e. cc))
complete-HasAnswered n (parsed name []) h = ((λ e. cc), (λ e. cc))
complete-HasAnswered n (parsed name (t ∷ ts)) h = ((λ e. cc), (λ e. cc))

-- Every declaration, of any bytes, is made canonical or rejected for a reason of the source: neither the rounds over
-- the parameters nor those of the lexer run out.
pub canonicalize-answers :
    (declaration : Bytes)
    → (canonicalize declaration ≢ rejected out_of_rounds)
      × (canonicalize declaration ≢ rejected (lexical TypeLexer.out_of_rounds))
unfolding canonicalize
canonicalize-answers declaration =
    tokens_answer (tokenize declaration) (tokenize-enough declaration)
  where
    tokens_answer :
        (l : Lexed)
        → l ≢ refused TypeLexer.out_of_rounds
        → (canonicalize_tokens l ≢ rejected out_of_rounds)
          × (canonicalize_tokens l ≢ rejected (lexical TypeLexer.out_of_rounds))
    tokens_answer (refused e) h = ((λ x. cc), (λ x. h cc))
    tokens_answer (tokens ts) h =
        complete-HasAnswered (length ts) (type type_levels ts)
          (type-Advances type_levels (length ts) ts (omega arith))
