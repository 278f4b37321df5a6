-- ===== src/LogStorage/Text.antt =====
-- The scans: a record's strings are taken whole, or the record is refused, by the budget they share.
use php_duckdb.Prelude.{
  ℕ, zero, suc, ◌+◌, ◌-◌, ◌≤◌, ◌<◌, ◌≡◌, ◌≢◌, inl, inr, refl, ap, [], ◌∷◌, Option, none, some,
  arith, tests, Bytes, length, take, get_or, All, leb, Bool-cases,
}
use php_duckdb.LogStorage.{
  log_storage_max_bytes, Entry, Record, scan, log_string_length, or_empty, micros_or_zero, measure,
  make_entry,
}

-- A C string: the bytes in front of the terminator hold no NUL.
abbrev pub IsText : Option Bytes → Type 0
IsText none = Unit {0}
IsText (some s) = All (λ c. c ≢ 0) s

scan_whole :
    (s : Bytes) (remaining : ℕ)
    → All (λ c. c ≢ 0) s
    → length s ≤ remaining
    → scan s remaining ≡ length s
unfolding scan
scan_whole [] remaining h q = refl
scan_whole (c ∷ s) zero h q = absurd (omega arith)
scan_whole (c ∷ s) (suc remaining) (n, h) q = ground (arith, scan_whole s remaining h)

scan_short :
    (s : Bytes) (remaining : ℕ)
    → All (λ c. c ≢ 0) s
    → remaining < length s
    → (scan s remaining ≡ remaining) × (get_or s remaining 0 ≢ 0)
unfolding scan
scan_short [] remaining h q = absurd (omega arith)
scan_short (c ∷ s) zero (n, h) q = (refl, n)
scan_short (c ∷ s) (suc remaining) (n, h) q =
    let (e, f) = scan_short s remaining h (omega arith) in (ground arith, f)

get_or_end : (s : Bytes) → get_or s (length s) 0 ≡ 0
get_or_end [] = refl
get_or_end (c ∷ s) = get_or_end s

-- A string is measured exactly when it fits the room, and then whole.
log_string_length_whole :
    (s : Option Bytes) (remaining : ℕ)
    → IsText s
    → length (or_empty s) ≤ remaining
    → log_string_length s remaining ≡ some (length (or_empty s), remaining - length (or_empty s))
unfolding log_string_length
log_string_length_whole none remaining h q =
    ap (λ (t : ℕ). some (0, t)) {x = remaining} {y = remaining - 0} (omega arith)
log_string_length_whole (some s) remaining h q = rw (scan_whole s remaining h q, get_or_end s)

log_string_length_over :
    (s : Option Bytes) (remaining : ℕ)
    → IsText s
    → remaining < length (or_empty s)
    → log_string_length s remaining ≡ none
unfolding log_string_length
log_string_length_over none remaining h q = absurd (omega arith)
log_string_length_over (some s) remaining h q =
    let (e, f) = scan_short s remaining h q in ground arith

pub record IsRecord (r : Record) : Type 0 where
  pub level_text : IsText r.level
  pub kind_text : IsText r.kind
  pub message_text : IsText r.message

abbrev pub text_bytes : Record → ℕ
text_bytes r = length (or_empty r.level) + length (or_empty r.kind) + length (or_empty r.message)

abbrev pub lengths_of : Record → ℕ × ℕ × ℕ
lengths_of r = (length (or_empty r.level), length (or_empty r.kind), length (or_empty r.message))

-- The entry that holds a record whole.
abbrev pub whole_entry : Record → Entry
whole_entry r = record {
  timestamp = micros_or_zero r.timestamp;
  level = or_empty r.level;
  kind = or_empty r.kind;
  message = or_empty r.message;
}

module _ (entry_size : ℕ) (r : Record) (texts : IsRecord r) where
  pub measure_fits :
      entry_size + text_bytes r ≤ log_storage_max_bytes → measure entry_size r ≡ some (lengths_of r)
  unfolding measure
  measure_fits h =
      let room = log_storage_max_bytes - entry_size in
      let room' = room - length (or_empty r.level) in
      let room'' = room' - length (or_empty r.kind) in
      ground (
        arith,
        log_string_length_whole r.level room texts.level_text (omega arith),
        log_string_length_whole r.kind room' texts.kind_text (omega arith),
        log_string_length_whole r.message room'' texts.message_text (omega arith),
      )

  pub measure_over :
      entry_size ≤ log_storage_max_bytes
      → log_storage_max_bytes < entry_size + text_bytes r
      → measure entry_size r ≡ none
  unfolding measure
  measure_over small h =
      let room = log_storage_max_bytes - entry_size in
      let room' = room - length (or_empty r.level) in
      let room'' = room' - length (or_empty r.kind) in
      elim (Bool-cases (leb (length (or_empty r.level)) room)) [
        | inr over ↦
            ground (arith, log_string_length_over r.level room texts.level_text (ground arith))
        | inl fits ↦
            let level = log_string_length_whole r.level room texts.level_text (omega tests) in
            elim (Bool-cases (leb (length (or_empty r.kind)) room')) [
              | inr over' ↦
                  ground (
                    arith,
                    level,
                    log_string_length_over r.kind room' texts.kind_text (ground arith),
                  )
              | inl fits' ↦ ground (
                arith,
                level,
                log_string_length_whole r.kind room' texts.kind_text (omega tests),
                log_string_length_over r.message room'' texts.message_text (omega tests),
              )
            ]
      ]

take_all : (s : Bytes) → take (length s) s ≡ s
take_all [] = refl
take_all (c ∷ s) = ap (λ (t : Bytes). c ∷ t) (take_all s)

pub make_entry-whole_entry :
    (entry_size : ℕ) (r : Record) → make_entry entry_size r (lengths_of r) ≡ whole_entry r
unfolding make_entry
make_entry-whole_entry entry_size r =
    rw (take_all (or_empty r.level), take_all (or_empty r.kind), take_all (or_empty r.message))
