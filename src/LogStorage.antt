-- ===== src/LogStorage.antt =====
-- src/logging.cpp: a bounded buffer of log entries, written by DuckDB's threads and drained by PHP,
-- and the registration of such a buffer with a database (child Registry).
pub mod Text
pub mod Bounds
pub mod Account
pub mod Registry
mod Tests
use php_duckdb.Prelude.{
  ℕ, zero, suc, ◌+◌, ◌-◌, ◌*◌, ◌^◌, Bool, true, false, ◌||◌, List, [], ◌∷◌, ◌++◌, Option, none,
  some, Bytes, length, ltb, leb, ◌==◌, if◌then◌else◌, take, get_or,
}
use php_duckdb.Prelude.Int.{ℤ, pos}

abbrev pub log_storage_max_bytes : ℕ
log_storage_max_bytes = 8 * 1024 * 1024

abbrev pub long_max : ℕ
long_max = 2 ^ 63 - 1

pub record Entry : Type 0 where
  pub timestamp : ℤ
  pub level : Bytes
  pub kind : Bytes
  pub message : Bytes

-- `log_storage_state`, without its mutex: each operation below is one critical section.
pub record State : Type 0 where
  pub entries : List Entry
  pub capacity : ℕ
  pub bytes : ℕ
  pub dropped : ℕ

-- The counter stops at the greatest PHP integer.
unfoldable pub drop_one : State → State
drop_one s = if ltb s.dropped long_max then record s { dropped = suc s.dropped } else s

-- `while (length < remaining && value[length] != '\\0') ++length;` over the bytes in front of the
-- terminator.
unfoldable pub scan : Bytes → ℕ → ℕ
scan [] remaining = 0
scan (c ∷ s) zero = 0
scan (c ∷ s) (suc remaining) = let rest = scan s remaining in if c == 0 then 0 else suc rest

-- The length that is read and the room that is left, unless the string goes on behind the room.
unfoldable pub log_string_length : Option Bytes → ℕ → Option (ℕ × ℕ)
unfolding scan
log_string_length none remaining = some (0, remaining)
log_string_length (some value) remaining =
    let n = scan value remaining in if get_or value n 0 == 0 then some (n, remaining - n) else none

abbrev pub or_empty : Option Bytes → Bytes
or_empty none = []
or_empty (some value) = value

abbrev pub micros_or_zero : Option ℤ → ℤ
micros_or_zero none = pos 0
micros_or_zero (some micros) = micros

-- What DuckDB hands to the callback, with what happens around it: whether copying the strings
-- throws, whether `try_lock` gets the mutex, and whether `push_back` throws.
pub record Record : Type 0 where
  pub timestamp : Option ℤ
  pub level : Option Bytes
  pub kind : Option Bytes
  pub message : Option Bytes
  pub copy_throws : Bool
  pub locks : Bool
  pub push_throws : Bool

-- `sizeof(native_log_entry)` is the compiler's.
module _ (entry_size : ℕ) where
  unfoldable pub entry_bytes : Entry → ℕ
  entry_bytes e = entry_size + length e.level + length e.kind + length e.message

  -- The three scans share one budget.
  unfoldable pub measure : Record → Option (ℕ × ℕ × ℕ)
  measure r = elim (log_string_length r.level (log_storage_max_bytes - entry_size)) [
    | none ↦ none
    | some (level_length, left) ↦ (elim (log_string_length r.kind left) [
      | none ↦ none
      | some (kind_length, left') ↦ (elim (log_string_length r.message left') [
        | none ↦ none
        | some (message_length, left'') ↦ some (level_length, kind_length, message_length)
      ])
    ])
  ]

  unfoldable pub make_entry : Record → ℕ × ℕ × ℕ → Entry
  make_entry r (level_length, kind_length, message_length) = record {
    timestamp = micros_or_zero r.timestamp;
    level = take level_length (or_empty r.level);
    kind = take kind_length (or_empty r.kind);
    message = take message_length (or_empty r.message);
  }

  -- The loop that makes room for `bytes` more; `none` is `front()` of an empty queue.
  pub evict_loop : List Entry → ℕ → State → Option State
  unfolding entry_bytes drop_one
  evict_loop [] bytes s =
      if leb s.capacity 0 || ltb (log_storage_max_bytes - bytes) s.bytes
      then none
      else some (record s { entries = [] })
  evict_loop (e ∷ es) bytes s =
      let rest =
        evict_loop es bytes
          (drop_one (record s { entries = es; bytes = s.bytes - entry_bytes e })) in
      if leb s.capacity (length (e ∷ es)) || ltb (log_storage_max_bytes - bytes) s.bytes
      then rest
      else some (record s { entries = e ∷ es })

  unfoldable pub evict : ℕ → State → Option State
  unfolding evict_loop
  evict bytes s = evict_loop s.entries bytes s

  unfoldable pub push : Bool → Entry → State → State
  push throws e s =
      if throws
      then drop_one s
      else record s { entries = s.entries ++ e ∷ []; bytes = s.bytes + entry_bytes e }

  unfoldable pub store : Record → Entry → State → Option State
  store r e s =
      if r.locks
      then (elim (evict (entry_bytes e) s) [
        | none ↦ none
        | some s' ↦ some (push r.push_throws e s')
      ])
      else some (drop_one s)

  -- `log_storage_write`.
  unfoldable pub write : Record → State → Option State
  write r s = elim (measure r) [
    | none ↦ some (drop_one s)
    | some lengths ↦ if r.copy_throws then some (drop_one s) else store r (make_entry r lengths) s
  ]

-- `drain`: the entries move out in one critical section; the count of dropped ones stays.
unfoldable pub drain : State → List Entry × State
drain s = (s.entries, record s { entries = []; bytes = 0 })

-- The constructor of `LogStorage`: the capacity is a PHP integer.
pub data Refusal : Type 0 where
  already_initialized not_positive no_memory : Refusal

pub data Constructed : Type 0 where
  refused : Refusal → Constructed
  built : State → Constructed

abbrev pub positive_part : ℤ → ℕ
positive_part (pos n) = n
positive_part _ = 0

unfoldable pub construct : Bool → Bool → ℤ → Constructed
construct initialized allocates capacity =
    if initialized
    then refused already_initialized
    else if positive_part capacity == 0
    then refused not_positive
    else if allocates
    then built (record { entries = []; capacity = positive_part capacity; bytes = 0; dropped = 0 })
    else refused no_memory

abbrev pub dropped_count : State → ℕ
dropped_count s = s.dropped
