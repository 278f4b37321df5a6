-- ===== src/TypedValue.antt =====
-- src/typed_value.cpp: `snapshot` and `duckdb_value_initialize`, the contents of a DuckDB\Value.
pub mod Snapshots
pub mod Acyclic
pub mod Initialize
mod Tests
use php_duckdb.Prelude.{
  ℕ, zero, suc, ◌+◌, ◌-◌, ◌*◌, ◌/◌, ◌%◌, ◌^◌, ◌≤◌, ◌<◌, ◌≡◌, ◌≢◌, ◌↔◌, ◌⊎◌, inl, inr, refl, sym, ap,
  ◌∙◌, Bool, true, false, not, ◌&&◌, ◌||◌, List, [], ◌∷◌, ◌++◌, append_assoc, append-nil, Option,
  none, some, arith, tests, Bytes, codes, length, take, drop, replicate, get_elem?, get_or, All,
  All-append, length-append, ltb, leb, ◌==◌, ==_iff, if◌then◌else◌, Bool-cases, Option-cases,
  lt→ltb, length-replicate, take-append, drop-append, replicate_shift, bytes_eq, has_prefix,
}
use php_duckdb.Prelude.Int.{ℤ}
use php_duckdb.TypeGrammar.{Problem, Canonical, canonical, rejected, canonicalize}

pub data Key : Type 0 where
  at_index : ℤ → Key
  at_name : Bytes → Key

-- PHP values: those that are copied as they are, and the others by their handles.
pub data Content : Type 0 where
  scalar array value_object interval date : ℕ → Content
  other_object resource : Content

-- A value, or a reference to one.
pub data Zval : Type 0 where
  held : Content → Zval
  reference : ℕ → Zval

abbrev pub Elements : Type 0
Elements = List (Key × Zval)

-- What PHP holds for the handles: the elements of an array, what a reference refers to, whether a typed value is
-- initialized, the parts of an interval, and the seconds and microseconds of a date, if that is initialized.
pub record Heap : Type 0 where
  pub elements : ℕ → Elements
  pub referent : ℕ → Content
  pub is_initialized : ℕ → Bool
  pub interval_of : ℕ → ℕ × ℕ × ℕ
  pub time_of : ℕ → Option (ℤ × ℕ)
  pub date_made : ℤ × ℕ → Bool

-- What a snapshot holds: an array by its own elements, a typed value by its handle, an interval and a date of its own.
mutual
  pub data Copy : Type 0 where
    a_scalar a_value : ℕ → Copy
    an_interval : ℕ × ℕ × ℕ → Copy
    a_date : ℤ × ℕ → Copy
    an_array : Copies → Copy

  pub data Copies : Type 0 where
    no_copies : Copies
    a_copy : Key → Copy → Copies → Copies

pub data Error : Type 0 where
  nesting_limit cyclic uninitialized_value uninitialized_date date_refused unsupported_object :
      Error
  unsupported_resource immutable : Error
  bad_type : Problem → Error

pub data Result (A : Type 0) : Type 0 where
  ok : A → Result A
  failed : Error → Result A

abbrev pub bind : {A B : Type 0} → Result A → (A → Result B) → Result B
bind (ok a) f = f a
bind (failed e) f = failed e

-- `ZVAL_DEREF`.
abbrev pub deref : Heap → Zval → Content
deref h (reference r) = h.referent r
deref h (held x) = x

abbrev pub is_seen : ℕ → List ℕ → Bool
is_seen a [] = false
is_seen a (b ∷ seen) = a == b || is_seen a seen

abbrev pub date_copy : Heap → Option (ℤ × ℕ) → Result Copy
date_copy h none = failed uninitialized_date
date_copy h (some t) = if h.date_made t then ok (a_date t) else failed date_refused

-- The loop over the elements of an array.
abbrev pub snapshot_elements : (Zval → Result Copy) → Elements → Result Copies
snapshot_elements inner [] = ok no_copies
snapshot_elements inner ((k, z) ∷ elements) =
    bind (inner z) (λ c. bind (snapshot_elements inner elements) (λ cs. ok (a_copy k c cs)))

-- The cases of a value, with the snapshot of elements inside an array.
abbrev pub snapshot_part : Heap → (List ℕ → Zval → Result Copy) → List ℕ → Content → Result Copy
snapshot_part h inner seen (scalar n) = ok (a_scalar n)
snapshot_part h inner seen (array a) =
    if is_seen a seen
    then failed cyclic
    else bind (snapshot_elements (inner (a ∷ seen)) (h.elements a)) (λ cs. ok (an_array cs))
snapshot_part h inner seen (value_object i) =
    if h.is_initialized i then ok (a_value i) else failed uninitialized_value
snapshot_part h inner seen (interval i) = ok (an_interval (h.interval_of i))
snapshot_part h inner seen (date i) = date_copy h (h.time_of i)
snapshot_part h inner seen other_object = failed unsupported_object
snapshot_part h inner seen resource = failed unsupported_resource

-- `snapshot`, by the levels that are left and the arrays that the value is inside.
unfoldable pub snapshot : Heap → ℕ → List ℕ → Zval → Result Copy
snapshot h zero seen z = failed nesting_limit
snapshot h (suc levels) seen z = snapshot_part h (snapshot h levels) seen (deref h z)

abbrev pub snapshot_levels : ℕ
snapshot_levels = 65

-- A DuckDB\Value: its canonical type, and its contents.
pub record Value : Type 0 where
  pub type : Option Bytes
  pub input : Option Copy

abbrev pub with_input : Bytes → Result Copy → Result Value
with_input type r = bind r (λ c. ok (record { type = some type; input = some c }))

abbrev pub with_type : Heap → Zval → Canonical → Result Value
with_type h z (rejected p) = failed (bad_type p)
with_type h z (canonical type) = with_input type (snapshot h snapshot_levels [] z)

abbrev pub when_new : Heap → Bytes → Zval → Option Bytes → Result Value
when_new h declaration z (some type) = failed immutable
when_new h declaration z none = with_type h z (canonicalize declaration)

-- `duckdb_value_initialize`: what the value becomes, or the error with which it stays as it is.
unfoldable pub initialize : Heap → Bytes → Zval → Value → Result Value
initialize h declaration z v = when_new h declaration z v.type
