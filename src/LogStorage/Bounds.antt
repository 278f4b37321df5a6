-- ===== src/LogStorage/Bounds.antt =====
-- The buffer keeps within its capacity and its budget of bytes, and no write finds it empty when it
-- looks for an entry to drop.
use php_duckdb.Prelude.{
  ℕ, zero, suc, ◌+◌, ◌-◌, ◌≤◌, ◌<◌, ◌≡◌, ◌⊎◌, inl, inr, refl, sym, ap, ◌∙◌, Bool, true, false, not,
  ◌&&◌, ◌||◌, List, [], ◌∷◌, ◌++◌, Option, some, arith, tests, length, drop, length-append, ltb,
  leb, if◌then◌else◌, Bool-cases,
}
use Prim.Native.Nat.{min}
use mathlib.Core.Path.{subst}
use php_duckdb.LogStorage.Text.{
  IsRecord, text_bytes, whole_entry, measure_fits, measure_over, make_entry-whole_entry,
}
use php_duckdb.LogStorage.{
  log_storage_max_bytes, long_max, Entry, State, drop_one, Record, entry_bytes, evict_loop, evict,
  push, store, write,
}

abbrev pub total : ℕ → List Entry → ℕ
total entry_size [] = 0
total entry_size (e ∷ es) = entry_bytes entry_size e + total entry_size es

pub record IsValid (entry_size : ℕ) (s : State) : Type 0 where
  pub positive : 0 < s.capacity
  pub counted : length s.entries ≤ s.capacity
  pub summed : s.bytes ≡ total entry_size s.entries
  pub within : s.bytes ≤ log_storage_max_bytes
  pub dropped_fits : s.dropped ≤ long_max

-- No room yet for `bytes` more behind `es`.
abbrev pub IsFull : ℕ → ℕ → List Entry → ℕ → Type 0
IsFull entry_size capacity es bytes =
    (capacity ≤ length es) ⊎ (log_storage_max_bytes < total entry_size es + bytes)

-- What an eviction does: it drops the `gone` oldest entries, no more than it has to, and counts them.
pub record Evicts (entry_size : ℕ) (es : List Entry) (bytes : ℕ) (s : State) (r : Option State)
    : Type 0 where
  pub gone : ℕ
  pub after : State
  pub returns : r ≡ some after
  pub keeps : after.entries ≡ drop gone es
  pub same_capacity : after.capacity ≡ s.capacity
  pub sums : after.bytes ≡ total entry_size after.entries
  pub has_place : length after.entries < after.capacity
  pub has_room : after.bytes + bytes ≤ log_storage_max_bytes
  pub counts : after.dropped ≡ min long_max (s.dropped + gone)
  pub balance : length after.entries + gone ≡ length es
  pub needed : (j : ℕ) → j < gone → IsFull entry_size s.capacity (drop j es) bytes

below_suc {ℓ} :
    (P : ℕ → Type ℓ) (n : ℕ) → P zero → ((j : ℕ) → j < n → P (suc j)) → (j : ℕ) → j < suc n → P j
below_suc P n z s zero h = z
below_suc P n z s (suc j) h = s j (omega arith)

pub drop_one_lem :
    (s : State)
    → s.dropped ≤ long_max
    → ((drop_one s).entries ≡ s.entries)
      × ((drop_one s).capacity ≡ s.capacity)
      × ((drop_one s).bytes ≡ s.bytes)
      × ((drop_one s).dropped ≡ min long_max (s.dropped + 1))
unfolding drop_one
drop_one_lem s h = ground arith

module _ (entry_size : ℕ) where
  evict_loop-Evicts :
      (es : List Entry) (bytes : ℕ) (s : State)
      → 0 < s.capacity
      → s.bytes ≡ total entry_size es
      → bytes ≤ log_storage_max_bytes
      → s.dropped ≤ long_max
      → Evicts entry_size es bytes s (evict_loop entry_size es bytes s)
  unfolding evict_loop
  evict_loop-Evicts [] bytes s p e h d = record {
    gone = 0;
    after = record s { entries = [] };
    returns = ground arith;
    keeps = refl;
    same_capacity = refl;
    sums = e;
    has_place = p;
    has_room = omega arith;
    counts = omega arith;
    balance = refl;
    needed = λ j q. absurd (omega arith);
  }
  evict_loop-Evicts (x ∷ es) bytes s p e h d =
      elim (Bool-cases
        (leb s.capacity (suc (length es)) || ltb (log_storage_max_bytes - bytes) s.bytes)) [
          | inl full ↦
              let less = record s { entries = es; bytes = s.bytes - entry_bytes entry_size x } in
              let (_, same, left, more) = drop_one_lem less d in
              let below =
                evict_loop-Evicts es bytes (drop_one less) (omega arith) (omega arith) h
                  (omega arith) in
              record {
                gone = suc below.gone;
                after = below.after;
                returns = rw full below.returns;
                keeps = below.keeps;
                same_capacity = below.same_capacity ∙ same;
                sums = below.sums;
                has_place = below.has_place;
                has_room = below.has_room;
                counts = omega (arith, below.counts);
                balance = omega (arith, below.balance);
                needed =
                    below_suc (λ j. IsFull entry_size s.capacity (drop j (x ∷ es)) bytes) below.gone
                      (ground arith)
                      (λ j q.
                        subst (λ (c : ℕ). IsFull entry_size c (drop j es) bytes) same
                          (below.needed j q));
              }
          | inr fits ↦ record {
            gone = 0;
            after = record s { entries = x ∷ es };
            returns = rw fits;
            keeps = refl;
            same_capacity = refl;
            sums = e;
            has_place = ground arith;
            has_room = ground arith;
            counts = omega arith;
            balance = omega arith;
            needed = λ j q. absurd (omega arith);
          }
        ]

-- Whether a record ends up in the buffer: it fits the budget, and nothing stands in its way.
abbrev pub accepts : ℕ → Record → Bool
accepts entry_size r =
    leb (entry_size + text_bytes r) log_storage_max_bytes
    && (not r.copy_throws && (r.locks && not r.push_throws))

-- What a write does: `gone` old entries make room, the record's entry is put behind the rest if it is
-- accepted, and every entry that is lost, old or new, is counted.
pub record Writes (entry_size : ℕ) (r : Record) (s : State) (result : Option State) : Type 0 where
  pub gone : ℕ
  pub after : State
  pub returns : result ≡ some after
  pub valid : IsValid entry_size after
  pub keeps_capacity : after.capacity ≡ s.capacity
  pub behind : after.entries ≡ (
      if accepts entry_size r
      then drop gone s.entries ++ whole_entry r ∷ []
      else drop gone s.entries)
  pub counts :
      after.dropped ≡ min long_max (s.dropped + gone + (if accepts entry_size r then 0 else 1))
  pub balance :
      length after.entries + gone ≡ length s.entries + (if accepts entry_size r then 1 else 0)

total-append :
    (entry_size : ℕ) (es : List Entry) (e : Entry)
    → total entry_size (es ++ e ∷ []) ≡ total entry_size es + entry_bytes entry_size e
total-append entry_size [] e = omega arith
total-append entry_size (x ∷ es) e = omega (arith, total-append entry_size es e)

module _ (entry_size : ℕ) (r : Record) (s : State) (v : IsValid entry_size s) where
  drop_one-Writes : accepts entry_size r ≡ false → Writes entry_size r s (some (drop_one s))
  drop_one-Writes e =
      let (same, cap, sum, count) = drop_one_lem s v.dropped_fits in
      record {
        gone = 0;
        after = drop_one s;
        returns = refl;
        valid = record {
          positive = omega (arith, v.positive, cap);
          counted = omega (arith, ap length same, v.counted, cap);
          summed = omega (arith, v.summed, sum, ap (total entry_size) same);
          within = omega (arith, v.within, sum);
          dropped_fits = omega (arith, count);
        };
        keeps_capacity = cap;
        behind = rw e same;
        counts = rw e (omega (arith, count));
        balance = rw e (omega (arith, ap length same));
      }

  module _ (fits : entry_size + text_bytes r ≤ log_storage_max_bytes) where
    size : entry_bytes entry_size (whole_entry r) ≡ entry_size + text_bytes r
    unfolding entry_bytes
    size = omega arith

    made_room :
        Evicts entry_size s.entries
          (entry_bytes entry_size (whole_entry r))
          s
          (evict entry_size (entry_bytes entry_size (whole_entry r)) s)
    unfolding evict
    made_room =
        evict_loop-Evicts entry_size s.entries (entry_bytes entry_size (whole_entry r)) s v.positive
          v.summed (omega (arith, size)) v.dropped_fits

    pushed-Writes :
        accepts entry_size r ≡ true
        → Writes entry_size r s (some (push entry_size false (whole_entry r) made_room.after))
    unfolding push
    pushed-Writes a =
        let e = made_room in
        record {
          gone = e.gone;
          after = push entry_size false (whole_entry r) e.after;
          returns = refl;
          valid = record {
            positive = omega (arith, v.positive, e.same_capacity);
            counted =
                omega (arith, length-append e.after.entries (whole_entry r ∷ []), e.has_place);
            summed = omega (arith, e.sums, total-append entry_size e.after.entries (whole_entry r));
            within = omega (arith, e.has_room);
            dropped_fits = omega (arith, e.counts);
          };
          keeps_capacity = e.same_capacity;
          behind = rw (a, e.keeps);
          counts = rw a (omega (arith, e.counts));
          balance =
              rw a (omega (arith, length-append e.after.entries (whole_entry r ∷ []), e.balance));
        }

    thrown-Writes :
        accepts entry_size r ≡ false → Writes entry_size r s (some (drop_one made_room.after))
    thrown-Writes a =
        let e = made_room in
        let (same, cap, sum, count) = drop_one_lem e.after (omega (arith, e.counts)) in
        record {
          gone = e.gone;
          after = drop_one e.after;
          returns = refl;
          valid = record {
            positive = omega (arith, v.positive, e.same_capacity, cap);
            counted = omega (arith, ap length same, e.has_place, cap);
            summed = omega (arith, e.sums, sum, ap (total entry_size) same);
            within = omega (arith, e.has_room, sum);
            dropped_fits = omega (arith, count);
          };
          keeps_capacity = cap ∙ e.same_capacity;
          behind = rw a (same ∙ e.keeps);
          counts = rw a (omega (arith, count, e.counts));
          balance = rw a (omega (arith, ap length same, e.balance));
        }

    store-Writes :
        r.copy_throws ≡ false → Writes entry_size r s (store entry_size r (whole_entry r) s)
    unfolding store push
    store-Writes copied =
        let result = store entry_size r (whole_entry r) s in
        elim (Bool-cases r.locks) [
          | inr busy ↦
              let e : result ≡ some (drop_one s) = ground arith in
              subst (Writes entry_size r s) (sym e) (drop_one-Writes (ground arith))
          | inl owned ↦ elim (Bool-cases r.push_throws) [
            | inl throws ↦
                let e : result ≡ some (drop_one made_room.after) =
                  ground (arith, made_room.returns) in
                subst (Writes entry_size r s) (sym e) (thrown-Writes (ground arith))
            | inr pushes ↦
                let e : result ≡ some (push entry_size false (whole_entry r) made_room.after) =
                  ground (arith, made_room.returns) in
                subst (Writes entry_size r s) (sym e) (pushed-Writes (ground arith))
          ]
        ]

-- When an entry's fixed part is within the budget, the texts hold no NUL and the buffer is valid, a
-- write returns: it never looks for an entry to drop in an empty buffer. It keeps the buffer within
-- its capacity and budget, puts an accepted record whole behind what is left of the older entries,
-- and counts every entry that is lost, the new one included.
pub write-Writes :
    (entry_size : ℕ) (r : Record) (s : State)
    → entry_size ≤ log_storage_max_bytes
    → IsRecord r
    → IsValid entry_size s
    → Writes entry_size r s (write entry_size r s)
unfolding write
write-Writes entry_size r s small texts v =
    let result = write entry_size r s in
    elim (Bool-cases (leb (entry_size + text_bytes r) log_storage_max_bytes)) [
      | inr over ↦
          let e : result ≡ some (drop_one s) =
            ground (arith, measure_over entry_size r texts small) in
          subst (Writes entry_size r s) (sym e) (drop_one-Writes entry_size r s v (ground arith))
      | inl fits ↦
          let measured = measure_fits entry_size r texts (omega tests) in
          elim (Bool-cases r.copy_throws) [
            | inl throws ↦
                let e : result ≡ some (drop_one s) = ground (arith, measured) in
                subst (Writes entry_size r s) (sym e)
                  (drop_one-Writes entry_size r s v (ground arith))
            | inr copied ↦
                let made = make_entry-whole_entry entry_size r in
                let e : result ≡ store entry_size r (whole_entry r) s =
                  ground (arith, measured, ap (λ (t : Entry). store entry_size r t s) made) in
                subst (Writes entry_size r s) (sym e)
                  (store-Writes entry_size r s v (omega tests) copied)
          ]
    ]
