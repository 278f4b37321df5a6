-- ===== src/LogStorage/Account.antt =====
-- Histories of writes and drains: every record that was written is drained, still there, or counted
-- as dropped.
use php_duckdb.Prelude.{
  ℕ, suc, ◌+◌, ◌≤◌, ◌≡◌, refl, ap, List, [], ◌∷◌, ◌++◌, Option, none, some, arith, length,
  length-append,
}
use php_duckdb.LogStorage.{log_storage_max_bytes, long_max, Entry, State, Record, write, drain}
use php_duckdb.LogStorage.Text.{IsRecord}
use php_duckdb.LogStorage.Bounds.{IsValid, Writes, write-Writes}

-- What happens to the buffer, in the order in which its mutex is taken.
pub data Event : Type 0 where
  writes : Record → Event
  drains : Event

-- What the drains returned, in order, and the state that is left; `none` if a write is undefined.
unfoldable pub run : ℕ → List Event → State → Option (List Entry × State)
run entry_size [] s = some ([], s)
run entry_size (writes r ∷ events) s = elim (write entry_size r s) [
  | none ↦ none
  | some s' ↦ run entry_size events s'
]
run entry_size (drains ∷ events) s = elim (run entry_size events (drain s).1) [
  | none ↦ none
  | some (later, s') ↦ some ((drain s).0 ++ later, s')
]

abbrev pub written : List Event → ℕ
written [] = 0
written (writes r ∷ events) = suc (written events)
written (drains ∷ events) = written events

abbrev pub IsHistory : List Event → Type 0
IsHistory [] = Unit {0}
IsHistory (writes r ∷ events) = IsRecord r × IsHistory events
IsHistory (drains ∷ events) = IsHistory events

pub record Accounts (entry_size : ℕ) (events : List Event) (s : State) : Type 0 where
  pub drained : List Entry
  pub after : State
  pub returns : run entry_size events s ≡ some (drained, after)
  pub valid : IsValid entry_size after
  pub nothing_lost :
      length drained + length after.entries + after.dropped
      ≡ length s.entries + s.dropped + written events

drain-IsValid : (entry_size : ℕ) (s : State) → IsValid entry_size s → IsValid entry_size (drain s).1
unfolding drain
drain-IsValid entry_size s v = record {
  positive = v.positive;
  counted = omega arith;
  summed = refl;
  within = omega arith;
  dropped_fits = v.dropped_fits;
}

drain_lem :
    (s : State)
    → ((drain s).0 ≡ s.entries)
      × (length (drain s).1.entries ≡ 0)
      × ((drain s).1.dropped ≡ s.dropped)
unfolding drain
drain_lem s = (refl, refl, refl)

-- From a valid buffer, with texts that hold no NUL and so few records in all that the counter of
-- dropped ones does not reach its limit, a history of writes and drains in any order runs without a
-- fault and keeps the buffer valid, and the records that were there or counted before and those
-- written since are as many as the ones drained, the ones still there and the ones counted as
-- dropped.
pub run-Accounts :
    (entry_size : ℕ) (events : List Event) (s : State)
    → entry_size ≤ log_storage_max_bytes
    → IsHistory events
    → IsValid entry_size s
    → length s.entries + s.dropped + written events ≤ long_max
    → Accounts entry_size events s
run-Accounts entry_size [] s small h v room = record {
  drained = [];
  after = s;
  returns = unfold run in refl;
  valid = v;
  nothing_lost = omega arith;
}
run-Accounts entry_size (writes r ∷ events) s small (text, h) v room =
    let w = write-Writes entry_size r s small text v in
    let lost : w.after.dropped + length w.after.entries ≡ length s.entries + s.dropped + 1 =
      ground (arith, w.counts, w.balance) in
    let below = run-Accounts entry_size events w.after small h w.valid (omega arith) in
    record {
      drained = below.drained;
      after = below.after;
      returns = run_writes w below;
      valid = below.valid;
      nothing_lost = omega (arith, below.nothing_lost, lost);
    }
  where
    run_writes :
        (w : Writes entry_size r s (write entry_size r s)) (a : Accounts entry_size events w.after)
        → run entry_size (writes r ∷ events) s ≡ some (a.drained, a.after)
    run_writes w a = unfold run in ground (arith, w.returns, a.returns)
run-Accounts entry_size (drains ∷ events) s small h v room =
    let (out, left, kept) = drain_lem s in
    let below =
      run-Accounts entry_size events (drain s).1 small h (drain-IsValid entry_size s v)
        (omega (arith, left, kept)) in
    record {
      drained = (drain s).0 ++ below.drained;
      after = below.after;
      returns = run_drains below;
      valid = below.valid;
      nothing_lost = omega (
        arith,
        below.nothing_lost,
        left,
        kept,
        ap length out,
        length-append (drain s).0 below.drained,
      );
    }
  where
    run_drains :
        (a : Accounts entry_size events (drain s).1)
        → run entry_size (drains ∷ events) s ≡ some ((drain s).0 ++ a.drained, a.after)
    run_drains a = unfold run in ground (arith, a.returns)
