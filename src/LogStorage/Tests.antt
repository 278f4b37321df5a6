-- ===== src/LogStorage/Tests.antt =====
-- Runs of the log buffer and of its registration, and their theorems at concrete records.
use php_duckdb.Prelude.{◌≡◌, refl, true, false, [], ◌∷◌, none, some, codes, arith, List}
use php_duckdb.Prelude.Int.{pos}
use php_duckdb.LogStorage.{State, Record, write, entry_bytes}
use php_duckdb.LogStorage.Text.{IsRecord}
use php_duckdb.LogStorage.Bounds.{IsValid, Writes, write-Writes}
use php_duckdb.LogStorage.Account.{Event, writes, drains, Accounts, run-Accounts}
use php_duckdb.LogStorage.Registry.{
  Registers, register, success, failure, ok, lower, find, register-Registers, register_name,
  publish, lower_byte, is_built_in,
}

abbrev record_one : Record
record_one = record {
  timestamp = some (pos 17);
  level = some (codes "INFO");
  kind = none;
  message = some (codes "ready");
  copy_throws = false;
  locks = true;
  push_throws = false;
}

abbrev full : State
full = record {
  entries =
      (record { timestamp = pos 3; level = codes "WARN"; kind = []; message = codes "x" }) ∷ [];
  capacity = 1;
  bytes = 109;
  dropped = 0;
}

record_one-IsRecord : IsRecord record_one
record_one-IsRecord = record {
  level_text = omega arith;
  kind_text = tt;
  message_text = omega arith;
}

full-IsValid : IsValid 104 full
unfolding entry_bytes
full-IsValid = record {
  positive = omega arith;
  counted = omega arith;
  summed = refl;
  within = omega arith;
  dropped_fits = omega arith;
}

write-Writes_example : Writes 104 record_one full (write 104 record_one full)
write-Writes_example =
    write-Writes 104 record_one full (omega arith) record_one-IsRecord full-IsValid

abbrev history : List Event
history = writes record_one ∷ drains ∷ writes record_one ∷ []

run-Accounts_example : Accounts 104 history full
run-Accounts_example =
    run-Accounts 104 history full (omega arith) (record_one-IsRecord, (record_one-IsRecord, tt))
      full-IsValid (omega arith)

register-Registers_example :
    Registers (codes "Audit") 4 [] (register true (some 4) true failure (codes "Audit") [])
register-Registers_example = register-Registers true true 4 failure (codes "Audit") []

registered : register true (some 4) true success (codes "Audit") [] ≡ ok ((codes "audit", 4) ∷ [])
unfolding register register_name publish lower lower_byte find is_built_in
registered = refl
