-- ===== src/Appender/Protocol.antt =====
-- What the native appender asks of its user, as an automaton over the calls and their success.
use php_duckdb.Prelude.{
  Bool, true, false, not, ◌&&◌, List, [], ◌∷◌, Option, none, some, if◌then◌else◌,
}
use php_duckdb.Appender.{
  Call, begin_row, append_value, append_default, end_row, flush, append_chunk, clear, close,
  destroy,
}

-- Whether a row is open, whether the last failure has not been cleared away, whether clearing has not
-- been tried since, and whether the appender was closed and destroyed.
pub record Native : Type 0 where
  pub row : Bool
  pub broken : Bool
  pub uncleared : Bool
  pub ended : Bool
  pub gone : Bool

abbrev pub new_native : Native
new_native = record { row = false; broken = false; uncleared = false; ended = false; gone = false }

-- The appender takes rows and flushes.
abbrev pub is_live : Native → Bool
is_live n = not n.broken && (not n.ended && not n.gone)

-- When a call is in order.
abbrev pub allowed : Call → Native → Bool
allowed begin_row n = is_live n && not n.row
allowed append_value n = is_live n && n.row
allowed append_default n = is_live n && n.row
allowed end_row n = is_live n && n.row
allowed flush n = is_live n
allowed append_chunk n = is_live n && not n.row
allowed clear n = not n.gone
allowed close n = is_live n
allowed destroy n = not n.gone && not n.uncleared

-- What a call that succeeds makes of the appender.
abbrev pub advance : Call → Native → Native
advance begin_row n = record n { row = true }
advance end_row n = record n { row = false }
advance clear n = record n { row = false; broken = false; uncleared = false }
advance close n = record n { row = false; ended = true }
advance destroy n = record n { gone = true }
advance _ n = n

-- What a call that fails makes of it.
abbrev pub break : Call → Native → Native
break clear n = record n { broken = true; uncleared = false }
break _ n = record n { broken = true; uncleared = true }

-- A sequence of calls: `none` if one of them is out of order.
unfoldable pub follow : List (Call × Bool) → Native → Option Native
follow [] n = some n
follow ((call, answer) ∷ calls) n =
    let rest = follow calls (if answer then advance call n else break call n) in
    if allowed call n then rest else none
