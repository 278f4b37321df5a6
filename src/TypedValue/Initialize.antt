-- ===== src/TypedValue/Initialize.antt =====
-- What the initialization of a typed value gives.
use php_duckdb.Prelude.{◌≡◌, ◌↔◌, refl, sym, [], Option, none, some, Bytes}
use php_duckdb.TypeGrammar.{Canonical, canonical, rejected, canonicalize}
use php_duckdb.TypedValue.{
  Zval, Heap, Copy, ok, snapshot, snapshot_levels, Value, with_type, when_new, initialize,
}
use php_duckdb.TypedValue.Snapshots.{CopyOf, bind_ok, ok_same}
use php_duckdb.TypedValue.Acyclic.{snapshot_iff}

-- What it is to be initialized with a type and a value.
abbrev pub Initialized : Heap → Bytes → Zval → Value → Value → Type 0
Initialized h declaration z v w =
    (v.type ≡ none)
    × (type : Bytes) × (c : Copy) × (canonicalize declaration ≡ canonical type)
    × CopyOf h snapshot_levels z c
    × (w ≡ record { type = some type; input = some c })

when_typed :
    (h : Heap) (declaration : Bytes) (z : Zval) (v w : Value) (r : Canonical)
    → v.type ≡ none
    → canonicalize declaration ≡ r
    → with_type h z r ≡ ok w
    → Initialized h declaration z v w
when_typed h declaration z v w (rejected p) n e h' = absurd (cc)
when_typed h declaration z v w (canonical type) n e done =
    let (c, e1, e2) =
      bind_ok (snapshot h snapshot_levels [] z)
        (λ c. ok (record { type = some type; input = some c })) w done in
    (
      n,
      type,
      c,
      e,
      (snapshot_iff h snapshot_levels z c).0 e1,
      sym (ok_same (record { type = some type; input = some c }) w e2),
    )

when_none :
    (h : Heap) (declaration : Bytes) (z : Zval) (v w : Value) (o : Option Bytes)
    → v.type ≡ o
    → when_new h declaration z o ≡ ok w
    → Initialized h declaration z v w
when_none h declaration z v w none n e =
    when_typed h declaration z v w (canonicalize declaration) n refl e
when_none h declaration z v w (some type) n e = absurd (cc)

-- A typed value is initialized exactly when it has no type yet, the declaration is one that can be made canonical,
-- and the input is a finite tree of at most 65 levels that can be copied. It then has the canonical type and the
-- copy of the input.
pub initialize_iff :
    (h : Heap) (declaration : Bytes) (z : Zval) (v w : Value)
    → (initialize h declaration z v ≡ ok w) ↔ Initialized h declaration z v w
unfolding initialize
initialize_iff h declaration z v w = (
  when_none h declaration z v w v.type refl,
  λ (n, type, c, e, p, same). rw (n, e, (snapshot_iff h snapshot_levels z c).1 p, same) refl,
)
