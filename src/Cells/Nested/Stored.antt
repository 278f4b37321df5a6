-- ===== src/Cells/Nested/Stored.antt =====
-- What a decoded value says of its cell, described without the decoder's loops.
use php_duckdb.Prelude.{
  ℕ, zero, suc, ◌+◌, ◌*◌, ◌≡◌, ◌≢◌, refl, Bool, true, false, leb, ◌==◌, if◌then◌else◌, ◌⊎◌, inl,
  inr, ap, [], ◌∷◌, ◌++◌, Bytes, codes, All, Bool-cases, ==_iff, arith,
}
use php_duckdb.Cells.Value.{
  Key, next, index, name, Value, null, boolean, long, double, string, datetime, interval, array,
  Entries, nil, entry,
}
use php_duckdb.Cells.Scalar.{
  Calendar, decode_cell, Decoded, value, failure, nested_too_deep, Failure,
}
use php_duckdb.Cells.Nested.{
  has_scalar_keys, KeyType, tinyint, smallint, integer, bigint, utinyint, usmallint, uinteger,
  ubigint, varchar, enum, other, c_string, Column, scalars, lists, arrays, structs, maps, unions,
  Members, no_member, member, Filled, filled, stopped, as_array, push, nullable, within,
  decode_rows, map_key, pair, push_pair, decode_pairs, member_name, decode_column, decode_members,
  decode_nth, max_nesting_depth, decode_value,
}

-- The array's puts hold the rows from `row` on, one behind the other.
abbrev pub InRows : (ℕ → Value → Type 0) → ℕ → ℕ → Entries → Type 0
InRows P row zero es = es ≡ nil
InRows P row (suc count) es =
    (v : Value) × (rest : Entries) × (es ≡ entry next v rest)
    × P row v
    × InRows P (row + 1) count rest

abbrev pub IsNotNul : ℕ → Type 0
IsNotNul c = c ≢ 0

-- The bytes of a text up to its first NUL, or all of them.
abbrev pub IsName : Bytes → Bytes → Type 0
IsName text cut =
    All IsNotNul cut × ((text ≡ cut) ⊎ ((behind : Bytes) × (text ≡ cut ++ 0 ∷ behind)))

-- The key that PHP's array has for the value of a map's key.
abbrev pub KeyOf : Value → Key → Type 0
KeyOf (long n) key = key ≡ index n
KeyOf (string text) key = (cut : Bytes) × IsName text cut × (key ≡ name cut)
KeyOf k key = key ≡ name []

-- One entry of a map: under its key where the keys are integers, texts or enums, else as an array of key and value.
abbrev pub IsPut : KeyType → Value → Value → Entries → Entries → Type 0
IsPut other k v es rest =
    es ≡ entry next (array (entry (name (codes "key")) k (entry (name (codes "value")) v nil))) rest
IsPut key_type k v es rest = (key : Key) × KeyOf k key × (es ≡ entry key v rest)

abbrev pub InPairs :
    KeyType → (ℕ → Value → Type 0) → (ℕ → Value → Type 0) → ℕ → ℕ → Entries → Type 0
InPairs key_type P Q row zero es = es ≡ nil
InPairs key_type P Q row (suc count) es =
    (k : Value) × (v : Value) × (rest : Entries) × IsPut key_type k v es rest
    × P row k
    × Q row v
    × InPairs key_type P Q (row + 1) count rest

abbrev pub IsArray : (Entries → Type 0) → Value → Type 0
IsArray P v = (es : Entries) × (v ≡ array es) × P es

abbrev pub WhenValid : Bool → Type 0 → Value → Type 0
WhenValid true P v = P
WhenValid false P v = v ≡ null

-- The value of a row of a column: null in a row that is not valid, else built of the values of the
-- rows and the children that the row refers to.
unfoldable mutual
  pub Holds : Calendar → Column → ℕ → Value → Type 0
  Holds c (scalars valid cells) row v =
      WhenValid (valid row) (decode_cell c (cells row) ≡ value v) v
  Holds c (lists valid entries child) row v =
      WhenValid (valid row)
        (IsArray (InRows (Holds c child) (entries row).offset (entries row).length) v) v
  Holds c (arrays valid size child) row v =
      WhenValid (valid row) (IsArray (InRows (Holds c child) (row * size) size) v) v
  Holds c (structs valid members) row v =
      WhenValid (valid row) (IsArray (HoldsMembers c members row) v) v
  Holds c (maps valid entries key keys values) row v =
      WhenValid (valid row)
        (IsArray
          (InPairs key (Holds c keys) (Holds c values) (entries row).offset (entries row).length) v)
        v
  Holds c (unions valid tags members) row v =
      WhenValid (valid row) (HoldsNth c members (tags row) row v) v

  pub HoldsMembers : Calendar → Members → ℕ → Entries → Type 0
  HoldsMembers c no_member row es = es ≡ nil
  HoldsMembers c (member label child members) row es =
      (v : Value) × (rest : Entries) × (es ≡ entry (name (member_name label)) v rest)
      × Holds c child row v
      × HoldsMembers c members row rest

  pub HoldsNth : Calendar → Members → ℕ → ℕ → Value → Type 0
  HoldsNth c no_member tag row v = v ≡ null
  HoldsNth c (member label child members) zero row v = Holds c child row v
  HoldsNth c (member label child members) (suc tag) row v = HoldsNth c members tag row v

stopped≢filled : {e : Failure} {es : Entries} → stopped e ≢ filled es
stopped≢filled h = cc

failure≢value : {e : Failure} {v : Value} → failure e ≢ value v
failure≢value h = cc

push-value :
    (key : Key) (v : Value) (rest : Filled) (es : Entries)
    → push key (value v) rest ≡ filled es
    → (es' : Entries) × (es ≡ entry key v es') × (rest ≡ filled es')
push-value key v (stopped e) es h = elim (stopped≢filled h) [ ]
push-value key v (filled es') es h = (es', cc, refl)

push-filled :
    (key : Key) (d : Decoded) (rest : Filled) (es : Entries)
    → push key d rest ≡ filled es
    → (v : Value) × (es' : Entries) × (es ≡ entry key v es') × (d ≡ value v) × (rest ≡ filled es')
push-filled key (failure e) rest es h = elim (stopped≢filled h) [ ]
push-filled key (value v) rest es h =
    let (es', shape, r) = push-value key v rest es h in (v, es', shape, refl, r)

c_string-IsName : (text : Bytes) → IsName text (c_string text)
unfolding c_string
c_string-IsName [] = (tt, inl refl)
c_string-IsName (c ∷ text) = elim (Bool-cases (c == 0)) [
  | inl e ↦ rw e (tt, inr (text, ap (λ (k : ℕ). k ∷ text) ((==_iff c 0).0 e)))
  | inr e ↦
      let (before, shape) = c_string-IsName text in
      let first : c ≢ 0 = ground arith in
      rw e (
        (first, before),
        elim shape [
          | inl same ↦ inl (ap (λ (t : Bytes). c ∷ t) same)
          | inr cut ↦ inr (cut.0, ap (λ (t : Bytes). c ∷ t) cut.1)
        ],
      )
]

map_key-KeyOf : (k : Value) → KeyOf k (map_key k)
map_key-KeyOf null = refl
map_key-KeyOf (boolean b) = refl
map_key-KeyOf (long n) = refl
map_key-KeyOf (string text) = (c_string text, c_string-IsName text, refl)
map_key-KeyOf (array es) = refl
map_key-KeyOf (double bits) = refl
map_key-KeyOf (datetime text) = refl
map_key-KeyOf (interval months days micros) = refl

-- The put of an entry that is made or not made under its key.
abbrev IsMade : Bool → Value → Value → Entries → Entries → Type 0
IsMade true k v es rest = es ≡ entry (map_key k) v rest
IsMade false k v es rest = es ≡ entry next (pair k v) rest

made-keyed :
    (k v : Value) (es rest : Entries)
    → IsMade true k v es rest
    → (key : Key) × KeyOf k key × (es ≡ entry key v rest)
made-keyed k v es rest h = (map_key k, map_key-KeyOf k, h)

made-IsPut :
    (key_type : KeyType) (k v : Value) (es rest : Entries)
    → IsMade (has_scalar_keys key_type) k v es rest
    → IsPut key_type k v es rest
made-IsPut other k v es rest h = h
made-IsPut tinyint k v es rest h = made-keyed k v es rest h
made-IsPut smallint k v es rest h = made-keyed k v es rest h
made-IsPut integer k v es rest h = made-keyed k v es rest h
made-IsPut bigint k v es rest h = made-keyed k v es rest h
made-IsPut utinyint k v es rest h = made-keyed k v es rest h
made-IsPut usmallint k v es rest h = made-keyed k v es rest h
made-IsPut uinteger k v es rest h = made-keyed k v es rest h
made-IsPut ubigint k v es rest h = made-keyed k v es rest h
made-IsPut varchar k v es rest h = made-keyed k v es rest h
made-IsPut enum k v es rest h = made-keyed k v es rest h

push_pair-filled :
    (scalar_keys : Bool) (k v : Decoded) (rest : Filled) (es : Entries)
    → push_pair scalar_keys k v rest ≡ filled es
    → (k' : Value) × (v' : Value) × (es' : Entries) × IsMade scalar_keys k' v' es es'
      × (k ≡ value k')
      × (v ≡ value v')
      × (rest ≡ filled es')
push_pair-filled scalar_keys (failure e) v rest es h = elim (stopped≢filled h) [ ]
push_pair-filled scalar_keys (value k) (failure e) rest es h = elim (stopped≢filled h) [ ]
push_pair-filled true (value k) (value v) rest es h =
    let (es', shape, r) = push-value (map_key k) v rest es h in (k, v, es', shape, refl, refl, r)
push_pair-filled false (value k) (value v) rest es h =
    let (es', shape, r) = push-value next (pair k v) rest es h in (k, v, es', shape, refl, refl, r)

decode_rows-InRows :
    (f : ℕ → Decoded) (P : ℕ → Value → Type 0) (row count : ℕ) (es : Entries)
    → ((r : ℕ) (v : Value) → f r ≡ value v → P r v)
    → decode_rows f row count ≡ filled es
    → InRows P row count es
unfolding decode_rows
decode_rows-InRows f P row zero es h e = cc
decode_rows-InRows f P row (suc count) es h e =
    let (v, es', shape, d, r) = push-filled next (f row) (decode_rows f (row + 1) count) es e in
    (v, es', shape, h row v d, decode_rows-InRows f P (row + 1) count es' h r)

decode_pairs-InPairs :
    (key_type : KeyType) (f g : ℕ → Decoded) (P Q : ℕ → Value → Type 0) (row count : ℕ)
    (es : Entries)
    → ((r : ℕ) (v : Value) → f r ≡ value v → P r v)
    → ((r : ℕ) (v : Value) → g r ≡ value v → Q r v)
    → decode_pairs (has_scalar_keys key_type) f g row count ≡ filled es
    → InPairs key_type P Q row count es
unfolding decode_pairs
decode_pairs-InPairs key_type f g P Q row zero es h k e = cc
decode_pairs-InPairs key_type f g P Q row (suc count) es h k e =
    let (k', v', es', shape, d, d', r) =
      push_pair-filled (has_scalar_keys key_type) (f row) (g row)
        (decode_pairs (has_scalar_keys key_type) f g (row + 1) count) es e in
    (
      k',
      v',
      es',
      made-IsPut key_type k' v' es es' shape,
      h row k' d,
      k row v' d',
      decode_pairs-InPairs key_type f g P Q (row + 1) count es' h k r,
    )

nullable-WhenValid :
    (valid : Bool) (d : Decoded) (P : Type 0) (v : Value)
    → (d ≡ value v → P)
    → nullable valid d ≡ value v
    → WhenValid valid P v
nullable-WhenValid true d P v h e = h e
nullable-WhenValid false d P v h e = cc

as_array-IsArray :
    (d : Filled) (P : Entries → Type 0) (v : Value)
    → ((es : Entries) → d ≡ filled es → P es)
    → as_array d ≡ value v
    → IsArray P v
as_array-IsArray (filled es) P v h e = (es, cc, h es refl)
as_array-IsArray (stopped x) P v h e = elim (failure≢value e) [ ]

unless_refused :
    (refused : Bool) (e : Failure) (d : Decoded) (v : Value)
    → (if refused then failure e else d) ≡ value v
    → d ≡ value v
unless_refused true e d v h = elim (failure≢value h) [ ]
unless_refused false e d v h = h

within-value :
    (limit depth : ℕ) (d : Decoded) (v : Value) → within limit depth d ≡ value v → d ≡ value v
within-value limit depth d v h = unless_refused (leb limit depth) nested_too_deep d v h

mutual
  unfolding decode_column Holds

  column-Holds :
      (c : Calendar) (limit : ℕ) (column : Column) (depth row : ℕ) (v : Value)
      → decode_column c limit column depth row ≡ value v
      → Holds c column row v
  column-Holds c limit (scalars valid cells) depth row v h =
      nullable-WhenValid (valid row) (decode_cell c (cells row)) _ v (λ e. e) h
  column-Holds c limit (lists valid entries child) depth row v h =
      nullable-WhenValid (valid row) _ _ v
        (λ e.
          as_array-IsArray _ _ v
            (λ es f.
              decode_rows-InRows _ (Holds c child) (entries row).offset (entries row).length es
                (λ r u g.
                  column-Holds c limit child (suc depth) r u (within-value limit depth _ u g))
                f)
            e)
        h
  column-Holds c limit (arrays valid size child) depth row v h =
      nullable-WhenValid (valid row) _ _ v
        (λ e.
          as_array-IsArray _ _ v
            (λ es f.
              decode_rows-InRows _ (Holds c child) (row * size) size es
                (λ r u g.
                  column-Holds c limit child (suc depth) r u (within-value limit depth _ u g))
                f)
            e)
        h
  column-Holds c limit (structs valid members) depth row v h =
      nullable-WhenValid (valid row) _ _ v
        (λ e. as_array-IsArray _ _ v (λ es f. members-Hold c limit members depth row es f) e) h
  column-Holds c limit (maps valid entries key keys values) depth row v h =
      nullable-WhenValid (valid row) _ _ v
        (λ e.
          as_array-IsArray _ _ v
            (λ es f.
              decode_pairs-InPairs key _ _ (Holds c keys) (Holds c values) (entries row).offset
                (entries row).length es
                (λ r u g.
                  column-Holds c limit keys (suc depth) r u (within-value limit depth _ u g))
                (λ r u g.
                  column-Holds c limit values (suc depth) r u (within-value limit depth _ u g))
                f)
            e)
        h
  column-Holds c limit (unions valid tags members) depth row v h =
      nullable-WhenValid (valid row) _ _ v (λ e. nth-Holds c limit members (tags row) depth row v e)
        h

  members-Hold :
      (c : Calendar) (limit : ℕ) (members : Members) (depth row : ℕ) (es : Entries)
      → decode_members c limit members depth row ≡ filled es
      → HoldsMembers c members row es
  members-Hold c limit no_member depth row es h = cc
  members-Hold c limit (member label child members) depth row es h =
      let (v, es', shape, d, r) = push-filled (name (member_name label)) _ _ es h in
      (
        v,
        es',
        shape,
        column-Holds c limit child (suc depth) row v (within-value limit depth _ v d),
        members-Hold c limit members depth row es' r,
      )

  nth-Holds :
      (c : Calendar) (limit : ℕ) (members : Members) (tag depth row : ℕ) (v : Value)
      → decode_nth c limit members tag depth row ≡ value v
      → HoldsNth c members tag row v
  nth-Holds c limit no_member tag depth row v h = cc
  nth-Holds c limit (member label child members) zero depth row v h =
      column-Holds c limit child (suc depth) row v (within-value limit depth _ v h)
  nth-Holds c limit (member label child members) (suc tag) depth row v h =
      nth-Holds c limit members tag depth row v h

-- A decoded value has the form that the type of its column gives: null in a row that is not valid; for a
-- list or array as many consecutive elements as the row says, each the value of its row of the child;
-- for a struct its members by name in their order; for a map its entries in order, under their keys for
-- keys of integers of up to eight bytes, texts and enums, a text's key being its bytes up to the first NUL,
-- and as arrays of "key" and "value" for the other types of keys; for a union the value of the tagged
-- member, or null without such a member.
pub decode_value-Holds :
    (c : Calendar) (column : Column) (row : ℕ) (v : Value)
    → decode_value c column row ≡ value v
    → Holds c column row v
decode_value-Holds c column row v h = column-Holds c max_nesting_depth column 0 row v h
