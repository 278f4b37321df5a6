-- ===== src/LogStorage/Registry.antt =====
-- `Database::registerLogStorage`: a buffer is published under a lower-case name that no other buffer
-- of the database has, and a registration that fails leaves the database as it was.
use php_duckdb.Prelude.{
  ℕ, ◌+◌, ◌-◌, ◌≡◌, refl, Bool, true, false, not, ◌&&◌, ◌||◌, List, [], ◌∷◌, Option, none, some,
  arith, Bytes, codes, leb, ◌==◌, if◌then◌else◌, bytes_eq,
}
use mathlib.Core.Path.{subst}

-- `db_inner::log_storages`: the names, and the buffers that they stand for.
abbrev pub Storages : Type 0
Storages = List (Bytes × ℕ)

pub data Error : Type 0 where
  database_uninitialized storage_uninitialized bad_name built_in already_registered : Error
  no_memory not_registered native_threw : Error

-- What `duckdb_register_log_storage` does.
pub data Status : Type 0 where
  success failure throws : Status

pub data Registered : Type 0 where
  ok : Storages → Registered
  err : Error → Storages → Registered

unfoldable pub lower_byte : ℕ → ℕ
lower_byte c = if leb b'A' c && leb c b'Z' then c - b'A' + b'a' else c

unfoldable pub lower : Bytes → Bytes
unfolding lower_byte
lower [] = []
lower (c ∷ s) = lower_byte c ∷ lower s

abbrev pub has_nul : Bytes → Bool
has_nul [] = false
has_nul (c ∷ s) = c == 0 || has_nul s

abbrev pub is_empty : Bytes → Bool
is_empty [] = true
is_empty (c ∷ s) = false

unfoldable pub is_built_in : Bytes → Bool
is_built_in name =
    bytes_eq name (codes "memory")
    || (bytes_eq name (codes "stdout") || bytes_eq name (codes "file"))

unfoldable pub find : Bytes → Storages → Option ℕ
find key [] = none
find key ((name, state) ∷ m) = if bytes_eq name key then some state else find key m

unfoldable pub erase : Bytes → Storages → Storages
erase key [] = []
erase key ((name, state) ∷ m) = if bytes_eq name key then m else (name, state) ∷ erase key m

abbrev pub emplace : Bytes → ℕ → Storages → Storages
emplace key state m = (key, state) ∷ m

unfoldable pub publish : Status → Bytes → ℕ → Storages → Registered
publish success key state m = ok (emplace key state m)
publish failure key state m = err not_registered (erase key (emplace key state m))
publish throws key state m = err native_threw (erase key (emplace key state m))

abbrev pub is_some {ℓ} : {A : Type ℓ} → Option A → Bool
is_some none = false
is_some (some a) = true

-- The checks and the publication; `created` says whether the native handle could be made.
unfoldable pub register_name : Bool → Status → Bytes → ℕ → Storages → Registered
register_name created status name state m =
    if is_empty name || has_nul name
    then err bad_name m
    else if is_built_in (lower name)
    then err built_in m
    else if is_some (find (lower name) m)
    then err already_registered m
    else if not created
    then err no_memory m
    else publish status (lower name) state m

unfoldable pub register : Bool → Option ℕ → Bool → Status → Bytes → Storages → Registered
unfolding register_name
register initialized none created status name m =
    if initialized then err storage_uninitialized m else err database_uninitialized m
register initialized (some state) created status name m =
    if initialized then register_name created status name state m else err database_uninitialized m

bytes_eq_refl : (s : Bytes) → bytes_eq s s ≡ true
bytes_eq_refl [] = refl
bytes_eq_refl (c ∷ s) = ground (arith, bytes_eq_refl s)

bytes_eq→eq : (s t : Bytes) → bytes_eq s t ≡ true → s ≡ t
bytes_eq→eq [] [] e = refl
bytes_eq→eq [] (c ∷ t) e = cc
bytes_eq→eq (c ∷ s) [] e = cc
bytes_eq→eq (c ∷ s) (d ∷ t) e = ground (arith, bytes_eq→eq s t)

erase-emplace : (key : Bytes) (state : ℕ) (m : Storages) → erase key (emplace key state m) ≡ m
unfolding erase
erase-emplace key state m = rw (bytes_eq_refl key)

find-emplace :
    (key other : Bytes) (state : ℕ) (m : Storages)
    → find other (emplace key state m) ≡ (if bytes_eq key other then some state else find other m)
unfolding find
find-emplace key other state m = refl

-- What a registration may do: succeed, under the conditions that make the name usable, and add that
-- name alone; or fail, and change nothing.
abbrev pub Registers : Bytes → ℕ → Storages → Registered → Type 0
Registers name state m (ok m') =
    (is_empty name ≡ false)
    × (has_nul name ≡ false)
    × (is_built_in (lower name) ≡ false)
    × (find (lower name) m ≡ none)
    × ((other : Bytes)
        → find other m' ≡ (if bytes_eq (lower name) other then some state else find other m))
Registers name state m (err e m') = m' ≡ m

module _ (name : Bytes) (state : ℕ) (m : Storages) where
  if-Registers :
      (b : Bool) (x y : Registered)
      → (b ≡ true → Registers name state m x)
      → (b ≡ false → Registers name state m y)
      → Registers name state m (if b then x else y)
  if-Registers true x y p q = p refl
  if-Registers false x y p q = q refl

  publish-Registers :
      (status : Status)
      → (is_empty name || has_nul name) ≡ false
      → is_built_in (lower name) ≡ false
      → is_some (find (lower name) m) ≡ false
      → Registers name state m (publish status (lower name) state m)
  unfolding publish
  publish-Registers success usable custom free = (
    ground arith,
    ground arith,
    custom,
    ground arith,
    λ other. find-emplace (lower name) other state m,
  )
  publish-Registers failure usable custom free = erase-emplace (lower name) state m
  publish-Registers throws usable custom free = erase-emplace (lower name) state m

-- With an initialised buffer, a registration succeeds only for a name that is not empty, holds no
-- NUL, is no built-in one and is not taken, and then adds that name, in lower case, alone. Any
-- failure, also of the engine after the name was entered, leaves the names as they were.
pub register-Registers :
    (initialized created : Bool) (state : ℕ) (status : Status) (name : Bytes) (m : Storages)
    → Registers name state m (register initialized (some state) created status name m)
unfolding register register_name
register-Registers initialized created state status name m =
    if-Registers name state m initialized _ _
      (λ ready.
        if-Registers name state m (is_empty name || has_nul name) _ _ (λ _. refl)
          λ usable.
            if-Registers name state m (is_built_in (lower name)) _ _ (λ _. refl)
              λ custom.
                if-Registers name state m (is_some (find (lower name) m)) _ _ (λ _. refl)
                  λ free.
                    if-Registers name state m (not created) _ _ (λ _. refl)
                      λ _. publish-Registers name state m status usable custom free)
      (λ _. refl)

-- After a registration that succeeded, a registration under a name that differs in case only, and
-- that is not empty and holds no NUL, is refused as already registered and changes nothing.
pub register_twice :
    (status : Status) (name other : Bytes) (state next : ℕ) (m m' : Storages)
    → lower other ≡ lower name
    → register true (some state) true success name m ≡ ok m'
    → (is_empty other || has_nul other) ≡ false
    → register true (some next) true status other m' ≡ err already_registered m'
unfolding register register_name
register_twice status name other state next m m' same done usable =
    let (_, _, custom, _, found) =
      subst (Registers name state m) done (register-Registers true true state success name m) in
    let here = found (lower name) in
    let own = bytes_eq_refl (lower name) in rw (usable, same, custom, here, own)
