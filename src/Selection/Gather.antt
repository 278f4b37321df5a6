-- ===== src/Selection/Gather.antt =====
-- `duckdb_selection_gather` against what the engine's copiers promise.
use php_duckdb.Prelude.{
  ℕ, suc, ◌+◌, ◌≤◌, ◌≡◌, ◌≢◌, ◌⊎◌, inl, inr, refl, sym, ap, ◌∙◌, true, false, List, [], ◌∷◌, ◌++◌,
  append-nil, Option, none, some, arith, length, take, drop, All, ◌==◌, ==_iff, Bool-cases,
}
use mathlib.Core.Path.{subst}
use php_duckdb.Selection.{Result, ok, err, no_memory, Store, Engine, gather_into, gather}
use php_duckdb.Selection.Build.{selects}
use php_duckdb.Selection.Rows.{
  overwrite, picks, length-picks, Below, overwrite-empty, drop-all, take-all,
}

module _ {ℓ} {Row : Type ℓ} where
  -- A vector has these rows, and all other vectors are as before.
  abbrev pub IsWritten : Store Row → ℕ → List Row → Store Row → Type ℓ
  IsWritten store v rows after = (after v ≡ some rows) × ((u : ℕ) → u ≢ v → after u ≡ store u)

-- What the engine documents of its copiers: from one vector to another one they overwrite the target's rows from
-- the offset on, when the rows they read exist and the ones they write fit, and change no other vector; nothing is
-- said of a copy from a vector into itself. A new vector has a handle that no vector has and the capacity that was
-- asked for. `missing` is read where no row is, which the conditions exclude.
pub record Copies {ℓ} {Row : Type ℓ} (engine : Engine Row) (missing : Row) : Type ℓ where
  pub copy_sel_rows :
      (source target : ℕ) (ns : List ℕ) (offset : ℕ) (store : Store Row) (rows held : List Row)
      → source ≢ target
      → store source ≡ some rows
      → store target ≡ some held
      → All (Below (length rows)) ns
      → offset + length ns ≤ length held
      → IsWritten store target
          (overwrite held offset (picks rows ns missing))
          (engine.copy_sel source target ns (length ns) 0 offset store)
  pub copy_rows_rows :
      (source target count offset : ℕ) (store : Store Row) (rows held : List Row)
      → source ≢ target
      → store source ≡ some rows
      → store target ≡ some held
      → count ≤ length rows
      → offset + count ≤ length held
      → IsWritten store target
          (overwrite held offset (take count rows))
          (engine.copy_rows source target 0 count offset store)
  pub create_rows :
      (count v : ℕ) (store after : Store Row)
      → engine.create count store ≡ some (v, after)
      → (store v ≡ none)
        × ((rows : List Row) × (length rows ≡ count) × IsWritten store v rows after)
  pub destroy_rows :
      (v : ℕ) (store : Store Row)
      → (engine.destroy v store v ≡ none) × ((u : ℕ) → u ≢ v → engine.destroy v store u ≡ store u)

module _ {ℓ} {Row : Type ℓ} (engine : Engine Row) (missing : Row)
    (copies : Copies engine missing) where
  -- A gather that returns has set the target to these rows.
  abbrev pub Gathers : Store Row → ℕ → List Row → Result (Store Row) → Type ℓ
  Gathers store target rows result =
      (after : Store Row) × (result ≡ ok after) × IsWritten store target rows after

  -- A new vector of the right size holds exactly the picked rows.
  staged_rows :
      (rows fresh : List Row) (ns : List ℕ)
      → length fresh ≡ length ns
      → overwrite fresh 0 (picks rows ns missing) ≡ picks rows ns missing
  staged_rows rows fresh ns e =
      ap (λ (zs : List Row). picks rows ns missing ++ zs)
        {x = drop (0 + length (picks rows ns missing)) fresh} {y = []}
        (drop-all fresh (0 + length (picks rows ns missing)) omega
          (arith, e, length-picks rows ns missing))
      ∙ append-nil (picks rows ns missing)

  gather-empty :
      (source target offset : ℕ) (store : Store Row)
      → gather engine source target (selects []) offset store ≡ ok store
  unfolding gather
  gather-empty source target offset store = refl

  gather-filled :
      (source target n : ℕ) (ns : List ℕ) (offset : ℕ) (store : Store Row)
      → gather engine source target (selects (n ∷ ns)) offset store
        ≡ gather_into engine source target (selects (n ∷ ns)) offset store
  unfolding gather
  gather-filled source target n ns offset store =
      let nonzero : (suc (length ns) == 0) ≡ false = ground arith in rw nonzero

  gather_into-another :
      (source target : ℕ) (ns : List ℕ) (offset : ℕ) (store : Store Row)
      → (source == target) ≡ false
      → gather_into engine source target (selects ns) offset store
        ≡ ok (engine.copy_sel source target ns (length ns) 0 offset store)
  unfolding gather_into
  gather_into-another source target ns offset store f = rw f

  -- What the gather of a vector into itself leaves.
  abbrev restaged : ℕ → List ℕ → ℕ → ℕ → Store Row → Store Row
  restaged source ns offset staged store1 = engine.destroy staged (
      engine.copy_rows staged source 0 (length ns) offset
        (engine.copy_sel source staged ns (length ns) 0 0 store1))

  gather_into-itself :
      (source : ℕ) (ns : List ℕ) (offset : ℕ) (store : Store Row) (staged : ℕ) (store1 : Store Row)
      → engine.create (length ns) store ≡ some (staged, store1)
      → gather_into engine source source (selects ns) offset store
        ≡ ok (restaged source ns offset staged store1)
  unfolding gather_into
  gather_into-itself source ns offset store staged store1 made =
      let same : (source == source) ≡ true = ground arith in rw (same, made)

  gather_into-unmade :
      (source : ℕ) (ns : List ℕ) (offset : ℕ) (store : Store Row)
      → engine.create (length ns) store ≡ none
      → gather_into engine source source (selects ns) offset store ≡ err no_memory
  unfolding gather_into
  gather_into-unmade source ns offset store unmade =
      let same : (source == source) ≡ true = ground arith in rw (same, unmade)

  restaged-IsWritten :
      (source : ℕ) (ns : List ℕ) (offset : ℕ) (store : Store Row) (rows : List Row) (staged : ℕ)
      (store1 : Store Row)
      → store source ≡ some rows
      → All (Below (length rows)) ns
      → offset + length ns ≤ length rows
      → engine.create (length ns) store ≡ some (staged, store1)
      → IsWritten store source
          (overwrite rows offset (picks rows ns missing))
          (restaged source ns offset staged store1)
  restaged-IsWritten source ns offset store rows staged store1 at h fits made =
      let picked = picks rows ns missing in
      let count = length-picks rows ns missing in
      let (free, (fresh, long, (there1, others1))) =
        copies.create_rows (length ns) staged store store1 made in
      let apart : source ≢ staged = λ e. cc in
      let apart' : staged ≢ source = λ e. apart (sym e) in
      let (there2, others2) =
        copies.copy_sel_rows source staged ns 0 store1 rows fresh apart (others1 source apart ∙ at)
          there1 h (omega (arith, long)) in
      let store2 = engine.copy_sel source staged ns (length ns) 0 0 store1 in
      let (there3, others3) =
        copies.copy_rows_rows staged source (length ns) offset store2 picked rows apart'
          (there2 ∙ ap some (staged_rows rows fresh ns long))
          (others2 source apart ∙ others1 source apart ∙ at) (omega (arith, count)) fits in
      let store3 = engine.copy_rows staged source 0 (length ns) offset store2 in
      let (gone, others4) = copies.destroy_rows staged store3 in
      let all : take (length ns) picked ≡ picked =
        subst (λ k. take k picked ≡ picked) count (take-all picked) in
      (
        others4 source apart
            ∙ there3
            ∙ ap (λ (new : List Row). some (overwrite rows offset new)) all,
        λ u other. elim (Bool-cases (u == staged)) [
          | inl e ↦
              let same = (==_iff u staged).0 e in
              subst (λ k. engine.destroy staged store3 k ≡ store k) (sym same) (gone ∙ sym free)
          | inr f ↦
              let different : u ≢ staged = ground arith in
              others4 u different ∙ others3 u other ∙ others2 u different ∙ others1 u different
        ],
      )

  -- The gather of a vector into itself.
  gather_into-alias :
      (source : ℕ) (ns : List ℕ) (offset : ℕ) (store : Store Row) (rows : List Row)
      (made : Option (ℕ × Store Row))
      → engine.create (length ns) store ≡ made
      → store source ≡ some rows
      → All (Below (length rows)) ns
      → offset + length ns ≤ length rows
      → ((engine.create (length ns) store ≡ none)
          × (gather_into engine source source (selects ns) offset store ≡ err no_memory))
        ⊎ Gathers store source
            (overwrite rows offset (picks rows ns missing))
            (gather_into engine source source (selects ns) offset store)
  gather_into-alias source ns offset store rows none made at h fits =
      inl (made, gather_into-unmade source ns offset store made)
  gather_into-alias source ns offset store rows (some (staged, store1)) made at h fits = inr (
    restaged source ns offset staged store1,
    gather_into-itself source ns offset store staged store1 made,
    restaged-IsWritten source ns offset store rows staged store1 at h fits made,
  )

  -- Gathering puts the picked rows, as the source had them before, over the target's rows from the offset on,
  -- leaves the target's other rows and every other vector as they were, and leaves no new vector, also when
  -- source and target are one vector. The conditions are that the engine does what it documents, that both
  -- exist, that every index is a row of the source
  -- and that the rows fit. It fails only for a source that is the target, when the engine cannot make the staged vector.
  pub gather-overwrite :
      (source target : ℕ) (ns : List ℕ) (offset : ℕ) (store : Store Row) (rows held : List Row)
      → store source ≡ some rows
      → store target ≡ some held
      → All (Below (length rows)) ns
      → offset + length ns ≤ length held
      → ((source ≡ target)
          × (engine.create (length ns) store ≡ none)
          × (gather engine source target (selects ns) offset store ≡ err no_memory))
        ⊎ Gathers store target
            (overwrite held offset (picks rows ns missing))
            (gather engine source target (selects ns) offset store)
  gather-overwrite source target [] offset store rows held at to h fits = inr (
    store,
    gather-empty source target offset store,
    (to ∙ ap some (sym (overwrite-empty held offset)), λ u other. refl),
  )
  gather-overwrite source target (n ∷ ns) offset store rows held at to h fits =
      elim (Bool-cases (source == target)) [
        | inr f ↦
            let apart : source ≢ target = ground arith in
            inr (
              engine.copy_sel source target (n ∷ ns) (suc (length ns)) 0 offset store,
              gather-filled source target n ns offset store
                  ∙ gather_into-another source target (n ∷ ns) offset store f,
              copies.copy_sel_rows source target (n ∷ ns) offset store rows held apart at to h fits,
            )
        | inl t ↦
            let same : source ≡ target = (==_iff source target).0 t in
            let rows_same : rows ≡ held = cc in
            let fits' : offset + length (n ∷ ns) ≤ length rows =
              subst (λ (k : List Row). offset + length (n ∷ ns) ≤ length k) (sym rows_same) fits in
            let into = gather-filled source source n ns offset store in
            subst
              (λ v.
                ((source ≡ v)
                  × (engine.create (length (n ∷ ns)) store ≡ none)
                  × (gather engine source v (selects (n ∷ ns)) offset store ≡ err no_memory))
                ⊎ Gathers store v (overwrite held offset (picks rows (n ∷ ns) missing))
                    (gather engine source v (selects (n ∷ ns)) offset store))
              same
              (subst
                (λ k.
                  ((source ≡ source)
                    × (engine.create (length (n ∷ ns)) store ≡ none)
                    × (gather engine source source (selects (n ∷ ns)) offset store ≡ err no_memory))
                  ⊎ Gathers store source (overwrite k offset (picks rows (n ∷ ns) missing))
                      (gather engine source source (selects (n ∷ ns)) offset store))
                rows_same
                (elim (gather_into-alias source (n ∷ ns) offset store rows
                  (engine.create (length (n ∷ ns)) store) refl at h fits') [
                    | inl failing ↦ inl (refl, failing.0, into ∙ failing.1)
                    | inr done ↦ inr (done.0, into ∙ done.1, done.2)
                  ]))
      ]
