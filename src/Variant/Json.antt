-- ===== src/Variant/Json.antt =====
-- Rendering a stored value gives its text.
use php_duckdb.Prelude.{
  ℕ, suc, ◌+◌, ◌%◌, ◌^◌, ◌<◌, ◌≡◌, inl, inr, refl, ap, ◌∙◌, Bool, true, false, List, [], ◌∷◌, ◌++◌,
  append_assoc, append-nil, Option, arith, tests, Bytes, codes, length, drop, ltb, ◌==◌,
  if◌then◌else◌, Bool-cases,
}
use php_duckdb.Prelude.Decimal.{decimal}
use php_duckdb.Variant.{Reader}
use php_duckdb.Variant.Geometry.{separated}
use php_duckdb.Variant.Geometry.Reads.{joined, followed, texts, separated-texts}
use php_duckdb.Variant.Geometry.Encode.{stored, text_of}
use php_duckdb.Variant.Geometry.RoundTrip.{geometry-stored}
use php_duckdb.Variant.Quote.{quote}
use php_duckdb.Variant.Decode.{
  with_leading_zero, rendered, bit_value, moment_bytes, ok, Decoder, Engine,
}
use php_duckdb.Variant.Render.{
  flip_top, bit_text, Tag, Fields, put, sort, elements, members, by_tag, render,
}
use php_duckdb.Variant.Fields.{put_all, put_all-Canonical}
use php_duckdb.Variant.Stored.{
  Json, Items, Members, integer_text, pairs, Prints, null_text, bool_text, natural_text, int_text,
  string_text, printed_text, hugeint_body, uhugeint_body, float_body, double_body, blob_body,
  bit_body, uuid_body, moment_body, decimal_body, geometry_body, array_text, object_text,
  ItemsPrint, none_printed, item_printed, MembersPrint, no_member_printed, member_printed,
  complement, HoldsAt, holds, BodyAt, null_body, true_body, false_body, natural_body, integer_body,
  string_body, array_body, object_body, ItemsAt, items_end, next_item, MembersAt, members_end,
  next_member,
}
use php_duckdb.Variant.Steps.{
  signed_text-complement, fields_text-pairs, children_at-ChildrenAt, sized_bytes-read,
  number_at-read, decimal_text-read, complement_fits, render-step, elements-step, members-step,
  no_texts,
}

abbrev Rendering : Engine → Decoder → ℕ → List ℕ → ℕ → Json → Type 0
Rendering e d levels active i v = (t : Bytes) × (render e d levels active i ≡ ok t) × Prints v t

abbrev Body : Engine → Decoder → ℕ → List ℕ → Option Tag → Bytes → Json → Type 0
Body e d levels active tag bytes v =
    (r : Reader)
    → drop r.position r.bytes ≡ bytes
    → (t : Bytes) × (by_tag e d (render e d levels active) r tag ≡ ok t) × Prints v t

flip_top_lem : (n : ℕ) → n < 256 ^ 16 → flip_top n ≡ (n + 2 ^ 127) % 2 ^ 128
flip_top_lem n h = elim (Bool-cases (ltb n (2 ^ 127))) [
  | inl t ↦ rw t (omega tests)
  | inr f ↦ rw f (omega tests)
]

bit_text_lem :
    (e : Engine) (padding c : ℕ) (s t : Bytes)
    → padding < 8
    → e.text_of (bit_value (padding ∷ c ∷ s)) ≡ rendered t
    → bit_text e (padding ∷ c ∷ s) ≡ ok (quote t)
bit_text_lem e padding c s t low eq =
    let several : ltb (suc (suc (length s))) 2 ≡ false = ground arith in
    let small : ltb 7 padding ≡ false = ground arith in rw (several, small, eq) refl

mutual
  unfolding render by_tag elements members

  render-HoldsAt :
      {d : Decoder} {levels i : ℕ} {active : List ℕ} {v : Json} (e : Engine)
      → HoldsAt e d levels active i v
      → Rendering e d levels active i v
  render-HoldsAt {d = d} e
        (holds {i = i} {tag = tag} {offset = offset} fresh small c1 c2 inside b) =
      let (t, eq, p) = by_tag-BodyAt e b (record d.blob { position = offset }) refl in
      (t, render-step e d _ i tag offset _ fresh small c1 c2 inside ∙ eq, p)

  by_tag-BodyAt :
      {d : Decoder} {levels : ℕ} {active : List ℕ} {tag : Option Tag} {bytes : Bytes} {v : Json}
      (e : Engine)
      → BodyAt e d levels active tag bytes v
      → Body e d levels active tag bytes v
  by_tag-BodyAt e null_body r h = (codes "null", refl, null_text)
  by_tag-BodyAt e true_body r h = (codes "true", refl, bool_text true)
  by_tag-BodyAt e false_body r h = (codes "false", refl, bool_text false)
  by_tag-BodyAt e (natural_body {width = width} {n = n} rest fits) r h =
      (decimal n, number_at-read width n rest r _ fits h, natural_text n)
  by_tag-BodyAt e (integer_body {width = width} {z = z} rest w fits) r h = (
    integer_text z,
    number_at-read width (complement width z) rest r _ (complement_fits width z w fits) h
        ∙ ap ok (signed_text-complement width z w fits),
    int_text z,
  )
  by_tag-BodyAt e (string_body {s = s} rest small) r h =
      (quote s, sized_bytes-read s rest r _ small h, string_text s)
  by_tag-BodyAt e (hugeint_body {t = t} n rest fits eq) r h =
      (t, number_at-read 16 n rest r _ fits h ∙ rw eq refl, printed_text t)
  by_tag-BodyAt e (uhugeint_body {t = t} n rest fits eq) r h =
      (t, number_at-read 16 n rest r _ fits h ∙ rw eq refl, printed_text t)
  by_tag-BodyAt e (float_body {t = t} n rest fits eq) r h =
      (t, number_at-read 4 n rest r _ fits h ∙ rw eq refl, printed_text t)
  by_tag-BodyAt e (double_body {t = t} n rest fits eq) r h =
      (t, number_at-read 8 n rest r _ fits h ∙ rw eq refl, printed_text t)
  by_tag-BodyAt e (blob_body {t = t} s rest small eq) r h =
      (quote t, sized_bytes-read s rest r _ small h ∙ rw eq refl, string_text t)
  by_tag-BodyAt e (bit_body {t = t} padding c s rest low small eq) r h = (
    quote t,
    sized_bytes-read (padding ∷ c ∷ s) rest r _ small h ∙ bit_text_lem e padding c s t low eq,
    string_text t,
  )
  by_tag-BodyAt e (uuid_body {t = t} n rest fits eq) r h = (
    quote t,
    number_at-read 16 n rest r _ fits h ∙ rw (flip_top_lem n fits, eq) refl,
    string_text t,
  )
  by_tag-BodyAt e (moment_body {m = m} {t = t} n rest fits eq) r h =
      (quote t, number_at-read (moment_bytes m) n rest r _ fits h ∙ rw eq refl, string_text t)
  by_tag-BodyAt e (decimal_body {t = t} width scale z rest w small low fits eq) r h = (
    if width == scale then with_leading_zero t else t,
    decimal_text-read e width scale z t rest r w small low fits eq h,
    printed_text (if width == scale then with_leading_zero t else t),
  )
  by_tag-BodyAt e (geometry_body flags g rest small nested sound) r h = (
    quote (text_of e.floats flags g),
    sized_bytes-read (stored flags g) rest r _ small h
        ∙ rw (geometry-stored e.floats flags g nested sound) refl,
    string_text (text_of e.floats flags g),
  )
  by_tag-BodyAt {d = d} {levels = levels} {active = active} e
        (array_body {count = count} {first = first} c a) r h =
      let (ts, eq, p) = elements-ItemsAt e a true (b'[' ∷ []) in
      (
        b'[' ∷ (joined (codes ",") ts ++ (b']' ∷ [])),
        children_at-ChildrenAt c r h _ ∙ rw eq refl,
        array_text p,
      )
  by_tag-BodyAt {d = d} {levels = levels} {active = active} e
        (object_body {count = count} {first = first} c a) r h =
      let (fields, eq, p) = members-MembersAt e a [] in
      (
        b'{' ∷ (joined (codes ",") (pairs (sort (put_all fields []))) ++ (b'}' ∷ [])),
        children_at-ChildrenAt c r h _
            ∙ rw (eq, fields_text-pairs true (sort (put_all fields []))) refl,
        object_text (sort (put_all fields [])) p (put_all-Canonical fields),
      )

  elements-ItemsAt :
      {d : Decoder} {levels first count : ℕ} {active : List ℕ} {vs : Items} (e : Engine)
      → ItemsAt e d levels active first count vs
      → (start : Bool) (result : Bytes)
      → (ts : List Bytes) × (elements d (render e d levels active) count first start result
          ≡ ok (result ++ texts start (codes ",") ts))
        × ItemsPrint vs ts
  elements-ItemsAt e items_end start result =
      ([], rw (no_texts start, append-nil result) refl, none_printed)
  elements-ItemsAt {d = d} {levels = levels} {active = active} e
        (next_item {first = first} {count = count} {i = i} small low c a more) start result =
      let (t, eq, p) = render-HoldsAt e a in
      let (ts, eqs, ps) = elements-ItemsAt e more false (result ++ separated start (codes ",") t) in
      (
        t ∷ ts,
        elements-step d (render e d levels active) first count i start result t small low c eq
            ∙ eqs
            ∙ ap ok (
                append_assoc result (separated start (codes ",") t) (followed (codes ",") ts)
                ∙ ap (λ x. result ++ x) (separated-texts start (codes ",") t ts)),
        item_printed p ps,
      )

  members-MembersAt :
      {d : Decoder} {levels first count : ℕ} {active : List ℕ} {ms : Members} (e : Engine)
      → MembersAt e d levels active first count ms
      → (fields : Fields)
      → (more : Fields) × (members d (render e d levels active) count first fields
          ≡ ok (put_all more fields))
        × MembersPrint ms more
  members-MembersAt e members_end fields = ([], refl, no_member_printed)
  members-MembersAt {d = d} {levels = levels} {active = active} e
        (next_member {first = first} {count = count} {i = i} {j = j} {k = k} small low c cj l ck a
          after)
        fields =
      let (t, eq, p) = render-HoldsAt e a in
      let (more, eqs, ps) = members-MembersAt e after (put k t fields) in
      (
        (k, t) ∷ more,
        members-step d (render e d levels active) first count i j k t fields small low c cj l ck eq
            ∙ eqs,
        member_printed p ps,
      )
