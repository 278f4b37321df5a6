-- ===== src/Variant/Geometry/Reads.antt =====
-- Reading what was written: a reader that stands before some bytes takes them and gives a value.
use php_duckdb.Prelude.{
  ℕ, zero, suc, ◌+◌, ◌/◌, ◌%◌, ◌^◌, ◌<◌, ◌≡◌, refl, sym, ap, ◌∙◌, Bool, true, false, List, [], ◌∷◌,
  ◌++◌, append_assoc, arith, Bytes, codes, length, drop, All, length-append, ltb, take-append,
  drop-append,
}
use mathlib.Core.Path.{subst}
use native.Mathlib.Nat.{pow-suc}
use php_duckdb.Prelude.{length-drop}
use php_duckdb.Variant.{
  Reader, Read, done, and_then, remaining, take_bytes, read_unsigned, little_endian,
}
use php_duckdb.Variant.Geometry.{separated, items, in_parentheses, nonempty, counted}

abbrev pub moved : ℕ → Reader → Reader
moved count r = record r { position = r.position + count }

abbrev pub Reads : {A : Type 0} → (Reader → Read A) → Bytes → A → Type 0
Reads f bytes a =
    (r : Reader) (rest : Bytes)
    → drop r.position r.bytes ≡ bytes ++ rest
    → f r ≡ done a (moved (length bytes) r)

pub drop_more :
    (n : ℕ) (xs ys rest : Bytes) → drop n xs ≡ ys ++ rest → drop (n + length ys) xs ≡ rest
drop_more zero xs ys rest h =
    let e : 0 + length ys ≡ length ys = omega arith in rw (e, h) (drop-append ys rest)
drop_more (suc n) [] [] rest h = let e : suc n + 0 ≡ suc n = omega arith in rw e h
drop_more (suc n) [] (y ∷ ys) rest h = cc
drop_more (suc n) (x ∷ xs) ys rest h =
    let e : suc n + length ys ≡ suc (n + length ys) = omega arith in rw e (drop_more n xs ys rest h)

moved_twice : (m n : ℕ) (r : Reader) → moved n (moved m r) ≡ moved (m + n) r
moved_twice m n r =
    ap (λ (p : ℕ). record r { position = p }) {x = r.position + m + n} {y = r.position + (m + n)}
      (omega arith)

pub done-Reads : {A : Type 0} (a : A) → Reads (done a) [] a
done-Reads a r rest h =
    ap (λ (p : ℕ). done a (record r { position = p })) {x = r.position} {y = r.position + 0}
      (omega arith)

pub and_then-Reads :
    {A B : Type 0} (f : Reader → Read A) (g : A → Reader → Read B) (xs ys : Bytes) (a : A) (b : B)
    → Reads f xs a
    → Reads (g a) ys b
    → Reads (λ r. and_then (f r) g) (xs ++ ys) b
and_then-Reads f g xs ys a b hf hg r rest h =
    let h' : drop r.position r.bytes ≡ xs ++ (ys ++ rest) = h ∙ append_assoc xs ys rest in
    let second = hg (moved (length xs) r) rest (drop_more r.position r.bytes xs (ys ++ rest) h') in
    ap (λ (d : Read _). and_then d g) (hf r (ys ++ rest) h')
    ∙ second
    ∙ ap (done b) (
        moved_twice (length xs) (length ys) r
        ∙ ap (λ (n : ℕ). moved n r) (sym (length-append xs ys)))

pub map-Reads :
    {A B : Type 0} (f : Reader → Read A) (g : A → B) (xs : Bytes) (a : A)
    → Reads f xs a
    → Reads (λ r. and_then (f r) (λ b r'. done (g b) r')) xs (g a)
map-Reads f g xs a h r rest e = ap (λ (d : Read _). and_then d (λ b r'. done (g b) r')) (h r rest e)

pub take_bytes-Reads : (xs : Bytes) → Reads (take_bytes (length xs)) xs xs
unfolding take_bytes
take_bytes-Reads xs r rest h =
    let n : length (drop r.position r.bytes) ≡ length xs + length rest =
      ap length h ∙ length-append xs rest in
    let room : ltb (remaining r) (length xs) ≡ false =
      ground (arith, length-drop r.position r.bytes) in
    rw (room, h, take-append xs rest)

-- A number in so many bytes, the lowest first.
abbrev pub bytes_of : ℕ → ℕ → Bytes
bytes_of zero n = []
bytes_of (suc k) n = (n % 256) ∷ bytes_of k (n / 256)

length-bytes_of : (k n : ℕ) → length (bytes_of k n) ≡ k
length-bytes_of zero n = refl
length-bytes_of (suc k) n = ap suc (length-bytes_of k (n / 256))

little_endian-bytes_of : (k n : ℕ) → n < 256 ^ k → little_endian (bytes_of k n) ≡ n
little_endian-bytes_of zero n h = omega arith
little_endian-bytes_of (suc k) n h =
    let e = little_endian-bytes_of k (n / 256) (omega (arith, pow-suc 256 k)) in omega arith

pub read_unsigned-Reads : (k n : ℕ) → n < 256 ^ k → Reads (read_unsigned k) (bytes_of k n) n
unfolding read_unsigned
read_unsigned-Reads k n h r rest e =
    let taken =
      subst (λ (c : ℕ). take_bytes c r ≡ done (bytes_of k n) (moved (length (bytes_of k n)) r))
        (length-bytes_of k n) (take_bytes-Reads (bytes_of k n) r rest e) in
    ap (λ (d : Read Bytes). and_then d (λ bytes r'. done (little_endian bytes) r')) taken
    ∙ ap (λ (v : ℕ). done v (moved (length (bytes_of k n)) r)) (little_endian-bytes_of k n h)

-- Texts one behind the other, each after a separator; and with separators between them.
abbrev pub followed : Bytes → List Bytes → Bytes
followed separator [] = []
followed separator (t ∷ ts) = (separator ++ t) ++ followed separator ts

abbrev pub joined : Bytes → List Bytes → Bytes
joined separator [] = []
joined separator (t ∷ ts) = t ++ followed separator ts

abbrev pub texts : Bool → Bytes → List Bytes → Bytes
texts true separator ts = joined separator ts
texts false separator ts = followed separator ts

pub separated-texts :
    (first : Bool) (separator t : Bytes) (ts : List Bytes)
    → separated first separator t ++ followed separator ts ≡ texts first separator (t ∷ ts)
separated-texts true separator t ts = refl
separated-texts false separator t ts = refl

abbrev pub map_bytes : {X : Type 0} → (X → Bytes) → List X → List Bytes
map_bytes f [] = []
map_bytes f (x ∷ xs) = f x ∷ map_bytes f xs

abbrev pub concat : List Bytes → Bytes
concat [] = []
concat (b ∷ bs) = b ++ concat bs

-- A count and what it counts.
abbrev pub encode_list : List Bytes → Bytes
encode_list bs = bytes_of 4 (length bs) ++ concat bs

abbrev pub show_list : List Bytes → Bytes
show_list [] = codes "EMPTY"
show_list (t ∷ ts) = in_parentheses (joined (codes ", ") (t ∷ ts))

-- Each of the stored parts is read as the text at its place.
abbrev pub AllRead : (Reader → Read Bytes) → List Bytes → List Bytes → Type 0
AllRead p [] [] = Unit
AllRead p [] (t ∷ ts) = ⊥
AllRead p (b ∷ bs) [] = ⊥
AllRead p (b ∷ bs) (t ∷ ts) = Reads p b t × AllRead p bs ts

pub map_bytes-AllRead :
    {X : Type 0} (p : Reader → Read Bytes) (encode show : X → Bytes) (xs : List X)
    → All (λ x. Reads p (encode x) (show x)) xs
    → AllRead p (map_bytes encode xs) (map_bytes show xs)
map_bytes-AllRead p encode show [] h = h
map_bytes-AllRead p encode show (x ∷ xs) (h, hs) = (h, map_bytes-AllRead p encode show xs hs)

items-Reads :
    (p : Reader → Read Bytes) (bs ts : List Bytes) (first : Bool)
    → AllRead p bs ts
    → Reads (items p (length bs) first) (concat bs) (texts first (codes ", ") ts)
unfolding items
items-Reads p [] [] true h = done-Reads []
items-Reads p [] [] false h = done-Reads []
items-Reads p [] (t ∷ ts) first h = absurd h
items-Reads p (b ∷ bs) [] first h = absurd h
items-Reads p (b ∷ bs) (t ∷ ts) true (h, hs) = and_then-Reads p _ b (concat bs) t _ h (
    map-Reads (items p (length bs) false) (λ more. t ++ more) (concat bs) _
      (items-Reads p bs ts false hs))
items-Reads p (b ∷ bs) (t ∷ ts) false (h, hs) = and_then-Reads p _ b (concat bs) t _ h (
    map-Reads (items p (length bs) false) (λ more. (codes ", " ++ t) ++ more) (concat bs) _
      (items-Reads p bs ts false hs))

nonempty-Reads :
    (p : Reader → Read Bytes) (bs ts : List Bytes)
    → AllRead p bs ts
    → Reads (nonempty p (length bs)) (concat bs) (show_list ts)
nonempty-Reads p [] [] h = done-Reads (codes "EMPTY")
nonempty-Reads p [] (t ∷ ts) h = absurd h
nonempty-Reads p (b ∷ bs) [] h = absurd h
nonempty-Reads p (b ∷ bs) (t ∷ ts) h =
    map-Reads (items p (length (b ∷ bs)) true) in_parentheses (concat (b ∷ bs)) _
      (items-Reads p (b ∷ bs) (t ∷ ts) true h)

pub counted-Reads :
    (p : Reader → Read Bytes) (bs ts : List Bytes)
    → length bs < 2 ^ 32
    → AllRead p bs ts
    → Reads (counted p) (encode_list bs) (show_list ts)
counted-Reads p bs ts n h =
    and_then-Reads (read_unsigned 4) (λ count r. nonempty p count r) (bytes_of 4 (length bs))
      (concat bs) (length bs) (show_list ts) (read_unsigned-Reads 4 (length bs) n)
      (nonempty-Reads p bs ts h)
