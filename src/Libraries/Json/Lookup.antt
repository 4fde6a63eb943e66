-- ===== src/Libraries/Json/Lookup.antt =====
-- What JsonScanner finds in what JsonWriter wrote.
use agile_firmware_framework.Prelude.{
  ℕ, ◌^◌, ◌≤◌, ◌<◌, ◌≡◌, refl, sym, ◌∙◌, Bool, true, false, ◌||◌, some, List, [], ◌∷◌, ◌++◌, All,
  length, set, take, drop, leb, ◌==◌, if◌then◌else◌, Bool-cases, inl, inr, ◌⊎◌, arith, append_assoc,
  append-nil, length-append, set-append, take-append,
}
use agile_firmware_framework.Prelude.Strings.{characters}
use agile_firmware_framework.Prelude.Words.{add_size}
use agile_firmware_framework.Libraries.Json.Writer.{json_writer}
use agile_firmware_framework.Libraries.Json.Scanner.{
  skip_blanks, after_colon, after_key, find_loop, copy_string, string_at, get_string,
}
use agile_firmware_framework.Libraries.Json.Text.{
  escape, Field, text, IsField, fields_text, value_text, object_text, write_object,
}
use agile_firmware_framework.Libraries.Json.Object.{write_object_lem}

pub after_key-characters :
    (key ys : List ℕ) → after_key key (characters key ++ (34 ∷ ys)) ≡ after_colon (skip_blanks ys)
unfolding after_key characters
after_key-characters [] ys = refl
after_key-characters (k ∷ ks) ys = elim (Bool-cases (k == 0)) [
  | inl e ↦ rw (e, e) refl
  | inr e ↦ let same : k == k ≡ true = ground arith in rw (e, e, same) (after_key-characters ks ys)
]

-- What stands behind the first field of an object.
abbrev pub after_first : List Field → List ℕ
after_first fs = fields_text false fs ++ (125 ∷ [])

first_field :
    (k v more : List ℕ)
    → ((k ++ (34 ∷ 58 ∷ [])) ++ ((34 ∷ (v ++ (34 ∷ []))) ++ more)) ++ (125 ∷ [])
      ≡ k ++ (34 ∷ 58 ∷ 34 ∷ (v ++ (34 ∷ (more ++ (125 ∷ [])))))
first_field k v more = simp (append_assoc {A = ℕ})

find_loop-object :
    (key value : List ℕ) (fs : List Field)
    → find_loop key (object_text (text key value ∷ fs))
      ≡ 34 ∷ (escape (characters value) ++ (34 ∷ after_first fs))
unfolding find_loop fields_text value_text after_colon skip_blanks
find_loop-object key value fs =
    let behind = 58 ∷ 34 ∷ (escape (characters value) ++ (34 ∷ after_first fs)) in
    let reached : after_key key (characters key ++ (34 ∷ behind)) ≡ some (drop 1 behind) =
      after_key-characters key behind in
    rw (first_field (characters key) (escape (characters value)) (fields_text false fs), reached)
      refl

-- A text copied behind `done`, with its terminator, or no success where it does not fit.
unfoldable pub Copied : ℕ → List ℕ → Bool × List ℕ → Type 0
Copied capacity t r =
    ((tail : List ℕ) × (length (t ++ (0 ∷ tail)) ≡ capacity) × (r ≡ (true, t ++ (0 ∷ tail))))
    ⊎ ((capacity ≤ length t) × (r.0 ≡ false))

escape-cons : (v more : List ℕ) → (z : ℕ) × (zs : List ℕ) × (escape v ++ (34 ∷ more) ≡ z ∷ zs)
unfolding escape
escape-cons [] more = (34, more, refl)
escape-cons (c ∷ v) more = elim (Bool-cases (c == 34 || c == 92)) [
  | inl e ↦ rw e (92, c ∷ (escape v ++ (34 ∷ more)), refl)
  | inr e ↦ rw e (c, escape v ++ (34 ∷ more), refl)
]

copy_string-cons :
    (capacity c : ℕ) (v more value : List ℕ) (output : ℕ)
    → copy_string capacity (escape (c ∷ v) ++ (34 ∷ more)) value output ≡ (
        if leb capacity (add_size output 1)
        then (false, value)
        else copy_string capacity
            (escape v ++ (34 ∷ more))
            (set value output c)
            (add_size output 1))
unfolding copy_string escape
copy_string-cons capacity c v more value output = elim (Bool-cases (c == 34 || c == 92)) [
  | inl e ↦ rw e refl
  | inr e ↦
      let (z, zs, f) = escape-cons v more in
      let plain : c == 34 ≡ false = ground arith in
      let unescaped : c == 92 ≡ false = ground arith in rw (e, f, plain, unescaped) refl
]

copy_string-end :
    (capacity : ℕ) (more value : List ℕ) (output : ℕ)
    → copy_string capacity (34 ∷ more) value output ≡ (true, set value output 0)
unfolding copy_string
copy_string-end capacity [] value output = refl
copy_string-end capacity (x ∷ more) value output = refl

copy_string-escape :
    (capacity : ℕ) (v more done : List ℕ) (y : ℕ) (rest : List ℕ)
    → capacity < 2 ^ 32
    → length (done ++ (y ∷ rest)) ≡ capacity
    → Copied capacity
        (done ++ v)
        (copy_string capacity (escape v ++ (34 ∷ more)) (done ++ (y ∷ rest)) (length done))
unfolding Copied escape
copy_string-escape capacity [] more done y rest small full =
    rw
      (
        append-nil done,
        copy_string-end capacity more (done ++ (y ∷ rest)) (length done),
        set-append done y 0 rest,
      )
      (inl (rest, length-append done (0 ∷ rest) ∙ sym (length-append done (y ∷ rest)) ∙ full, refl))
copy_string-escape capacity (c ∷ v) more done y [] small full =
    let stop : leb capacity (add_size (length done) 1) ≡ true =
      ground (arith, length-append done (y ∷ []), full) in
    rw (copy_string-cons capacity c v more (done ++ (y ∷ [])) (length done), stop)
      (inr (omega (arith, length-append done (c ∷ v), length-append done (y ∷ []), full), refl))
copy_string-escape capacity (c ∷ v) more done y (z ∷ rest) small full =
    let size = length-append done (y ∷ z ∷ rest) in
    let size' = length-append done (c ∷ []) in
    let next : add_size (length done) 1 ≡ length (done ++ (c ∷ [])) =
      omega (arith, size, full, small, size') in
    let on : leb capacity (length (done ++ (c ∷ []))) ≡ false = ground (arith, size, full, size') in
    let moved : done ++ (c ∷ z ∷ rest) ≡ (done ++ (c ∷ [])) ++ (z ∷ rest) =
      sym (append_assoc done (c ∷ []) (z ∷ rest)) in
    let joint : (done ++ (c ∷ [])) ++ v ≡ done ++ (c ∷ v) = append_assoc done (c ∷ []) v in
    let backed : length ((done ++ (c ∷ [])) ++ (z ∷ rest)) ≡ capacity =
      omega (arith, length-append (done ++ (c ∷ [])) (z ∷ rest), size', size, full) in
    rw
      (
        copy_string-cons capacity c v more (done ++ (y ∷ z ∷ rest)) (length done),
        set-append done y c (z ∷ rest),
        next,
        on,
        moved,
      )
      (rw joint at (copy_string-escape capacity v more (done ++ (c ∷ [])) z rest small backed))

get_string-object :
    (capacity : ℕ) (key value : List ℕ) (fs : List Field) (out : List ℕ)
    → capacity < 2 ^ 32
    → 0 < capacity
    → length out ≡ capacity
    → Copied capacity
        (characters value)
        (get_string (some key) out capacity (object_text (text key value ∷ fs)))
unfolding get_string string_at
get_string-object capacity key value fs [] small positive full =
    absurd (omega (arith, full, positive))
get_string-object capacity key value fs (y ∷ rest) small positive full =
    let room : capacity == 0 ≡ false = ground arith in
    rw (find_loop-object key value fs, room)
      (copy_string-escape capacity (characters value) (after_first fs) [] y rest small full)

-- A text field that comes first in an object, which JsonWriter wrote into a buffer where it fits:
-- JsonScanner over the bytes written finds under its key the characters of the value, escapes
-- undone, with the terminator, where they fit into the caller's array; where they do not, it
-- reports failure. All texts are of bytes, and both arrays of less than 2 ^ 32 of them.
pub get_string-write_object :
    (capacity room : ℕ) (key value : List ℕ) (fs : List Field) (buffer out : List ℕ)
    → capacity < 2 ^ 32
    → room < 2 ^ 32
    → 0 < room
    → All IsField (text key value ∷ fs)
    → length buffer ≡ capacity
    → length out ≡ room
    → length (object_text (text key value ∷ fs)) < capacity
    → let (done, w) = write_object (text key value ∷ fs) (json_writer buffer capacity) in
      (done ≡ true)
      × Copied room
          (characters value)
          (get_string (some key) out room (take w.position w.data_bytes))
get_string-write_object capacity room key value fs buffer out small small' positive bytes full full'
      fits =
    let t = object_text (text key value ∷ fs) in
    elim (write_object_lem capacity small (text key value) fs buffer bytes full) [
      | inl (rest, size, done, written, at_end) ↦ (
        done,
        rw (written, at_end, take-append t (0 ∷ rest))
            (get_string-object room key value fs out small' positive full'),
      )
      | inr (long, failed, over) ↦ absurd (omega (arith, long, fits))
    ]
