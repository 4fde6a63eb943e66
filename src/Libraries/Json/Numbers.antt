-- ===== src/Libraries/Json/Numbers.antt =====
-- Numbers through JsonWriter and JsonScanner.
use agile_firmware_framework.Prelude.{
  ℕ, zero, suc, ◌+◌, ◌-◌, ◌*◌, ◌/◌, ◌%◌, ◌^◌, ◌<◌, ◌≡◌, refl, ap, ◌∙◌, true, false, some, List, [],
  ◌∷◌, ◌++◌, All, length, take, ltb, ◌==◌, if◌then◌else◌, Bool-cases, inl, inr, arith, append_assoc,
  take-append,
}
use agile_firmware_framework.Prelude.Strings.{characters}
use agile_firmware_framework.Libraries.Json.Writer.{json_writer, digits}
use agile_firmware_framework.Libraries.Json.Scanner.{
  skip_blanks, after_colon, after_key, find_loop, is_digit, parse_digits, u32_at, get_u32,
}
use agile_firmware_framework.Libraries.Json.Text.{
  backwards, Field, number, IsField, fields_text, value_text, object_text, write_object,
}
use agile_firmware_framework.Libraries.Json.Writes.{backwards-digits}
use agile_firmware_framework.Libraries.Json.Object.{write_object_lem}
use agile_firmware_framework.Libraries.Json.Lookup.{after_key-characters, after_first}

-- The number of some digits, the lowest first.
abbrev value_of : List ℕ → ℕ
value_of [] = 0
value_of (d ∷ ds) = (d - 48) + 10 * value_of ds

abbrev bound : ℕ → ℕ
bound zero = 1
bound (suc places) = 10 * bound places

-- The do loop stops after all digits of a number that has no more than the places.
value_of-digits : (places value : ℕ) → value < bound places → value_of (digits places value) ≡ value
unfolding digits
value_of-digits zero value h = omega (arith, h)
value_of-digits (suc places) value h = elim (Bool-cases (value / 10 == 0)) [
  | inl e ↦ rw e (ground arith)
  | inr e ↦ rw e (omega (arith, value_of-digits places (value / 10) (omega (arith, h))))
]

abbrev AreDigits : List ℕ → Type 0
AreDigits ds = All (λ d. is_digit d ≡ true) ds

digits-AreDigits : (places value : ℕ) → AreDigits (digits places value)
unfolding digits
digits-AreDigits zero value = tt
digits-AreDigits (suc places) value = elim (Bool-cases (value / 10 == 0)) [
  | inl e ↦ rw e (ground arith, tt)
  | inr e ↦ rw e (ground arith, digits-AreDigits places (value / 10))
]

parse_digits-step :
    (parsed d : ℕ) (more : List ℕ)
    → is_digit d ≡ true
    → parsed * 10 + (d - 48) < 2 ^ 32
    → parse_digits parsed (d ∷ more) ≡ parse_digits (parsed * 10 + (d - 48)) more
unfolding parse_digits
parse_digits-step parsed d more digit small =
    let fits : ltb ((2 ^ 32 - 1 - (d - 48)) / 10) parsed ≡ false = ground (arith, small) in
    rw (digit, fits) refl

parse_digits-backwards :
    (ds more : List ℕ)
    → AreDigits ds
    → value_of ds < 2 ^ 32
    → parse_digits 0 (backwards ds ++ more) ≡ parse_digits (value_of ds) more
unfolding backwards
parse_digits-backwards [] more all small = refl
parse_digits-backwards (d ∷ ds) more all small =
    let swap : value_of ds * 10 + (d - 48) ≡ (d - 48) + 10 * value_of ds = omega arith in
    rw
      (
        append_assoc (backwards ds) (d ∷ []) more,
        parse_digits-backwards ds (d ∷ more) all.1 (omega (arith, small)),
      )
      (parse_digits-step (value_of ds) d more all.0 (omega (arith, small))
        ∙ ap (λ n. parse_digits n more) swap)

-- A list of at least one digit starts with one when it is read from its end.
starts_digit :
    (d : ℕ) (ds more : List ℕ)
    → AreDigits (d ∷ ds)
    → (x : ℕ) × (xs : List ℕ) × (is_digit x ≡ true) × (backwards (d ∷ ds) ++ more ≡ x ∷ xs)
unfolding backwards
starts_digit d [] more all = (d, more, all.0, refl)
starts_digit d (e ∷ ds) more all =
    let (x, xs, digit, h) = starts_digit e ds (d ∷ more) all.1 in
    (x, xs, digit, append_assoc (backwards (e ∷ ds)) (d ∷ []) more ∙ h)

digits_cons : (value : ℕ) → (d : ℕ) × (ds : List ℕ) × (digits 10 value ≡ d ∷ ds)
unfolding digits
digits_cons value = (48 + value % 10, if value / 10 == 0 then [] else digits 9 (value / 10), refl)

parse_digits-after_first : (n : ℕ) (fs : List Field) → parse_digits n (after_first fs) ≡ some n
unfolding parse_digits fields_text
parse_digits-after_first n [] = refl
parse_digits-after_first n (f ∷ fs) = refl

skip_blanks-digit : (x : ℕ) (xs : List ℕ) → is_digit x ≡ true → skip_blanks (x ∷ xs) ≡ x ∷ xs
unfolding skip_blanks
skip_blanks-digit x xs digit = ground arith

first_number :
    (k v more : List ℕ)
    → ((k ++ (34 ∷ 58 ∷ [])) ++ (v ++ more)) ++ (125 ∷ [])
      ≡ k ++ (34 ∷ 58 ∷ (v ++ (more ++ (125 ∷ []))))
first_number k v more = simp (append_assoc {A = ℕ})

u32_at-digits :
    (old value : ℕ) (fs : List Field)
    → value < 2 ^ 32
    → u32_at old (skip_blanks (backwards (digits 10 value) ++ after_first fs)) ≡ (true, value)
unfolding u32_at
u32_at-digits old value fs small =
    let (d, ds, e) = digits_cons value in
    let all : AreDigits (d ∷ ds) = rw e at (digits-AreDigits 10 value) in
    let whole : value_of (d ∷ ds) ≡ value =
      rw e at (value_of-digits 10 value (omega (arith, small))) in
    let (x, xs, digit, h) = starts_digit d ds (after_first fs) all in
    let parsed =
      parse_digits-backwards (d ∷ ds) (after_first fs) all (omega (arith, whole, small)) in
    rw
      (
        e,
        h,
        skip_blanks-digit x xs digit,
        digit,
        ← h,
        parsed,
        whole,
        parse_digits-after_first value fs,
      )
      refl

after_colon-blanks : (ys : List ℕ) → after_colon (skip_blanks (58 ∷ ys)) ≡ some (skip_blanks ys)
unfolding after_colon skip_blanks
after_colon-blanks ys = refl

find_loop-number :
    (key : List ℕ) (value : ℕ) (fs : List Field)
    → find_loop key (object_text (number key value ∷ fs))
      ≡ skip_blanks (backwards (digits 10 value) ++ after_first fs)
unfolding find_loop fields_text value_text
find_loop-number key value fs =
    let behind = backwards (digits 10 value) ++ after_first fs in
    let reached : after_key key (characters key ++ (34 ∷ 58 ∷ behind)) ≡ some (skip_blanks behind) =
      after_key-characters key (58 ∷ behind) ∙ after_colon-blanks behind in
    rw
      (
        ← backwards-digits 10 value,
        first_number (characters key) (backwards (digits 10 value)) (fields_text false fs),
        reached,
      )
      refl

-- A number of 32 bits that comes first in an object, which JsonWriter wrote into a buffer of less
-- than 2 ^ 32 bytes where it fits: JsonScanner over the bytes written finds exactly that number
-- under its key. The texts of the fields are of bytes.
pub get_u32-write_object :
    (capacity : ℕ) (key : List ℕ) (value : ℕ) (fs : List Field) (buffer : List ℕ) (old : ℕ)
    → capacity < 2 ^ 32
    → value < 2 ^ 32
    → All IsField (number key value ∷ fs)
    → length buffer ≡ capacity
    → length (object_text (number key value ∷ fs)) < capacity
    → let (done, w) = write_object (number key value ∷ fs) (json_writer buffer capacity) in
      (done ≡ true) × (get_u32 (some key) old (take w.position w.data_bytes) ≡ (true, value))
unfolding get_u32
get_u32-write_object capacity key value fs buffer old small narrow bytes full fits =
    let t = object_text (number key value ∷ fs) in
    elim (write_object_lem capacity small (number key value) fs buffer bytes full) [
      | inl (rest, size, done, written, at_end) ↦ (
        done,
        rw (written, at_end, take-append t (0 ∷ rest), find_loop-number key value fs)
            (u32_at-digits old value fs narrow),
      )
      | inr (long, failed, over) ↦ absurd (omega (arith, long, fits))
    ]
