-- ===== src/Services/Config/Blob.antt =====
-- ConfigService::get_blob and set_blob against the dictionary.
use agile_firmware_framework.Prelude.{
  ℕ, zero, suc, ◌%◌, ◌≤◌, ◌<◌, ◌≡◌, refl, ◌∙◌, Option, none, some, List, [], ◌∷◌, ◌++◌, length,
  get_or, if◌then◌else◌, arith, Bool-cases, inl, inr, ltb, take, drop, replicate, length-take,
  length-set, length-replicate, All-get_or, Option-cases, ◌⊎◌,
}
use agile_firmware_framework.Prelude.Copy.{copy, copy_lem, length-copy, take-copy}
use agile_firmware_framework.Uhal.{Status, ok, not_found, no_resources}
use agile_firmware_framework.Services.Limits.{config_key_capacity, config_value_capacity}
use agile_firmware_framework.Services.Text.{c_text, c_text-copy}
use agile_firmware_framework.Services.Config.State.{
  Record, ConfigService, blank_record, find, find_free, get_blob, new_record,
}
use agile_firmware_framework.Services.Config.Contents.{
  Entry, key_text, value_bytes, contents, lookup, IsRecord, IsValid,
}
use agile_firmware_framework.Services.Config.Lookup.{lookup-find}

-- The dictionary of a service, and the text of a key argument.
abbrev pub dictionary : ConfigService → List Entry
dictionary s = contents s.records

abbrev pub key_arg : List ℕ → List ℕ
key_arg key = c_text config_key_capacity key

pub blank-IsRecord : IsRecord blank_record
unfolding c_text
blank-IsRecord = record {
  key_backed = refl;
  value_backed = refl;
  value_fits = omega arith;
  key_ends = omega arith;
  key_some = λ h. cc;
}

-- What `get_blob` answers for the dictionary's answer.
unfoldable pub blob_answer :
    Option (List ℕ) → Option (List ℕ) → ℕ → ℕ → Status × Option (List ℕ) × ℕ
blob_answer none value capacity value_size = (not_found, value, value_size)
blob_answer (some v) none capacity value_size = (no_resources, none, length v)
blob_answer (some v) (some buffer) capacity value_size =
    if ltb capacity (length v)
    then (no_resources, some buffer, length v)
    else (ok, some (v ++ drop (length v) buffer), length v)

-- On a valid service, with a buffer of at least the stated capacity, `get_blob` looks its key up in
-- the dictionary: it answers `not_found` for a missing key, otherwise it reports the
-- value's size, and copies the value over the front of the buffer if the capacity allows.
pub get_blob_lem :
    (s : ConfigService) (key buffer : List ℕ) (capacity value_size : ℕ)
    → IsValid s
    → capacity ≤ length buffer
    → get_blob s (some key) (some buffer) capacity value_size
      ≡ blob_answer (lookup (key_arg key) (dictionary s)) (some buffer) capacity value_size
unfolding get_blob blob_answer
get_blob_lem s key buffer capacity value_size v room =
    elim (Option-cases (find s.records (some key))) [
      | inl e ↦ ground (arith, lookup-find s.records key v.records_ok)
      | inr (i, e) ↦
          let r = get_or s.records i blank_record in
          let vr : IsRecord r =
            All-get_or IsRecord s.records i blank_record v.records_ok blank-IsRecord in
          ground (
            arith,
            lookup-find s.records key v.records_ok,
            vr,
            length-take r.value_size r.value,
            copy_lem r.value_size r.value buffer,
          )
    ]

pub length-c_text :
    (room : ℕ) (s : List ℕ) → (length (c_text room s) ≤ room) × (length (c_text room s) ≤ length s)
unfolding c_text
length-c_text zero s = omega arith
length-c_text (suc room) [] = omega arith
length-c_text (suc room) (x ∷ xs) = ground (arith, length-c_text room xs)

-- The key is one that `set_blob` accepts.
abbrev pub IsKey : List ℕ → Type 0
IsKey key = (0 < length (key_arg key)) × (length (key_arg key) < config_key_capacity)

pub key_text-new_record :
    (key value : List ℕ) (n : ℕ)
    → key_text (new_record key (length (key_arg key)) value n) ≡ key_arg key
unfolding new_record
key_text-new_record key value n =
    c_text-copy config_key_capacity key (replicate config_key_capacity 0) refl

pub value_bytes-new_record :
    (key value : List ℕ) (n m : ℕ)
    → n ≤ config_value_capacity
    → n ≤ length value
    → value_bytes (new_record key m value n) ≡ take n value
unfolding new_record
value_bytes-new_record key value n m small fits =
    let e : n % 256 ≡ n = omega arith in
    rw e
      (take-copy n value blank_record.value fits (omega (arith, length-replicate {0} {A = ℕ} 64 0)))

pub new_record-IsRecord :
    (key value : List ℕ) (n : ℕ)
    → IsKey key
    → n ≤ config_value_capacity
    → IsRecord (new_record key (length (key_arg key)) value n)
unfolding new_record
new_record-IsRecord key value n k small =
    let m : ℕ = length (key_arg key) in
    record {
      key_backed =
          length-set (copy m key blank_record.key) m 0 ∙ length-copy m key blank_record.key;
      value_backed = length-copy n value blank_record.value;
      value_fits = omega arith;
      key_ends = rw (key_text-new_record key value n) k.1;
      key_some = λ h. rw (key_text-new_record key value n) k.0;
    }

length-contents : (rs : List Record) → length (contents rs) ≤ length rs
unfolding contents
length-contents [] = omega arith
length-contents (r ∷ rs) = ground (arith, length-contents rs)

-- `find_free` finds a record exactly when fewer records are used than there are.
pub find_free_lem :
    (rs : List Record)
    → ((i : ℕ) × (find_free rs ≡ some i)) × (length (contents rs) < length rs)
      ⊎ (find_free rs ≡ none) × (length (contents rs) ≡ length rs)
unfolding find_free contents
find_free_lem [] = inr (refl, refl)
find_free_lem (r ∷ rs) = elim (Bool-cases r.used) [
  | inl e ↦ elim (find_free_lem rs) [
    | inl ((i, f), lt) ↦ inl ((suc i, ground arith), ground arith)
    | inr (f, eq) ↦ inr (ground arith, ground arith)
  ]
  | inr e ↦ inl ((zero, ground arith), ground (arith, length-contents rs))
]
