-- ===== src/Services/Config/Update.antt =====
-- ConfigService::set_blob and erase against the dictionary.
use agile_firmware_framework.Prelude.{
  ℕ, ◌≤◌, ◌≡◌, refl, ◌∙◌, Bool, true, false, ◌&&◌, ◌||◌, Option, none, some, List, length, set,
  if◌then◌else◌, arith, Bool-cases, inl, inr, ltb, leb, ◌==◌, take, length-set, All-set,
  Option-cases,
}
use agile_firmware_framework.Uhal.{Status, ok, is_ok, invalid_argument, no_resources}
use agile_firmware_framework.Services.Limits.{
  config_key_capacity, config_value_capacity, config_record_capacity,
}
use agile_firmware_framework.Services.Text.{same, text_length_lem}
use agile_firmware_framework.Services.Config.State.{
  Record, ConfigService, find, find_free, set_blob, new_record, store_at, or_else,
}
use agile_firmware_framework.Services.Config.Contents.{contents, lookup, IsRecord, IsValid}
use agile_firmware_framework.Services.Config.Lookup.{lookup-find, lookup-set_found, lookup-set_free}
use agile_firmware_framework.Services.Config.Blob.{
  dictionary, key_arg, IsKey, key_text-new_record, value_bytes-new_record, new_record-IsRecord,
  find_free_lem,
}

-- A bad key or too large a value.
abbrev pub is_refused : List ℕ → ℕ → Bool
is_refused k n = length k == 0 || leb config_key_capacity (length k) || ltb config_value_capacity n

-- What `set_blob` answers, by its key's length, its size, or for want of room.
unfoldable pub set_status : List ℕ → ℕ → Option (List ℕ) → ℕ → Status
set_status k n present used = if is_refused k n then invalid_argument else elim present [
  | some v ↦ ok
  | none ↦ if used == config_record_capacity then no_resources else ok
]

module _ (s : ConfigService) (key value : List ℕ) (n : ℕ) (v : IsValid s)
    (fits : n ≤ length value) where
  accepted : is_refused (key_arg key) n ≡ false → IsKey key × (n ≤ config_value_capacity)
  accepted h = ground arith

  -- The record that an accepted call writes.
  abbrev written_record : Record
  written_record = new_record key (length (key_arg key)) value n

  set_blob-refused :
      is_refused (key_arg key) n ≡ true
      → set_blob s (some key) (some value) n ≡ (invalid_argument, s)
  unfolding set_blob
  set_blob-refused h = rw (text_length_lem key config_key_capacity, h)

  set_blob-accepted :
      is_refused (key_arg key) n ≡ false
      → set_blob s (some key) (some value) n
        ≡ store_at (or_else (find s.records (some key)) (find_free s.records)) written_record s
  unfolding set_blob
  set_blob-accepted h = rw (text_length_lem key config_key_capacity, h)

  used_lem : written_record.used ≡ true
  unfolding new_record
  used_lem = refl

  -- Writing the record, over the one with its key or over a free one.
  over_found :
      (j : List ℕ) (i : ℕ)
      → is_refused (key_arg key) n ≡ false
      → find s.records (some key) ≡ some i
      → lookup j (contents (set s.records i written_record))
        ≡ (if same j (key_arg key) then some (take n value) else lookup j (dictionary s))
  over_found j i h e = rw (
    lookup-set_found s.records key j i written_record v.records_ok e used_lem
        (key_text-new_record key value n),
    key_text-new_record key value n,
    value_bytes-new_record key value n (length (key_arg key)) (accepted h).1 fits,
  )

  over_free :
      (j : List ℕ) (i : ℕ)
      → is_refused (key_arg key) n ≡ false
      → find s.records (some key) ≡ none
      → find_free s.records ≡ some i
      → lookup j (contents (set s.records i written_record))
        ≡ (if same j (key_arg key) then some (take n value) else lookup j (dictionary s))
  over_free j i h e f = rw (
    lookup-set_free s.records key j i written_record v.records_ok e f used_lem
        (key_text-new_record key value n),
    key_text-new_record key value n,
    value_bytes-new_record key value n (length (key_arg key)) (accepted h).1 fits,
  )

  stored :
      (j : List ℕ)
      → is_refused (key_arg key) n ≡ false
      → let (status, s') =
          store_at (or_else (find s.records (some key)) (find_free s.records)) written_record s in
        (status ≡ elim (lookup (key_arg key) (dictionary s)) [
          | some old ↦ ok
          | none ↦ if length (dictionary s) == config_record_capacity then no_resources else ok
        ])
        × (lookup j (dictionary s') ≡ (
            if is_ok status && same j (key_arg key)
            then some (take n value)
            else lookup j (dictionary s)))
  unfolding store_at
  stored j h = elim (Option-cases (find s.records (some key))) [
    | inl e ↦ elim (find_free_lem s.records) [
      | inl ((i, f), lt) ↦
          let room : (length (dictionary s) == config_record_capacity) ≡ false = ground arith in
          rw (lookup-find s.records key v.records_ok, e, f, room) (refl, over_free j i h e f)
      | inr (f, eq) ↦
          let full : (length (dictionary s) == config_record_capacity) ≡ true = ground arith in
          rw (lookup-find s.records key v.records_ok, e, f, full) (refl, refl)
    ]
    | inr (i, e) ↦ rw (lookup-find s.records key v.records_ok, e) (refl, over_found j i h e)
  ]

  -- On a valid service, with a buffer that holds the `n` bytes of the value: `set_blob` answers by
  -- the key's length, the value's size and the room left, and the dictionary changes at that key
  -- alone, and only if it answers `ok`: there it now gives the value.
  pub set_blob_lem :
      (j : List ℕ)
      → let (status, s') = set_blob s (some key) (some value) n in
        (status
          ≡ set_status
              (key_arg key)
              n
              (lookup (key_arg key) (dictionary s))
              (length (dictionary s)))
        × (lookup j (dictionary s') ≡ (
            if is_ok status && same j (key_arg key)
            then some (take n value)
            else lookup j (dictionary s)))
  unfolding set_status
  set_blob_lem j = elim (Bool-cases (is_refused (key_arg key) n)) [
    | inl h ↦ rw (set_blob-refused h, h) (refl, refl)
    | inr h ↦ rw (set_blob-accepted h, h) (stored j h)
  ]

  stored-IsValid :
      is_refused (key_arg key) n ≡ false
      → IsValid
          (store_at (or_else (find s.records (some key)) (find_free s.records)) written_record s).1
  unfolding store_at
  stored-IsValid h =
      elim (Option-cases (or_else (find s.records (some key)) (find_free s.records))) [
        | inl e ↦ rw e v
        | inr (i, e) ↦ rw e (record {
          records_ok =
              All-set IsRecord s.records i written_record v.records_ok
                (new_record-IsRecord key value n (accepted h).0 (accepted h).1);
          records_count = length-set s.records i written_record ∙ v.records_count;
          sequence_ok = v.sequence_ok;
          slot_ok = v.slot_ok;
        })
      ]

  -- `set_blob` keeps a valid service valid, whatever it answers, with a buffer that holds the `n`
  -- bytes of the value.
  pub set_blob-IsValid : IsValid (set_blob s (some key) (some value) n).1
  set_blob-IsValid = elim (Bool-cases (is_refused (key_arg key) n)) [
    | inl h ↦ rw (set_blob-refused h) v
    | inr h ↦ rw (set_blob-accepted h) (stored-IsValid h)
  ]
