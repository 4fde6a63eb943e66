-- ===== src/Services/Config/State.antt =====
-- services/ConfigService.hpp and ConfigService.cpp: the records and what reads and changes them.
use agile_firmware_framework.Prelude.{
  ℕ, suc, Bool, true, false, ◌&&◌, ◌||◌, not, Option, none, some, List, [], ◌∷◌, get_or, set,
  replicate, ltb, leb, ◌==◌, if◌then◌else◌,
}
use agile_firmware_framework.Prelude.Words.{u8}
use agile_firmware_framework.Prelude.Copy.{copy}
use agile_firmware_framework.Uhal.{
  Status, ok, is_ok, invalid_argument, not_found, no_resources, corrupt,
}
use agile_firmware_framework.Libraries.Bytes.{writer, write_u32_le, reader, read_u32_le}
use agile_firmware_framework.Services.Limits.{
  config_key_capacity, config_value_capacity, config_record_capacity,
}
use agile_firmware_framework.Services.Text.{Text, text_length, text_equal}

pub record Record : Type 0 where
  pub used : Bool
  pub key : List ℕ
  pub value : List ℕ
  pub value_size : ℕ

-- Record{}
abbrev pub blank_record : Record
blank_record = record {
  used = false;
  key = replicate config_key_capacity 0;
  value = replicate config_value_capacity 0;
  value_size = 0;
}

abbrev pub slot_bytes : ℕ
slot_bytes = 2304

-- A scratch buffer of zeros.
unfoldable pub zero_scratch : List ℕ
zero_scratch = replicate slot_bytes 0

-- The object without the reference to its storage.
pub record ConfigService : Type 0 where
  pub records : List Record
  pub sequence : ℕ
  pub active_slot : ℕ
  pub scratch : List ℕ

unfoldable pub fresh_service : ConfigService
fresh_service = record {
  records = replicate config_record_capacity blank_record;
  sequence = 0;
  active_slot = 0;
  scratch = zero_scratch;
}

abbrev pub next_index : Option ℕ → Option ℕ
next_index none = none
next_index (some i) = some (suc i)

-- The index of the first record with the key; `none` is the result -1.
unfoldable pub find : List Record → Text → Option ℕ
find [] key = none
find (r ∷ rs) key =
    let rest = next_index (find rs key) in
    if r.used && text_equal (some r.key) key config_key_capacity then some 0 else rest

unfoldable pub find_free : List Record → Option ℕ
find_free [] = none
find_free (r ∷ rs) = let rest = next_index (find_free rs) in if not r.used then some 0 else rest

-- The caller passes a buffer (`none` for a null pointer), its capacity and the variable for the
-- size, and gets the last two back.
unfoldable pub get_blob :
    ConfigService → Text → Option (List ℕ) → ℕ → ℕ → Status × Option (List ℕ) × ℕ
get_blob s key value capacity value_size = elim (find s.records key) [
  | none ↦ (not_found, value, value_size)
  | some index ↦
      let r = get_or s.records index blank_record in
      elim value [
        | none ↦ (no_resources, none, r.value_size)
        | some buffer ↦
            if ltb capacity r.value_size
            then (no_resources, some buffer, r.value_size)
            else (ok, some (copy r.value_size r.value buffer), r.value_size)
      ]
]

-- The record that `set_blob` leaves at its index.
unfoldable pub new_record : List ℕ → ℕ → List ℕ → ℕ → Record
new_record key key_size value value_size = record {
  used = true;
  key = set (copy key_size key blank_record.key) key_size 0;
  value = copy value_size value blank_record.value;
  value_size = u8 value_size;
}

abbrev pub or_else : Option ℕ → Option ℕ → Option ℕ
or_else (some i) other = some i
or_else none other = other

unfoldable pub store_at : Option ℕ → Record → ConfigService → Status × ConfigService
store_at none r s = (no_resources, s)
store_at (some index) r s = (ok, record s { records = set s.records index r })

unfoldable pub set_blob : ConfigService → Text → Option (List ℕ) → ℕ → Status × ConfigService
unfolding new_record store_at
set_blob s none value value_size = (invalid_argument, s)
set_blob s (some key) none value_size = (invalid_argument, s)
set_blob s (some key) (some value) value_size =
    let key_size = text_length (some key) config_key_capacity in
    if key_size == 0 || leb config_key_capacity key_size || ltb config_value_capacity value_size
    then (invalid_argument, s)
    else store_at (or_else (find s.records (some key)) (find_free s.records))
        (new_record key key_size value value_size) s

abbrev pub bytes_of : Option (List ℕ) → List ℕ
bytes_of none = []
bytes_of (some bytes) = bytes

-- Returns the status and the caller's variable.
unfoldable pub get_u32 : ConfigService → Text → ℕ → Status × ℕ
get_u32 s key value =
    let (status, bytes, size) = get_blob s key (some (replicate 4 0)) 4 0 in
    let (done, read, _) = read_u32_le value (reader (bytes_of bytes) 4) in
    if not (is_ok status)
    then (status, value)
    else if not (size == 4)
    then (corrupt, value)
    else (if done then ok else corrupt, read)

unfoldable pub set_u32 : ConfigService → Text → ℕ → Status × ConfigService
set_u32 s key value =
    let (done, w) = write_u32_le value (writer (replicate 4 0) 4) in
    if done then set_blob s key (some w.bytes) 4 else (no_resources, s)

unfoldable pub get_bool : ConfigService → Text → Bool → Status × Bool
get_bool s key value =
    let (status, bytes, size) = get_blob s key (some (0 ∷ [])) 1 0 in
    let stored = get_or (bytes_of bytes) 0 0 in
    if not (is_ok status)
    then (status, value)
    else if not (size == 1) || ltb 1 stored
    then (corrupt, value)
    else (ok, not (stored == 0))

unfoldable pub set_bool : ConfigService → Text → Bool → Status × ConfigService
set_bool s key value = set_blob s key (some ((if value then 1 else 0) ∷ [])) 1

unfoldable pub erase : ConfigService → Text → Status × ConfigService
erase s key = elim (find s.records key) [
  | none ↦ (not_found, s)
  | some index ↦ (ok, record s { records = set s.records index blank_record })
]
