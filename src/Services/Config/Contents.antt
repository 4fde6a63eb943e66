-- ===== src/Services/Config/Contents.antt =====
-- The store as its clients see it: a dictionary from key texts to values.
use agile_firmware_framework.Prelude.{
  ℕ, ◌≤◌, ◌<◌, ◌≡◌, true, Option, none, some, List, [], ◌∷◌, length, take, if◌then◌else◌, All,
}
use agile_firmware_framework.Prelude.Words.{IsU32}
use agile_firmware_framework.Services.Limits.{
  config_key_capacity, config_value_capacity, config_record_capacity,
}
use agile_firmware_framework.Services.Text.{c_text, same}
use agile_firmware_framework.Services.Config.State.{Record, ConfigService}

-- A key's text with its value.
abbrev pub Entry : Type 0
Entry = List ℕ × List ℕ

abbrev pub key_text : Record → List ℕ
key_text r = c_text config_key_capacity r.key

abbrev pub value_bytes : Record → List ℕ
value_bytes r = take r.value_size r.value

-- The used records, in the order of the array.
unfoldable pub contents : List Record → List Entry
contents [] = []
contents (r ∷ rs) =
    let rest = contents rs in if r.used then (key_text r, value_bytes r) ∷ rest else rest

unfoldable pub lookup : List ℕ → List Entry → Option (List ℕ)
lookup k [] = none
lookup k ((j, v) ∷ es) = if same k j then some v else lookup k es

-- A used record's key text is not empty and ends within its array, and its value fits its own.
pub record IsRecord (r : Record) : Type 0 where
  pub key_backed : length r.key ≡ config_key_capacity
  pub value_backed : length r.value ≡ config_value_capacity
  pub value_fits : r.value_size ≤ config_value_capacity
  pub key_ends : length (key_text r) < config_key_capacity
  pub key_some : r.used ≡ true → 0 < length (key_text r)

pub record IsValid (s : ConfigService) : Type 0 where
  pub records_ok : All IsRecord s.records
  pub records_count : length s.records ≡ config_record_capacity
  pub sequence_ok : IsU32 s.sequence
  pub slot_ok : s.active_slot ≤ 1
