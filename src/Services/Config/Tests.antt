-- ===== src/Services/Config/Tests.antt =====
-- Two storage devices, and the theorems about ConfigService at concrete inputs.
use agile_firmware_framework.Prelude.{
  ℕ, suc, ◌+◌, ◌%◌, ◌≤◌, ◌<◌, ◌≡◌, refl, ap, ap₂, ◌∙◌, sym, false, ◌&&◌, some, none, List, [], ◌∷◌,
  length, arith, if◌then◌else◌, inr, ◌==◌, ◌⊎◌, All-replicate, length-replicate,
}
use agile_firmware_framework.Uhal.{ok, io_error, is_ok, corrupt}
use agile_firmware_framework.Uhal.Storage.{Storage, IsFaithful, window, window_eq}
use agile_firmware_framework.Services.Config.State.{
  blank_record, ConfigService, fresh_service, slot_bytes, zero_scratch, set_blob,
}
use agile_firmware_framework.Services.Config.Contents.{IsRecord, IsValid}
use agile_firmware_framework.Services.Config.Blob.{blank-IsRecord}
use agile_firmware_framework.Services.Text.{same}
use agile_firmware_framework.Services.Config.Contents.{contents, lookup}
use agile_firmware_framework.Services.Config.Blob.{dictionary, blob_answer, key_arg, get_blob_lem}
use agile_firmware_framework.Services.Config.Update.{set_status, set_blob_lem, set_blob-IsValid}
use agile_firmware_framework.Services.Config.State.{get_blob}
use agile_firmware_framework.Libraries.Bytes.{reader, read_u32_le, read_bytes, read_loop, read_u8}
use agile_firmware_framework.Services.Config.Slot.{
  valid, invalid, check_slot, read_image, ◌>>=◌, crc_offset, initialize, commit,
}
use agile_firmware_framework.Services.Config.Image.{slot_image}
use agile_firmware_framework.Services.Config.Sealed.{write_slot_lem}
use agile_firmware_framework.Services.Config.Reload.{
  compact, check_slot-slot_image, contents-compact,
}
use agile_firmware_framework.Services.Config.Device.{held, length-slot_image}
use agile_firmware_framework.Services.Config.Choose.{IsOlder, adopted}
use agile_firmware_framework.Services.Config.Restart.{
  commit-target, commit-held, initialize-commit, initialize-torn, initialize-wrapped,
}
use agile_firmware_framework.Libraries.Bytes.{write_u32_le, write_bytes, write_loop}
use agile_firmware_framework.Services.Config.State.{find, find_free, get_u32, set_u32, set_bool}
use agile_firmware_framework.Services.Config.Typed.{get_u32-set_u32}
use agile_firmware_framework.Services.Text.{text_equal, text_length}
use agile_firmware_framework.Prelude.{true}

-- Bytes written over the cells from an address on.
put : ℕ → List ℕ → (ℕ → ℕ) → ℕ → ℕ
put offset [] cell i = cell i
put offset (x ∷ xs) cell i = if i == offset then x else put (offset + 1) xs cell i

put_outside :
    (offset : ℕ) (xs : List ℕ) (cell : ℕ → ℕ) (i : ℕ)
    → (i < offset) ⊎ (offset + length xs ≤ i)
    → put offset xs cell i ≡ cell i
unfolding put
put_outside offset [] cell i h = refl
put_outside offset (x ∷ xs) cell i h =
    let other : (i == offset) ≡ false = ground arith in
    rw other (put_outside (offset + 1) xs cell i (ground arith))

window-put :
    (offset : ℕ) (xs : List ℕ) (cell : ℕ → ℕ) → window (put offset xs cell) offset (length xs) ≡ xs
unfolding put window
window-put offset [] cell = refl
window-put offset (x ∷ xs) cell = ap₂ ◌∷◌ (ground arith) (
    window_eq (put offset (x ∷ xs) cell) (put (offset + 1) xs cell) (offset + 1) (length xs)
      (λ i lo hi. ground arith)
    ∙ window-put (offset + 1) xs cell)

-- A device that does what it is asked.
abbrev good : Storage (ℕ → ℕ)
good = record {
  read = λ offset buffer w. (ok, window w offset (length buffer), w);
  write = λ offset value w. (ok, put offset value w);
  erase = λ offset size w. (ok, w);
}

-- A device whose writes fail.
abbrev worn : Storage (ℕ → ℕ)
worn = record {
  read = λ offset buffer w. (ok, window w offset (length buffer), w);
  write = λ offset value w. (io_error, w);
  erase = λ offset size w. (ok, w);
}

abbrev cell : (ℕ → ℕ) → ℕ → ℕ
cell w = w

good-IsFaithful : IsFaithful good cell
good-IsFaithful = record {
  read_keeps = λ offset buffer w. refl;
  read_ok = λ offset buffer w h. refl;
  write_ok = λ offset value w h. window-put offset value w;
  write_outside = λ offset value w i h. put_outside offset value w i h;
  erase_outside = λ offset size w i h. refl;
}

worn-IsFaithful : IsFaithful worn cell
worn-IsFaithful = record {
  read_keeps = λ offset buffer w. refl;
  read_ok = λ offset buffer w h. refl;
  write_ok = λ offset value w h. ground arith;
  write_outside = λ offset value w i h. refl;
  erase_outside = λ offset size w i h. refl;
}

fresh_service-IsValid : IsValid fresh_service
unfolding fresh_service
fresh_service-IsValid = record {
  records_ok = All-replicate IsRecord 24 blank_record blank-IsRecord;
  records_count = refl;
  sequence_ok = omega arith;
  slot_ok = omega arith;
}

-- "wifi" with its terminator, and a value.
abbrev name : List ℕ
name = 119 ∷ 105 ∷ 102 ∷ 105 ∷ 0 ∷ []

abbrev code : List ℕ
code = 1 ∷ 2 ∷ 3 ∷ []

abbrev configured : ConfigService
configured = (set_blob fresh_service (some name) (some code) 2).1

configured-IsValid : IsValid configured
configured-IsValid = set_blob-IsValid fresh_service name code 2 fresh_service-IsValid (omega arith)

set_blob-IsValid_example : IsValid (set_blob fresh_service (some name) (some code) 2).1
set_blob-IsValid_example =
    set_blob-IsValid fresh_service name code 2 fresh_service-IsValid (omega arith)

set_blob_lem_example :
    let (status, s') = set_blob configured (some name) (some code) 3 in
    (status
      ≡ set_status
          (key_arg name)
          3
          (lookup (key_arg name) (dictionary configured))
          (length (dictionary configured)))
    × (lookup (119 ∷ []) (dictionary s') ≡ (
        if is_ok status && same (119 ∷ []) (key_arg name)
        then some code
        else lookup (119 ∷ []) (dictionary configured)))
set_blob_lem_example =
    set_blob_lem configured name code 3 configured-IsValid (omega arith) (119 ∷ [])

get_blob_lem_example :
    get_blob configured (some name) (some (0 ∷ 0 ∷ [])) 2 9
    ≡ blob_answer (lookup (key_arg name) (dictionary configured)) (some (0 ∷ 0 ∷ [])) 2 9
get_blob_lem_example =
    get_blob_lem configured name (0 ∷ 0 ∷ []) 2 9 configured-IsValid (omega arith)

-- The same records at a given sequence number.
abbrev at_sequence : ℕ → ConfigService
at_sequence n = record {
  records = configured.records;
  sequence = n;
  active_slot = 0;
  scratch = zero_scratch;
}

at_sequence-IsValid : (n : ℕ) → n < 4294967296 → IsValid (at_sequence n)
at_sequence-IsValid n h = record {
  records_ok = configured-IsValid.records_ok;
  records_count = configured-IsValid.records_count;
  sequence_ok = h;
  slot_ok = omega arith;
}

-- Its image in slot 0, zeros elsewhere.
abbrev saved : ℕ → ℕ → ℕ
saved n = put 0 (slot_image configured.records n) (λ _. 0)

saved-held : (n : ℕ) → held cell (saved n) 0 ≡ slot_image configured.records n
saved-held n =
    ap (window (saved n) 0) (
      sym (
        length-slot_image configured.records n configured-IsValid.records_ok
          configured-IsValid.records_count))
    ∙ window-put 0 (slot_image configured.records n) (λ _. 0)

saved-check :
    (n : ℕ)
    → n < 4294967296
    → check_slot (held cell (saved n) 0)
      ≡ valid (record { sequence = n; records = compact configured.records })
saved-check n h =
    ap check_slot (saved-held n)
    ∙ check_slot-slot_image configured.records n configured-IsValid.records_ok
        configured-IsValid.records_count h

whole_scratch : length fresh_service.scratch ≡ slot_bytes
unfolding fresh_service zero_scratch
whole_scratch = length-replicate {0} {A = ℕ} slot_bytes 0

commit_ok : (n : ℕ) → n < 4294967296 → (commit good (at_sequence n) (saved n)).0 ≡ ok
commit_ok n h = rw ((commit-target good cell good-IsFaithful (at_sequence n) (saved n)).0) (
    rw
      (write_slot_lem good 1 ((n + 1) % 4294967296) (at_sequence n) (saved n)
        (at_sequence-IsValid n h))
      refl)

check_slot-slot_image_example :
    check_slot (slot_image configured.records 6)
    ≡ valid (record { sequence = 6; records = compact configured.records })
check_slot-slot_image_example =
    check_slot-slot_image configured.records 6 configured-IsValid.records_ok
      configured-IsValid.records_count (omega arith)

contents-compact_example : contents (compact configured.records) ≡ contents configured.records
contents-compact_example = contents-compact configured.records configured-IsValid.records_ok

commit-held_example : held cell (commit good (at_sequence 5) (saved 5)).2 0 ≡ held cell (saved 5) 0
commit-held_example =
    commit-held good cell good-IsFaithful (at_sequence 5) (saved 5)
      (at_sequence-IsValid 5 (omega arith))

older : IsOlder 6 (check_slot (held cell (saved 5) 0))
unfolding IsOlder
older = rw (saved-check 5 (omega arith)) (omega arith)

initialize-commit_example :
    let (committed, s', w') = commit good (at_sequence 5) (saved 5) in
    let (status, t', w'') = initialize good fresh_service w' in
    (status ≡ ok)
    × (t'.sequence ≡ 6)
    × (t'.active_slot ≡ s'.active_slot)
    × (dictionary t' ≡ dictionary configured)
initialize-commit_example =
    initialize-commit good cell good-IsFaithful (λ slot buffer w _ _. refl) (at_sequence 5)
      fresh_service (saved 5) (at_sequence-IsValid 5 (omega arith)) (omega arith) older
      whole_scratch (commit_ok 5 (omega arith))

initialize-wrapped_example :
    let w = (commit good (at_sequence 4294967295) (saved 4294967295)).2 in
    let (status, t', w') = initialize good fresh_service w in
    (status, t')
    ≡ adopted 0
        (record { sequence = 4294967295; records = compact configured.records })
        (record fresh_service { scratch = t'.scratch })
initialize-wrapped_example =
    initialize-wrapped good cell good-IsFaithful (λ slot buffer w _ _. refl)
      (at_sequence 4294967295) fresh_service (saved 4294967295)
      (record { sequence = 4294967295; records = compact configured.records })
      (at_sequence-IsValid 4294967295 (omega arith)) refl (saved-check 4294967295 (omega arith))
      (omega arith) whole_scratch (commit_ok 4294967295 (omega arith))

-- Nine zeros and more are no image.
zeros_refused :
    (rest : List ℕ)
    → read_image (reader (0 ∷ 0 ∷ 0 ∷ 0 ∷ 0 ∷ 0 ∷ 0 ∷ 0 ∷ 0 ∷ rest) crc_offset) ≡ none
unfolding read_image ◌>>=◌ read_u32_le read_bytes read_loop read_u8
zeros_refused rest = refl

check_slot-refused :
    (scratch : List ℕ)
    → read_image (reader scratch crc_offset) ≡ none
    → check_slot scratch ≡ invalid corrupt
unfolding check_slot
check_slot-refused scratch h = rw h (ground arith)

zero_window :
    (n : ℕ)
    → read_image (
        reader
          (window (λ _. 0) slot_bytes (suc (suc (suc (suc (suc (suc (suc (suc (suc n))))))))))
          crc_offset)
      ≡ none
unfolding window
zero_window n = zeros_refused (window (λ _. 0) 2313 n)

zeros_invalid : check_slot (held cell (saved 5) 1) ≡ invalid corrupt
zeros_invalid =
    ap check_slot (
      window_eq (saved 5) (λ _. 0) slot_bytes slot_bytes
        (λ i lo hi.
          put_outside 0 (slot_image configured.records 5) (λ _. 0) i
            (inr (
              omega (
                arith,
                lo,
                length-slot_image configured.records 5 configured-IsValid.records_ok
                    configured-IsValid.records_count,
              )))))
    ∙ check_slot-refused (window (λ _. 0) slot_bytes slot_bytes) (zero_window 2295)

torn : check_slot (held cell (commit worn (at_sequence 5) (saved 5)).2 1) ≡ invalid corrupt
torn = rw ((commit-target worn cell worn-IsFaithful (at_sequence 5) (saved 5)).1) (
    rw (write_slot_lem worn 1 6 (at_sequence 5) (saved 5) (at_sequence-IsValid 5 (omega arith)))
      zeros_invalid)

initialize-torn_example :
    let (status, t', w') =
      initialize worn fresh_service (commit worn (at_sequence 5) (saved 5)).2 in
    (status, t')
    ≡ adopted 0
        (record { sequence = 5; records = compact configured.records })
        (record fresh_service { scratch = t'.scratch })
initialize-torn_example =
    initialize-torn worn cell worn-IsFaithful (λ slot buffer w _ _. refl) (at_sequence 5)
      fresh_service (saved 5) (record { sequence = 5; records = compact configured.records })
      corrupt (at_sequence-IsValid 5 (omega arith)) (saved-check 5 (omega arith)) torn whole_scratch

set_u32_ok : (set_u32 fresh_service (some name) 70000).0 ≡ ok
unfolding set_u32 set_blob fresh_service find find_free text_equal text_length write_u32_le
    write_bytes write_loop
set_u32_ok = refl

get_u32-set_u32_example :
    get_u32 (set_u32 fresh_service (some name) 70000).1 (some name) 0 ≡ (ok, 70000)
get_u32-set_u32_example =
    get_u32-set_u32 fresh_service name 70000 0 fresh_service-IsValid (omega arith) set_u32_ok

set_bool_ok : (set_bool fresh_service (some name) true).0 ≡ ok
unfolding set_bool set_blob fresh_service find find_free text_equal text_length
set_bool_ok = refl
