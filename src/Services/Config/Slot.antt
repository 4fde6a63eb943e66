-- ===== src/Services/Config/Slot.antt =====
-- ConfigService.cpp: the two slots of the storage device: write_slot, read_slot, initialize, commit.
use agile_firmware_framework.Prelude.{
  ℕ, zero, suc, ◌≡◌, ◌+◌, ◌*◌, Bool, true, false, ◌&&◌, ◌||◌, not, Option, none, some, List, [],
  ◌∷◌, ◌++◌, get_or, set, take, drop, replicate, ltb, leb, ◌==◌, if◌then◌else◌,
}
use agile_firmware_framework.Prelude.Words.{u8, u32, add32}
use agile_firmware_framework.Uhal.{Status, ok, is_ok, io_error, not_found, no_resources, corrupt}
use agile_firmware_framework.Uhal.Storage.{Storage}
use agile_firmware_framework.Libraries.Crc.{crc32}
use agile_firmware_framework.Libraries.Bytes.{
  ByteWriter, ◌>>◌, and_then, writer, write_u8, write_u32_le, write_bytes, ByteReader, reader,
  read_u8, read_u32_le, read_bytes,
}
use agile_firmware_framework.Services.Limits.{
  config_key_capacity, config_value_capacity, config_record_capacity,
}
use agile_firmware_framework.Services.Text.{text_length}
use agile_firmware_framework.Services.Config.State.{
  Record, blank_record, ConfigService, slot_bytes, zero_scratch,
}

abbrev pub magic : ℕ
magic = 0x31474643

-- sizeof(scratch_) - 4
abbrev pub crc_offset : ℕ
crc_offset = 2300

pub record Snapshot : Type 0 where
  pub sequence : ℕ
  pub records : List Record

abbrev pub blank_snapshot : Snapshot
blank_snapshot = record { sequence = 0; records = replicate config_record_capacity blank_record }

unfoldable pub used_count : List Record → ℕ
used_count [] = 0
used_count (r ∷ rs) = let rest = used_count rs in if r.used then suc rest else rest

-- The four writes of one record.
unfoldable pub write_record : Record → ByteWriter → Bool × ByteWriter
write_record r =
    let key_size = text_length (some r.key) config_key_capacity in
    write_u8 (u8 key_size)
    >> write_u8 r.value_size
    >> write_bytes (some (take key_size r.key))
    >> write_bytes (some (take r.value_size r.value))

unfoldable pub write_records : List Record → ByteWriter → Bool × ByteWriter
write_records [] w = (true, w)
write_records (r ∷ rs) w =
    if r.used then and_then (write_records rs) (write_record r w) else write_records rs w

-- The header, and the records behind it.
unfoldable pub write_image : List Record → ℕ → ByteWriter → Bool × ByteWriter
write_image records sequence =
    write_u32_le magic
    >> write_u32_le sequence
    >> write_u8 (u8 (used_count records))
    >> write_records records

-- A reader's step: `none` where the code returns `corrupt`. What a failed read leaves in the
-- snapshot is dropped, since `initialize` never looks at it.
abbrev pub Parser : Type 0 → Type 0
Parser A = ByteReader → Option (A × ByteReader)

infixl 5 ◌>>=◌
unfoldable pub ◌>>=◌ : {A B : Type 0} → Parser A → (A → Parser B) → Parser B
(m >>= f) r = elim (m r) [ none ↦ none | some (a, r') ↦ f a r' ]

pub bind_some :
    {A B : Type 0} (m : Parser A) (r : ByteReader) (a : A) (r' : ByteReader)
    → m r ≡ some (a, r')
    → (f : A → Parser B) → (m >>= f) r ≡ f a r'
unfolding ◌>>=◌
bind_some m r a r' e f = rw (e, ◌>>=◌)

abbrev pub accept : {A : Type 0} → Bool × A × ByteReader → Option (A × ByteReader)
accept (true, a, r) = some (a, r)
accept (false, a, r) = none

abbrev pub get_u8 : Parser ℕ
get_u8 r = accept (read_u8 0 r)

abbrev pub get_u32 : Parser ℕ
get_u32 r = accept (read_u32_le 0 r)

abbrev pub get_bytes : List ℕ → ℕ → Parser (List ℕ)
get_bytes target size r = accept (read_bytes (some target) size r)

abbrev pub require : Bool → Parser (Unit {0})
require b r = if b then some (tt, r) else none

abbrev pub return : {A : Type 0} → A → Parser A
return a r = some (a, r)

-- One round of the loop over the records, on the record that the slot's bytes go to.
unfoldable pub read_record : Record → Parser Record
read_record old = do
  key_size ← get_u8
  value_size ← get_u8
  _ ← require (
      not
        (key_size == 0 || leb config_key_capacity key_size || ltb config_value_capacity value_size))
  key ← get_bytes old.key key_size
  value ← get_bytes old.value value_size
  return (record { used = true; key = set key key_size 0; value = value; value_size = value_size })

-- The rounds left and the index of the next record.
unfoldable pub read_records : ℕ → ℕ → List Record → Parser (List Record)
read_records zero index records = return records
read_records (suc rounds) index records = do
  r ← read_record (get_or records index blank_record)
  read_records rounds (index + 1) (set records index r)

unfoldable pub read_image : Parser Snapshot
read_image = do
  found ← get_u32
  sequence ← get_u32
  count ← get_u8
  _ ← require (found == magic && leb count config_record_capacity)
  records ← read_records count 0 blank_snapshot.records
  return (record { sequence = sequence; records = records })

-- The outcome of `read_slot`: its status, and with `ok` the snapshot.
pub data Slot : Type 0 where
  valid : Snapshot → Slot
  invalid : Status → Slot

abbrev pub parsed : Option (Snapshot × ByteReader) → Slot
parsed none = invalid corrupt
parsed (some (snapshot, r)) = valid snapshot

-- What `read_slot` makes of the bytes of a slot.
unfoldable pub check_slot : List ℕ → Slot
check_slot scratch =
    let (done, stored_crc, _) = read_u32_le 0 (reader (drop crc_offset scratch) 4) in
    if done && (stored_crc == crc32 (take crc_offset scratch))
    then parsed (read_image (reader scratch crc_offset))
    else invalid corrupt

unfoldable pub both_absent : Status → Status → Bool
both_absent corrupt corrupt = true
both_absent corrupt not_found = true
both_absent not_found corrupt = true
both_absent not_found not_found = true
both_absent _ _ = false

adopt : ℕ → Snapshot → ConfigService → Status × ConfigService
adopt slot snapshot s =
    (ok, record s { records = snapshot.records; sequence = snapshot.sequence; active_slot = slot })

-- The end of `initialize`, from the outcomes of the two reads.
unfoldable pub choose : Slot → Slot → ConfigService → Status × ConfigService
unfolding adopt
choose (valid first) (valid second) s =
    if leb second.sequence first.sequence then adopt 0 first s else adopt 1 second s
choose (valid first) (invalid b) s = adopt 0 first s
choose (invalid a) (valid second) s = adopt 1 second s
choose (invalid a) (invalid b) s =
    if both_absent a b
    then (ok, record s { records = blank_snapshot.records; sequence = 0; active_slot = 0 })
    else (io_error, s)

module _ {W : Type 0} (storage : Storage W) where
  unfoldable pub read_slot : ℕ → ConfigService → W → Slot × ConfigService × W
  read_slot slot s w =
      let (status, scratch, w') = storage.read (u32 (slot * slot_bytes)) s.scratch w in
      (
        if is_ok status then check_slot scratch else invalid status,
        record s { scratch = scratch },
        w',
      )

  unfoldable pub write_slot : ℕ → ℕ → ConfigService → W → Status × ConfigService × W
  write_slot slot sequence s w =
      let (done, body) = write_image s.records sequence (writer zero_scratch crc_offset) in
      let crc = crc32 (take crc_offset body.bytes) in
      let (sealed, tail) = write_u32_le crc (writer (drop crc_offset body.bytes) 4) in
      let scratch = take crc_offset body.bytes ++ tail.bytes in
      let offset = u32 (slot * slot_bytes) in
      let (erased, w') = storage.erase offset slot_bytes w in
      let (written, w'') = storage.write offset scratch w' in
      if not done
      then (no_resources, record s { scratch = body.bytes }, w)
      else if not sealed
      then (no_resources, record s { scratch = scratch }, w)
      else if not (is_ok erased)
      then (erased, record s { scratch = scratch }, w')
      else (written, record s { scratch = scratch }, w'')

  unfoldable pub initialize : ConfigService → W → Status × ConfigService × W
  initialize s w =
      let (first, s', w') = read_slot 0 s w in
      let (second, s'', w'') = read_slot 1 s' w' in
      let (status, chosen) = choose first second s'' in (status, chosen, w'')

  -- The slot that is not active is written, with the next sequence number.
  unfoldable pub commit : ConfigService → W → Status × ConfigService × W
  commit s w =
      let target = if s.active_slot == 0 then 1 else 0 in
      let (status, s', w') = write_slot target (add32 s.sequence 1) s w in
      if is_ok status
      then (status, record s' { active_slot = target; sequence = add32 s.sequence 1 }, w')
      else (status, s', w')
