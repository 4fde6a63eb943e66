-- ===== src/Services/Config/Sealed.antt =====
-- write_slot as a whole: the records always fit, so it fails only where the device does.
use agile_firmware_framework.Prelude.{
  ℕ, ◌+◌, ◌-◌, ◌*◌, ◌≤◌, ◌≡◌, refl, ap, ◌∙◌, sym, true, List, [], ◌∷◌, ◌++◌, length, take, drop,
  replicate, All, length-append, length-take, length-replicate, drop-replicate, replicate-add,
  take-append_eq, drop-append_eq, arith, append-nil, append_assoc, if◌then◌else◌, Bool-cases, inl,
  inr,
}
use agile_firmware_framework.Prelude.Words.{u32}
use agile_firmware_framework.Uhal.{Status, is_ok}
use agile_firmware_framework.Uhal.Storage.{Storage}
use agile_firmware_framework.Libraries.Bytes.{writer, write_u32_le}
use agile_firmware_framework.Libraries.Bytes.Write.{after}
use agile_firmware_framework.Libraries.Bytes.Fields.{Field, le32, encode, encode_all}
use agile_firmware_framework.Libraries.Bytes.RoundTrip.{write_fields-after, write_u32-after}
use agile_firmware_framework.Services.Limits.{config_record_capacity}
use agile_firmware_framework.Services.Config.State.{Record, ConfigService, slot_bytes, zero_scratch}
use agile_firmware_framework.Services.Config.Contents.{key_text, value_bytes, IsRecord, IsValid}
use agile_firmware_framework.Services.Config.Slot.{crc_offset, write_image, write_slot}
use agile_firmware_framework.Services.Config.Image.{
  used_records, used_records-le, records_fields, image_fields, image, padded, slot_image,
  write_image_lem,
}

pub encode_all-append :
    (fs gs : List Field) → encode_all (fs ++ gs) ≡ encode_all fs ++ encode_all gs
encode_all-append [] gs = refl
encode_all-append (f ∷ fs) gs =
    ap (λ t. encode f ++ t) (encode_all-append fs gs)
    ∙ sym (append_assoc (encode f) (encode_all fs) (encode_all gs))

pub used_records-IsRecord : (rs : List Record) → All IsRecord rs → All IsRecord (used_records rs)
unfolding used_records
used_records-IsRecord [] v = tt
used_records-IsRecord (r ∷ rs) (vr, vs) = elim (Bool-cases r.used) [
  | inl e ↦ simp e (vr, used_records-IsRecord rs vs)
  | inr e ↦ simp e (used_records-IsRecord rs vs)
]

-- A record takes at most 2 + 23 + 64 bytes.
length-records_fields :
    (us : List Record) → All IsRecord us → length (encode_all (records_fields us)) ≤ 89 * length us
length-records_fields [] v = omega arith
length-records_fields (r ∷ us) (vr, vs) =
    let rest = encode_all (records_fields us) in
    omega (
      arith,
      length-append (key_text r) (value_bytes r ++ rest),
      length-append (value_bytes r) rest,
      length-take r.value_size r.value,
      length-records_fields us vs,
    )

-- The image leaves room for the checksum.
pub length-image :
    (rs : List Record) (sequence : ℕ)
    → All IsRecord rs
    → length rs ≡ config_record_capacity
    → length (image rs sequence) ≤ crc_offset
unfolding image
length-image rs sequence v count = omega (
  arith,
  length-records_fields (used_records rs) (used_records-IsRecord rs v),
  used_records-le rs,
)

pub length-padded :
    (rs : List Record) (sequence : ℕ)
    → All IsRecord rs
    → length rs ≡ config_record_capacity
    → length (padded rs sequence) ≡ crc_offset
unfolding padded
length-padded rs sequence v count = omega (
  arith,
  length-image rs sequence v count,
  length-append (image rs sequence) (replicate (crc_offset - length (image rs sequence)) 0),
  length-replicate {0} {A = ℕ} (crc_offset - length (image rs sequence)) 0,
)

drop-zero_scratch :
    (l : ℕ) → l ≤ crc_offset → drop l zero_scratch ≡ replicate (crc_offset - l) 0 ++ replicate 4 0
unfolding zero_scratch
drop-zero_scratch l h =
    drop-replicate l slot_bytes 0
    ∙ ap (λ n. replicate n 0) {x = slot_bytes - l} {y = crc_offset - l + 4} (omega arith)
    ∙ replicate-add (crc_offset - l) 4 0

-- The body that write_image leaves: everything was written, with zeros up to the end.
write_image-zero :
    (rs : List Record) (sequence : ℕ)
    → All IsRecord rs
    → length rs ≡ config_record_capacity
    → write_image rs sequence (writer zero_scratch crc_offset) ≡ (
      true,
      after crc_offset
          (image rs sequence)
          (replicate (crc_offset - length (image rs sequence)) 0 ++ replicate 4 0),
    )
unfolding image
write_image-zero rs sequence v count =
    write_image_lem rs sequence (after crc_offset [] zero_scratch) v count
    ∙ write_fields-after (image_fields rs sequence) crc_offset [] zero_scratch (omega arith)
        (omega (arith, fits)) (omega (arith, fits, whole))
    ∙ ap (λ t. (true, after crc_offset (image rs sequence) t))
        (drop-zero_scratch (length (image rs sequence)) fits)
  where
    fits : length (image rs sequence) ≤ crc_offset
    fits = length-image rs sequence v count

    whole : length zero_scratch ≡ slot_bytes
    whole = unfold zero_scratch in length-replicate {0} {A = ℕ} slot_bytes 0

pub write_crc :
    (crc : ℕ) → write_u32_le crc (writer (replicate 4 0) 4) ≡ (true, after 4 (le32 crc) [])
write_crc crc = write_u32-after 4 [] (replicate 4 0) (omega arith) crc (omega arith) (omega arith)

module _ {W : Type 0} (storage : Storage W) where
  -- On a valid service the records always fit their slot: `write_slot` erases the slot, writes the
  -- image of the records if that answered `ok`, and answers what the device answered last.
  pub write_slot_lem :
      (slot sequence : ℕ) (s : ConfigService) (w : W)
      → IsValid s
      → let scratch = slot_image s.records sequence in
        let offset = u32 (slot * slot_bytes) in
        let (erased, w') = storage.erase offset slot_bytes w in
        let (written, w'') = storage.write offset scratch w' in
        write_slot storage slot sequence s w ≡ (
          if is_ok erased then written else erased,
          record s { scratch = scratch },
          if is_ok erased then w'' else w',
        )
  unfolding write_slot slot_image
  write_slot_lem slot sequence s w v =
      rw (write_image-zero s.records sequence v.records_ok v.records_count) (
        rw (front, back, write_crc, append-nil)
          (elim (Bool-cases (is_ok erased)) [ inl e ↦ rw e | inr e ↦ rw e ]))
    where
      erased : Status
      erased = (storage.erase (u32 (slot * slot_bytes)) slot_bytes w).0

      zeros : List ℕ
      zeros = replicate (crc_offset - length (image s.records sequence)) 0

      split :
          image s.records sequence ++ (zeros ++ replicate 4 0)
          ≡ padded s.records sequence ++ replicate 4 0
      split = unfold padded in sym (append_assoc (image s.records sequence) zeros (replicate 4 0))

      full : length (padded s.records sequence) ≡ crc_offset
      full = length-padded s.records sequence v.records_ok v.records_count

      front :
          take crc_offset (image s.records sequence ++ (zeros ++ replicate 4 0))
          ≡ padded s.records sequence
      front = rw split (take-append_eq crc_offset (padded s.records sequence) (replicate 4 0) full)

      back : drop crc_offset (image s.records sequence ++ (zeros ++ replicate 4 0)) ≡ replicate 4 0
      back = rw split (drop-append_eq crc_offset (padded s.records sequence) (replicate 4 0) full)
