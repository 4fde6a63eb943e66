-- ===== src/Services/Config/Image.antt =====
-- What write_slot writes: the image of the used records, which always fits its slot.
use agile_firmware_framework.Prelude.{
  ℕ, zero, suc, ◌-◌, ◌≤◌, ◌≡◌, refl, ap, ◌∙◌, sym, fun_ext, Bool, true, false, some, List, [], ◌∷◌,
  ◌++◌, length, take, replicate, All, arith, if◌then◌else◌, Bool-cases, inl, inr, ◌==◌,
}
use agile_firmware_framework.Prelude.Words.{u8}
use agile_firmware_framework.Libraries.Crc.{crc32}
use agile_firmware_framework.Libraries.Bytes.{ByteWriter, ◌>>◌, and_then, write_u8, write_bytes}
use agile_firmware_framework.Libraries.Bytes.Fields.{
  Field, byte, word, blob, le32, encode_all, write_field, write_fields,
}
use agile_firmware_framework.Services.Limits.{config_key_capacity, config_record_capacity}
use agile_firmware_framework.Services.Text.{c_text, text_length, text_length_lem}
use agile_firmware_framework.Services.Config.State.{Record}
use agile_firmware_framework.Services.Config.Contents.{key_text, value_bytes, IsRecord}
use agile_firmware_framework.Services.Config.Slot.{
  magic, crc_offset, used_count, write_record, write_records, write_image,
}

-- The used records.
unfoldable pub used_records : List Record → List Record
used_records [] = []
used_records (r ∷ rs) = let rest = used_records rs in if r.used then r ∷ rest else rest

abbrev pub record_fields : Record → List Field
record_fields r =
    byte (length (key_text r)) ∷ byte r.value_size ∷ blob (key_text r) ∷ blob (value_bytes r) ∷ []

abbrev pub records_fields : List Record → List Field
records_fields [] = []
records_fields (r ∷ rs) = record_fields r ++ records_fields rs

-- The header and the used records, as fields.
abbrev pub image_fields : List Record → ℕ → List Field
image_fields rs sequence =
    word magic ∷ word sequence ∷ byte (length (used_records rs)) ∷ records_fields (used_records rs)

unfoldable pub image : List Record → ℕ → List ℕ
image rs sequence = encode_all (image_fields rs sequence)

-- The whole slot: the image, zeros up to the checksum, and the checksum of both.
unfoldable pub padded : List Record → ℕ → List ℕ
padded rs sequence = image rs sequence ++ replicate (crc_offset - length (image rs sequence)) 0

unfoldable pub slot_image : List Record → ℕ → List ℕ
slot_image rs sequence = padded rs sequence ++ le32 (crc32 (padded rs sequence))

pub take-c_text : (room : ℕ) (s : List ℕ) → take (length (c_text room s)) s ≡ c_text room s
unfolding c_text
take-c_text zero s = refl
take-c_text (suc room) [] = refl
take-c_text (suc room) (x ∷ xs) = elim (Bool-cases (x == 0)) [
  | inl e ↦ rw e
  | inr e ↦ rw e (ap (λ t. x ∷ t) (take-c_text room xs))
]

pub length-used_records : (rs : List Record) → used_count rs ≡ length (used_records rs)
unfolding used_count used_records
length-used_records [] = refl
length-used_records (r ∷ rs) = ground (arith, length-used_records rs)

pub used_records-le : (rs : List Record) → length (used_records rs) ≤ length rs
unfolding used_records
used_records-le [] = omega arith
used_records-le (r ∷ rs) = ground (arith, used_records-le rs)

and_then_assoc :
    (first second : ByteWriter → Bool × ByteWriter) (r : Bool × ByteWriter)
    → and_then second (and_then first r) ≡ and_then (λ w. and_then second (first w)) r
and_then_assoc first second (true, w) = refl
and_then_assoc first second (false, w) = refl

and_then_done : (r : Bool × ByteWriter) → and_then (λ w. (true, w)) r ≡ r
and_then_done (true, w) = refl
and_then_done (false, w) = refl

write_fields-append :
    (fs gs : List Field) (w : ByteWriter)
    → write_fields (fs ++ gs) w ≡ (write_fields fs >> write_fields gs) w
unfolding write_fields
write_fields-append [] gs w = refl
write_fields-append (f ∷ fs) gs w =
    ap (λ k. and_then k (write_field f w)) (fun_ext (write_fields-append fs gs))
    ∙ sym (and_then_assoc (write_fields fs) (write_fields gs) (write_field f w))

-- The writes of the code are the writes of the fields.
write_record_lem :
    (r : Record) (w : ByteWriter) → IsRecord r → write_record r w ≡ write_fields (record_fields r) w
unfolding write_record write_fields write_field
write_record_lem r w v =
    let key_size : u8 (text_length (some r.key) config_key_capacity) ≡ length (key_text r) =
      omega (arith, text_length_lem r.key config_key_capacity, v) in
    rw (key_size, text_length_lem r.key config_key_capacity, take-c_text config_key_capacity r.key)
      (sym (
        ap (λ k. (write_u8 a >> write_u8 r.value_size >> write_bytes (some (key_text r)) >> k) w)
          last))
  where
    a : ℕ
    a = length (key_text r)

    last : write_fields (blob (value_bytes r) ∷ []) ≡ write_bytes (some (value_bytes r))
    last = fun_ext (λ x. and_then_done (write_bytes (some (value_bytes r)) x))

write_records_lem :
    (rs : List Record) (w : ByteWriter)
    → All IsRecord rs
    → write_records rs w ≡ write_fields (records_fields (used_records rs)) w
unfolding write_records used_records
write_records_lem [] w v = unfold write_fields in refl
write_records_lem (r ∷ rs) w (vr, vs) = elim (Bool-cases r.used) [
  | inl e ↦ simp e (
      ap (and_then (write_records rs)) (write_record_lem r w vr)
      ∙ ap (λ k. and_then k (write_fields (record_fields r) w))
          (fun_ext (λ x. write_records_lem rs x vs))
      ∙ sym (write_fields-append (record_fields r) (records_fields (used_records rs)) w))
  | inr e ↦ simp e (write_records_lem rs w vs)
]

pub write_image_lem :
    (rs : List Record) (sequence : ℕ) (w : ByteWriter)
    → All IsRecord rs
    → length rs ≡ config_record_capacity
    → write_image rs sequence w ≡ write_fields (image_fields rs sequence) w
unfolding write_image write_fields write_field
write_image_lem rs sequence w v count =
    let counted : u8 (used_count rs) ≡ length (used_records rs) =
      omega (arith, length-used_records rs, used_records-le rs) in
    rw (counted, fun_ext (λ x. write_records_lem rs x v))
