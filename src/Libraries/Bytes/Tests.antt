-- ===== src/Libraries/Bytes/Tests.antt =====
-- Concrete runs of the byte writer and reader, and the theorems at concrete inputs.
use agile_firmware_framework.Prelude.{◌≡◌, refl, true, false, some, List, [], ◌∷◌, arith, replicate}
use agile_firmware_framework.Libraries.Bytes.{
  ByteWriter, writer, write_bytes, write_u32_le, write_loop, ByteReader, reader, read_bytes,
  read_u32_le, read_loop,
}
use agile_firmware_framework.Libraries.Bytes.Write.{IsValid}
use agile_firmware_framework.Libraries.Bytes.Fields.{
  Field, byte, half, word, blob, write_fields, read_fields,
}
use agile_firmware_framework.Libraries.Bytes.RoundTrip.{read_fields-write_fields}

abbrev half_full : ByteWriter
half_full = record { bytes = 1 ∷ 2 ∷ 0 ∷ 0 ∷ []; capacity = 4; position = 2; overflow = false }

write_overflow :
    write_bytes (some (7 ∷ 8 ∷ 9 ∷ [])) half_full ≡ (false, record half_full { overflow = true })
unfolding write_bytes
write_overflow = refl

write_word : write_u32_le 0x12345678 (writer (replicate 4 0) 4) ≡ (
  true,
  record { bytes = 0x78 ∷ 0x56 ∷ 0x34 ∷ 0x12 ∷ []; capacity = 4; position = 4; overflow = false },
)
unfolding write_u32_le write_bytes write_loop
write_word = refl

read_word : (read_u32_le 0 (reader (0x78 ∷ 0x56 ∷ 0x34 ∷ 0x12 ∷ []) 4)).1 ≡ 0x12345678
unfolding read_u32_le read_bytes read_loop
read_word = refl

half_full-IsValid : IsValid half_full
half_full-IsValid = omega arith

abbrev half_read : ByteReader
half_read = record { bytes = 1 ∷ 2 ∷ 3 ∷ 4 ∷ []; size = 4; position = 2 }

abbrev message : List Field
message = word 0x31474643 ∷ byte 7 ∷ half 513 ∷ blob (104 ∷ 105 ∷ []) ∷ []

read_fields-write_fields_example :
    let (done, w) = write_fields message (writer (replicate 12 0) 12) in
    let (all, values, r) = read_fields message (reader w.bytes w.position) in
    (done ≡ true) × (all ≡ true) × (values ≡ message) × (r.position ≡ w.position)
read_fields-write_fields_example =
    read_fields-write_fields message (replicate 12 0) 12 (omega arith) (omega arith) (omega arith)
      (omega arith)
