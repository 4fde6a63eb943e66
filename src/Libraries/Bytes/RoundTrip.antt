-- ===== src/Libraries/Bytes/RoundTrip.antt =====
-- What ByteWriter writes, ByteReader reads back.
use agile_firmware_framework.Prelude.{
  ℕ, ◌+◌, ◌*◌, ◌/◌, ◌^◌, ◌≤◌, ◌<◌, ◌≡◌, refl, true, List, [], ◌∷◌, ◌++◌, append-nil, append_assoc,
  arith, length, drop, bit_or, length-append, replicate, length-replicate, drop-replicate,
  length-drop, drop-drop, All,
}
use agile_firmware_framework.Prelude.Words.{u8, u16, u32, IsU32}
use agile_firmware_framework.Prelude.Bits.{bit_or_fields}
use agile_firmware_framework.Libraries.Bytes.{
  writer, write_u8, write_u16_le, write_u32_le, reader, read_u8, read_u16_le, read_u32_le,
}
use agile_firmware_framework.Libraries.Bytes.Write.{after, write_bytes-after}
use agile_firmware_framework.Libraries.Bytes.Read.{before, read_bytes-before}
use agile_firmware_framework.Libraries.Bytes.Fields.{
  Field, byte, half, word, blob, Fits, le16, le32, encode, encode_all, write_field, write_fields,
  read_field, read_fields,
}

or16 : (x : ℕ) → x < 2 ^ 16 → bit_or (u8 x) (u16 (u8 (x / 2 ^ 8) * 2 ^ 8)) ≡ x
or16 x h =
    let e : u16 (u8 (x / 2 ^ 8) * 2 ^ 8) ≡ x / 2 ^ 8 * 2 ^ 8 = omega arith in
    rw (e, bit_or_fields 8 (u8 x) (x / 2 ^ 8) (omega arith)) (omega arith)

or32 :
    (x : ℕ)
    → IsU32 x
    → bit_or
        (bit_or (bit_or (u8 x) (u32 (u8 (x / 2 ^ 8) * 2 ^ 8))) (u32 (u8 (x / 2 ^ 16) * 2 ^ 16)))
        (u32 (u8 (x / 2 ^ 24) * 2 ^ 24))
      ≡ x
or32 x h =
    let a : u32 (u8 (x / 2 ^ 8) * 2 ^ 8) ≡ u8 (x / 2 ^ 8) * 2 ^ 8 = omega arith in
    let b : u32 (u8 (x / 2 ^ 16) * 2 ^ 16) ≡ u8 (x / 2 ^ 16) * 2 ^ 16 = omega arith in
    let c : u32 (u8 (x / 2 ^ 24) * 2 ^ 24) ≡ u8 (x / 2 ^ 24) * 2 ^ 24 = omega arith in
    rw (a, b, c)
      (rw (bit_or_fields 8 (u8 x) (u8 (x / 2 ^ 8)) (omega arith)) (
        rw (bit_or_fields 16 (u8 x + u8 (x / 2 ^ 8) * 2 ^ 8) (u8 (x / 2 ^ 16)) (omega arith)) (
          rw
            (bit_or_fields 24 (u8 x + u8 (x / 2 ^ 8) * 2 ^ 8 + u8 (x / 2 ^ 16) * 2 ^ 16)
              (u8 (x / 2 ^ 24)) (omega arith))
            (omega arith))))

module _ (size : ℕ) (out rest : List ℕ) (small : size < 2 ^ 32) where
  pub read_u8-before :
      (old x : ℕ)
      → length out + 1 ≤ size
      → read_u8 old (before size out (x ∷ rest)) ≡ (true, x, before size (out ++ (x ∷ [])) rest)
  unfolding read_u8
  read_u8-before old x fits =
      rw (read_bytes-before (x ∷ []) (old ∷ []) size out rest fits small (omega arith))

  pub read_u16-before :
      (old x : ℕ)
      → x < 2 ^ 16
      → length out + 2 ≤ size
      → read_u16_le old (before size out (le16 x ++ rest))
        ≡ (true, x, before size (out ++ le16 x) rest)
  unfolding read_u16_le
  read_u16-before old x h fits =
      rw (read_bytes-before (le16 x) (0 ∷ 0 ∷ []) size out rest fits small (omega arith))
        (rw (or16 x h))

  pub read_u32-before :
      (old x : ℕ)
      → IsU32 x
      → length out + 4 ≤ size
      → read_u32_le old (before size out (le32 x ++ rest))
        ≡ (true, x, before size (out ++ le32 x) rest)
  unfolding read_u32_le
  read_u32-before old x h fits =
      rw (read_bytes-before (le32 x) (0 ∷ 0 ∷ 0 ∷ 0 ∷ []) size out rest fits small (omega arith))
        (rw (or32 x h))

  read_field-before :
      (f : Field)
      → Fits f
      → length out + length (encode f) ≤ size
      → read_field f (before size out (encode f ++ rest))
        ≡ (true, f, before size (out ++ encode f) rest)
  unfolding read_field
  read_field-before (byte x) h fits = rw (read_u8-before 0 x fits)
  read_field-before (half x) h fits = rw (read_u16-before 0 x h fits)
  read_field-before (word x) h fits = rw (read_u32-before 0 x h fits)
  read_field-before (blob vs) h fits = ground (
    arith,
    length-replicate {0} {A = ℕ} (length vs) 0,
    read_bytes-before vs (replicate (length vs) 0) size out rest,
    drop-replicate {0} {A = ℕ} (length vs) (length vs) 0,
    append-nil vs,
  )

module _ (capacity : ℕ) (out rest : List ℕ) (small : capacity < 2 ^ 32) where
  pub write_u8-after :
      (x : ℕ)
      → length out + 1 ≤ capacity
      → 1 ≤ length rest
      → write_u8 x (after capacity out rest)
        ≡ (true, after capacity (out ++ (x ∷ [])) (drop 1 rest))
  unfolding write_u8
  write_u8-after x fits room = write_bytes-after (x ∷ []) capacity out rest fits small room

  pub write_u32-after :
      (x : ℕ)
      → length out + 4 ≤ capacity
      → 4 ≤ length rest
      → write_u32_le x (after capacity out rest)
        ≡ (true, after capacity (out ++ le32 x) (drop 4 rest))
  unfolding write_u32_le
  write_u32-after x fits room = write_bytes-after (le32 x) capacity out rest fits small room

  write_field-after :
      (f : Field)
      → length out + length (encode f) ≤ capacity
      → length (encode f) ≤ length rest
      → write_field f (after capacity out rest)
        ≡ (true, after capacity (out ++ encode f) (drop (length (encode f)) rest))
  unfolding write_field write_u16_le
  write_field-after (byte x) fits room = write_u8-after x fits room
  write_field-after (half x) fits room =
      write_bytes-after (le16 x) capacity out rest fits small room
  write_field-after (word x) fits room = write_u32-after x fits room
  write_field-after (blob vs) fits room = write_bytes-after vs capacity out rest fits small room

pub write_fields-after :
    (fs : List Field) (capacity : ℕ) (out rest : List ℕ)
    → capacity < 2 ^ 32
    → length out + length (encode_all fs) ≤ capacity
    → length (encode_all fs) ≤ length rest
    → write_fields fs (after capacity out rest)
      ≡ (true, after capacity (out ++ encode_all fs) (drop (length (encode_all fs)) rest))
unfolding write_fields
write_fields-after [] capacity out rest small fits room = rw append-nil
write_fields-after (f ∷ fs) capacity out rest small fits room =
    let split = length-append (encode f) (encode_all fs) in
    let grown = length-append out (encode f) in
    let left = length-drop (length (encode f)) rest in
    rw (write_field-after capacity out rest small f (omega (arith, split)) (omega (arith, split))) (
      rw
        (write_fields-after fs capacity (out ++ encode f) (drop (length (encode f)) rest) small
          (omega (arith, split, grown)) (omega (arith, split, left)))
        (rw (split, drop-drop, append_assoc out (encode f) (encode_all fs))))

read_fields-before :
    (fs : List Field) (size : ℕ) (out rest : List ℕ)
    → size < 2 ^ 32
    → All Fits fs
    → length out + length (encode_all fs) ≤ size
    → read_fields fs (before size out (encode_all fs ++ rest))
      ≡ (true, fs, before size (out ++ encode_all fs) rest)
unfolding read_fields
read_fields-before [] size out rest small h fits = rw append-nil
read_fields-before (f ∷ fs) size out rest small h fits =
    let split = length-append (encode f) (encode_all fs) in
    let grown = length-append out (encode f) in
    rw (append_assoc (encode f) (encode_all fs) rest) (
      rw (read_field-before size out (encode_all fs ++ rest) small f h.0 (omega (arith, split))) (
        rw
          (read_fields-before fs size (out ++ encode f) rest small h.1
            (omega (arith, split, grown)))
          (rw (append_assoc out (encode f) (encode_all fs)))))

-- Values that fit their fields, written to a buffer of less than 2 ^ 31 bytes that has room for
-- their bytes, are all written,
-- and a reader over the bytes written reads the same values back.
pub read_fields-write_fields :
    (fs : List Field) (buffer : List ℕ) (capacity : ℕ)
    → All Fits fs
    → capacity ≤ length buffer
    → capacity < 2 ^ 31
    → length (encode_all fs) ≤ capacity
    → let (done, w) = write_fields fs (writer buffer capacity) in
      let (all, values, r) = read_fields fs (reader w.bytes w.position) in
      (done ≡ true) × (all ≡ true) × (values ≡ fs) × (r.position ≡ w.position)
read_fields-write_fields fs buffer capacity h backed small fits =
    let n : ℕ = length (encode_all fs) in
    rw (write_fields-after fs capacity [] buffer (omega arith) (omega arith) (omega arith)) (
      rw (read_fields-before fs n [] (drop n buffer) (omega arith) h (omega arith))
        (refl, refl, refl, refl))
