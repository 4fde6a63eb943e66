-- ===== src/Libraries/Bytes/Fields.antt =====
-- A serialized message as a sequence of fields, written and read by the calls of the two classes.
use agile_firmware_framework.Prelude.{
  ℕ, ◌^◌, ◌/◌, ◌<◌, Bool, true, false, some, List, [], ◌∷◌, ◌++◌, length, replicate, if◌then◌else◌,
}
use agile_firmware_framework.Prelude.Words.{u8, IsByte, IsU32}
use agile_firmware_framework.Libraries.Bytes.{
  ByteWriter, write_u8, write_u16_le, write_u32_le, write_bytes, ByteReader, read_u8, read_u16_le,
  read_u32_le, read_bytes, and_then,
}

pub data Field : Type 0 where
  byte half word : ℕ → Field
  blob : List ℕ → Field

-- The value fits its width, and a blob's length fits half of size_t.
abbrev pub Fits : Field → Type 0
Fits (byte x) = IsByte x
Fits (half x) = x < 2 ^ 16
Fits (word x) = IsU32 x
Fits (blob vs) = length vs < 2 ^ 31

abbrev pub le16 : ℕ → List ℕ
le16 x = u8 x ∷ u8 (x / 2 ^ 8) ∷ []

abbrev pub le32 : ℕ → List ℕ
le32 x = u8 x ∷ u8 (x / 2 ^ 8) ∷ u8 (x / 2 ^ 16) ∷ u8 (x / 2 ^ 24) ∷ []

-- The bytes of a field, least significant first.
abbrev pub encode : Field → List ℕ
encode (byte x) = x ∷ []
encode (half x) = le16 x
encode (word x) = le32 x
encode (blob vs) = vs

abbrev pub encode_all : List Field → List ℕ
encode_all [] = []
encode_all (f ∷ fs) = encode f ++ encode_all fs

unfoldable pub write_field : Field → ByteWriter → Bool × ByteWriter
write_field (byte x) w = write_u8 x w
write_field (half x) w = write_u16_le x w
write_field (word x) w = write_u32_le x w
write_field (blob vs) w = write_bytes (some vs) w

unfoldable pub write_fields : List Field → ByteWriter → Bool × ByteWriter
write_fields [] w = (true, w)
write_fields (f ∷ fs) w = and_then (write_fields fs) (write_field f w)

-- Reads a field of the same kind, a blob of the same length.
unfoldable pub read_field : Field → ByteReader → Bool × Field × ByteReader
read_field (byte x) r = let (done, v, r') = read_u8 0 r in (done, byte v, r')
read_field (half x) r = let (done, v, r') = read_u16_le 0 r in (done, half v, r')
read_field (word x) r = let (done, v, r') = read_u32_le 0 r in (done, word v, r')
read_field (blob vs) r =
    let (done, v, r') = read_bytes (some (replicate (length vs) 0)) (length vs) r in
    (done, blob v, r')

unfoldable pub read_fields : List Field → ByteReader → Bool × List Field × ByteReader
read_fields [] r = (true, [], r)
read_fields (f ∷ fs) r =
    let (done, v, r') = read_field f r in
    let (all, vs, r'') = read_fields fs r' in if done then (all, v ∷ vs, r'') else (false, [], r')
