-- ===== src/Libraries/Bytes.antt =====
-- libraries/ByteWriter.hpp and libraries/ByteReader.hpp: bounded little-endian serialization over a
-- caller's buffer. A method that changes the object returns it after its result.
pub mod Write
pub mod Read
pub mod RoundTrip
pub mod Fields
mod Tests
use agile_firmware_framework.Prelude.{
  ℕ, zero, suc, ◌+◌, ◌-◌, ◌*◌, ◌/◌, ◌%◌, ◌^◌, bit_or, Bool, true, false, Option, none, some, List,
  [], ◌∷◌, length, get_or, set, ltb, if◌then◌else◌,
}
use agile_firmware_framework.Prelude.Words.{u8, u16, u32, add_size}

-- `bytes` is what the pointer `data_` leads to.
pub record ByteWriter : Type 0 where
  pub bytes : List ℕ
  pub capacity : ℕ
  pub position : ℕ
  pub overflow : Bool

abbrev pub writer : List ℕ → ℕ → ByteWriter
writer bytes capacity = record {
  bytes = bytes;
  capacity = capacity;
  position = 0;
  overflow = false;
}

-- The loop `data_[position_++] = value[index]`; it runs only below the capacity.
unfoldable pub write_loop : List ℕ → ByteWriter → ByteWriter
write_loop [] w = w
write_loop (x ∷ xs) w =
    write_loop xs (record w { bytes = set w.bytes w.position x; position = w.position + 1 })

-- `none` is a null pointer; the list is the `size` bytes at `value`.
unfoldable pub write_bytes : Option (List ℕ) → ByteWriter → Bool × ByteWriter
write_bytes none w = (false, record w { overflow = true })
write_bytes (some value) w =
    if ltb w.capacity (add_size w.position (length value))
    then (false, record w { overflow = true })
    else (true, write_loop value w)

unfoldable pub write_u8 : ℕ → ByteWriter → Bool × ByteWriter
write_u8 value = write_bytes (some (value ∷ []))

unfoldable pub write_u16_le : ℕ → ByteWriter → Bool × ByteWriter
write_u16_le value = write_bytes (some (u8 value ∷ u8 (value / 2 ^ 8) ∷ []))

unfoldable pub write_u32_le : ℕ → ByteWriter → Bool × ByteWriter
write_u32_le value =
    write_bytes
      (some (u8 value ∷ u8 (value / 2 ^ 8) ∷ u8 (value / 2 ^ 16) ∷ u8 (value / 2 ^ 24) ∷ []))

-- `first && second` on two writes: the second runs on what a successful first leaves.
abbrev pub and_then : (ByteWriter → Bool × ByteWriter) → Bool × ByteWriter → Bool × ByteWriter
and_then second (true, w) = second w
and_then second (false, w) = (false, w)

infixr 5 ◌>>◌
abbrev pub ◌>>◌ :
    (ByteWriter → Bool × ByteWriter)
    → (ByteWriter → Bool × ByteWriter)
    → ByteWriter
    → Bool × ByteWriter
(first >> second) w = and_then second (first w)

pub record ByteReader : Type 0 where
  pub bytes : List ℕ
  pub size : ℕ
  pub position : ℕ

abbrev pub reader : List ℕ → ℕ → ByteReader
reader bytes size = record { bytes = bytes; size = size; position = 0 }

-- The loop `value[index] = data_[position_++]`, with the rounds left and the index of the next one.
unfoldable pub read_loop : ℕ → ℕ → List ℕ → ByteReader → List ℕ × ByteReader
read_loop zero index value r = (value, r)
read_loop (suc rounds) index value r =
    read_loop rounds (index + 1) (set value index (get_or r.bytes r.position 0))
      (record r { position = r.position + 1 })

-- `value` is the destination, `none` for a null pointer; it is returned with what was copied.
unfoldable pub read_bytes : Option (List ℕ) → ℕ → ByteReader → Bool × List ℕ × ByteReader
read_bytes none size r = (false, [], r)
read_bytes (some value) size r =
    let copied = read_loop size 0 value r in
    if ltb r.size (add_size r.position size) then (false, value, r) else (true, copied.0, copied.1)

-- The typed reads leave the destination as it was when they fail.
unfoldable pub read_u8 : ℕ → ByteReader → Bool × ℕ × ByteReader
read_u8 old r =
    let (done, bytes, r') = read_bytes (some (old ∷ [])) 1 r in (done, get_or bytes 0 0, r')

unfoldable pub read_u16_le : ℕ → ByteReader → Bool × ℕ × ByteReader
read_u16_le old r =
    let (done, bytes, r') = read_bytes (some (0 ∷ 0 ∷ [])) 2 r in
    if done
    then (true, bit_or (get_or bytes 0 0) (u16 (get_or bytes 1 0 * 2 ^ 8)), r')
    else (false, old, r')

unfoldable pub read_u32_le : ℕ → ByteReader → Bool × ℕ × ByteReader
read_u32_le old r =
    let (done, bytes, r') = read_bytes (some (0 ∷ 0 ∷ 0 ∷ 0 ∷ [])) 4 r in
    if done
    then (
      true,
      bit_or
          (bit_or (bit_or (get_or bytes 0 0) (u32 (get_or bytes 1 0 * 2 ^ 8)))
            (u32 (get_or bytes 2 0 * 2 ^ 16)))
          (u32 (get_or bytes 3 0 * 2 ^ 24)),
      r',
    )
    else (false, old, r')

-- size_ - position_, on size_t
pub remaining : ByteReader → ℕ
remaining r = (r.size + 2 ^ 32 - r.position) % 2 ^ 32
