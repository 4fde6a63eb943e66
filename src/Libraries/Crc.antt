-- ===== src/Libraries/Crc.antt =====
-- libraries/Crc16.hpp and libraries/Crc32.hpp: the two checksums, bit by bit.
use agile_firmware_framework.Prelude.{
  ℕ, zero, suc, ◌-◌, ◌/◌, ◌^◌, ◌<◌, List, [], ◌∷◌, bit_and, bit_xor, arith, ◌==◌, if◌then◌else◌,
}
use agile_firmware_framework.Prelude.Words.{u16, sub32, IsU32}

-- One round of the inner loop of `crc16_modbus`.
unfoldable pub crc16_bit : ℕ → ℕ
crc16_bit crc = if bit_and crc 1 == 0 then u16 (crc / 2) else u16 (bit_xor (crc / 2) 0xA001)

unfoldable pub crc16_bits : ℕ → ℕ → ℕ
unfolding crc16_bit
crc16_bits zero crc = crc
crc16_bits (suc rounds) crc = crc16_bits rounds (crc16_bit crc)

unfoldable pub crc16_update : List ℕ → ℕ → ℕ
unfolding crc16_bits
crc16_update [] crc = crc
crc16_update (x ∷ xs) crc = crc16_update xs (crc16_bits 8 (u16 (bit_xor crc x)))

unfoldable pub crc16_modbus : List ℕ → ℕ
unfolding crc16_update
crc16_modbus input = crc16_update input 0xFFFF

crc16_bits_bound : (rounds crc : ℕ) → crc < 2 ^ 16 → crc16_bits rounds crc < 2 ^ 16
unfolding crc16_bits crc16_bit
crc16_bits_bound zero crc h = h
crc16_bits_bound (suc rounds) crc h = crc16_bits_bound rounds (crc16_bit crc) (ground arith)

crc16_update_bound : (input : List ℕ) (crc : ℕ) → crc < 2 ^ 16 → crc16_update input crc < 2 ^ 16
unfolding crc16_update
crc16_update_bound [] crc h = h
crc16_update_bound (x ∷ xs) crc h =
    crc16_update_bound xs _ (crc16_bits_bound 8 (u16 (bit_xor crc x)) (omega arith))

pub crc16_modbus_bound : (input : List ℕ) → crc16_modbus input < 2 ^ 16
unfolding crc16_modbus
crc16_modbus_bound input = crc16_update_bound input 0xFFFF (omega arith)

-- One round of the inner loop of `crc32`: the mask is all ones when the low bit is set.
unfoldable pub crc32_bit : ℕ → ℕ
crc32_bit crc = bit_xor (crc / 2) (bit_and 0xEDB88320 (sub32 0 (bit_and crc 1)))

unfoldable pub crc32_bits : ℕ → ℕ → ℕ
unfolding crc32_bit
crc32_bits zero crc = crc
crc32_bits (suc rounds) crc = crc32_bits rounds (crc32_bit crc)

unfoldable pub crc32_update : List ℕ → ℕ → ℕ
unfolding crc32_bits
crc32_update [] crc = crc
crc32_update (x ∷ xs) crc = crc32_update xs (crc32_bits 8 (bit_xor crc x))

-- `~crc` on 32 bits.
unfoldable pub crc32 : List ℕ → ℕ
unfolding crc32_update
crc32 input = 0xFFFFFFFF - crc32_update input 0xFFFFFFFF

pub crc32-IsU32 : (input : List ℕ) → IsU32 (crc32 input)
unfolding crc32
crc32-IsU32 input = omega arith
