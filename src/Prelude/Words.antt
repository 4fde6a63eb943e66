-- ===== src/Prelude/Words.antt =====
-- Unsigned machine words as native numbers: uint8_t, uint16_t, uint32_t wrap at their width, and
-- size_t has the 32 bits of the target controllers.
use Prim.Native.Nat.{ℕ, ◌+◌, ◌-◌, ◌%◌, ◌^◌, ◌<◌}
use mathlib.Core.Bool.{Bool}
use agile_firmware_framework.Prelude.Tests.{leb}

abbrev pub u8 : ℕ → ℕ
u8 x = x % 2 ^ 8

abbrev pub u16 : ℕ → ℕ
u16 x = x % 2 ^ 16

abbrev pub u32 : ℕ → ℕ
u32 x = x % 2 ^ 32

-- size_t a + b
abbrev pub add_size : ℕ → ℕ → ℕ
add_size a b = (a + b) % 2 ^ 32

abbrev pub add32 : ℕ → ℕ → ℕ
add32 a b = (a + b) % 2 ^ 32

-- uint32_t a - b; `-` on ℕ stops at 0, so the modulus is added first.
abbrev pub sub32 : ℕ → ℕ → ℕ
sub32 a b = (a + 2 ^ 32 - b) % 2 ^ 32

abbrev pub IsByte : ℕ → Type 0
IsByte x = x < 2 ^ 8

abbrev pub IsU32 : ℕ → Type 0
IsU32 x = x < 2 ^ 32

-- `static_cast<std::int32_t>(now - at) >= 0`: the difference has its top bit clear.
abbrev pub reached : ℕ → ℕ → Bool
reached now at = leb (sub32 now at) (2 ^ 31 - 1)
