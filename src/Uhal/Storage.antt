-- ===== src/Uhal/Storage.antt =====
-- uhal/IStorage.hpp: byte-addressed storage. What implements it belongs to a product, so it is a
-- parameter: three calls over a state `W` of the device, and what a caller may rely on.
use agile_firmware_framework.Prelude.{
  ℕ, zero, suc, ◌+◌, ◌≤◌, ◌<◌, ◌≡◌, refl, ap, ap₂, arith, ◌⊎◌, List, [], ◌∷◌, length,
}
use agile_firmware_framework.Uhal.{Status, ok}

-- `read` is given the caller's buffer and returns it as the device leaves it.
pub record Storage (W : Type 0) : Type 0 where
  pub read : ℕ → List ℕ → W → Status × List ℕ × W
  pub write : ℕ → List ℕ → W → Status × W
  pub erase : ℕ → ℕ → W → Status × W

-- The `n` bytes from an address on.
unfoldable pub window : (ℕ → ℕ) → ℕ → ℕ → List ℕ
window cell offset zero = []
window cell offset (suc n) = cell offset ∷ window cell (offset + 1) n

-- The documented behaviour, over the byte that the device holds at each address: a call that
-- answers `ok` did what it was asked, and no call touches a byte outside its range.
pub record IsFaithful {W : Type 0} (s : Storage W) (cell : W → ℕ → ℕ) : Type 0 where
  pub read_keeps : (offset : ℕ) (buffer : List ℕ) (w : W) → cell (s.read offset buffer w).2 ≡ cell w
  pub read_ok :
      (offset : ℕ) (buffer : List ℕ) (w : W)
      → (s.read offset buffer w).0 ≡ ok
      → (s.read offset buffer w).1 ≡ window (cell w) offset (length buffer)
  pub write_ok :
      (offset : ℕ) (value : List ℕ) (w : W)
      → (s.write offset value w).0 ≡ ok
      → window (cell (s.write offset value w).1) offset (length value) ≡ value
  pub write_outside :
      (offset : ℕ) (value : List ℕ) (w : W) (i : ℕ)
      → (i < offset) ⊎ (offset + length value ≤ i)
      → cell (s.write offset value w).1 i ≡ cell w i
  pub erase_outside :
      (offset size : ℕ) (w : W) (i : ℕ)
      → (i < offset) ⊎ (offset + size ≤ i)
      → cell (s.erase offset size w).1 i ≡ cell w i

pub length-window : (cell : ℕ → ℕ) (offset n : ℕ) → length (window cell offset n) ≡ n
unfolding window
length-window cell offset zero = refl
length-window cell offset (suc n) = ap suc (length-window cell (offset + 1) n)

-- Only the bytes inside matter.
pub window_eq :
    (c d : ℕ → ℕ) (offset n : ℕ)
    → ((i : ℕ) → offset ≤ i → i < offset + n → c i ≡ d i)
    → window c offset n ≡ window d offset n
unfolding window
window_eq c d offset zero same = refl
window_eq c d offset (suc n) same =
    ap₂ ◌∷◌ (same offset (omega arith) (omega arith))
      (window_eq c d (offset + 1) n (λ i lo hi. same i (omega arith) (omega arith)))
