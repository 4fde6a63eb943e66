-- ===== src/Prelude/Bits.antt =====
-- The bit operations at variables, from the recursion on binary digits that they stand for.
use Prim.Native.Nat.{
  ℕ, zero, suc, ◌+◌, ◌-◌, ◌*◌, ◌/◌, ◌%◌, ◌^◌, ◌≤◌, ◌<◌, max, digits, bit_or, bit_or-bitwise,
}
use mathlib.Core.Path.{◌≡◌, refl, ap, sym, ◌∙◌}
use native.Mathlib.Nat.{pow-suc}
use native.Mathlib.Omega.{arith}

pub zero-bit_or : (b : ℕ) → bit_or 0 b ≡ b
zero-bit_or b = bit_or-bitwise 0 b

-- `bit_or` with its fuel apart.
abbrev or_with : ℕ → ℕ → ℕ → ℕ
or_with fuel x y = digits (λ t. t) max fuel x y

-- One more unit of fuel, where there was enough, changes nothing.
or_with-spare : (fuel x y : ℕ) → x ≤ fuel → or_with (suc fuel) x y ≡ or_with fuel x y
or_with-spare zero zero y h = refl
or_with-spare (suc fuel) zero y h = refl
or_with-spare zero (suc x) y h = absurd (omega (arith, h))
or_with-spare (suc fuel) (suc x) y h =
    ap (λ (t : ℕ). t * 2 + max (suc x % 2) (y % 2))
      (or_with-spare fuel (suc x / 2) (y / 2) (omega (arith, h)))

or_with-enough : (more x y : ℕ) → or_with (more + x) x y ≡ bit_or x y
or_with-enough zero x y =
    ap (λ n. or_with n x y) {x = 0 + x} {y = x} (omega arith) ∙ sym (bit_or-bitwise x y)
or_with-enough (suc more) x y =
    ap (λ n. or_with n x y) {x = suc more + x} {y = suc (more + x)} (omega arith)
    ∙ or_with-spare (more + x) x y (omega arith)
    ∙ or_with-enough more x y

-- The lowest digit and the others.
pub bit_or_step : (x y : ℕ) → bit_or x y ≡ bit_or (x / 2) (y / 2) * 2 + max (x % 2) (y % 2)
bit_or_step zero y = rw (zero-bit_or y, zero-bit_or (y / 2)) (omega arith)
bit_or_step (suc n) y =
    bit_or-bitwise (suc n) y ∙ ap (λ (t : ℕ). t * 2 + max (suc n % 2) (y % 2)) fewer
  where
    half : ℕ
    half = suc n / 2

    fewer : or_with n half (y / 2) ≡ bit_or half (y / 2)
    fewer =
        ap (λ k. or_with k half (y / 2)) {x = n} {y = n - half + half} (omega arith)
        ∙ or_with-enough (n - half) half (y / 2)

-- Fields that do not overlap: `lo | (hi << k)` is a sum.
pub bit_or_fields : (k lo hi : ℕ) → lo < 2 ^ k → bit_or lo (hi * 2 ^ k) ≡ lo + hi * 2 ^ k
bit_or_fields zero lo hi h = let e : lo ≡ 0 = omega arith in rw (e, zero-bit_or) (omega arith)
bit_or_fields (suc k) lo hi h = ground (
  arith,
  bit_or_step lo (hi * 2 ^ suc k),
  pow-suc 2 k,
  ap (λ (t : ℕ). hi * t) (pow-suc 2 k),
  bit_or_fields k (lo / 2) hi (omega (arith, pow-suc 2 k)),
)
