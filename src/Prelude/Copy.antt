-- ===== src/Prelude/Copy.antt =====
-- The loop `for (i = 0; i < n; ++i) target[i] = source[i]` over byte arrays.
use Prim.Native.Nat.{ℕ, zero, suc, ◌≤◌}
use mathlib.Core.Path.{◌≡◌, refl, ap}
use mathlib.Core.List.{List, [], ◌∷◌, ◌++◌}
use native.Mathlib.Omega.{arith}
use agile_firmware_framework.Prelude.Lists.{length, get_or, take, drop}

-- A write past the end of the target is dropped; a read past the end of the source gives 0.
unfoldable pub copy : ℕ → List ℕ → List ℕ → List ℕ
copy zero source target = target
copy (suc n) source [] = []
copy (suc n) source (t ∷ ts) = get_or source 0 0 ∷ copy n (drop 1 source) ts

pub copy_lem :
    (n : ℕ) (source target : List ℕ)
    → n ≤ length source
    → n ≤ length target
    → copy n source target ≡ take n source ++ drop n target
unfolding copy
copy_lem zero source target hs ht = refl
copy_lem (suc n) [] target hs ht = absurd (omega arith)
copy_lem (suc n) (x ∷ xs) [] hs ht = absurd (omega arith)
copy_lem (suc n) (x ∷ xs) (t ∷ ts) hs ht =
    ap (λ l. x ∷ l) (copy_lem n xs ts (omega arith) (omega arith))

pub length-copy : (n : ℕ) (source target : List ℕ) → length (copy n source target) ≡ length target
unfolding copy
length-copy zero source target = refl
length-copy (suc n) source [] = refl
length-copy (suc n) source (t ∷ ts) = ap suc (length-copy n (drop 1 source) ts)

-- The front of the target is the front of the source.
pub take-copy :
    (n : ℕ) (source target : List ℕ)
    → n ≤ length source
    → n ≤ length target
    → take n (copy n source target) ≡ take n source
unfolding copy
take-copy zero source target hs ht = refl
take-copy (suc n) [] target hs ht = absurd (omega arith)
take-copy (suc n) (x ∷ xs) [] hs ht = absurd (omega arith)
take-copy (suc n) (x ∷ xs) (t ∷ ts) hs ht =
    ap (λ l. x ∷ l) (take-copy n xs ts (omega arith) (omega arith))
