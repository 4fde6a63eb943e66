-- ===== src/Prelude/Strings.antt =====
-- Texts in C as lists of characters, of which the first 0 or the end of the list is the terminator.
use mathlib.Core.List.{List, [], ◌∷◌}
use Prim.Native.Nat.{ℕ}
use agile_firmware_framework.Prelude.Tests.{◌==◌, if◌then◌else◌}

-- The characters of a text, up to its terminator.
unfoldable pub characters : List ℕ → List ℕ
characters [] = []
characters (x ∷ xs) = if x == 0 then [] else x ∷ characters xs
