-- ===== src/Services/Text.antt =====
-- Texts in C: the helpers that ConfigService.cpp, SecurityPolicy.cpp and CommandDispatcher.cpp
-- each declare for themselves, and how they read a text of bounded length.
use agile_firmware_framework.Prelude.{
  replicate, ◌≤◌, ℕ, zero, suc, ◌≡◌, refl, Bool, true, false, ◌&&◌, Option, none, some, List, [],
  ◌∷◌, get_or, drop, length, ltb, ◌==◌, if◌then◌else◌, arith, set, ap, Bool-cases, inl, inr,
}
use agile_firmware_framework.Prelude.Copy.{copy}

-- A `const char*`: `none` is a null pointer. The list holds the bytes at the pointer, and reading
-- past its end gives the terminator 0.
abbrev pub Text : Type 0
Text = Option (List ℕ)

length_loop : ℕ → List ℕ → ℕ
length_loop zero s = 0
length_loop (suc room) [] = 0
length_loop (suc room) (x ∷ xs) = if x == 0 then 0 else suc (length_loop room xs)

unfoldable pub text_length : Text → ℕ → ℕ
unfolding length_loop
text_length none capacity = capacity
text_length (some s) capacity = length_loop capacity s

-- One comparison for each index below the capacity, until the terminator.
equal_loop : ℕ → List ℕ → List ℕ → Bool
equal_loop zero l r = false
equal_loop (suc room) l r =
    let rest = equal_loop room (drop 1 l) (drop 1 r) in
    if get_or l 0 0 == get_or r 0 0 then (if get_or l 0 0 == 0 then true else rest) else false

unfoldable pub text_equal : Text → Text → ℕ → Bool
unfolding equal_loop
text_equal none right capacity = false
text_equal (some l) none capacity = false
text_equal (some l) (some r) capacity = equal_loop capacity l r

-- The text itself: the bytes before the terminator, at most `capacity`.
unfoldable pub c_text : ℕ → List ℕ → List ℕ
c_text zero s = []
c_text (suc room) [] = []
c_text (suc room) (x ∷ xs) = if x == 0 then [] else x ∷ c_text room xs

-- Equality of byte strings.
unfoldable pub same : List ℕ → List ℕ → Bool
same [] [] = true
same [] (y ∷ ys) = false
same (x ∷ xs) [] = false
same (x ∷ xs) (y ∷ ys) = x == y && same xs ys

pub same→eq : (xs ys : List ℕ) → same xs ys ≡ true → xs ≡ ys
unfolding same
same→eq [] [] h = refl
same→eq [] (y ∷ ys) h = cc
same→eq (x ∷ xs) [] h = cc
same→eq (x ∷ xs) (y ∷ ys) h = ground (arith, same→eq xs ys)

pub same_refl : (xs : List ℕ) → same xs xs ≡ true
unfolding same
same_refl [] = refl
same_refl (x ∷ xs) = ground (arith, same_refl xs)

pub text_length_lem :
    (s : List ℕ) (capacity : ℕ) → text_length (some s) capacity ≡ length (c_text capacity s)
unfolding text_length c_text
text_length_lem s zero = refl
text_length_lem [] (suc room) = refl
text_length_lem (x ∷ xs) (suc room) = ground (arith, text_length_lem xs room)

-- Two texts are found equal exactly when the bytes before their terminators are, and these end below
-- the capacity.
pub text_equal_lem :
    (l r : List ℕ) (capacity : ℕ)
    → text_equal (some l) (some r) capacity
      ≡ same (c_text capacity l) (c_text capacity r) && ltb (length (c_text capacity l)) capacity
unfolding text_equal c_text same
text_equal_lem l r zero = refl
text_equal_lem [] [] (suc room) = ground arith
text_equal_lem [] (y ∷ ys) (suc room) = ground arith
text_equal_lem (x ∷ xs) [] (suc room) = ground arith
text_equal_lem (x ∷ xs) (y ∷ ys) (suc room) = ground (arith, text_equal_lem xs ys room)

pub same_sym : (xs ys : List ℕ) → same xs ys ≡ same ys xs
unfolding same
same_sym [] [] = refl
same_sym [] (y ∷ ys) = refl
same_sym (x ∷ xs) [] = refl
same_sym (x ∷ xs) (y ∷ ys) = ground (arith, same_sym xs ys)

-- A text copied over the front of an array, with its terminator, is the text of the array.
pub c_text-copy :
    (room : ℕ) (key old : List ℕ)
    → length old ≡ room
    → let n = length (c_text room key) in c_text room (set (copy n key old) n 0) ≡ c_text room key
unfolding c_text copy
c_text-copy zero key old h = refl
c_text-copy (suc room) key [] h = absurd (omega (arith, h))
c_text-copy (suc room) [] (o ∷ os) h = refl
c_text-copy (suc room) (x ∷ xs) (o ∷ os) h = elim (Bool-cases (x == 0)) [
  | inl e ↦ rw e
  | inr e ↦ rw (e, e) (ap (λ t. x ∷ t) (c_text-copy room xs os (omega (arith, h))))
]

c_text-replicate : (m n : ℕ) → c_text m (replicate n 0) ≡ []
unfolding c_text
c_text-replicate zero n = refl
c_text-replicate (suc m) zero = refl
c_text-replicate (suc m) (suc n) = refl

-- A text copied to the front of zeros.
pub c_text-copy_zeros :
    (room m : ℕ) (key : List ℕ)
    → room ≤ m
    → c_text m (copy (length (c_text room key)) key (replicate m 0)) ≡ c_text room key
unfolding c_text copy
c_text-copy_zeros zero m key h = c_text-replicate m m
c_text-copy_zeros (suc room) zero key h = absurd (omega arith)
c_text-copy_zeros (suc room) (suc m) [] h = refl
c_text-copy_zeros (suc room) (suc m) (x ∷ xs) h = elim (Bool-cases (x == 0)) [
  | inl e ↦ rw e
  | inr e ↦ rw (e, e) (ap (λ t. x ∷ t) (c_text-copy_zeros room m xs (omega arith)))
]

pub c_text-short :
    (m : ℕ) (s : List ℕ) → length (c_text (suc m) s) ≤ m → c_text m s ≡ c_text (suc m) s
unfolding c_text
c_text-short zero [] h = refl
c_text-short zero (x ∷ xs) h = ground arith
c_text-short (suc m) [] h = refl
c_text-short (suc m) (x ∷ xs) h = elim (Bool-cases (x == 0)) [
  | inl e ↦ rw e
  | inr e ↦
      let shorter : length (c_text (suc m) xs) ≤ m = omega (arith, rw e at h) in
      rw e (ap (λ t. x ∷ t) (c_text-short m xs shorter))
]

-- The zeros behind a text that is copied to their front end it already.
pub set-copy_zeros :
    (n m : ℕ) (key : List ℕ) → set (copy n key (replicate m 0)) n 0 ≡ copy n key (replicate m 0)
unfolding copy
set-copy_zeros zero zero key = refl
set-copy_zeros zero (suc m) key = refl
set-copy_zeros (suc n) zero key = refl
set-copy_zeros (suc n) (suc m) key = ap (λ t. get_or key 0 0 ∷ t) (set-copy_zeros n m (drop 1 key))
