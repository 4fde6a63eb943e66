-- ===== src/Libraries/RingBuffer/Newest.antt =====
-- A buffer that makes room for a new value by dropping its oldest one.
use agile_firmware_framework.Prelude.{
  ℕ, zero, suc, ◌+◌, ◌-◌, ◌≤◌, ◌<◌, ◌≡◌, refl, ap, sym, ◌∙◌, true, false, List, [], ◌∷◌, ◌++◌,
  length, drop, ◌==◌, if◌then◌else◌, Bool-cases, inl, inr, arith, length-append, length-drop,
  drop-drop,
}
use agile_firmware_framework.Libraries.RingBuffer.{RingBuffer, try_push, drop_oldest, full}
use agile_firmware_framework.Libraries.RingBuffer.Queue.{push, skip, queue_step, buffer_step}
use agile_firmware_framework.Libraries.RingBuffer.Refine.{
  IsValid, contents, length-contents, try_push-IsValid, drop_oldest-IsValid, buffer_step_refines,
}

-- The last `n` values, or all where there are fewer.
abbrev pub newest : {A : Type 0} → ℕ → List A → List A
newest n xs = drop (length xs - n) xs

module _ {A : Type 0} where
  drop-snoc :
      (k : ℕ) (xs : List A) (x : A)
      → k ≤ length xs
      → drop k (xs ++ (x ∷ [])) ≡ drop k xs ++ (x ∷ [])
  drop-snoc zero xs x h = refl
  drop-snoc (suc k) [] x h = absurd (omega arith)
  drop-snoc (suc k) (y ∷ xs) x h = drop-snoc k xs x (omega arith)

  pub newest-snoc :
      (n : ℕ) (xs : List A) (x : A) → newest n (newest n xs ++ (x ∷ [])) ≡ newest n (xs ++ (x ∷ []))
  newest-snoc n xs x =
      let k = length xs - n in
      let e : length (newest n xs ++ (x ∷ [])) - n + k ≡ length (xs ++ (x ∷ [])) - n = omega (
        arith,
        length-append (newest n xs) (x ∷ []),
        length-append xs (x ∷ []),
        length-drop k xs,
      ) in
      let f : k + (length (newest n xs ++ (x ∷ [])) - n) ≡ length (xs ++ (x ∷ [])) - n =
        omega (arith, e) in
      ap (λ ys. drop (length (newest n xs ++ (x ∷ [])) - n) ys)
        (sym (drop-snoc k xs x (omega arith)))
      ∙ drop-drop (length (newest n xs ++ (x ∷ [])) - n) k (xs ++ (x ∷ []))
      ∙ ap (λ m. drop m (xs ++ (x ∷ []))) f

  newest_full :
      (n : ℕ) (xs : List A) (x : A)
      → length xs ≡ n
      → 0 < n
      → newest n (xs ++ (x ∷ [])) ≡ drop 1 xs ++ (x ∷ [])
  newest_full n xs x e h =
      let one : length (xs ++ (x ∷ [])) - n ≡ 1 = omega (arith, length-append xs (x ∷ [])) in
      ap (λ m. drop m (xs ++ (x ∷ []))) one ∙ drop-snoc 1 xs x (omega arith)

  newest_room :
      (n : ℕ) (xs : List A) (x : A) → length xs < n → newest n (xs ++ (x ∷ [])) ≡ xs ++ (x ∷ [])
  newest_room n xs x h =
      let none_left : length (xs ++ (x ∷ [])) - n ≡ 0 = omega (arith, length-append xs (x ∷ [])) in
      ap (λ m. drop m (xs ++ (x ∷ []))) none_left

  pub length-newest : (n : ℕ) (xs : List A) → length (newest n xs) ≤ n
  length-newest n xs = omega (arith, length-drop (length xs - n) xs)

module _ {A : Type 0} (capacity : ℕ) (blank : A) where
  abbrev pub with_room : RingBuffer A → RingBuffer A
  with_room b = if full capacity blank b then (drop_oldest capacity blank b).1 else b

  -- A push onto a buffer that is not full.
  pub try_push-contents :
      (x : A) (b : RingBuffer A)
      → IsValid capacity blank b
      → (b.count == capacity) ≡ false
      → ((try_push capacity blank x b).0 ≡ true)
        × (contents capacity blank (try_push capacity blank x b).1
            ≡ contents capacity blank b ++ (x ∷ []))
  unfolding buffer_step queue_step
  try_push-contents x b v room =
      let e : length (contents capacity blank b) == capacity ≡ false =
        rw (length-contents capacity blank b) room in
      let h = rw e at (buffer_step_refines capacity blank (push x) b v) in
      (ap (λ r. r.0) h, ap (λ r. r.2) h)

  queue_step-skip : (q : List A) → (queue_step capacity skip q).2 ≡ drop 1 q
  unfolding queue_step
  queue_step-skip [] = refl
  queue_step-skip (x ∷ q) = refl

  pub drop_oldest-contents :
      (b : RingBuffer A)
      → IsValid capacity blank b
      → contents capacity blank (drop_oldest capacity blank b).1
        ≡ drop 1 (contents capacity blank b)
  unfolding buffer_step
  drop_oldest-contents b v =
      ap (λ r. r.2) (buffer_step_refines capacity blank skip b v)
      ∙ queue_step-skip (contents capacity blank b)

  pub try_push-with_room :
      (x : A) (b : RingBuffer A)
      → IsValid capacity blank b
      → 0 < capacity
      → let (pushed, b') = try_push capacity blank x (with_room b) in
        IsValid capacity blank b'
        × (pushed ≡ true)
        × (contents capacity blank b' ≡ newest capacity (contents capacity blank b ++ (x ∷ [])))
  unfolding full
  try_push-with_room x b v h = elim (Bool-cases (b.count == capacity)) [
    | inl e ↦
        let b1 = (drop_oldest capacity blank b).1 in
        let v1 = drop_oldest-IsValid capacity blank b v in
        let kept = drop_oldest-contents b v in
        let long : b1.count ≡ b.count - 1 = omega (
          arith,
          length-contents capacity blank b1,
          ap length kept,
          length-drop 1 (contents capacity blank b),
          length-contents capacity blank b,
        ) in
        let pushed = try_push-contents x b1 v1 (ground (arith, long)) in
        rw e (
          try_push-IsValid capacity blank x b1 v1,
          pushed.0,
          pushed.1
              ∙ ap (λ q. q ++ (x ∷ [])) kept
              ∙ sym (
                  newest_full capacity (contents capacity blank b) x
                    (length-contents capacity blank b ∙ ground arith) h),
        )
    | inr e ↦
        let pushed = try_push-contents x b v e in
        let fits : length (contents capacity blank b) < capacity =
          ground (arith, length-contents capacity blank b, v.counted) in
        rw e (
          try_push-IsValid capacity blank x b v,
          pushed.0,
          pushed.1 ∙ sym (newest_room capacity (contents capacity blank b) x fits),
        )
  ]

  pub try_push_full :
      (x : A) (b : RingBuffer A)
      → (b.count == capacity) ≡ true
      → try_push capacity blank x b ≡ (false, b)
  unfolding try_push
  try_push_full x b h = rw h

  -- A push that failed, and again after the oldest value was dropped.
  pub try_push-drop_oldest :
      (x : A) (b : RingBuffer A)
      → IsValid capacity blank b
      → 0 < capacity
      → (b.count == capacity) ≡ true
      → let (pushed, b') = try_push capacity blank x (drop_oldest capacity blank b).1 in
        IsValid capacity blank b'
        × (pushed ≡ true)
        × (contents capacity blank b' ≡ newest capacity (contents capacity blank b ++ (x ∷ [])))
  unfolding full
  try_push-drop_oldest x b v h e = rw e at (try_push-with_room x b v h)
