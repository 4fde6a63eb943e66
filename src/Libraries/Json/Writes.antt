-- ===== src/Libraries/Json/Writes.antt =====
-- How each call of JsonWriter extends what is written.
use agile_firmware_framework.Prelude.{
  ℕ, zero, suc, ◌+◌, ◌/◌, ◌%◌, ◌^◌, ◌<◌, ◌≡◌, refl, sym, ap, ◌∙◌, Bool, true, false, ◌||◌, some,
  List, [], ◌∷◌, ◌++◌, All, length, leb, ltb, ◌==◌, Bool-cases, inl, inr, ◌⊎◌, arith, append_assoc,
  append-nil, length-append, set-append,
}
use agile_firmware_framework.Prelude.Strings.{characters}
use agile_firmware_framework.Prelude.Words.{u8, add_size, IsByte}
use agile_firmware_framework.Libraries.Json.Writer.{
  JsonWriter, put, both, append_text, put_key, digits, put_digits, put_escaped,
}
use agile_firmware_framework.Libraries.Json.Text.{escape, backwards, decimal, key_text}

-- A writer that has written `done`, with `rest` behind it.
abbrev pub writer_at : ℕ → List ℕ → List ℕ → Bool → JsonWriter
writer_at capacity done rest first = record {
  data_bytes = done ++ rest;
  capacity = capacity;
  position = length done;
  first = first;
  overflow = false;
}

-- A call that writes `text` behind `done`, or fails where that does not fit.
unfoldable pub Puts : ℕ → List ℕ → List ℕ → Bool → Bool × JsonWriter → Type 0
Puts capacity done text first r =
    ((rest : List ℕ) × (length ((done ++ text) ++ rest) ≡ capacity)
      × (r ≡ (true, writer_at capacity (done ++ text) rest first)))
    ⊎ ((capacity < length done + length text) × (r.0 ≡ false) × (r.1.overflow ≡ true))

-- A call on any writer that has written `done`.
unfoldable pub Writes : ℕ → List ℕ → Bool → Bool → (JsonWriter → Bool × JsonWriter) → Type 0
Writes capacity text first after f =
    (done rest : List ℕ)
    → length (done ++ rest) ≡ capacity
    → Puts capacity done text after (f (writer_at capacity done rest first))

-- The digits that the code collects from the lowest on are those of the decimal text.
pub backwards-digits : (places value : ℕ) → backwards (digits places value) ≡ decimal places value
unfolding backwards digits decimal
backwards-digits zero value = refl
backwards-digits (suc places) value = elim (Bool-cases (ltb value 10)) [
  | inl e ↦
      let last : value / 10 == 0 ≡ true = ground arith in
      let digit : value % 10 ≡ value = ground arith in rw (e, last, digit) refl
  | inr e ↦
      let more : value / 10 == 0 ≡ false = ground arith in
      rw (e, more, backwards-digits places (value / 10)) refl
]

module _ (capacity : ℕ) where
  abbrev written : ℕ → List ℕ → List ℕ → Bool → JsonWriter
  written c l done first = record {
    data_bytes = l;
    capacity = capacity;
    position = length (done ++ (c ∷ []));
    first = first;
    overflow = false;
  }

module _ (capacity : ℕ) (small : capacity < 2 ^ 32) where
  pub Writes-nil : (first : Bool) → Writes capacity [] first first (λ w. (true, w))
  unfolding Writes Puts
  Writes-nil first done rest full = rw (append-nil done) (inl (rest, full, refl))

  pub Writes-both :
      (xs ys : List ℕ) (a b c : Bool) (f g : JsonWriter → Bool × JsonWriter)
      → Writes capacity xs a b f
      → Writes capacity ys b c g
      → Writes capacity (xs ++ ys) a c (both f g)
  unfolding Writes Puts
  Writes-both xs ys a b c f g hf hg done rest full = elim (hf done rest full) [
    | inl (rest', full', e) ↦ elim (hg (done ++ xs) rest' full') [
      | inl (rest'', full'', e') ↦ inl (
        rest'',
        rw (append_assoc done xs ys) at full'',
        rw e (e' ∙ rw (append_assoc done xs ys) refl),
      )
      | inr (long, e', over) ↦
          inr (omega (arith, long, length-append done xs, length-append xs ys), rw e e', rw e over)
    ]
    | inr (long, e, over) ↦ inr (omega (arith, long, length-append xs ys), rw e refl, rw e over)
  ]

  pub Writes-put : (c : ℕ) (first : Bool) → IsByte c → Writes capacity (c ∷ []) first first (put c)
  unfolding Writes Puts put
  Writes-put c first byte done [] full =
      let stop : leb capacity (length done) ≡ true = ground (arith, length-append done [], full) in
      rw stop (inr (omega (arith, length-append done [], full), refl, refl))
  Writes-put c first byte done (x ∷ rest) full =
      let size = length-append done (x ∷ rest) in
      let on : leb capacity (length done) ≡ false = ground (arith, size, full) in
      let kept : u8 c ≡ c = omega (arith, byte) in
      let next : add_size (length done) 1 ≡ length (done ++ (c ∷ [])) =
        omega (arith, small, size, full, length-append done (c ∷ [])) in
      let backed : length ((done ++ (c ∷ [])) ++ rest) ≡ capacity =
        omega
          (arith, length-append (done ++ (c ∷ [])) rest, length-append done (c ∷ []), size, full) in
      rw (on, kept, set-append done x c rest, next)
        (inl (
          rest,
          backed,
          ap (λ l. (true, written capacity c l done first)) (sym (append_assoc done (c ∷ []) rest)),
        ))

  abbrev pub IsText : List ℕ → Type 0
  IsText s = All IsByte s

  pub Writes-eq :
      (t : List ℕ) (a b : Bool) (f g : JsonWriter → Bool × JsonWriter)
      → ((w : JsonWriter) → f w ≡ g w)
      → Writes capacity t a b g
      → Writes capacity t a b f
  unfolding Writes
  Writes-eq t a b f g same h done rest full =
      rw (same (writer_at capacity done rest a)) (h done rest full)

  pub Writes-append_text :
      (s : List ℕ) (first : Bool)
      → IsText s
      → Writes capacity (characters s) first first (append_text s)
  unfolding append_text characters
  Writes-append_text [] first bytes = Writes-nil first
  Writes-append_text (c ∷ cs) first bytes = elim (Bool-cases (c == 0)) [
    | inl e ↦ rw e (
        Writes-eq [] first first (append_text (c ∷ cs)) (λ w. (true, w)) (λ w. rw e refl)
          (Writes-nil first))
    | inr e ↦ rw e (
        Writes-eq (c ∷ characters cs) first first (append_text (c ∷ cs))
          (both (put c) (append_text cs)) (λ w. rw e refl)
          (Writes-both (c ∷ []) (characters cs) first first first (put c) (append_text cs)
            (Writes-put c first bytes.0) (Writes-append_text cs first bytes.1)))
  ]

  pub Writes-put_escaped :
      (s : List ℕ) (first : Bool)
      → IsText s
      → Writes capacity (escape (characters s)) first first (put_escaped s)
  unfolding put_escaped characters escape
  Writes-put_escaped [] first bytes = Writes-nil first
  Writes-put_escaped (c ∷ cs) first bytes = elim (Bool-cases (c == 0)) [
    | inl e ↦ rw e (
        Writes-eq [] first first (put_escaped (c ∷ cs)) (λ w. (true, w)) (λ w. rw e refl)
          (Writes-nil first))
    | inr e ↦
        let plain =
          Writes-both (c ∷ []) (escape (characters cs)) first first first (put c) (put_escaped cs)
            (Writes-put c first bytes.0) (Writes-put_escaped cs first bytes.1) in
        elim (Bool-cases (c == 34 || c == 92)) [
          | inl f ↦
              rw (e, f)
                (Writes-eq (92 ∷ c ∷ escape (characters cs)) first first (put_escaped (c ∷ cs))
                  (both (put 92) (both (put c) (put_escaped cs))) (λ w. rw (e, f) refl)
                  (Writes-both (92 ∷ []) (c ∷ escape (characters cs)) first first first (put 92)
                    (both (put c) (put_escaped cs)) (Writes-put 92 first (omega arith)) plain))
          | inr f ↦
              rw (e, f)
                (Writes-eq (c ∷ escape (characters cs)) first first (put_escaped (c ∷ cs))
                  (both (put c) (put_escaped cs)) (λ w. rw (e, f) refl) plain)
        ]
  ]

  pub Writes-put_digits :
      (ds : List ℕ) (first : Bool)
      → IsText ds
      → Writes capacity (backwards ds) first first (put_digits ds)
  unfolding put_digits backwards
  Writes-put_digits [] first bytes = Writes-nil first
  Writes-put_digits (d ∷ ds) first bytes =
      Writes-both (backwards ds) (d ∷ []) first first first (put_digits ds) (put d)
        (Writes-put_digits ds first bytes.1) (Writes-put d first bytes.0)

  pub digits-IsText : (places value : ℕ) → IsText (digits places value)
  unfolding digits
  digits-IsText zero value = tt
  digits-IsText (suc places) value = elim (Bool-cases (value / 10 == 0)) [
    | inl e ↦ rw e (omega arith, tt)
    | inr e ↦ rw e (omega arith, digits-IsText places (value / 10))
  ]

  pub Writes-put_key :
      (key : List ℕ) (first : Bool)
      → IsText key
      → Writes capacity (key_text key) first first (put_key (some key))
  unfolding put_key
  Writes-put_key key first bytes =
      Writes-both (34 ∷ []) (characters key ++ (34 ∷ 58 ∷ [])) first first first (put 34)
        (both (append_text key) (both (put 34) (put 58))) (Writes-put 34 first (omega arith))
        (Writes-both (characters key) (34 ∷ 58 ∷ []) first first first (append_text key)
          (both (put 34) (put 58)) (Writes-append_text key first bytes)
          (Writes-both (34 ∷ []) (58 ∷ []) first first first (put 34) (put 58)
            (Writes-put 34 first (omega arith)) (Writes-put 58 first (omega arith))))
