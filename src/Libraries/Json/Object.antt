-- ===== src/Libraries/Json/Object.antt =====
-- What JsonWriter leaves in its buffer.
use agile_firmware_framework.Prelude.{
  ℕ, ◌^◌, ◌≤◌, ◌<◌, ◌≡◌, refl, Bool, true, false, some, List, [], ◌∷◌, ◌++◌, All, length, leb,
  Bool-cases, inl, inr, ◌⊎◌, arith, append_assoc, length-append, set-append,
}
use agile_firmware_framework.Prelude.Strings.{characters}
use agile_firmware_framework.Prelude.Words.{IsByte}
use agile_firmware_framework.Libraries.Json.Writer.{
  JsonWriter, put, terminate, both, append_text, begin_object, end_object, put_key, field_prefix,
  bool_text, field_bool, digits, put_digits, field_u32, put_escaped, put_value, field_string,
  json_writer,
}
use agile_firmware_framework.Libraries.Json.Text.{
  escape, backwards, flag_text, key_text, separator, Field, flag, number, text, value_text, key_of,
  fields_text, object_text, write_field, write_fields, write_object, IsField,
}
use agile_firmware_framework.Libraries.Json.Writes.{
  writer_at, Puts, Writes, Writes-nil, Writes-both, Writes-put, Writes-append_text,
  Writes-put_escaped, Writes-put_digits, digits-IsText, backwards-digits, Writes-put_key,
}

module _ (capacity : ℕ) (small : capacity < 2 ^ 32) where
  Writes-bool_text :
      (value : Bool) → Writes capacity (flag_text value) false false (append_text (bool_text value))
  unfolding characters
  Writes-bool_text true =
      Writes-append_text capacity small (bool_text true) false
        (omega arith, (omega arith, (omega arith, (omega arith, tt))))
  Writes-bool_text false =
      Writes-append_text capacity small (bool_text false) false
        (omega arith, (omega arith, (omega arith, (omega arith, (omega arith, tt)))))

  Writes-field_prefix :
      (key : List ℕ) (first : Bool)
      → All IsByte key
      → Writes capacity (separator first ++ key_text key) first false (field_prefix (some key))
  unfolding field_prefix Writes
  Writes-field_prefix key true bytes done rest full =
      Writes-put_key capacity small key false bytes done rest full
  Writes-field_prefix key false bytes done rest full =
      Writes-both capacity small (44 ∷ []) (key_text key) false false false (put 44)
        (λ w. put_key (some key) (record w { first = false }))
        (Writes-put capacity small 44 false (omega arith))
        (λ d r f. Writes-put_key capacity small key false bytes d r f) done rest full

  Writes-write_field :
      (f : Field) (first : Bool)
      → IsField f
      → Writes capacity
          ((separator first ++ key_text (key_of f)) ++ value_text f)
          first
          false
          (write_field f)
  unfolding field_bool field_u32 field_string put_value value_text
  Writes-write_field (flag key value) first bytes =
      Writes-both capacity small (separator first ++ key_text key) (flag_text value) first false
        false (field_prefix (some key)) (append_text (bool_text value))
        (Writes-field_prefix key first bytes) (Writes-bool_text value)
  Writes-write_field (number key value) first bytes = rw (← backwards-digits 10 value) (
      Writes-both capacity small (separator first ++ key_text key) (backwards (digits 10 value))
        first false false (field_prefix (some key)) (put_digits (digits 10 value))
        (Writes-field_prefix key first bytes)
        (Writes-put_digits capacity small (digits 10 value) false
          (digits-IsText capacity small 10 value)))
  Writes-write_field (text key value) first bytes =
      rw
        (← append_assoc (separator first ++ key_text key) (34 ∷ [])
          (escape (characters value) ++ (34 ∷ [])))
        (Writes-both capacity small ((separator first ++ key_text key) ++ (34 ∷ []))
          (escape (characters value) ++ (34 ∷ [])) first false false
          (both (field_prefix (some key)) (put 34)) (both (put_escaped value) (put 34))
          (Writes-both capacity small (separator first ++ key_text key) (34 ∷ []) first false false
            (field_prefix (some key)) (put 34) (Writes-field_prefix key first bytes.0)
            (Writes-put capacity small 34 false (omega arith)))
          (Writes-both capacity small (escape (characters value)) (34 ∷ []) false false false
            (put_escaped value) (put 34) (Writes-put_escaped capacity small value false bytes.1)
            (Writes-put capacity small 34 false (omega arith))))

  Writes-write_fields :
      (fs : List Field)
      → All IsField fs
      → Writes capacity (fields_text false fs) false false (write_fields fs)
  unfolding fields_text
  Writes-write_fields [] bytes = Writes-nil capacity small false
  Writes-write_fields (f ∷ fs) bytes =
      rw
        (← append_assoc (separator false ++ key_text (key_of f)) (value_text f)
          (fields_text false fs))
        (Writes-both capacity small ((separator false ++ key_text (key_of f)) ++ value_text f)
          (fields_text false fs) false false false (write_field f) (write_fields fs)
          (Writes-write_field f false bytes.0) (Writes-write_fields fs bytes.1))

  -- The fields of an object, of which there is at least one.
  Writes-first :
      (f : Field) (fs : List Field)
      → All IsField (f ∷ fs)
      → Writes capacity (fields_text true (f ∷ fs)) true false (write_fields (f ∷ fs))
  unfolding fields_text
  Writes-first f fs bytes =
      rw
        (← append_assoc (separator true ++ key_text (key_of f)) (value_text f)
          (fields_text false fs))
        (Writes-both capacity small ((separator true ++ key_text (key_of f)) ++ value_text f)
          (fields_text false fs) true false false (write_field f) (write_fields fs)
          (Writes-write_field f true bytes.0) (Writes-write_fields fs bytes.1))

  -- The object without its terminator.
  Writes-open :
      (f : Field) (fs : List Field)
      → All IsField (f ∷ fs)
      → Writes capacity
          (object_text (f ∷ fs))
          true
          false
          (both begin_object (both (write_fields (f ∷ fs)) (put 125)))
  unfolding begin_object Writes
  Writes-open f fs bytes =
      Writes-both capacity small (123 ∷ []) (fields_text true (f ∷ fs) ++ (125 ∷ [])) true true
        false begin_object (both (write_fields (f ∷ fs)) (put 125))
        (λ done rest full. Writes-put capacity small 123 true (omega arith) done rest full)
        (Writes-both capacity small (fields_text true (f ∷ fs)) (125 ∷ []) true false false
          (write_fields (f ∷ fs)) (put 125) (Writes-first f fs bytes)
          (Writes-put capacity small 125 false (omega arith)))

  both_assoc :
      (b g p t : JsonWriter → Bool × JsonWriter) (w : JsonWriter)
      → both b (both g (both p t)) w ≡ both (both b (both g p)) t w
  both_assoc b g p t w = elim (Bool-cases (b w).0) [
    | inl e ↦ elim (Bool-cases (g (b w).1).0) [ inl f ↦ simp (e, f) | inr f ↦ simp (e, f) ]
    | inr e ↦ simp e
  ]

  Ended : List ℕ → Bool × JsonWriter → Type 0
  Ended t r =
      ((rest : List ℕ) × (length (t ++ (0 ∷ rest)) ≡ capacity)
        × (r.0 ≡ true)
        × (r.1.data_bytes ≡ t ++ (0 ∷ rest))
        × (r.1.position ≡ length t))
      ⊎ ((capacity ≤ length t) × (r.0 ≡ false) × (r.1.overflow ≡ true))

  terminate_lem :
      (done rest : List ℕ)
      → length (done ++ rest) ≡ capacity
      → Ended done (terminate (writer_at capacity done rest false))
  unfolding terminate Ended
  terminate_lem done [] full =
      let stop : leb capacity (length done) ≡ true = ground (arith, length-append done [], full) in
      rw stop (inr (omega (arith, length-append done [], full), refl, refl))
  terminate_lem done (x ∷ rest) full =
      let size = length-append done (x ∷ rest) in
      let on : leb capacity (length done) ≡ false = ground (arith, size, full) in
      rw on (
        inl (
          rest,
          omega (arith, length-append done (0 ∷ rest), size, full),
          refl,
          set-append done x 0 rest,
          refl,
        ))

  closed :
      (f : Field) (fs : List Field) (buffer : List ℕ)
      → All IsField (f ∷ fs)
      → length buffer ≡ capacity
      → Ended (object_text (f ∷ fs)) (
          both
            (both begin_object (both (write_fields (f ∷ fs)) (put 125)))
            terminate
            (json_writer buffer capacity))
  unfolding Writes Puts Ended
  closed f fs buffer bytes full = elim (Writes-open f fs bytes [] buffer full) [
    | inl (rest, full', e) ↦ rw e (terminate_lem (object_text (f ∷ fs)) rest full')
    | inr (long, e, over) ↦ rw e (inr (omega (arith, long), refl, over))
  ]

  -- An object with at least one field, whose texts are of bytes, written into a buffer of less than
  -- 2 ^ 32 bytes. Its text has the fields in their order with commas between, each with its key in
  -- quotation marks and a colon: "true" or "false" for a flag, the decimal digits without leading
  -- zeros for a number (the last ten of them), and a text in quotation marks, with a backslash before
  -- each quotation mark and backslash in it. Where that text fits with the terminator, all calls succeed, the buffer starts with
  -- exactly that text and the terminator, and `size` is the text's length. Where it does not, the
  -- last call fails and `overflowed` holds.
  pub write_object_lem :
      (f : Field) (fs : List Field) (buffer : List ℕ)
      → All IsField (f ∷ fs)
      → length buffer ≡ capacity
      → let t = object_text (f ∷ fs) in
        let (done, w) = write_object (f ∷ fs) (json_writer buffer capacity) in
        ((rest : List ℕ) × (length (t ++ (0 ∷ rest)) ≡ capacity)
          × (done ≡ true)
          × (w.data_bytes ≡ t ++ (0 ∷ rest))
          × (w.position ≡ length t))
        ⊎ ((capacity ≤ length t) × (done ≡ false) × (w.overflow ≡ true))
  unfolding end_object Ended
  write_object_lem f fs buffer bytes full =
      rw
        (both_assoc begin_object (write_fields (f ∷ fs)) (put 125) terminate
          (json_writer buffer capacity))
        (closed f fs buffer bytes full)
