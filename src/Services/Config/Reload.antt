-- ===== src/Services/Config/Reload.antt =====
-- A slot image is accepted, and gives back the sequence number and the dictionary.
use agile_firmware_framework.Prelude.{
  ℕ, zero, suc, ◌+◌, ◌-◌, ◌≤◌, ◌≡◌, refl, ap, ap₂, ◌∙◌, true, ◌&&◌, some, List, [], ◌∷◌, ◌++◌,
  length, take, drop, replicate, All, take-append_eq, drop-append_eq, arith, append-nil,
  append_assoc, Bool-cases, inl, inr, leb, ◌==◌, ==_iff, map,
}
use agile_firmware_framework.Prelude.Words.{IsU32}
use agile_firmware_framework.Libraries.Crc.{crc32, crc32-IsU32}
use agile_firmware_framework.Libraries.Bytes.Read.{before}
use agile_firmware_framework.Libraries.Bytes.Fields.{le32, encode_all}
use agile_firmware_framework.Libraries.Bytes.RoundTrip.{read_u8-before, read_u32-before}
use agile_firmware_framework.Services.Limits.{config_record_capacity}
use agile_firmware_framework.Services.Config.State.{Record, blank_record, new_record}
use agile_firmware_framework.Services.Config.Contents.{
  Entry, key_text, value_bytes, contents, IsRecord,
}
use agile_firmware_framework.Services.Config.Blob.{key_text-new_record, value_bytes-new_record}
use agile_firmware_framework.Services.Config.Slot.{
  bind_some, get_u8, get_u32, require, magic, crc_offset, valid, parsed, blank_snapshot,
  read_records, read_image, check_slot,
}
use agile_firmware_framework.Services.Config.Image.{
  used_records, used_records-le, records_fields, image, padded, slot_image,
}
use agile_firmware_framework.Services.Config.Sealed.{
  used_records-IsRecord, length-image, length-padded,
}
use agile_firmware_framework.Services.Config.Recover.{stored, read_records-before}

-- The records that come back.
unfoldable pub compact : List Record → List Record
compact rs =
    map stored (used_records rs)
    ++ replicate (config_record_capacity - length (used_records rs)) blank_record

used_records-used : (rs : List Record) → All (λ r. r.used ≡ true) (used_records rs)
unfolding used_records
used_records-used [] = tt
used_records-used (r ∷ rs) = elim (Bool-cases r.used) [
  | inl e ↦ simp e (refl, used_records-used rs)
  | inr e ↦ simp e (used_records-used rs)
]

module _ (rs : List Record) (sequence : ℕ) (v : All IsRecord rs)
    (count : length rs ≡ config_record_capacity) (small : IsU32 sequence) where
  read_image-image :
      (rest : List ℕ)
      → read_image (before crc_offset [] (image rs sequence ++ rest))
        ≡ some (
          record { sequence = sequence; records = compact rs },
          before crc_offset (image rs sequence) rest,
        )
  unfolding read_image compact image
  read_image-image rest =
      rw
        (bind_some get_u32 (before crc_offset [] (le32 magic ++ (le32 sequence ++ (n ∷ f ++ rest))))
          magic (before crc_offset (le32 magic) (le32 sequence ++ (n ∷ f ++ rest))) first)
        (rw
          (bind_some get_u32 _ sequence
            (before crc_offset (le32 magic ++ le32 sequence) (n ∷ f ++ rest)) second)
          (rw
            (bind_some get_u8 _ n
              (before crc_offset ((le32 magic ++ le32 sequence) ++ (n ∷ [])) (f ++ rest)) third)
            (rw
              (bind_some (require _) _ tt
                (before crc_offset ((le32 magic ++ le32 sequence) ++ (n ∷ [])) (f ++ rest)) fourth)
              (rw
                (bind_some (read_records n 0 blank_snapshot.records) _ (compact rs)
                  (before crc_offset (image rs sequence) rest) fifth)
                refl))))
    where
      us : List Record
      us = used_records rs

      n : ℕ
      n = length us

      f : List ℕ
      f = encode_all (records_fields us)

      fits : 9 + length f ≤ crc_offset
      fits = omega (arith, length-image rs sequence v count)

      first :
          get_u32 (before crc_offset [] (le32 magic ++ (le32 sequence ++ (n ∷ f ++ rest))))
          ≡ some (magic, before crc_offset (le32 magic) (le32 sequence ++ (n ∷ f ++ rest)))
      first = rw (
          read_u32-before crc_offset [] (le32 sequence ++ (n ∷ f ++ rest)) (omega arith) 0 magic
            (omega arith) (omega arith))

      second :
          get_u32 (before crc_offset (le32 magic) (le32 sequence ++ (n ∷ f ++ rest)))
          ≡ some (sequence, before crc_offset (le32 magic ++ le32 sequence) (n ∷ f ++ rest))
      second = rw (
          read_u32-before crc_offset (le32 magic) (n ∷ f ++ rest) (omega arith) 0 sequence small
            (omega arith))

      third :
          get_u8 (before crc_offset (le32 magic ++ le32 sequence) (n ∷ f ++ rest))
          ≡ some (n, before crc_offset ((le32 magic ++ le32 sequence) ++ (n ∷ [])) (f ++ rest))
      third = rw (
          read_u8-before crc_offset (le32 magic ++ le32 sequence) (f ++ rest) (omega arith) 0 n
            (omega arith))

      few : leb n config_record_capacity ≡ true
      few = ground (arith, used_records-le rs)

      fourth :
          require
            ((magic == magic) && leb n config_record_capacity)
            (before crc_offset ((le32 magic ++ le32 sequence) ++ (n ∷ [])) (f ++ rest))
          ≡ some (tt, before crc_offset ((le32 magic ++ le32 sequence) ++ (n ∷ [])) (f ++ rest))
      fourth = rw few

      fifth :
          read_records n 0 blank_snapshot.records
            (before crc_offset ((le32 magic ++ le32 sequence) ++ (n ∷ [])) (f ++ rest))
          ≡ some (compact rs, before crc_offset (image rs sequence) rest)
      fifth =
          read_records-before us [] config_record_capacity
            ((le32 magic ++ le32 sequence) ++ (n ∷ [])) rest (used_records-IsRecord rs v)
            (used_records-used rs) (omega (arith, used_records-le rs)) (omega (arith, fits))

  -- What `read_slot` makes of the image of 24 valid records and a sequence number of 32 bits: it
  -- accepts it, with that sequence number and the used records as the first ones.
  pub check_slot-slot_image :
      check_slot (slot_image rs sequence)
      ≡ valid (record { sequence = sequence; records = compact rs })
  unfolding check_slot slot_image
  check_slot-slot_image =
      rw (back, read_u32-before 4 [] [] (omega arith) 0 crc (crc32-IsU32 p) (omega arith))
        (rw (front, (==_iff crc crc).1 refl)
          (ap parsed (
            ap (λ t. read_image (before crc_offset [] t)) whole
            ∙ read_image-image (zeros ++ le32 crc))))
    where
      p : List ℕ
      p = padded rs sequence

      crc : ℕ
      crc = crc32 p

      zeros : List ℕ
      zeros = replicate (crc_offset - length (image rs sequence)) 0

      whole : p ++ le32 crc ≡ image rs sequence ++ (zeros ++ le32 crc)
      whole = unfold padded in append_assoc (image rs sequence) zeros (le32 crc)

      back : drop crc_offset (p ++ le32 crc) ≡ le32 crc
      back = drop-append_eq crc_offset p (le32 crc) (length-padded rs sequence v count)

      front : take crc_offset (p ++ le32 crc) ≡ p
      front = take-append_eq crc_offset p (le32 crc) (length-padded rs sequence v count)

-- The blank records hold nothing.
contents-blank : (n : ℕ) → contents (replicate n blank_record) ≡ []
unfolding contents
contents-blank zero = refl
contents-blank (suc n) = contents-blank n

contents-append : (rs qs : List Record) → contents (rs ++ qs) ≡ contents rs ++ contents qs
unfolding contents
contents-append [] qs = refl
contents-append (r ∷ rs) qs = elim (Bool-cases r.used) [
  | inl e ↦ simp e (ap (λ t. (key_text r, value_bytes r) ∷ t) (contents-append rs qs))
  | inr e ↦ simp e (contents-append rs qs)
]

stored-entry :
    (r : Record)
    → IsRecord r
    → ◌≡◌ {A = Entry} (key_text (stored r), value_bytes (stored r)) (key_text r, value_bytes r)
unfolding stored
stored-entry r v =
    ap₂ (λ (k : List ℕ) (b : List ℕ). (k, b)) (key_text-new_record r.key r.value r.value_size)
      (value_bytes-new_record r.key r.value r.value_size (length (key_text r)) (omega (arith, v))
        (omega (arith, v)))

stored-used : (r : Record) → (stored r).used ≡ true
unfolding stored new_record
stored-used r = refl

contents-stored :
    (rs : List Record) → All IsRecord rs → contents (map stored (used_records rs)) ≡ contents rs
unfolding contents used_records
contents-stored [] v = refl
contents-stored (r ∷ rs) (vr, vs) = elim (Bool-cases r.used) [
  | inl e ↦
      simp e (simp (stored-used r) (ap₂ (λ x t. x ∷ t) (stored-entry r vr) (contents-stored rs vs)))
  | inr e ↦ simp e (contents-stored rs vs)
]

-- Reloading changes no entry of the dictionary.
pub contents-compact : (rs : List Record) → All IsRecord rs → contents (compact rs) ≡ contents rs
unfolding compact
contents-compact rs v =
    let n : ℕ = config_record_capacity - length (used_records rs) in
    contents-append (map stored (used_records rs)) (replicate n blank_record)
    ∙ ap (λ t. contents (map stored (used_records rs)) ++ t) (contents-blank n)
    ∙ append-nil (contents (map stored (used_records rs)))
    ∙ contents-stored rs v
