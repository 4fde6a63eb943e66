-- ===== src/Services/Config/Recover.antt =====
-- read_slot on what write_slot wrote: the used records come back, in order, as the first records.
use agile_firmware_framework.Prelude.{
  ℕ, zero, suc, ◌+◌, ◌-◌, ◌%◌, ◌≤◌, ◌<◌, ◌^◌, ◌≡◌, refl, ap, ap₂, ◌∙◌, sym, true, false, ◌||◌, not,
  some, List, [], ◌∷◌, ◌++◌, length, drop, set, get_or, get_or-append, set-append, replicate, All,
  length-append, length-take, arith, append-nil, append_assoc, ltb, leb, ◌==◌, map,
}
use agile_firmware_framework.Prelude.Copy.{copy_lem}
use agile_firmware_framework.Libraries.Bytes.{read_bytes}
use agile_firmware_framework.Libraries.Bytes.Read.{before, read_bytes-before}
use agile_firmware_framework.Libraries.Bytes.Fields.{encode_all}
use agile_firmware_framework.Libraries.Bytes.RoundTrip.{read_u8-before}
use agile_firmware_framework.Services.Limits.{config_key_capacity, config_value_capacity}
use agile_firmware_framework.Services.Config.State.{Record, blank_record, new_record}
use agile_firmware_framework.Services.Config.Contents.{key_text, value_bytes, IsRecord}
use agile_firmware_framework.Services.Config.Blob.{length-c_text}
use agile_firmware_framework.Services.Config.Slot.{
  bind_some, get_u8, get_bytes, require, crc_offset, read_record, read_records,
}
use agile_firmware_framework.Services.Config.Image.{record_fields, records_fields, take-c_text}
use agile_firmware_framework.Services.Config.Sealed.{encode_all-append}

-- A used record as it comes back: without what stood behind its key and its value.
unfoldable pub stored : Record → Record
stored r = new_record r.key (length (key_text r)) r.value r.value_size

read_n :
    (n : ℕ) (vs room : List ℕ) (size : ℕ) (out rest : List ℕ)
    → length vs ≡ n
    → length out + n ≤ size
    → size < 2 ^ 32
    → n ≤ length room
    → read_bytes (some room) n (before size out (vs ++ rest))
      ≡ (true, vs ++ drop n room, before size (out ++ vs) rest)
read_n n vs room size out rest h fits small big =
    rw (← h) (read_bytes-before vs room size out rest (omega arith) small (omega arith))

module _ (r : Record) (out rest : List ℕ) (v : IsRecord r) (u : r.used ≡ true) where
  abbrev k : List ℕ
  k = key_text r

  abbrev b : List ℕ
  b = value_bytes r

  key_room : set (k ++ drop (length k) blank_record.key) (length k) 0 ≡ (stored r).key
  unfolding stored new_record
  key_room =
      ap (λ t. set (t ++ drop (length k) blank_record.key) (length k) 0)
        (sym (take-c_text config_key_capacity r.key))
      ∙ ap (λ t. set t (length k) 0)
          (sym (
            copy_lem (length k) r.key blank_record.key
              (omega (arith, length-c_text config_key_capacity r.key))
              (omega (arith, length-c_text config_key_capacity r.key))))

  value_room : b ++ drop r.value_size blank_record.value ≡ (stored r).value
  unfolding stored new_record
  value_room =
      sym (copy_lem r.value_size r.value blank_record.value (omega (arith, v)) (omega (arith, v)))

  stored_lem :
      ◌≡◌ {A = Record}
        (record {
          used = true;
          key = set (k ++ drop (length k) blank_record.key) (length k) 0;
          value = b ++ drop r.value_size blank_record.value;
          value_size = r.value_size;
        })
        (stored r)
  unfolding stored new_record
  stored_lem =
      λ i. record { used = true; key = key_room i; value = value_room i; value_size = size_room i }
    where
      size_room : r.value_size ≡ r.value_size % 2 ^ 8
      size_room = omega (arith, v)

  read_record-before :
      length out + length (encode_all (record_fields r)) ≤ crc_offset
      → read_record blank_record (before crc_offset out (encode_all (record_fields r) ++ rest))
        ≡ some (stored r, before crc_offset (out ++ encode_all (record_fields r)) rest)
  unfolding read_record
  read_record-before fits =
      rw
        (
          tail,
          bind_some get_u8 (before crc_offset out (length k ∷ r.value_size ∷ more)) (length k)
              (before crc_offset out1 (r.value_size ∷ more)) first,
        )
        (rw
          (bind_some get_u8 (before crc_offset out1 (r.value_size ∷ more)) r.value_size
            (before crc_offset out2 more) second)
          (rw
            (bind_some (require _) (before crc_offset out2 more) tt (before crc_offset out2 more)
              third)
            (rw
              (bind_some (get_bytes blank_record.key (length k)) (before crc_offset out2 more) _
                (before crc_offset (out2 ++ k) (b ++ rest)) fourth)
              (rw
                (bind_some (get_bytes blank_record.value r.value_size)
                  (before crc_offset (out2 ++ k) (b ++ rest)) _
                  (before crc_offset ((out2 ++ k) ++ b) rest) fifth)
                (ap₂ (λ x o. some (x, before crc_offset o rest)) stored_lem out_lem)))))
    where
      more : List ℕ
      more = k ++ (b ++ rest)

      tail : (k ++ (b ++ [])) ++ rest ≡ more
      tail = simp (append-nil, append_assoc)

      out1 : List ℕ
      out1 = out ++ (length k ∷ [])

      out2 : List ℕ
      out2 = out1 ++ (r.value_size ∷ [])

      l1 : length out1 ≡ length out + 1
      l1 = length-append out (length k ∷ [])

      l2 : length out2 ≡ length out1 + 1
      l2 = length-append out1 (r.value_size ∷ [])

      lb : length b ≡ r.value_size
      lb = omega (arith, length-take r.value_size r.value, v)

      passes :
          (length k == 0
            || leb config_key_capacity (length k)
            || ltb config_value_capacity r.value_size)
          ≡ false
      passes = ground (arith, v.key_some u)

      first :
          get_u8 (before crc_offset out (length k ∷ r.value_size ∷ more))
          ≡ some (length k, before crc_offset out1 (r.value_size ∷ more))
      first = rw (
          read_u8-before crc_offset out (r.value_size ∷ more) (omega arith) 0 (length k)
            (omega arith))

      second :
          get_u8 (before crc_offset out1 (r.value_size ∷ more))
          ≡ some (r.value_size, before crc_offset out2 more)
      second =
          rw (read_u8-before crc_offset out1 more (omega arith) 0 r.value_size (omega (arith, l1)))

      third :
          require
            (not (
              length k == 0
              || leb config_key_capacity (length k)
              || ltb config_value_capacity r.value_size))
            (before crc_offset out2 more)
          ≡ some (tt, before crc_offset out2 more)
      third = rw passes

      lengths : length out + 2 + length k + length b ≤ crc_offset
      lengths = omega (arith, fits, length-append k (b ++ []), length-append b [])

      fourth :
          get_bytes blank_record.key (length k) (before crc_offset out2 more)
          ≡ some (k ++ drop (length k) blank_record.key, before crc_offset (out2 ++ k) (b ++ rest))
      fourth = rw (
          read_n (length k) k blank_record.key crc_offset out2 (b ++ rest) refl
            (omega (arith, l1, l2, lengths)) (omega arith) (omega (arith, v)))

      fifth :
          get_bytes blank_record.value r.value_size (before crc_offset (out2 ++ k) (b ++ rest))
          ≡ some
              (b ++ drop r.value_size blank_record.value, before crc_offset ((out2 ++ k) ++ b) rest)
      fifth = rw (
          read_n r.value_size b blank_record.value crc_offset (out2 ++ k) rest lb
            (omega (arith, l1, l2, lb, lengths, length-append out2 k)) (omega arith)
            (omega (arith, v)))

      out_lem : (out2 ++ k) ++ b ≡ out ++ encode_all (record_fields r)
      out_lem = simp (append_assoc, append-nil)

-- The records of a slot, read over blank ones.
pub read_records-before :
    (us pre : List Record) (m : ℕ) (out rest : List ℕ)
    → All IsRecord us
    → All (λ r. r.used ≡ true) us
    → length us ≤ m
    → length out + length (encode_all (records_fields us)) ≤ crc_offset
    → read_records
        (length us)
        (length pre)
        (pre ++ replicate m blank_record)
        (before crc_offset out (encode_all (records_fields us) ++ rest))
      ≡ some (
        (pre ++ map stored us) ++ replicate (m - length us) blank_record,
        before crc_offset (out ++ encode_all (records_fields us)) rest,
      )
unfolding read_records
read_records-before [] pre m out rest v u h fits =
    let e : m - 0 ≡ m = omega arith in rw (e, append-nil, append-nil)
read_records-before (r ∷ us) pre zero out rest v u h fits = absurd (omega arith)
read_records-before (r ∷ us) pre (suc m) out rest (vr, vs) (ur, us') h fits =
    rw
      (bind_some
        (read_record
          (get_or (pre ++ (blank_record ∷ replicate m blank_record)) (length pre) blank_record))
        _ (stored r) (before crc_offset (out ++ e) (f ++ rest)) first)
      (ap₂
          (λ i records.
            read_records (length us) i records (before crc_offset (out ++ e) (f ++ rest)))
          grown placed
        ∙ read_records-before us (pre ++ (stored r ∷ [])) m (out ++ e) rest vs us' (omega arith)
            fits'
        ∙ ap₂ (λ l o. some (l, before crc_offset o rest)) list_lem out_lem)
  where
    e : List ℕ
    e = encode_all (record_fields r)

    f : List ℕ
    f = encode_all (records_fields us)

    both : encode_all (records_fields (r ∷ us)) ≡ e ++ f
    both = encode_all-append (record_fields r) (records_fields us)

    sizes : length (encode_all (records_fields (r ∷ us))) ≡ length e + length f
    sizes = ap length both ∙ length-append e f

    first :
        read_record
          (get_or (pre ++ (blank_record ∷ replicate m blank_record)) (length pre) blank_record)
          (before crc_offset out (encode_all (records_fields (r ∷ us)) ++ rest))
        ≡ some (stored r, before crc_offset (out ++ e) (f ++ rest))
    first = rw (get_or-append pre blank_record (replicate m blank_record) blank_record) (
        ap (λ t. read_record blank_record (before crc_offset out t))
          (ap (λ t. t ++ rest) both ∙ append_assoc e f rest)
        ∙ read_record-before r out (f ++ rest) vr ur (omega (arith, sizes, fits)))

    grown : length pre + 1 ≡ length (pre ++ (stored r ∷ []))
    grown = sym (length-append pre (stored r ∷ []))

    placed :
        set (pre ++ (blank_record ∷ replicate m blank_record)) (length pre) (stored r)
        ≡ (pre ++ (stored r ∷ [])) ++ replicate m blank_record
    placed =
        set-append pre blank_record (stored r) (replicate m blank_record)
        ∙ sym (append_assoc pre (stored r ∷ []) (replicate m blank_record))

    fits' : length (out ++ e) + length f ≤ crc_offset
    fits' = omega (arith, fits, sizes, length-append out e)

    list_lem :
        ((pre ++ (stored r ∷ [])) ++ map stored us) ++ replicate (m - length us) blank_record
        ≡ (pre ++ (stored r ∷ map stored us)) ++ replicate (suc m - suc (length us)) blank_record
    list_lem =
        let same_count : suc m - suc (length us) ≡ m - length us = omega arith in
        rw (same_count, append_assoc pre (stored r ∷ []) (map stored us))

    out_lem : (out ++ e) ++ f ≡ out ++ encode_all (records_fields (r ∷ us))
    out_lem = append_assoc out e f ∙ ap (λ t. out ++ t) (sym both)
