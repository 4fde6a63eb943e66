-- ===== src/Protocols/Frame/Decode.antt =====
-- FrameCodec::decode on what encode wrote.
use agile_firmware_framework.Prelude.{
  ℕ, ◌+◌, ◌-◌, ◌*◌, ◌/◌, ◌^◌, ◌≤◌, ◌<◌, ◌≡◌, refl, ap, ap₂, ◌∙◌, sym, bit_or, true, false, not,
  ◌||◌, some, List, [], ◌∷◌, ◌++◌, length, get_or, take, drop, replicate, ltb, ◌==◌, ==_iff, arith,
  get_or-append, take-append_eq, length-take, length-append, append_assoc, drop-replicate,
  length-replicate,
}
use agile_firmware_framework.Prelude.Words.{u8, u16}
use agile_firmware_framework.Prelude.Bits.{bit_or_fields}
use agile_firmware_framework.Prelude.Copy.{copy, copy_lem}
use agile_firmware_framework.Uhal.{ok, invalid_argument}
use agile_firmware_framework.Libraries.Crc.{crc16_modbus, crc16_modbus_bound}
use agile_firmware_framework.Protocols.Frame.{
  header_size, crc_size, Frame, blank_frame, encode, decode,
}
use agile_firmware_framework.Protocols.Frame.Encode.{body, crc_bytes, framed, encode_lem}

-- The bytes in front of the checksum.
abbrev covered : Frame → ℕ → List ℕ
covered f old = body f ++ (old ∷ [])

join_bytes : (crc : ℕ) → crc < 2 ^ 16 → bit_or (u8 crc) (u16 (u8 (crc / 2 ^ 8) * 2 ^ 8)) ≡ crc
join_bytes crc h =
    ap (bit_or (u8 crc)) {x = u16 (u8 (crc / 2 ^ 8) * 2 ^ 8)} {y = crc / 2 ^ 8 * 2 ^ 8}
      (omega arith)
    ∙ bit_or_fields 8 (u8 crc) (crc / 2 ^ 8) (omega arith)
    ∙ omega arith

-- The frame that comes back: what stood behind the payload is zeros.
abbrev pub received : ℕ → Frame → Frame
received maximum f = record {
  opcode = f.opcode;
  payload = take f.payload_size f.payload ++ replicate (maximum - f.payload_size) 0;
  payload_size = f.payload_size;
}

module _ (maximum : ℕ) (f : Frame) (old : ℕ) (tail : List ℕ) (whole : length f.payload ≡ maximum)
    (small : maximum < 2 ^ 31) (le : f.payload_size ≤ maximum) where
  length-covered : length (covered f old) ≡ header_size + f.payload_size
  length-covered =
      omega (arith, length-take f.payload_size f.payload, length-append (body f) (old ∷ []))

  abbrev wire : List ℕ
  wire = framed f old tail

  abbrev crc : ℕ
  crc = crc16_modbus (covered f old)

  wire-take : (k : ℕ) → k ≡ header_size + f.payload_size → take k wire ≡ covered f old
  unfolding framed
  wire-take k e = take-append_eq k (covered f old) (crc_bytes crc ++ tail) (length-covered ∙ sym e)

  wire_low : (k : ℕ) → k ≡ header_size + f.payload_size → get_or wire k 0 ≡ u8 crc
  unfolding framed
  wire_low k e =
      ap (λ i. get_or wire i 0) (e ∙ sym length-covered)
      ∙ get_or-append (covered f old) (u8 crc) (u8 (crc / 2 ^ 8) ∷ tail) 0

  wire_high : (k : ℕ) → k ≡ header_size + f.payload_size + 1 → get_or wire k 0 ≡ u8 (crc / 2 ^ 8)
  unfolding framed
  wire_high k e =
      ap₂ (λ l i. get_or l i 0)
        (sym (append_assoc (covered f old) (u8 crc ∷ []) (u8 (crc / 2 ^ 8) ∷ tail))) at_high
      ∙ get_or-append (covered f old ++ (u8 crc ∷ [])) (u8 (crc / 2 ^ 8)) tail 0
    where
      at_high : k ≡ length (covered f old ++ (u8 crc ∷ []))
      at_high = omega (arith, e, length-covered, length-append (covered f old) (u8 crc ∷ []))

  wire_payload :
      copy f.payload_size (drop 4 wire) (replicate maximum 0)
      ≡ take f.payload_size f.payload ++ replicate (maximum - f.payload_size) 0
  unfolding framed
  wire_payload =
      ap (λ l. copy f.payload_size l (replicate maximum 0))
        (append_assoc p (old ∷ []) (crc_bytes crc ++ tail))
      ∙ copy_lem f.payload_size (p ++ (old ∷ crc_bytes crc ++ tail)) (replicate maximum 0)
          (omega (arith, count, length-append p (old ∷ crc_bytes crc ++ tail)))
          (omega (arith, length-replicate {0} {A = ℕ} maximum 0))
      ∙ ap₂ (λ l r. l ++ r) (take-append_eq f.payload_size p (old ∷ crc_bytes crc ++ tail) count)
          (drop-replicate f.payload_size maximum 0)
    where
      p : List ℕ
      p = take f.payload_size f.payload

      count : length p ≡ f.payload_size
      count = omega (arith, length-take f.payload_size f.payload)

  pub decode-framed :
      f.payload_size < 2 ^ 8
      → decode maximum (some wire) (7 + f.payload_size) ≡ (ok, received maximum f)
  unfolding decode
  decode-framed byte =
      rw (b0, b1, b2, b3)
        (rw (
          long_enough,
          fits,
          wire-take (header_size + f.payload_size + crc_size - crc_size) (omega arith),
          wire_low (header_size + f.payload_size + crc_size - 2) (omega arith),
          wire_high (header_size + f.payload_size + crc_size - 1) (omega arith),
          join_bytes crc (crc16_modbus_bound (covered f old)),
          (==_iff crc crc).1 refl,
          wire_payload,
        ))
    where
      b0 : get_or wire 0 0 ≡ 0xA5
      b0 = unfold framed in refl

      b1 : get_or wire 1 0 ≡ 0x5A
      b1 = unfold framed in refl

      b2 : get_or wire 2 0 ≡ f.payload_size
      b2 = unfold framed in omega arith

      b3 : get_or wire 3 0 ≡ f.opcode
      b3 = unfold framed in refl

      long_enough : ltb (7 + f.payload_size) (header_size + crc_size) ≡ false
      long_enough = ground arith

      fits :
          (ltb maximum f.payload_size
            || not (7 + f.payload_size == header_size + f.payload_size + crc_size))
          ≡ false
      fits = ground arith

  -- A payload of 256 bytes or more comes back as no frame: the header holds only the low byte of
  -- its size, which does not fit the size of the input.
  pub decode-framed_long :
      2 ^ 8 ≤ f.payload_size
      → decode maximum (some wire) (7 + f.payload_size) ≡ (invalid_argument, blank_frame maximum)
  unfolding decode
  decode-framed_long long = rw (b0, b1, b2) (rw (long_enough, misfit))
    where
      b0 : get_or wire 0 0 ≡ 0xA5
      b0 = unfold framed in refl

      b1 : get_or wire 1 0 ≡ 0x5A
      b1 = unfold framed in refl

      b2 : get_or wire 2 0 ≡ u8 f.payload_size
      b2 = unfold framed in refl

      long_enough : ltb (7 + f.payload_size) (header_size + crc_size) ≡ false
      long_enough = ground arith

      misfit :
          (ltb maximum (u8 f.payload_size)
            || not (7 + f.payload_size == header_size + u8 f.payload_size + crc_size))
          ≡ true
      misfit = ground arith

module _ (maximum : ℕ) (f : Frame) (a b c d : ℕ) (room : List ℕ) (old x y : ℕ) (tail : List ℕ)
    (capacity : ℕ) where
  abbrev buffer : List ℕ
  buffer = a ∷ b ∷ c ∷ d ∷ (room ++ (old ∷ x ∷ y ∷ tail))

  -- What `encode` wrote for a payload below 256 bytes that fits the maximum, in a buffer with room
  -- for the frame, `decode` accepts, and finds the same opcode, size and payload, with zeros behind.
  pub decode-encode :
      length f.payload ≡ maximum
      → maximum < 2 ^ 31
      → f.payload_size ≤ maximum
      → f.payload_size < 2 ^ 8
      → length room ≡ f.payload_size
      → 7 + f.payload_size ≤ capacity
      → let (status, size, output) = encode maximum f (some buffer) capacity in
        (status ≡ ok) × (decode maximum output size ≡ (ok, received maximum f))
  decode-encode whole small le byte fits cap =
      rw (encode_lem maximum f a b c d room old x y tail capacity whole small le fits cap)
        (refl, decode-framed maximum f old tail whole small le byte)

  -- A frame whose payload array has the maximum's length, where the maximum is less than 2 ^ 31, and
  -- whose payload has at least 256 bytes and fits the maximum, encoded into a buffer that has room
  -- for the whole frame, with a capacity of at least 7 bytes more than the payload: the encoding
  -- answers `ok`, but `decode` answers `invalid_argument` to the frame.
  pub decode-encode_long :
      length f.payload ≡ maximum
      → maximum < 2 ^ 31
      → f.payload_size ≤ maximum
      → 2 ^ 8 ≤ f.payload_size
      → length room ≡ f.payload_size
      → 7 + f.payload_size ≤ capacity
      → let (status, size, output) = encode maximum f (some buffer) capacity in
        (status ≡ ok) × (decode maximum output size ≡ (invalid_argument, blank_frame maximum))
  decode-encode_long whole small le long fits cap =
      rw (encode_lem maximum f a b c d room old x y tail capacity whole small le fits cap)
        (refl, decode-framed_long maximum f old tail whole small le long)
