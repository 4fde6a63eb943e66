-- ===== src/Protocols/Frame/Encode.antt =====
-- The bytes that FrameCodec::encode writes.
use agile_firmware_framework.Prelude.{
  ℕ, ◌+◌, ◌/◌, ◌^◌, ◌≤◌, ◌<◌, ◌≡◌, ap, ap₂, ◌∙◌, sym, some, List, [], ◌∷◌, ◌++◌, length, set, take,
  ltb, false, arith, set-append, take-append_eq, drop-append_eq, length-take, length-append,
  append_assoc,
}
use agile_firmware_framework.Prelude.Words.{u8, add_size}
use agile_firmware_framework.Prelude.Copy.{copy_lem}
use agile_firmware_framework.Uhal.{ok}
use agile_firmware_framework.Libraries.Crc.{crc16_modbus}
use agile_firmware_framework.Protocols.Frame.{
  header_size, crc_size, Frame, write_header, write_crc, encode,
}

-- The header and the payload of a frame.
abbrev pub body : Frame → List ℕ
body f = 0xA5 ∷ 0x5A ∷ u8 f.payload_size ∷ f.opcode ∷ take f.payload_size f.payload

-- The two bytes of a checksum.
abbrev pub crc_bytes : ℕ → List ℕ
crc_bytes crc = u8 crc ∷ u8 (crc / 2 ^ 8) ∷ []

-- A buffer with the frame in it.
unfoldable pub framed : Frame → ℕ → List ℕ → List ℕ
framed f old tail =
    let covered = body f ++ (old ∷ []) in covered ++ (crc_bytes (crc16_modbus covered) ++ tail)

write_header_lem :
    (f : Frame) (a b c d : ℕ) (room rest : List ℕ)
    → length room ≡ f.payload_size
    → f.payload_size ≤ length f.payload
    → write_header f (a ∷ b ∷ c ∷ d ∷ (room ++ rest)) ≡ body f ++ rest
unfolding write_header
write_header_lem f a b c d room rest h k =
    ap (λ t. 0xA5 ∷ 0x5A ∷ u8 f.payload_size ∷ f.opcode ∷ t)
      (copy_lem f.payload_size f.payload (room ++ rest) k (omega (arith, length-append room rest))
        ∙ ap (λ t. take f.payload_size f.payload ++ t) (drop-append_eq f.payload_size room rest h))

write_crc_lem :
    (pre : List ℕ) (old x y crc n : ℕ) (tail : List ℕ)
    → length pre ≡ 4 + n
    → write_crc n crc (pre ++ (old ∷ x ∷ y ∷ tail)) ≡ (pre ++ (old ∷ [])) ++ (crc_bytes crc ++ tail)
unfolding write_crc
write_crc_lem pre old x y crc n tail h =
    ap (λ o. set o (header_size + n + 1) (u8 (crc / 2 ^ 8)))
      (ap₂ (λ l i. set l i (u8 crc)) (sym (append_assoc pre (old ∷ []) (x ∷ y ∷ tail))) low
        ∙ set-append (pre ++ (old ∷ [])) x (u8 crc) (y ∷ tail)
        ∙ sym (append_assoc (pre ++ (old ∷ [])) (u8 crc ∷ []) (y ∷ tail)))
    ∙ ap (λ i. set (((pre ++ (old ∷ [])) ++ (u8 crc ∷ [])) ++ (y ∷ tail)) i (u8 (crc / 2 ^ 8))) high
    ∙ set-append ((pre ++ (old ∷ [])) ++ (u8 crc ∷ [])) y (u8 (crc / 2 ^ 8)) tail
    ∙ append_assoc (pre ++ (old ∷ [])) (u8 crc ∷ []) (u8 (crc / 2 ^ 8) ∷ tail)
  where
    low : header_size + n ≡ length (pre ++ (old ∷ []))
    low = omega (arith, h, length-append pre (old ∷ []))

    high : header_size + n + 1 ≡ length ((pre ++ (old ∷ [])) ++ (u8 crc ∷ []))
    high =
        omega
          (arith, h, length-append pre (old ∷ []), length-append (pre ++ (old ∷ [])) (u8 crc ∷ []))

-- A frame whose payload fits its array and the maximum, encoded into a buffer with room for it and
-- a capacity of at least its size: `encode` answers `ok` and the frame's size, and writes the header,
-- the payload, and behind one byte that it leaves as it was the checksum of all these.
pub encode_lem :
    (maximum : ℕ) (f : Frame) (a b c d : ℕ) (room : List ℕ) (old x y : ℕ) (tail : List ℕ)
    (capacity : ℕ)
    → length f.payload ≡ maximum
    → maximum < 2 ^ 31
    → f.payload_size ≤ maximum
    → length room ≡ f.payload_size
    → 7 + f.payload_size ≤ capacity
    → encode maximum f (some (a ∷ b ∷ c ∷ d ∷ (room ++ (old ∷ x ∷ y ∷ tail)))) capacity
      ≡ (ok, 7 + f.payload_size, some (framed f old tail))
unfolding encode framed
encode_lem maximum f a b c d room old x y tail capacity whole small le fits cap =
    rw (over, under, size, written)
      (ap (λ l. (ok, 7 + f.payload_size, some l))
        (write_crc_lem (body f) old x y (crc16_modbus _) f.payload_size tail count
          ∙ ap (λ t. (body f ++ (old ∷ [])) ++ (crc_bytes (crc16_modbus t) ++ tail)) covered))
  where
    over : ltb maximum f.payload_size ≡ false
    over = ground arith

    size : add_size (add_size header_size f.payload_size) crc_size ≡ 7 + f.payload_size
    size = omega arith

    under : ltb capacity (add_size (add_size header_size f.payload_size) crc_size) ≡ false
    under = rw size (ground arith)

    written :
        write_header f (a ∷ b ∷ c ∷ d ∷ (room ++ (old ∷ x ∷ y ∷ tail)))
        ≡ body f ++ (old ∷ x ∷ y ∷ tail)
    written = write_header_lem f a b c d room (old ∷ x ∷ y ∷ tail) fits (omega arith)

    count : length (body f) ≡ 4 + f.payload_size
    count = omega (arith, length-take f.payload_size f.payload)

    covered :
        take (header_size + f.payload_size) (body f ++ (old ∷ x ∷ y ∷ tail)) ≡ body f ++ (old ∷ [])
    covered =
        ap (take (header_size + f.payload_size))
          (sym (append_assoc (body f) (old ∷ []) (x ∷ y ∷ tail)))
        ∙ take-append_eq (header_size + f.payload_size) (body f ++ (old ∷ [])) (x ∷ y ∷ tail)
            (omega (arith, count, length-append (body f) (old ∷ [])))
