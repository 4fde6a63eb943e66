-- ===== src/Protocols/Frame.antt =====
-- components/protocols/frame: FrameCodec, whose template argument is `maximum_payload`. A
-- uhal::Result is its status with its value, and a failure has the default value.
pub mod Encode
pub mod Decode
mod Tests
use agile_firmware_framework.Prelude.{
  ℕ, ◌+◌, ◌-◌, ◌*◌, ◌/◌, ◌^◌, bit_or, Bool, not, ◌||◌, Option, none, some, List, [], ◌∷◌, ◌++◌,
  get_or, set, take, drop, replicate, ltb, ◌==◌, if◌then◌else◌,
}
use agile_firmware_framework.Prelude.Words.{u8, u16, add_size}
use agile_firmware_framework.Prelude.Copy.{copy}
use agile_firmware_framework.Uhal.{Status, ok, invalid_argument, nack, io_error}
use agile_firmware_framework.Libraries.Crc.{crc16_modbus}

abbrev pub sync_word : ℕ
sync_word = 0xA55A

abbrev pub header_size : ℕ
header_size = 5

abbrev pub crc_size : ℕ
crc_size = 2

pub record Frame : Type 0 where
  pub opcode : ℕ
  pub payload : List ℕ
  pub payload_size : ℕ

-- The loop that copies `size` bytes to an offset of the output.
abbrev pub copy_to : ℕ → ℕ → List ℕ → List ℕ → List ℕ
copy_to offset size source output = take offset output ++ copy size source (drop offset output)

-- The bytes of a frame, but for its checksum.
unfoldable pub write_header : Frame → List ℕ → List ℕ
write_header f output =
    let o = set output 0 (u8 (sync_word / 2 ^ 8)) in
    let o = set o 1 (u8 sync_word) in
    let o = set o 2 (u8 f.payload_size) in
    let o = set o 3 f.opcode in copy_to 4 f.payload_size f.payload o

unfoldable pub write_crc : ℕ → ℕ → List ℕ → List ℕ
write_crc size crc output =
    let o = set output (header_size + size) (u8 crc) in
    set o (header_size + size + 1) (u8 (crc / 2 ^ 8))

module _ (maximum_payload : ℕ) where
  unfoldable pub blank_frame : Frame
  blank_frame = record { opcode = 0; payload = replicate maximum_payload 0; payload_size = 0 }

  -- The status, the size of the frame and the output after the call; `none` is a null pointer.
  unfoldable pub encode : Frame → Option (List ℕ) → ℕ → Status × ℕ × Option (List ℕ)
  encode f none capacity = (invalid_argument, 0, none)
  encode f (some output) capacity =
      let size = add_size (add_size header_size f.payload_size) crc_size in
      let body = write_header f output in
      let crc = crc16_modbus (take (header_size + f.payload_size) body) in
      if ltb maximum_payload f.payload_size
      then (invalid_argument, 0, some output)
      else if ltb capacity size
      then (invalid_argument, 0, some output)
      else (ok, size, some (write_crc f.payload_size crc body))

  unfoldable pub decode : Option (List ℕ) → ℕ → Status × Frame
  decode none input_size = (invalid_argument, blank_frame)
  decode (some input) input_size =
      let found = bit_or (u16 (get_or input 0 0 * 2 ^ 8)) (get_or input 1 0) in
      let size = get_or input 2 0 in
      let frame_size = header_size + size + crc_size in
      let expected =
        bit_or (get_or input (frame_size - 2) 0) (u16 (get_or input (frame_size - 1) 0 * 2 ^ 8)) in
      if ltb input_size (header_size + crc_size)
      then (invalid_argument, blank_frame)
      else if not (found == sync_word)
      then (nack, blank_frame)
      else if ltb maximum_payload size || not (input_size == frame_size)
      then (invalid_argument, blank_frame)
      else if not (crc16_modbus (take (frame_size - crc_size) input) == expected)
      then (io_error, blank_frame)
      else (
        ok,
        record {
          opcode = get_or input 3 0;
          payload = copy size (drop 4 input) (replicate maximum_payload 0);
          payload_size = size;
        },
      )
