-- ===== src/Protocols/Frame/Tests.antt =====
-- Frames at concrete inputs.
use agile_firmware_framework.Prelude.{
  ℕ, ◌≡◌, refl, length, some, List, [], ◌∷◌, ◌++◌, arith, replicate, length-replicate,
}
use agile_firmware_framework.Uhal.{ok, invalid_argument}
use agile_firmware_framework.Protocols.Frame.{Frame, blank_frame, encode, decode}
use agile_firmware_framework.Protocols.Frame.Encode.{framed, encode_lem}
use agile_firmware_framework.Protocols.Frame.Decode.{received, decode-encode, decode-encode_long}

abbrev short : Frame
short = record { opcode = 7; payload = 1 ∷ 2 ∷ 0 ∷ 0 ∷ []; payload_size = 2 }

encode_lem_example :
    encode 4 short (some (replicate 10 0)) 10 ≡ (ok, 9, some (framed short 0 (0 ∷ [])))
encode_lem_example =
    encode_lem 4 short 0 0 0 0 (0 ∷ 0 ∷ []) 0 0 0 (0 ∷ []) 10 refl (omega arith) (omega arith) refl
      (omega arith)

decode-encode_example :
    let (status, size, output) = encode 4 short (some (replicate 10 0)) 10 in
    (status ≡ ok) × (decode 4 output size ≡ (ok, received 4 short))
decode-encode_example =
    decode-encode 4 short 0 0 0 0 (0 ∷ 0 ∷ []) 0 0 0 (0 ∷ []) 10 refl (omega arith) (omega arith)
      (omega arith) refl (omega arith)

long_payload : List ℕ
long_payload = replicate 300 9

abbrev long : Frame
long = record { opcode = 7; payload = long_payload; payload_size = 300 }

length-long_payload : length long_payload ≡ 300
unfolding long_payload
length-long_payload = length-replicate {0} {A = ℕ} 300 9

decode-encode_long_example :
    let (status, size, output) =
      encode 300 long (some (0 ∷ 0 ∷ 0 ∷ 0 ∷ (long_payload ++ (0 ∷ 0 ∷ 0 ∷ [])))) 307 in
    (status ≡ ok) × (decode 300 output size ≡ (invalid_argument, blank_frame 300))
decode-encode_long_example =
    decode-encode_long 300 long 0 0 0 0 long_payload 0 0 0 [] 307 length-long_payload (omega arith)
      (omega arith) (omega arith) length-long_payload (omega arith)
