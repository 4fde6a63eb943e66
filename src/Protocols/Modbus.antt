-- ===== src/Protocols/Modbus.antt =====
-- components/protocols/modbus-rtu: ModbusRtuMaster, which sends a request over a serial port.
pub mod Request
mod Tests
use agile_firmware_framework.Prelude.{
  ℕ, ◌+◌, Bool, true, ◌||◌, Option, none, some, List, [], ◌∷◌, take, replicate, ltb, ◌==◌,
  if◌then◌else◌,
}
use agile_firmware_framework.Prelude.Copy.{copy}
use agile_firmware_framework.Uhal.{Status, invalid_argument}

abbrev pub maximum_pdu_size : ℕ
maximum_pdu_size = 253

-- `write` is the port's, over its state `W`. The data are the bytes at the pointer, `none` where it
-- is null.
module _ {W : Type 0} (write : List ℕ → W → Status × W) where
  unfoldable pub send_request : ℕ → Option (List ℕ) → ℕ → W → Status × W
  send_request slave_address none size w = (invalid_argument, w)
  send_request slave_address (some protocol_data) size w =
      let frame = slave_address ∷ copy size protocol_data (replicate maximum_pdu_size 0) in
      if size == 0 || ltb maximum_pdu_size size
      then (invalid_argument, w)
      else write (take (size + 1) frame) w
