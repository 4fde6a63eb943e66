-- ===== src/Protocols/Modbus/Request.antt =====
-- What ModbusRtuMaster::send_request writes to the port.
use agile_firmware_framework.Prelude.{
  ℕ, ◌+◌, ◌≤◌, ◌≡◌, refl, ◌||◌, some, List, ◌∷◌, take, length, replicate, ltb, ◌==◌, if◌then◌else◌,
  Bool-cases, inl, inr, arith, suc,
}
use agile_firmware_framework.Prelude.Copy.{take-copy}
use agile_firmware_framework.Uhal.{Status, invalid_argument}
use agile_firmware_framework.Protocols.Modbus.{maximum_pdu_size, send_request}

-- A request of 1 to 253 bytes is written in one call as the slave's address and exactly those bytes,
-- with nothing behind them, and the result is the port's. For any other size the result is
-- `invalid_argument` and the port is not called. The size counts bytes at the pointer.
pub send_request_lem :
    {W : Type 0}
    → (write : List ℕ → W → Status × W) (slave_address : ℕ) (protocol_data : List ℕ) (size : ℕ)
      (w : W)
    → size ≤ length protocol_data
    → send_request write slave_address (some protocol_data) size w ≡ (
        if size == 0 || ltb maximum_pdu_size size
        then (invalid_argument, w)
        else write (slave_address ∷ take size protocol_data) w)
unfolding send_request
send_request_lem write slave_address protocol_data size w backed =
    elim (Bool-cases (size == 0 || ltb maximum_pdu_size size)) [
      | inl e ↦ rw e refl
      | inr e ↦
          let small : size ≤ 253 = ground arith in
          let next : size + 1 ≡ suc size = omega arith in
          rw (e, next, take-copy size protocol_data (replicate 253 0) backed small) refl
    ]
