-- ===== src/Protocols/Modbus/Tests.antt =====
-- A port that keeps the bytes of each call.
use agile_firmware_framework.Prelude.{ℕ, ◌≡◌, List, [], ◌∷◌, some, arith}
use agile_firmware_framework.Uhal.{Status, ok}
use agile_firmware_framework.Protocols.Modbus.{send_request}
use agile_firmware_framework.Protocols.Modbus.Request.{send_request_lem}

abbrev log_write : List ℕ → List (List ℕ) → Status × List (List ℕ)
log_write bytes log = (ok, bytes ∷ log)

send_request_lem_example :
    send_request log_write 17 (some (3 ∷ 0 ∷ 107 ∷ 9 ∷ [])) 3 []
    ≡ (ok, (17 ∷ 3 ∷ 0 ∷ 107 ∷ []) ∷ [])
send_request_lem_example = send_request_lem log_write 17 (3 ∷ 0 ∷ 107 ∷ 9 ∷ []) 3 [] (omega arith)
