-- ===== src/Services/Diagnostics/Tests.antt =====
-- Counters that saturate, and ten faults in a ring of eight.
use agile_firmware_framework.Prelude.{ℕ, ◌≡◌, List, [], ◌∷◌, arith}
use agile_firmware_framework.Libraries.RingBuffer.Refine.{contents}
use agile_firmware_framework.Libraries.RingBuffer.Newest.{newest}
use agile_firmware_framework.Services.Limits.{fault_ring_capacity}
use agile_firmware_framework.Services.Diagnostics.{
  blank_fault, fresh_diagnostics, counter, fault_count,
}
use agile_firmware_framework.Services.Diagnostics.Counters.{
  Call, count_up, gauge_to, fault, run, run-counter,
}
use agile_firmware_framework.Services.Diagnostics.Faults.{run-faults}

abbrev script : List (Call ℕ)
script =
    count_up 3 4294967290
    ∷ count_up 4 1
    ∷ gauge_to 3 7
    ∷ count_up 3 10
    ∷ count_up 3 1
    ∷ fault 1 2 3
    ∷ fault 2 2 4
    ∷ fault 3 2 5
    ∷ fault 4 2 6
    ∷ fault 5 2 7
    ∷ fault 6 2 8
    ∷ fault 7 2 9
    ∷ fault 8 2 10
    ∷ fault 9 1 11
    ∷ []

run-counter_example : counter 0 3 (run 0 script (fresh_diagnostics 0)) ≡ 4294967295
run-counter_example = run-counter 0 3 script (omega arith)

run-faults_example :
    let d = run 0 script (fresh_diagnostics 0) in
    (contents fault_ring_capacity blank_fault d.faults
      ≡ newest fault_ring_capacity (
          record { code = 1; severity = 2; time_ms = 3 }
          ∷ record { code = 2; severity = 2; time_ms = 4 }
          ∷ record { code = 3; severity = 2; time_ms = 5 }
          ∷ record { code = 4; severity = 2; time_ms = 6 }
          ∷ record { code = 5; severity = 2; time_ms = 7 }
          ∷ record { code = 6; severity = 2; time_ms = 8 }
          ∷ record { code = 7; severity = 2; time_ms = 9 }
          ∷ record { code = 8; severity = 2; time_ms = 10 }
          ∷ record { code = 9; severity = 1; time_ms = 11 }
          ∷ []))
    × (fault_count 0 d ≡ 8)
run-faults_example = run-faults 0 script
