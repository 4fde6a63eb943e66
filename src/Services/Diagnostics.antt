-- ===== src/Services/Diagnostics.antt =====
-- components/services/diagnostics: DiagnosticsService, with saturating counters, gauges and a ring of
-- the latest faults.
pub mod Counters
pub mod Faults
mod Tests
use agile_firmware_framework.Prelude.{
  ℕ, ◌+◌, ◌-◌, ◌^◌, Bool, true, false, List, [], get_or, set, replicate, ltb, leb, if◌then◌else◌,
}
use agile_firmware_framework.Libraries.RingBuffer.{
  RingBuffer, empty_buffer, try_push, drop_oldest, full, size,
}
use agile_firmware_framework.Services.Limits.{
  diagnostic_counter_count, diagnostic_gauge_count, fault_ring_capacity,
}

pub record FaultRecord : Type 0 where
  pub code : ℕ
  pub severity : ℕ
  pub time_ms : ℕ

abbrev pub blank_fault : FaultRecord
blank_fault = record { code = 0; severity = 0; time_ms = 0 }

-- A gauge holds an int32_t, which the code only stores: `G`, with 0 as `zero_gauge`.
pub record DiagnosticsService (G : Type 0) : Type 0 where
  pub counters : List ℕ
  pub gauges : List G
  pub faults : RingBuffer FaultRecord

module _ {G : Type 0} (zero_gauge : G) where
  abbrev pub fresh_diagnostics : DiagnosticsService G
  unfolding empty_buffer
  fresh_diagnostics = record {
    counters = replicate diagnostic_counter_count 0;
    gauges = replicate diagnostic_gauge_count zero_gauge;
    faults = empty_buffer fault_ring_capacity blank_fault;
  }

  unfoldable pub increment : ℕ → ℕ → DiagnosticsService G → DiagnosticsService G
  increment id amount d =
      let old = get_or d.counters id 0 in
      if leb diagnostic_counter_count id then d else record d {
        counters =
            set d.counters id (if ltb (2 ^ 32 - 1 - old) amount then 2 ^ 32 - 1 else old + amount);
      }

  unfoldable pub set_gauge : ℕ → G → DiagnosticsService G → DiagnosticsService G
  set_gauge id value d =
      if ltb id diagnostic_gauge_count then record d { gauges = set d.gauges id value } else d

  unfoldable pub record_fault : ℕ → ℕ → ℕ → DiagnosticsService G → DiagnosticsService G
  unfolding try_push drop_oldest full
  record_fault code severity time d =
      let room =
        if full fault_ring_capacity blank_fault d.faults
        then (drop_oldest fault_ring_capacity blank_fault d.faults).1
        else d.faults in
      record d {
        faults =
            (try_push fault_ring_capacity blank_fault
              (record { code = code; severity = severity; time_ms = time }) room).1;
      }

  unfoldable pub counter : ℕ → DiagnosticsService G → ℕ
  counter id d = if ltb id diagnostic_counter_count then get_or d.counters id 0 else 0

  unfoldable pub gauge : ℕ → DiagnosticsService G → G
  gauge id d = if ltb id diagnostic_gauge_count then get_or d.gauges id zero_gauge else zero_gauge

  unfoldable pub fault_count : DiagnosticsService G → ℕ
  unfolding size
  fault_count d = size fault_ring_capacity blank_fault d.faults
