-- ===== src/Services/Diagnostics/Faults.antt =====
-- The faults that a DiagnosticsService holds after any calls.
use agile_firmware_framework.Prelude.{
  ℕ, ◌-◌, ◌≡◌, min, refl, ap, ◌∙◌, List, [], ◌∷◌, ◌++◌, length, arith, append_assoc, append-nil,
  length-drop,
}
use agile_firmware_framework.Libraries.RingBuffer.{size}
use agile_firmware_framework.Libraries.RingBuffer.Refine.{
  IsValid, contents, empty_buffer-IsValid, length-contents,
}
use agile_firmware_framework.Libraries.RingBuffer.Newest.{newest, newest-snoc, try_push-with_room}
use agile_firmware_framework.Services.Limits.{fault_ring_capacity}
use agile_firmware_framework.Services.Diagnostics.{
  FaultRecord, DiagnosticsService, blank_fault, fresh_diagnostics, increment, set_gauge,
  record_fault, fault_count,
}
use agile_firmware_framework.Services.Diagnostics.Counters.{Call, count_up, gauge_to, fault, run}

-- The faults that the calls record, in their order.
abbrev pub recorded : {G : Type 0} → List (Call G) → List FaultRecord
recorded [] = []
recorded (count_up id amount ∷ cs) = recorded cs
recorded (gauge_to id value ∷ cs) = recorded cs
recorded (fault code severity time ∷ cs) =
    record { code = code; severity = severity; time_ms = time } ∷ recorded cs

module _ {G : Type 0} (zero_gauge : G) where
  -- The ring holds the newest of the faults recorded before.
  Holds : List FaultRecord → DiagnosticsService G → Type 0
  Holds before d =
      IsValid fault_ring_capacity blank_fault d.faults
      × (contents fault_ring_capacity blank_fault d.faults ≡ newest fault_ring_capacity before)

  record_fault-Holds :
      (before : List FaultRecord) (code severity time : ℕ) (d : DiagnosticsService G)
      → Holds before d
      → Holds
          (before ++ (record { code = code; severity = severity; time_ms = time } ∷ []))
          (record_fault zero_gauge code severity time d)
  unfolding Holds record_fault
  record_fault-Holds before code severity time d v =
      let f : FaultRecord = record { code = code; severity = severity; time_ms = time } in
      let h = try_push-with_room fault_ring_capacity blank_fault f d.faults v.0 (omega arith) in
      (
        h.0,
        h.2
            ∙ ap (λ q. newest fault_ring_capacity (q ++ (f ∷ []))) v.1
            ∙ newest-snoc fault_ring_capacity before f,
      )

  increment-faults :
      (id amount : ℕ) (d : DiagnosticsService G)
      → (increment zero_gauge id amount d).faults ≡ d.faults
  unfolding increment
  increment-faults id amount d = ground arith

  set_gauge-faults :
      (id : ℕ) (value : G) (d : DiagnosticsService G)
      → (set_gauge zero_gauge id value d).faults ≡ d.faults
  unfolding set_gauge
  set_gauge-faults id value d = ground arith

  run-Holds :
      (before : List FaultRecord) (cs : List (Call G)) (d : DiagnosticsService G)
      → Holds before d
      → Holds (before ++ recorded cs) (run zero_gauge cs d)
  unfolding Holds
  run-Holds before [] d v = rw (append-nil before) v
  run-Holds before (count_up id amount ∷ cs) d v =
      run-Holds before cs (increment zero_gauge id amount d) (simp (increment-faults id amount d) v)
  run-Holds before (gauge_to id value ∷ cs) d v =
      run-Holds before cs (set_gauge zero_gauge id value d) (simp (set_gauge-faults id value d) v)
  run-Holds before (fault code severity time ∷ cs) d v =
      let f : FaultRecord = record { code = code; severity = severity; time_ms = time } in
      rw (← append_assoc before (f ∷ []) (recorded cs)) (
        run-Holds (before ++ (f ∷ [])) cs (record_fault zero_gauge code severity time d)
          (record_fault-Holds before code severity time d v))

  -- After any calls on a fresh service the ring holds the newest eight of the faults recorded, or
  -- all where there are fewer, the oldest first; fault_count is their number. Counters and gauges
  -- do not affect them.
  pub run-faults :
      (cs : List (Call G))
      → let d = run zero_gauge cs (fresh_diagnostics zero_gauge) in
        (contents fault_ring_capacity blank_fault d.faults
          ≡ newest fault_ring_capacity (recorded cs))
        × (fault_count zero_gauge d ≡ min fault_ring_capacity (length (recorded cs)))
  unfolding Holds fresh_diagnostics fault_count size
  run-faults cs =
      let d = run zero_gauge cs (fresh_diagnostics zero_gauge) in
      let v =
        run-Holds [] cs (fresh_diagnostics zero_gauge) (
          empty_buffer-IsValid fault_ring_capacity blank_fault (omega arith) (omega arith),
          refl,
        ) in
      (
        v.1,
        omega (
          arith,
          length-contents fault_ring_capacity blank_fault d.faults,
          ap length v.1,
          length-drop (length (recorded cs) - fault_ring_capacity) (recorded cs),
        ),
      )
