-- ===== src/Services/Diagnostics/Counters.antt =====
-- The counters after any calls of a DiagnosticsService.
use agile_firmware_framework.Prelude.{
  ℕ, zero, ◌+◌, ◌-◌, ◌^◌, ◌<◌, ◌≡◌, min, refl, true, false, List, [], ◌∷◌, length, get_or, ltb, leb,
  ◌==◌, if◌then◌else◌, Bool-cases, inl, inr, arith, length-set, get_or-set_self, get_or-set_ne,
  replicate, ◌≢◌, ◌∙◌, suc,
}
use agile_firmware_framework.Services.Limits.{diagnostic_counter_count}
use agile_firmware_framework.Services.Diagnostics.{
  DiagnosticsService, fresh_diagnostics, increment, set_gauge, record_fault, counter,
}

-- The calls of IDiagnosticsSink.
pub data Call (G : Type 0) : Type 0 where
  count_up : ℕ → ℕ → Call G
  gauge_to : ℕ → G → Call G
  fault : ℕ → ℕ → ℕ → Call G

module _ {G : Type 0} (zero_gauge : G) where
  abbrev pub call : Call G → DiagnosticsService G → DiagnosticsService G
  call (count_up id amount) d = increment zero_gauge id amount d
  call (gauge_to id value) d = set_gauge zero_gauge id value d
  call (fault code severity time) d = record_fault zero_gauge code severity time d

  abbrev pub run : List (Call G) → DiagnosticsService G → DiagnosticsService G
  run [] d = d
  run (c ∷ cs) d = run cs (call c d)

-- What the calls add to a counter, without a bound.
abbrev pub total : {G : Type 0} → ℕ → List (Call G) → ℕ
total id [] = 0
total id (count_up i amount ∷ cs) = (if i == id then amount else 0) + total id cs
total id (gauge_to i value ∷ cs) = total id cs
total id (fault code severity time ∷ cs) = total id cs

module _ {G : Type 0} (zero_gauge : G) where
  Counts : ℕ → ℕ → DiagnosticsService G → Type 0
  Counts id n d =
      (length d.counters ≡ diagnostic_counter_count) × (get_or d.counters id 0 ≡ min (2 ^ 32 - 1) n)

  increment-Counts :
      (id n i amount : ℕ) (d : DiagnosticsService G)
      → id < diagnostic_counter_count
      → Counts id n d
      → Counts id (n + (if i == id then amount else 0)) (increment zero_gauge i amount d)
  unfolding Counts increment
  increment-Counts id n i amount d small v = elim (Bool-cases (i == id)) [
    | inl e ↦
        let same : i ≡ id = ground arith in
        let in_range : leb 32 id ≡ false = ground arith in
        rw (e, same, in_range)
          (
            length-set d.counters id _ ∙ v.0,
            get_or-set_self d.counters id _ 0 (omega (arith, v.0)) ∙ ground (arith, v.1),
          )
    | inr e ↦
        let out : i ≢ id = ground arith in
        let none_added : n + 0 ≡ n = omega arith in
        elim (Bool-cases (leb 32 i)) [
          | inl f ↦ rw (e, none_added, f) v
          | inr f ↦
              rw (e, none_added, f)
                (length-set d.counters i _ ∙ v.0, get_or-set_ne d.counters i id _ 0 out ∙ v.1)
        ]
  ]

  set_gauge-counters :
      (i : ℕ) (value : G) (d : DiagnosticsService G)
      → (set_gauge zero_gauge i value d).counters ≡ d.counters
  unfolding set_gauge
  set_gauge-counters i value d = ground arith

  run-Counts :
      (id n : ℕ) (cs : List (Call G)) (d : DiagnosticsService G)
      → id < diagnostic_counter_count
      → Counts id n d
      → Counts id (n + total id cs) (run zero_gauge cs d)
  unfolding Counts record_fault
  run-Counts id n [] d small v = (v.0, v.1 ∙ omega arith)
  run-Counts id n (count_up i amount ∷ cs) d small v =
      let rest =
        run-Counts id (n + (if i == id then amount else 0)) cs (increment zero_gauge i amount d)
          small (increment-Counts id n i amount d small v) in
      (rest.0, rest.1 ∙ omega arith)
  run-Counts id n (gauge_to i value ∷ cs) d small v =
      run-Counts id n cs (set_gauge zero_gauge i value d) small
        (simp (set_gauge-counters i value d) v)
  run-Counts id n (fault code severity time ∷ cs) d small v =
      run-Counts id n cs (record_fault zero_gauge code severity time d) small v

  get_or-replicate : (m i x : ℕ) → get_or (replicate m x) i x ≡ x
  get_or-replicate zero i x = refl
  get_or-replicate (suc m) zero x = refl
  get_or-replicate (suc m) (suc i) x = get_or-replicate m i x

  -- From a fresh service on, a counter that exists reads the sum of all amounts counted up on it, or
  -- 2^32 - 1 where the sum exceeds that: it neither wraps, nor do the other counters, the gauges or
  -- the faults affect it.
  pub run-counter :
      (id : ℕ) (cs : List (Call G))
      → id < diagnostic_counter_count
      → counter zero_gauge id (run zero_gauge cs (fresh_diagnostics zero_gauge))
        ≡ min (2 ^ 32 - 1) (total id cs)
  unfolding counter Counts fresh_diagnostics
  run-counter id cs small =
      let in_range : ltb id 32 ≡ true = ground arith in
      let fresh : get_or (replicate 32 0) id 0 ≡ 0 = get_or-replicate 32 id 0 in
      let v =
        run-Counts id 0 cs (fresh_diagnostics zero_gauge) small (refl, omega (arith, fresh)) in
      rw in_range (v.1 ∙ omega arith)
