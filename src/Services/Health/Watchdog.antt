-- ===== src/Services/Health/Watchdog.antt =====
-- When HealthMonitor::poll feeds the watchdog.
use agile_firmware_framework.Prelude.{
  ℕ, ◌≤◌, ◌<◌, ◌≡◌, refl, true, List, [], ◌∷◌, All, take, leb, if◌then◌else◌, Bool-cases, inl, inr,
  ◌⊎◌, arith,
}
use agile_firmware_framework.Prelude.Words.{sub32}
use agile_firmware_framework.Uhal.{not_ready}
use agile_firmware_framework.Services.Health.{
  Source, HealthMonitor, HealthPorts, overdue, recover, poll_sources, poll,
}

-- A mandatory source whose last check-in is longer ago than its deadline.
abbrev pub IsLate : ℕ → Source → Type 0
IsLate now s = (s.mandatory ≡ true) × (s.deadline_ms < sub32 now s.last_checkin)

abbrev pub IsInTime : ℕ → Source → Type 0
IsInTime now s = s.mandatory ≡ true → sub32 now s.last_checkin ≤ s.deadline_ms

-- One of the sources is late.
pub data Overdue (now : ℕ) : List Source → Type 0 where
  here : {s : Source} {ss : List Source} → IsLate now s → Overdue now (s ∷ ss)
  there : {s : Source} {ss : List Source} → Overdue now ss → Overdue now (s ∷ ss)

module _ {W : Type 0} (ports : HealthPorts W) where
  poll_sources_lem :
      (ss : List Source) (now : ℕ) (m : HealthMonitor) (w : W)
      → (All (IsInTime now) ss
          × (poll_sources ports ss now m w ≡ ((ports.feed w).0, m, (ports.feed w).1)))
        ⊎ (Overdue now ss × (poll_sources ports ss now m w ≡ recover ports now m w))
  unfolding poll_sources
  poll_sources_lem [] now m w = inl (tt, refl)
  poll_sources_lem (s ∷ ss) now m w = elim (Bool-cases (overdue now s)) [
    | inl e ↦ inr (here (ground arith), ground arith)
    | inr e ↦ elim (poll_sources_lem ss now m w) [
      | inl (in_time, h) ↦ inl ((λ mandatory. ground arith, in_time), ground arith)
      | inr (late, h) ↦ inr (there late, ground arith)
    ]
  ]

  -- A poll feeds the watchdog exactly where every mandatory source of those added is within its
  -- deadline, and returns what the watchdog returned. Where one is late, the watchdog is not
  -- touched, the result is `not_ready`, and a reboot is requested if the last request is at least
  -- 600000 ms back.
  pub poll_lem :
      (now : ℕ) (m : HealthMonitor) (w : W)
      → (All (IsInTime now) (take m.count m.sources)
          × (poll ports now m w ≡ ((ports.feed w).0, m, (ports.feed w).1)))
        ⊎ (Overdue now (take m.count m.sources)
            × (poll ports now m w ≡ (
                if leb 600000 (sub32 now m.last_reboot_request)
                then (
                  not_ready,
                  record m { last_reboot_request = now },
                  (ports.request_reboot 1 w).1,
                )
                else (not_ready, m, w))))
  unfolding poll recover
  poll_lem now m w = poll_sources_lem (take m.count m.sources) now m w
