-- ===== src/Services/Health/Reboots.antt =====
-- How often a HealthMonitor asks for a reboot.
use agile_firmware_framework.Prelude.{
  ℕ, ◌*◌, ◌≤◌, ◌≡◌, suc, refl, Bool, none, some, List, [], ◌∷◌, leb, Bool-cases, inl, inr, arith,
}
use agile_firmware_framework.Prelude.Words.{sub32, IsU32}
use agile_firmware_framework.Services.Text.{Text}
use agile_firmware_framework.Services.Health.{
  HealthMonitor, HealthPorts, fresh_monitor, add_source, check_in, poll,
}
use agile_firmware_framework.Services.Health.Watchdog.{poll_lem}

-- The public calls.
pub data Call : Type 0 where
  add : Text → ℕ → Bool → Call
  check : ℕ → ℕ → Call
  poll_at : ℕ → Call

module _ {W : Type 0} (ports : HealthPorts W) where
  abbrev pub call : Call → HealthMonitor → W → HealthMonitor × W
  call (add name deadline mandatory) m w = ((add_source name deadline mandatory m).1, w)
  call (check index now) m w = (check_in index now m, w)
  call (poll_at now) m w = let (status, m', w') = poll ports now m w in (m', w')

  abbrev pub run : List Call → HealthMonitor → W → HealthMonitor × W
  run [] m w = (m, w)
  run (c ∷ cs) m w = let (m', w') = call c m w in run cs m' w'

-- The polls happen in the order of their times, from `t` on, before the clock wraps.
abbrev pub IsTimed : ℕ → List Call → Type 0
IsTimed t [] = Unit
IsTimed t (poll_at now ∷ cs) = (t ≤ now) × IsU32 now × IsTimed now cs
IsTimed t (add name deadline mandatory ∷ cs) = IsTimed t cs
IsTimed t (check index now ∷ cs) = IsTimed t cs

abbrev pub last_poll : ℕ → List Call → ℕ
last_poll t [] = t
last_poll t (poll_at now ∷ cs) = last_poll now cs
last_poll t (add name deadline mandatory ∷ cs) = last_poll t cs
last_poll t (check index now ∷ cs) = last_poll t cs

add_source-last_reboot_request :
    (name : Text) (deadline : ℕ) (mandatory : Bool) (m : HealthMonitor)
    → (add_source name deadline mandatory m).1.last_reboot_request ≡ m.last_reboot_request
unfolding add_source
add_source-last_reboot_request none deadline mandatory m = refl
add_source-last_reboot_request (some text) deadline mandatory m = ground arith

check_in-last_reboot_request :
    (index now : ℕ) (m : HealthMonitor)
    → (check_in index now m).last_reboot_request ≡ m.last_reboot_request
unfolding check_in
check_in-last_reboot_request index now m = ground arith

module _ {W : Type 0} (ports : HealthPorts W) (requests : W → ℕ) where
  -- `requests` counts the requests to reboot.
  abbrev pub IsCounted : Type 0
  IsCounted =
      ((w : W) → requests (ports.feed w).1 ≡ requests w)
      × ((reason : ℕ) (w : W) → requests (ports.request_reboot reason w).1 ≡ suc (requests w))

  Spaced : ℕ → HealthMonitor → W → Type 0
  Spaced t m w = (requests w * 600000 ≤ m.last_reboot_request) × (m.last_reboot_request ≤ t)

  poll-Spaced :
      IsCounted
      → (t now : ℕ) (m : HealthMonitor) (w : W) → t ≤ now
      → IsU32 now
      → Spaced t m w
      → Spaced now (poll ports now m w).1 (poll ports now m w).2
  unfolding Spaced
  poll-Spaced counted t now m w after small v = elim (poll_lem ports now m w) [
    | inl (in_time, e) ↦ simp (e, counted.0 w) (v.0, omega (arith, v.1))
    | inr (late, e) ↦ elim (Bool-cases (leb 600000 (sub32 now m.last_reboot_request))) [
      | inl f ↦ simp (e, f, counted.1 1 w) (ground (arith, v.0, v.1), omega arith)
      | inr f ↦ simp (e, f) (v.0, omega (arith, v.1))
    ]
  ]

  run-Spaced :
      IsCounted
      → (cs : List Call) (t : ℕ) (m : HealthMonitor) (w : W) → IsTimed t cs
      → Spaced t m w
      → Spaced (last_poll t cs) (run ports cs m w).0 (run ports cs m w).1
  unfolding Spaced
  run-Spaced counted [] t m w timed v = v
  run-Spaced counted (add name deadline mandatory ∷ cs) t m w timed v =
      run-Spaced counted cs t (add_source name deadline mandatory m).1 w timed
        (simp (add_source-last_reboot_request name deadline mandatory m) v)
  run-Spaced counted (check index now ∷ cs) t m w timed v =
      run-Spaced counted cs t (check_in index now m) w timed
        (simp (check_in-last_reboot_request index now m) v)
  run-Spaced counted (poll_at now ∷ cs) t m w timed v =
      let (status, m', w') = poll ports now m w in
      run-Spaced counted cs now m' w' timed.2 (poll-Spaced counted t now m w timed.0 timed.1 v)

  -- From a fresh monitor on, whatever is added, checked in and polled, at most one reboot is
  -- requested for each 600000 ms up to the last poll, and none before 600000 ms. The polls come in
  -- the order of their times, and the clock does not wrap in between.
  pub run-requests :
      IsCounted
      → (cs : List Call) (w : W) → IsTimed 0 cs
      → requests w ≡ 0
      → requests (run ports cs fresh_monitor w).1 * 600000 ≤ last_poll 0 cs
  unfolding Spaced
  run-requests counted cs w timed none_yet =
      let v =
        run-Spaced counted cs 0 fresh_monitor w timed ((omega (arith, none_yet), omega arith)) in
      omega (arith, v.0, v.1)
