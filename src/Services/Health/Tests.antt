-- ===== src/Services/Health/Tests.antt =====
-- A monitor with one mandatory and one optional source, over a world that counts feeds and requests.
use agile_firmware_framework.Prelude.{
  ℕ, ◌*◌, ◌≤◌, ◌≡◌, suc, refl, true, false, some, List, [], ◌∷◌, All, ◌⊎◌, arith,
}
use agile_firmware_framework.Uhal.{ok, not_ready}
use agile_firmware_framework.Services.Health.{HealthMonitor, HealthPorts, fresh_monitor, poll}
use agile_firmware_framework.Services.Health.Watchdog.{IsInTime, Overdue, poll_lem}
use agile_firmware_framework.Services.Health.Reboots.{Call, add, check, poll_at, run, run-requests}

abbrev ports : HealthPorts (ℕ × ℕ)
ports = record {
  feed = λ w. (ok, (suc w.0, w.1));
  request_reboot = λ reason w. (ok, (w.0, suc w.1));
}

abbrev script : List Call
script =
    add (some (119 ∷ 0 ∷ [])) 1000 true
    ∷ add (some (98 ∷ 0 ∷ [])) 10 false
    ∷ check 0 500
    ∷ poll_at 600
    ∷ poll_at 700000
    ∷ poll_at 700100
    ∷ []

abbrev late_sensor : HealthMonitor
late_sensor = record {
  sources =
      record {
        used = true;
        mandatory = false;
        name = 98 ∷ 0 ∷ [];
        deadline_ms = 10;
        last_checkin = 0;
      }
      ∷ record {
        used = true;
        mandatory = true;
        name = 119 ∷ 0 ∷ [];
        deadline_ms = 1000;
        last_checkin = 500;
      }
      ∷ [];
  count = 2;
  last_reboot_request = 100000;
}

poll_lem_example :
    (All (IsInTime 800000) late_sensor.sources
      × (poll ports 800000 late_sensor (1, 1) ≡ (ok, late_sensor, (2, 1))))
    ⊎ (Overdue 800000 late_sensor.sources
        × (poll ports 800000 late_sensor (1, 1)
            ≡ (not_ready, record late_sensor { last_reboot_request = 800000 }, (1, 2))))
poll_lem_example = poll_lem ports 800000 late_sensor (1, 1)

run-requests_example : (run ports script fresh_monitor (0, 0)).1.1 * 600000 ≤ 700100
run-requests_example =
    run-requests ports (λ w. w.1) ((λ w. refl), (λ reason w. refl)) script (0, 0)
      (omega arith, omega arith, (omega arith, omega arith, (omega arith, omega arith, tt))) refl
