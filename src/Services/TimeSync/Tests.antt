-- ===== src/Services/TimeSync/Tests.antt =====
-- A source that gives a time of 2023, over a world that holds the clock.
use agile_firmware_framework.Prelude.{ℕ, ◌<◌, true, List, [], ◌∷◌, arith}
use agile_firmware_framework.Uhal.{ok}
use agile_firmware_framework.Services.TimeSync.{TimePorts, TimeSyncService, fresh_time_sync}
use agile_firmware_framework.Services.TimeSync.Clock.{Call, link_up, poll_at, run, run-IsKept}

abbrev ports : TimePorts ℕ
ports = record {
  request_sync = λ w. (ok, w);
  poll_source = λ now w. w;
  has_result = λ w. true;
  take_utc = λ utc w. (ok, 1700000000, w);
  set_utc = λ utc w. (ok, utc);
  system_utc = λ w. w;
}

abbrev script : List Call
script = link_up 0 ∷ poll_at 10 ∷ poll_at 20 ∷ []

run-IsKept_example : 1600000000 < (run ports script fresh_time_sync 1650000000).1
run-IsKept_example =
    run-IsKept ports (λ w. 1600000000 < w)
      ((λ w h. h), (λ now w h. h), (λ w h. h), (λ w h given late. omega arith)) script
      fresh_time_sync 1650000000 (omega arith)

abbrev waiting : TimeSyncService
waiting = record fresh_time_sync { requested = true }
