-- ===== src/Services/Health.antt =====
-- components/services/health_monitor: HealthMonitor, which feeds the watchdog while every mandatory
-- source checks in within its deadline.
pub mod Watchdog
pub mod Reboots
mod Tests
use agile_firmware_framework.Prelude.{
  ℕ, ◌+◌, Bool, true, false, ◌&&◌, ◌||◌, Option, none, some, List, [], ◌∷◌, get_or, set, take,
  replicate, length, ltb, leb, ◌==◌, if◌then◌else◌,
}
use agile_firmware_framework.Prelude.Copy.{copy}
use agile_firmware_framework.Prelude.Words.{sub32, add_size}
use agile_firmware_framework.Uhal.{Status, ok, no_resources, not_ready}
use agile_firmware_framework.Services.Limits.{health_source_capacity}
use agile_firmware_framework.Services.Text.{Text, c_text}

pub record Source : Type 0 where
  pub used : Bool
  pub mandatory : Bool
  pub name : List ℕ
  pub deadline_ms : ℕ
  pub last_checkin : ℕ

pub record HealthMonitor : Type 0 where
  pub sources : List Source
  pub count : ℕ
  pub last_reboot_request : ℕ

-- The watchdog and the recovery action, which have their state in `W`.
pub record HealthPorts (W : Type 0) : Type 0 where
  pub feed : W → Status × W
  pub request_reboot : ℕ → W → Status × W

abbrev pub blank_source : Source
blank_source = record {
  used = false;
  mandatory = false;
  name = replicate 16 0;
  deadline_ms = 0;
  last_checkin = 0;
}

abbrev pub fresh_monitor : HealthMonitor
fresh_monitor = record {
  sources = replicate health_source_capacity blank_source;
  count = 0;
  last_reboot_request = 0;
}

-- The loop that copies a name: 15 characters at most, then the terminator.
abbrev pub write_name : List ℕ → List ℕ → List ℕ
write_name text name = let n = length (c_text 15 text) in set (copy n text name) n 0

abbrev pub filled_source : List ℕ → ℕ → Bool → Source → Source
filled_source text deadline mandatory s = record s {
  used = true;
  mandatory = mandatory;
  deadline_ms = deadline;
  name = write_name text s.name;
}

unfoldable pub add_source : Text → ℕ → Bool → HealthMonitor → Status × HealthMonitor
add_source none deadline mandatory m = (no_resources, m)
add_source (some text) deadline mandatory m =
    if leb health_source_capacity m.count then (no_resources, m) else (
      ok,
      record m {
        sources =
            set m.sources m.count
              (filled_source text deadline mandatory (get_or m.sources m.count blank_source));
        count = add_size m.count 1;
      },
    )

unfoldable pub check_in : ℕ → ℕ → HealthMonitor → HealthMonitor
check_in index now m =
    if ltb index m.count
    then record m {
      sources =
          set m.sources index (record (get_or m.sources index blank_source) { last_checkin = now });
    }
    else m

abbrev pub overdue : ℕ → Source → Bool
overdue now s = s.mandatory && ltb s.deadline_ms (sub32 now s.last_checkin)

module _ {W : Type 0} (ports : HealthPorts W) where
  -- `poll` from a source that is overdue.
  unfoldable pub recover : ℕ → HealthMonitor → W → Status × HealthMonitor × W
  recover now m w =
      let (requested, w') = ports.request_reboot 1 w in
      if leb 600000 (sub32 now m.last_reboot_request)
      then (not_ready, record m { last_reboot_request = now }, w')
      else (not_ready, m, w)

  -- The loop of `poll` over the sources left.
  unfoldable pub poll_sources : List Source → ℕ → HealthMonitor → W → Status × HealthMonitor × W
  poll_sources [] now m w = let (status, w') = ports.feed w in (status, m, w')
  poll_sources (s ∷ ss) now m w =
      let rest = poll_sources ss now m w in if overdue now s then recover now m w else rest

  unfoldable pub poll : ℕ → HealthMonitor → W → Status × HealthMonitor × W
  poll now m w = poll_sources (take m.count m.sources) now m w
