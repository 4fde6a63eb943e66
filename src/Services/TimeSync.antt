-- ===== src/Services/TimeSync.antt =====
-- components/services/time_sync: TimeSyncService, which sets the system's clock from a source of time.
pub mod Clock
mod Tests
use agile_firmware_framework.Prelude.{
  ℕ, ◌+◌, Bool, true, false, not, ◌&&◌, ◌||◌, ltb, leb, if◌then◌else◌,
}
use agile_firmware_framework.Prelude.Words.{add32, sub32, reached}
use agile_firmware_framework.Uhal.{Status, is_ok, is_busy}
use agile_firmware_framework.Libraries.Retry.{BackoffPolicy, default_policy, next_delay_ms, reset}

pub data TimeQuality : Type 0 where
  unsynced synced stale : TimeQuality

abbrev pub is_synced : TimeQuality → Bool
is_synced synced = true
is_synced _ = false

abbrev pub is_unsynced : TimeQuality → Bool
is_unsynced unsynced = true
is_unsynced _ = false

-- The source of time and the system's clock, over their state `W`. `take_utc` also gives what the
-- caller's variable holds then.
pub record TimePorts (W : Type 0) : Type 0 where
  pub request_sync : W → Status × W
  pub poll_source : ℕ → W → W
  pub has_result : W → Bool
  pub take_utc : ℕ → W → Status × ℕ × W
  pub set_utc : ℕ → W → Status × W
  pub system_utc : W → ℕ

pub record TimeSyncService : Type 0 where
  pub backoff : BackoffPolicy
  pub quality : TimeQuality
  pub retry_at : ℕ
  pub last_sync_ms : ℕ
  pub requested : Bool

abbrev pub fresh_time_sync : TimeSyncService
fresh_time_sync = record {
  backoff = default_policy;
  quality = unsynced;
  retry_at = 0;
  last_sync_ms = 0;
  requested = false;
}

unfoldable pub on_connectivity_up : ℕ → TimeSyncService → TimeSyncService
on_connectivity_up now s = record s { retry_at = now; requested = false }

-- The next attempt after the delay of the backoff.
unfoldable pub retry_later : ℕ → TimeSyncService → TimeSyncService
unfolding next_delay_ms
retry_later now s =
    let (delay, b) = next_delay_ms s.backoff in record s { retry_at = add32 now delay; backoff = b }

-- `poll` where the time is older than a day.
unfoldable pub age : ℕ → TimeSyncService → TimeSyncService
age now s =
    if is_synced s.quality && leb 86400000 (sub32 now s.last_sync_ms)
    then record s { quality = stale }
    else s

module _ {W : Type 0} (ports : TimePorts W) where
  -- `poll` while a result is there.
  unfoldable pub take_result : ℕ → TimeSyncService → W → TimeSyncService × W
  unfolding retry_later reset
  take_result now s w =
      let (result, utc, w1) = ports.take_utc 0 w in
      let (written, w2) = ports.set_utc utc w1 in
      if is_ok result && ltb 1577836800 utc
      then (
        record s {
          requested = false;
          quality = synced;
          last_sync_ms = now;
          backoff = reset s.backoff;
          retry_at = add32 now 21600000;
        },
        w2,
      )
      else (retry_later now (record s { requested = false }), w1)

  -- `poll` where the next request is due.
  unfoldable pub request : ℕ → TimeSyncService → W → TimeSyncService × W
  unfolding retry_later
  request now s w =
      let (status, w') = ports.request_sync w in
      if is_ok status || is_busy status
      then (record s { requested = true }, w')
      else (retry_later now s, w')

  -- `poll` up to the result that may be there.
  unfoldable pub collect : ℕ → TimeSyncService → W → TimeSyncService × W
  collect now s w = if s.requested && ports.has_result w then take_result now s w else (s, w)

  -- `poll` from the next request on.
  unfoldable pub ask : ℕ → TimeSyncService → W → TimeSyncService × W
  ask now s w = if not s.requested && reached now s.retry_at then request now s w else (s, w)

  unfoldable pub poll : ℕ → TimeSyncService → W → TimeSyncService × W
  unfolding age
  poll now s w = let (s', w') = collect now s (ports.poll_source now w) in ask now (age now s') w'

  unfoldable pub utc_now : TimeSyncService → W → ℕ
  utc_now s w = if is_unsynced s.quality then 0 else ports.system_utc w
