-- ===== src/Services/TimeSync/Clock.antt =====
-- What TimeSyncService sets the clock to, and what its quality means.
use agile_firmware_framework.Prelude.{
  ℕ, ◌<◌, ◌≤◌, ◌≡◌, ◌≢◌, true, not, ◌&&◌, ◌||◌, List, [], ◌∷◌, ltb, Bool-cases, inl, inr, arith,
}
use agile_firmware_framework.Prelude.Words.{sub32, reached}
use agile_firmware_framework.Uhal.{ok, is_ok, is_ok→eq, is_busy}
use agile_firmware_framework.Services.TimeSync.{
  TimeQuality, synced, stale, TimePorts, TimeSyncService, on_connectivity_up, age, take_result,
  collect, ask, request, poll,
}

-- The calls that change the service.
pub data Call : Type 0 where
  link_up : ℕ → Call
  poll_at : ℕ → Call

module _ {W : Type 0} (ports : TimePorts W) where
  abbrev pub call : Call → TimeSyncService → W → TimeSyncService × W
  call (link_up now) s w = (on_connectivity_up now s, w)
  call (poll_at now) s w = poll ports now s w

  abbrev pub run : List Call → TimeSyncService → W → TimeSyncService × W
  run [] s w = (s, w)
  run (c ∷ cs) s w = let (s', w') = call c s w in run cs s' w'

-- `IsKept` holds of a world as long as no one sets the clock but to a time after 2020-01-01 that
-- `take_utc` gave with `ok`.
module _ {W : Type 0} (ports : TimePorts W) (IsKept : W → Type 0) where
  abbrev pub IsSourceSafe : Type 0
  IsSourceSafe =
      ((w : W) → IsKept w → IsKept (ports.request_sync w).1)
      × ((now : ℕ) (w : W) → IsKept w → IsKept (ports.poll_source now w))
      × ((w : W) → IsKept w → IsKept (ports.take_utc 0 w).2)
      × ((w : W)
          → IsKept w
          → (ports.take_utc 0 w).0 ≡ ok
          → 1577836800 < (ports.take_utc 0 w).1
          → IsKept (ports.set_utc (ports.take_utc 0 w).1 (ports.take_utc 0 w).2).1)

  take_result-IsKept :
      IsSourceSafe
      → (now : ℕ) (s : TimeSyncService) (w : W) → IsKept w
      → IsKept (take_result ports now s w).1
  unfolding take_result
  take_result-IsKept (asked, polled, taken, written) now s w h =
      elim (Bool-cases (is_ok (ports.take_utc 0 w).0)) [
        | inl e ↦ elim (Bool-cases (ltb 1577836800 (ports.take_utc 0 w).1)) [
          | inl f ↦ rw (e, f) (written w h (is_ok→eq (ports.take_utc 0 w).0 e) (ground arith))
          | inr f ↦ rw (e, f) (taken w h)
        ]
        | inr e ↦ rw e (taken w h)
      ]

  collect-IsKept :
      IsSourceSafe
      → (now : ℕ) (s : TimeSyncService) (w : W) → IsKept w
      → IsKept (collect ports now s w).1
  unfolding collect
  collect-IsKept safe now s w h = elim (Bool-cases (s.requested && ports.has_result w)) [
    | inl e ↦ simp e (take_result-IsKept safe now s w h)
    | inr e ↦ simp e h
  ]

  ask-IsKept :
      IsSourceSafe
      → (now : ℕ) (s : TimeSyncService) (w : W) → IsKept w
      → IsKept (ask ports now s w).1
  unfolding ask request
  ask-IsKept (asked, polled, taken, written) now s w h =
      elim (Bool-cases (not s.requested && reached now s.retry_at)) [
        | inl e ↦
            elim (Bool-cases (is_ok (ports.request_sync w).0 || is_busy (ports.request_sync w).0)) [
              | inl f ↦ simp (e, f) (asked w h)
              | inr f ↦ simp (e, f) (asked w h)
            ]
        | inr e ↦ simp e h
      ]

  poll-IsKept :
      IsSourceSafe
      → (now : ℕ) (s : TimeSyncService) (w : W) → IsKept w
      → IsKept (poll ports now s w).1
  unfolding poll
  poll-IsKept safe now s w h =
      let (s', w') = collect ports now s (ports.poll_source now w) in
      ask-IsKept safe now (age now s') w'
        (collect-IsKept safe now s (ports.poll_source now w) (safe.1 now w h))

  -- A predicate of the world that survives the calls of the source, and setting the clock to a time
  -- after 2020-01-01 that the source gave with `ok`, survives all calls of the service: it never
  -- sets the clock to anything else.
  pub run-IsKept :
      IsSourceSafe
      → (cs : List Call) (s : TimeSyncService) (w : W) → IsKept w
      → IsKept (run ports cs s w).1
  run-IsKept safe [] s w h = h
  run-IsKept safe (link_up now ∷ cs) s w h = run-IsKept safe cs (on_connectivity_up now s) w h
  run-IsKept safe (poll_at now ∷ cs) s w h =
      let (s', w') = poll ports now s w in run-IsKept safe cs s' w' (poll-IsKept safe now s w h)

-- What a day does to the time `quality` of a synchronisation at `last`: a synchronised time is stale
-- from a day on, and nothing else changes.
pub data Aged (now last : ℕ) : TimeQuality → TimeQuality → Type 0 where
  too_old : 86400000 ≤ sub32 now last → Aged now last synced stale
  in_time : sub32 now last < 86400000 → Aged now last synced synced
  not_synced : {q : TimeQuality} → q ≢ synced → Aged now last q q

module _ {W : Type 0} (ports : TimePorts W) where
  -- The source has a result of the request that was made: it gives, with `ok`, a time after
  -- 2020-01-01.
  abbrev pub IsAnswered : TimeSyncService → W → Type 0
  IsAnswered s w =
      (s.requested ≡ true)
      × (ports.has_result w ≡ true)
      × ((ports.take_utc 0 w).0 ≡ ok)
      × (1577836800 < (ports.take_utc 0 w).1)
