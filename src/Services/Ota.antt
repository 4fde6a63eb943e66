-- ===== src/Services/Ota.antt =====
-- components/services/ota_manager: OtaService, which downloads an image in chunks, checks it and
-- activates it.
pub mod Ports
pub mod Invariant
pub mod Calls
mod Tests
use agile_firmware_framework.Prelude.{
  ℕ, zero, suc, ◌+◌, ◌-◌, Bool, true, false, ◌||◌, not, List, [], ◌∷◌, take, drop, get_or,
  replicate, ltb, ◌==◌, if◌then◌else◌,
}
use agile_firmware_framework.Prelude.Words.{u32, add_size, sub32, add32}
use agile_firmware_framework.Uhal.{
  Status, ok, is_ok, is_busy, invalid_argument, io_error, not_ready,
}
use agile_firmware_framework.Services.Limits.{ota_chunk_bytes}
use agile_firmware_framework.Services.Ota.Ports.{OtaPorts}

pub data OtaState : Type 0 where
  idle downloading verifying ready_to_activate activating failed rolled_back : OtaState

pub record ImageManifest : Type 0 where
  pub version : List ℕ
  pub size_bytes : ℕ
  pub digest : List ℕ
  pub signature : List ℕ
  pub key_id : ℕ

-- The object without the references to its ports.
pub record OtaService : Type 0 where
  pub manifest : ImageManifest
  pub chunk : List ℕ
  pub received : ℕ
  pub requested : Bool
  pub state : OtaState

abbrev pub is_idle : OtaState → Bool
is_idle idle = true
is_idle _ = false

abbrev pub is_downloading : OtaState → Bool
is_downloading downloading = true
is_downloading _ = false

abbrev pub is_ready : OtaState → Bool
is_ready ready_to_activate = true
is_ready _ = false

-- The loop that compares the first bytes of the two digests.
unfoldable pub digest_equal : ℕ → List ℕ → List ℕ → Bool
digest_equal zero calculated expected = true
digest_equal (suc n) calculated expected =
    let rest = digest_equal n (drop 1 calculated) (drop 1 expected) in
    if get_or calculated 0 0 == get_or expected 0 0 then rest else false

module _ {W : Type 0} (ports : OtaPorts W) where
  unfoldable pub fail : OtaService → W → OtaService × W
  fail s w = (record s { state = failed; requested = false }, ports.store_abort w)

  unfoldable pub offer : ImageManifest → OtaService → W → Status × OtaService × W
  offer m s w =
      let (begun, w1) = ports.store_begin m.size_bytes w in
      let (fresh, w2) = ports.digest_begin w1 in
      if not (is_idle s.state) || m.size_bytes == 0
      then (invalid_argument, s, w)
      else if not (is_ok begun)
      then (io_error, (fail s w1).0, (fail s w1).1)
      else if not (is_ok fresh)
      then (io_error, (fail s w2).0, (fail s w2).1)
      else (ok, record s { manifest = m; received = 0; requested = false; state = downloading }, w2)

  -- `poll` while no chunk is requested.
  unfoldable pub request_chunk : OtaService → W → OtaService × W
  request_chunk s w =
      let remaining = sub32 s.manifest.size_bytes s.received in
      let wanted = if ltb remaining ota_chunk_bytes then remaining else ota_chunk_bytes in
      let (status, w') = ports.fetcher_request s.received wanted w in
      if is_ok status || is_busy status then (record s { requested = true }, w') else fail s w'

  -- `poll` from the state `verifying` on.
  unfoldable pub verify_image : OtaService → W → OtaService × W
  verify_image s w =
      let (finished, calculated, w1) = ports.digest_finish (replicate 32 0) w in
      let (verified, w2) =
        ports.verifier_verify calculated s.manifest.signature s.manifest.key_id w1 in
      let (closed, w3) = ports.store_finish w2 in
      if not (is_ok finished)
      then fail s w1
      else if not (digest_equal 32 calculated s.manifest.digest)
      then fail s w1
      else if not (is_ok verified)
      then fail s w2
      else if not (is_ok closed)
      then fail s w3
      else (record s { state = ready_to_activate }, w3)

  -- `poll` after a chunk of `size` bytes was stored.
  unfoldable pub advance : ℕ → OtaService → W → OtaService × W
  advance size s w =
      let received = add32 s.received (u32 size) in
      if not (received == s.manifest.size_bytes)
      then (record s { received = received; requested = false }, w)
      else verify_image (record s { received = received; requested = false; state = verifying }) w

  -- `poll` on a chunk that `take` handed over.
  unfoldable pub store_chunk : ℕ → OtaService → W → OtaService × W
  store_chunk size s w =
      let (written, w1) = ports.store_write s.received (take size s.chunk) w in
      let (updated, w2) = ports.digest_update (take size s.chunk) w1 in
      if size == 0 || ltb s.manifest.size_bytes (add_size s.received size)
      then fail s w
      else if not (is_ok written)
      then fail s w1
      else if not (is_ok updated)
      then fail s w2
      else advance size s w2

  -- `poll` while a chunk is requested.
  unfoldable pub take_chunk : OtaService → W → OtaService × W
  take_chunk s w =
      let (taken, chunk, size, w1) = ports.fetcher_take s.chunk ota_chunk_bytes 0 w in
      if is_busy taken
      then (record s { chunk = chunk }, w1)
      else if not (is_ok taken)
      then fail (record s { chunk = chunk }) w1
      else store_chunk size (record s { chunk = chunk }) w1

  unfoldable pub poll : ℕ → OtaService → W → OtaService × W
  poll now s w =
      let w1 = ports.fetcher_poll now w in
      if not (is_downloading s.state)
      then (s, w)
      else if not s.requested
      then request_chunk s w1
      else take_chunk s w1

  unfoldable pub activate : OtaService → W → Status × OtaService × W
  activate s w =
      let (status, w') = ports.boot_activate_staged w in
      let s' = record s { state = activating } in
      if not (is_ready s.state)
      then (not_ready, s, w)
      else if not (is_ok status)
      then (status, (fail s' w').0, (fail s' w').1)
      else (status, s', w')

  unfoldable pub cancel : OtaService → W → OtaService × W
  cancel s w = (record s { state = idle; received = 0; requested = false }, ports.store_abort w)
