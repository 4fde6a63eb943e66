-- ===== src/Services/Provisioning.antt =====
-- components/services/provisioning: ProvisioningService, which takes network credentials from a
-- portal, has them validated and stores them.
pub mod Calls
mod Tests
use agile_firmware_framework.Prelude.{
  ℕ, ◌+◌, Bool, true, false, ◌&&◌, not, List, [], ◌∷◌, replicate, leb, if◌then◌else◌,
}
use agile_firmware_framework.Prelude.Words.{u8, sub32}
use agile_firmware_framework.Uhal.{Status, ok, is_ok, is_busy, not_found}

pub data ProvisioningState : Type 0 where
  unprovisioned portal_open validating provisioned failed : ProvisioningState

-- sizeof(NetworkCredentials): 33 + 65 + 32 bytes, without padding
abbrev pub credentials_size : ℕ
credentials_size = 130

-- "net.credentials"
abbrev pub credentials_key : List ℕ
credentials_key =
    110 ∷ 101 ∷ 116 ∷ 46 ∷ 99 ∷ 114 ∷ 101 ∷ 100 ∷ 101 ∷ 110 ∷ 116 ∷ 105 ∷ 97 ∷ 108 ∷ 115 ∷ 0 ∷ []

-- IProvisioningPortal, IProvisioningValidator and IConfigStore over a state `W`. `portal_take` gets
-- the caller's credentials and returns them as it leaves them.
pub record ProvisioningPorts (W : Type 0) : Type 0 where
  pub portal_opens : ℕ → W → Status × W
  pub portal_close : W → Status × W
  pub portal_poll : ℕ → W → W
  pub portal_has : W → Bool
  pub portal_take : List ℕ → W → Status × List ℕ × W
  pub validator_validate : List ℕ → W → Status × W
  pub store_set_blob : List ℕ → List ℕ → ℕ → W → Status × W
  pub store_erase : List ℕ → W → Status × W
  pub store_commit : W → Status × W

-- The object without the references to its ports; the credentials as the bytes of their struct.
pub record ProvisioningService : Type 0 where
  pub timeout_ms : ℕ
  pub pending : List ℕ
  pub state : ProvisioningState
  pub opened_at : ℕ
  pub failures : ℕ

abbrev pub is_open : ProvisioningState → Bool
is_open portal_open = true
is_open _ = false

abbrev pub is_validating : ProvisioningState → Bool
is_validating validating = true
is_validating _ = false

abbrev pub is_provisioned : ProvisioningState → Bool
is_provisioned provisioned = true
is_provisioned _ = false

abbrev pub is_not_found : Status → Bool
is_not_found not_found = true
is_not_found _ = false

unfoldable pub clear_pending : ProvisioningService → ProvisioningService
clear_pending s = record s { pending = replicate credentials_size 0 }

unfoldable pub fail_attempt : ProvisioningService → ProvisioningService
unfolding clear_pending
fail_attempt s =
    let count = u8 (s.failures + 1) in
    record (clear_pending s) {
      failures = count;
      state = if leb 3 count then failed else portal_open;
    }

module _ {W : Type 0} (ports : ProvisioningPorts W) where
  unfoldable pub start : ℕ → ProvisioningService → W → Status × ProvisioningService × W
  start now s w =
      let (status, w') = ports.portal_opens s.timeout_ms w in
      if is_ok status
      then (status, record s { state = portal_open; opened_at = now }, w')
      else (status, s, w')

  unfoldable pub stop : ProvisioningService → W → Status × ProvisioningService × W
  unfolding clear_pending
  stop s w =
      let s' = clear_pending s in
      let (status, w') = ports.portal_close w in
      if is_ok status && not (is_provisioned s.state)
      then (status, record s' { state = unprovisioned }, w')
      else (status, s', w')

  -- `poll` where the portal may have credentials.
  unfoldable pub receive : ProvisioningService → W → ProvisioningService × W
  receive s w =
      let (status, pending, w') = ports.portal_take s.pending w in
      if is_open s.state && ports.portal_has w
      then (
        if is_ok status
            then record s { pending = pending; state = validating }
            else record s { pending = pending },
        w',
      )
      else (s, w)

  -- `poll` while there are credentials to validate.
  unfoldable pub validate : ProvisioningService → W → ProvisioningService × W
  unfolding clear_pending
  validate s w =
      let (validation, w1) = ports.validator_validate s.pending w in
      let (stored, w2) = ports.store_set_blob credentials_key s.pending credentials_size w1 in
      let (committed, w3) = ports.store_commit w2 in
      let (closed, w4) = ports.portal_close w3 in
      if is_busy validation
      then (s, w1)
      else if not (is_ok validation)
      then (fail_attempt s, w1)
      else if not (is_ok stored)
      then (fail_attempt s, w2)
      else if not (is_ok committed)
      then (fail_attempt s, w3)
      else (record (clear_pending s) { state = provisioned; failures = 0 }, w4)

  unfoldable pub poll : ℕ → ProvisioningService → W → ProvisioningService × W
  poll now s w =
      let w1 = ports.portal_poll now w in
      let (stopped, s', w2) = stop s w1 in
      let (s1, w3) = receive s w1 in
      if is_open s.state && leb s.timeout_ms (sub32 now s.opened_at)
      then (s', w2)
      else if not (is_validating s1.state)
      then (s1, w3)
      else validate s1 w3

  unfoldable pub factory_reset : ProvisioningService → W → Status × ProvisioningService × W
  unfolding clear_pending
  factory_reset s w =
      let (erased, w1) = ports.store_erase credentials_key w in
      let (committed, w2) = ports.store_commit w1 in
      if not (is_ok erased) && not (is_not_found erased)
      then (erased, s, w1)
      else if is_ok committed
      then (committed, record (clear_pending s) { state = unprovisioned; failures = 0 }, w2)
      else (committed, s, w2)
