-- ===== src/Services/Provisioning/Calls.antt =====
-- ProvisioningService over a configuration store that refuses values above its capacity.
use agile_firmware_framework.Prelude.{
  ℕ, ◌+◌, ◌<◌, ◌≡◌, false, ◌&&◌, not, List, [], ◌∷◌, leb, Bool-cases, inl, inr, arith,
}
use agile_firmware_framework.Prelude.Words.{u8, sub32}
use agile_firmware_framework.Uhal.{is_ok, is_busy}
use agile_firmware_framework.Services.Limits.{config_value_capacity}
use agile_firmware_framework.Services.Provisioning.{
  credentials_size, credentials_key, ProvisioningPorts, ProvisioningService, is_open, is_validating,
  is_provisioned, is_not_found, clear_pending, fail_attempt, start, stop, receive, validate, poll,
  factory_reset,
}

pub data Call : Type 0 where
  call_start call_poll : ℕ → Call
  call_stop call_reset : Call

unfoldable pub run :
    {W : Type 0}
    → ProvisioningPorts W
    → List Call
    → ProvisioningService
    → W
    → ProvisioningService × W
run ports [] s w = (s, w)
run ports (call_start now ∷ cs) s w =
    let (status, s', w') = start ports now s w in run ports cs s' w'
run ports (call_poll now ∷ cs) s w = let (s', w') = poll ports now s w in run ports cs s' w'
run ports (call_stop ∷ cs) s w = let (status, s', w') = stop ports s w in run ports cs s' w'
run ports (call_reset ∷ cs) s w =
    let (status, s', w') = factory_reset ports s w in run ports cs s' w'

-- The store refuses a value above ConfigService's capacity, as ConfigService does.
abbrev pub IsBounded : {W : Type 0} → ProvisioningPorts W → Type 0
IsBounded {W} ports =
    (key value : List ℕ) (n : ℕ) (w : W)
    → config_value_capacity < n
    → is_ok (ports.store_set_blob key value n w).0 ≡ false

-- The service is not provisioned.
abbrev pub IsOutside : ProvisioningService → Type 0
IsOutside s = is_provisioned s.state ≡ false

module _ {W : Type 0} (ports : ProvisioningPorts W) (bounded : IsBounded ports) where
  start-IsOutside :
      (now : ℕ) (s : ProvisioningService) (w : W) → IsOutside s → IsOutside (start ports now s w).1
  unfolding start
  start-IsOutside now s w h = elim (Bool-cases (is_ok (ports.portal_opens s.timeout_ms w).0)) [
    | inl e ↦ rw e
    | inr e ↦ simp e h
  ]

  stop-IsOutside : (s : ProvisioningService) (w : W) → IsOutside s → IsOutside (stop ports s w).1
  unfolding stop clear_pending
  stop-IsOutside s w h = elim (Bool-cases (is_ok (ports.portal_close w).0)) [
    | inl e ↦ simp (e, h)
    | inr e ↦ simp e h
  ]

  fail-IsOutside : (s : ProvisioningService) → IsOutside (fail_attempt s)
  unfolding fail_attempt
  fail-IsOutside s = elim (Bool-cases (leb 3 (u8 (s.failures + 1)))) [ inl e ↦ rw e | inr e ↦ rw e ]

  receive-IsOutside :
      (s : ProvisioningService) (w : W) → IsOutside s → IsOutside (receive ports s w).0
  unfolding receive
  receive-IsOutside s w h = elim (Bool-cases (is_open s.state && ports.portal_has w)) [
    | inl e ↦ elim (Bool-cases (is_ok (ports.portal_take s.pending w).0)) [
      | inl f ↦ simp (e, f)
      | inr f ↦ simp (e, f) h
    ]
    | inr e ↦ simp e h
  ]

  validate-IsOutside :
      (s : ProvisioningService) (w : W) → IsOutside s → IsOutside (validate ports s w).0
  unfolding validate
  validate-IsOutside s w h = elim (Bool-cases (is_busy (ports.validator_validate s.pending w).0)) [
    | inl e ↦ simp e h
    | inr e ↦ elim (Bool-cases (is_ok (ports.validator_validate s.pending w).0)) [
      | inr f ↦ simp (e, f) (fail-IsOutside s)
      | inl f ↦
          simp
            (
              e,
              f,
              bounded credentials_key s.pending credentials_size
                  (ports.validator_validate s.pending w).1 (omega arith),
            )
            (fail-IsOutside s)
    ]
  ]

  poll-IsOutside :
      (now : ℕ) (s : ProvisioningService) (w : W) → IsOutside s → IsOutside (poll ports now s w).0
  unfolding poll
  poll-IsOutside now s w h =
      elim (Bool-cases (is_open s.state && leb s.timeout_ms (sub32 now s.opened_at))) [
        | inl e ↦ simp e (stop-IsOutside s w1 h)
        | inr e ↦ elim (Bool-cases (is_validating (receive ports s w1).0.state)) [
          | inl f ↦ simp (e, f) (validate-IsOutside _ _ (receive-IsOutside s w1 h))
          | inr f ↦ simp (e, f) (receive-IsOutside s w1 h)
        ]
      ]
    where
      w1 : W
      w1 = ports.portal_poll now w

  factory_reset-IsOutside :
      (s : ProvisioningService) (w : W) → IsOutside s → IsOutside (factory_reset ports s w).1
  unfolding factory_reset clear_pending
  factory_reset-IsOutside s w h =
      elim (Bool-cases (
        not (is_ok (ports.store_erase credentials_key w).0)
        && not (is_not_found (ports.store_erase credentials_key w).0))) [
          | inl e ↦ simp e h
          | inr e ↦
              elim (Bool-cases
                (is_ok (ports.store_commit (ports.store_erase credentials_key w).1).0)) [
                  | inl f ↦ simp (e, f)
                  | inr f ↦ simp (e, f) h
                ]
        ]

  -- Over a store that refuses values above ConfigService's 64 bytes, no calls bring a service that
  -- is not provisioned to the state `provisioned`, since its credentials take 130 bytes.
  pub run-IsOutside :
      (cs : List Call) (s : ProvisioningService) (w : W)
      → is_provisioned s.state ≡ false
      → is_provisioned (run ports cs s w).0.state ≡ false
  unfolding run
  run-IsOutside [] s w h = h
  run-IsOutside (call_start now ∷ cs) s w h = run-IsOutside cs _ _ (start-IsOutside now s w h)
  run-IsOutside (call_poll now ∷ cs) s w h = run-IsOutside cs _ _ (poll-IsOutside now s w h)
  run-IsOutside (call_stop ∷ cs) s w h = run-IsOutside cs _ _ (stop-IsOutside s w h)
  run-IsOutside (call_reset ∷ cs) s w h = run-IsOutside cs _ _ (factory_reset-IsOutside s w h)
