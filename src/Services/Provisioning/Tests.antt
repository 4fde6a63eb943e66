-- ===== src/Services/Provisioning/Tests.antt =====
-- Provisioning with ConfigService as its store: a portal with credentials that are always valid.
use agile_firmware_framework.Prelude.{
  ℕ, ◌≡◌, refl, true, false, some, List, [], ◌∷◌, replicate, arith,
}
use agile_firmware_framework.Uhal.{ok}
use agile_firmware_framework.Services.Config.State.{ConfigService, fresh_service, set_blob, erase}
use agile_firmware_framework.Services.Provisioning.{
  ProvisioningPorts, ProvisioningService, unprovisioned, credentials_size, is_provisioned,
}
use agile_firmware_framework.Services.Provisioning.Calls.{
  call_start, call_poll, IsBounded, run, run-IsOutside,
}

abbrev credentials : List ℕ
credentials = replicate credentials_size 65

-- Its commits answer `ok`.
abbrev over_config : ProvisioningPorts ConfigService
over_config = record {
  portal_opens = λ timeout s. (ok, s);
  portal_close = λ s. (ok, s);
  portal_poll = λ now s. s;
  portal_has = λ s. true;
  portal_take = λ pending s. (ok, credentials, s);
  validator_validate = λ pending s. (ok, s);
  store_set_blob = λ key value n s. set_blob s (some key) (some value) n;
  store_erase = λ key s. erase s (some key);
  store_commit = λ s. (ok, s);
}

over_config-IsBounded : IsBounded over_config
unfolding set_blob
over_config-IsBounded key value n s h = ground arith

abbrev outside : ProvisioningService
outside = record {
  timeout_ms = 300000;
  pending = replicate credentials_size 0;
  state = unprovisioned;
  opened_at = 0;
  failures = 0;
}

run-IsOutside_example :
    is_provisioned
      (run over_config
        (call_start 0 ∷ call_poll 10 ∷ call_poll 20 ∷ [])
        outside
        fresh_service).0.state
    ≡ false
run-IsOutside_example =
    run-IsOutside over_config over_config-IsBounded
      (call_start 0 ∷ call_poll 10 ∷ call_poll 20 ∷ []) outside fresh_service refl
