-- ===== src/Services/Security/Tests.antt =====
-- The security policy at concrete inputs.
use agile_firmware_framework.Prelude.{
  ℕ, ◌≡◌, refl, ◌&&◌, some, List, [], ◌∷◌, All-replicate, leb, if◌then◌else◌, length,
}
use agile_firmware_framework.Prelude.Copy.{copy}
use agile_firmware_framework.Uhal.{ok, is_ok, denied}
use agile_firmware_framework.Services.Text.{same, text_length, text_equal}
use agile_firmware_framework.Services.Security.{
  operator_role, administrator, guest, Authorization, SecurityPolicy, revoked, blank_authorization,
  fresh_policy, register_command, change_role, add_role, required_role, authorize,
}
use agile_firmware_framework.Services.Security.Commands.{
  text, IsTable, register_status, authorize-register_command,
}
use agile_firmware_framework.Services.Security.Credentials.{
  call_register, call_authorize, call_stage, run, run-revoked,
}

-- "relay" with its terminator.
abbrev relay : List ℕ
relay = 114 ∷ 101 ∷ 108 ∷ 97 ∷ 121 ∷ 0 ∷ []

fresh_policy-IsTable : IsTable fresh_policy.authorizations
unfolding fresh_policy
fresh_policy-IsTable =
    All-replicate (λ (a : Authorization). length a.command ≡ 24) 16 blank_authorization refl

guest_denied :
    authorize (some relay) guest (register_command (some relay) operator_role fresh_policy).1
    ≡ denied
unfolding authorize register_command fresh_policy change_role add_role required_role text_length
    text_equal copy
guest_denied = refl

authorize-register_command_example :
    let (status, p') = register_command (some relay) operator_role fresh_policy in
    (status ≡ register_status relay fresh_policy.authorizations)
    × (authorize (some relay) administrator p' ≡ (
        if is_ok status && same (text relay) (text relay)
        then (if leb 1 2 then ok else denied)
        else authorize (some relay) administrator fresh_policy))
authorize-register_command_example =
    authorize-register_command relay relay operator_role administrator fresh_policy
      fresh_policy-IsTable

abbrev withdrawn : SecurityPolicy
withdrawn = record { authorizations = []; credential_state = revoked }

run-revoked_example :
    (run
      (call_register (some relay) guest ∷ call_stage ∷ call_authorize (some relay) guest ∷ [])
      withdrawn).credential_state
    ≡ revoked
run-revoked_example =
    run-revoked
      (call_register (some relay) guest ∷ call_stage ∷ call_authorize (some relay) guest ∷ [])
      withdrawn (refl, (refl, (refl, tt))) refl
