-- ===== src/Services/Security.antt =====
-- components/services/security_policy: SecurityPolicy, the roles that commands require and the
-- life of the device's credentials.
pub mod Commands
pub mod Credentials
mod Tests
use agile_firmware_framework.Prelude.{
  ℕ, Bool, true, false, ◌&&◌, ◌||◌, not, Option, none, some, List, [], ◌∷◌, set, replicate, leb,
  ◌==◌, if◌then◌else◌,
}
use agile_firmware_framework.Prelude.Copy.{copy}
use agile_firmware_framework.Uhal.{
  Status, ok, busy, unsupported, invalid_argument, not_found, no_resources, not_ready, denied,
}
use agile_firmware_framework.Services.Limits.{config_key_capacity, command_handler_capacity}
use agile_firmware_framework.Services.Text.{Text, text_length, text_equal}

pub data SecurityRole : Type 0 where
  guest operator_role administrator : SecurityRole

-- static_cast<std::uint8_t>(role)
abbrev pub role_code : SecurityRole → ℕ
role_code guest = 0
role_code operator_role = 1
role_code administrator = 2

pub data CredentialState : Type 0 where
  unset staged active rotating revoked : CredentialState

pub record Authorization : Type 0 where
  pub used : Bool
  pub command : List ℕ
  pub required_role : SecurityRole

-- The object without the reference to its verifier.
pub record SecurityPolicy : Type 0 where
  pub authorizations : List Authorization
  pub credential_state : CredentialState

abbrev pub blank_authorization : Authorization
blank_authorization = record {
  used = false;
  command = replicate config_key_capacity 0;
  required_role = administrator;
}

unfoldable pub fresh_policy : SecurityPolicy
fresh_policy = record {
  authorizations = replicate command_handler_capacity blank_authorization;
  credential_state = unset;
}

abbrev pub prefix : Authorization → Option (List Authorization) → Option (List Authorization)
prefix a none = none
prefix a (some table) = some (a ∷ table)

-- The first loop of `register_command`; `none` where it falls through.
unfoldable pub change_role : List Authorization → Text → SecurityRole → Option (List Authorization)
change_role [] command role = none
change_role (a ∷ table) command role =
    let rest = prefix a (change_role table command role) in
    if a.used && text_equal (some a.command) command config_key_capacity
    then some (record a { required_role = role } ∷ table)
    else rest

-- The second loop, with the bytes of the command and their number.
unfoldable pub add_role :
    List Authorization → List ℕ → ℕ → SecurityRole → Option (List Authorization)
add_role [] command size role = none
add_role (a ∷ table) command size role =
    let rest = prefix a (add_role table command size role) in
    if a.used
    then rest
    else some (
        record {
          used = true;
          command = set (copy size command a.command) size 0;
          required_role = role;
        }
        ∷ table)

abbrev pub or_else :
    Option (List Authorization) → Option (List Authorization) → Option (List Authorization)
or_else (some table) other = some table
or_else none other = other

abbrev pub store : Option (List Authorization) → SecurityPolicy → Status × SecurityPolicy
store (some table) p = (ok, record p { authorizations = table })
store none p = (no_resources, p)

unfoldable pub register_command : Text → SecurityRole → SecurityPolicy → Status × SecurityPolicy
register_command none role p = (invalid_argument, p)
register_command (some command) role p =
    let size = text_length (some command) config_key_capacity in
    if size == 0 || leb config_key_capacity size
    then (invalid_argument, p)
    else store
        (or_else (change_role p.authorizations (some command) role)
          (add_role p.authorizations command size role))
        p

-- The loop of `authorize`: the role that the first authorization of the command requires.
unfoldable pub required_role : List Authorization → Text → Option SecurityRole
required_role [] command = none
required_role (a ∷ table) command =
    if not a.used || not (text_equal (some a.command) command config_key_capacity)
    then required_role table command
    else some a.required_role

unfoldable pub authorize : Text → SecurityRole → SecurityPolicy → Status
authorize command actual p = elim (required_role p.authorizations command) [
  | none ↦ not_found
  | some required ↦ if leb (role_code required) (role_code actual) then ok else denied
]

abbrev pub may_stage : CredentialState → Bool
may_stage unset = true
may_stage rotating = true
may_stage _ = false

abbrev pub is_staged : CredentialState → Bool
is_staged staged = true
is_staged _ = false

unfoldable pub stage_credentials : SecurityPolicy → Status × SecurityPolicy
stage_credentials p =
    if not (may_stage p.credential_state)
    then (busy, p)
    else (ok, record p { credential_state = staged })

unfoldable pub activate_credentials : SecurityPolicy → Status × SecurityPolicy
activate_credentials p =
    if not (is_staged p.credential_state)
    then (not_ready, p)
    else (ok, record p { credential_state = active })

unfoldable pub begin_rotation : SecurityPolicy → SecurityPolicy
begin_rotation p = record p { credential_state = rotating }

unfoldable pub revoke_credentials : SecurityPolicy → SecurityPolicy
revoke_credentials p = record p { credential_state = revoked }

abbrev pub refuse_unsupported : Status → Status
refuse_unsupported unsupported = denied
refuse_unsupported status = status

-- `verify` is ISignatureVerifier's, over a state `W`.
unfoldable pub verify_image :
    {W : Type 0} → (List ℕ → List ℕ → ℕ → W → Status × W) → List ℕ → List ℕ → ℕ → W → Status × W
verify_image verify digest signature key_id w =
    let (status, w') = verify digest signature key_id w in (refuse_unsupported status, w')
