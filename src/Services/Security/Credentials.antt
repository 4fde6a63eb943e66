-- ===== src/Services/Security/Credentials.antt =====
-- The life of the credentials as a state machine.
use agile_firmware_framework.Prelude.{
  ◌≡◌, refl, ◌∙◌, true, false, ◌||◌, Option, none, some, List, [], ◌∷◌, All, Bool, Bool-cases, inl,
  inr, leb, ◌==◌,
}
use agile_firmware_framework.Services.Limits.{config_key_capacity}
use agile_firmware_framework.Services.Text.{Text, text_length}
use agile_firmware_framework.Uhal.{Status, ok}
use agile_firmware_framework.Services.Security.{
  SecurityRole, Authorization, or_else, store, change_role, add_role, register_command, authorize,
  revoked, SecurityPolicy, stage_credentials, activate_credentials, begin_rotation,
  revoke_credentials,
}

pub data Call : Type 0 where
  call_register call_authorize : Text → SecurityRole → Call
  call_stage call_activate call_rotate call_revoke : Call

unfoldable pub call : Call → SecurityPolicy → Status × SecurityPolicy
call (call_register command role) p = register_command command role p
call (call_authorize command role) p = (authorize command role p, p)
call call_stage p = stage_credentials p
call call_activate p = activate_credentials p
call call_rotate p = (ok, begin_rotation p)
call call_revoke p = (ok, revoke_credentials p)

unfoldable pub run : List Call → SecurityPolicy → SecurityPolicy
run [] p = p
run (c ∷ cs) p = run cs (call c p).1

abbrev pub is_rotate : Call → Bool
is_rotate call_rotate = true
is_rotate _ = false

-- The table of commands and the life of the credentials are apart.
store-credential_state :
    (table : Option (List Authorization)) (p : SecurityPolicy)
    → (store table p).1.credential_state ≡ p.credential_state
store-credential_state none p = refl
store-credential_state (some table) p = refl

register_command-credential_state :
    (command : Text) (role : SecurityRole) (p : SecurityPolicy)
    → (register_command command role p).1.credential_state ≡ p.credential_state
unfolding register_command
register_command-credential_state none role p = refl
register_command-credential_state (some command) role p =
    let size = text_length (some command) config_key_capacity in
    elim (Bool-cases (size == 0 || leb config_key_capacity size)) [
      | inl e ↦ simp e
      | inr e ↦ simp e (
          store-credential_state
            (or_else (change_role p.authorizations (some command) role)
              (add_role p.authorizations command size role))
            p)
    ]

stays-revoked :
    (c : Call) (p : SecurityPolicy)
    → is_rotate c ≡ false
    → p.credential_state ≡ revoked
    → (call c p).1.credential_state ≡ revoked
unfolding call stage_credentials activate_credentials begin_rotation revoke_credentials
stays-revoked (call_register command role) p h e =
    register_command-credential_state command role p ∙ e
stays-revoked (call_authorize command role) p h e = e
stays-revoked call_stage p h e = simp e
stays-revoked call_activate p h e = simp e
stays-revoked call_rotate p h e = cc
stays-revoked call_revoke p h e = refl

-- Revoked credentials stay revoked through any registrations and authorizations of commands and any
-- calls on the credentials (staging, activating, revoking) among which no rotation begins.
pub run-revoked :
    (cs : List Call) (p : SecurityPolicy)
    → All (λ c. is_rotate c ≡ false) cs
    → p.credential_state ≡ revoked
    → (run cs p).credential_state ≡ revoked
unfolding run
run-revoked [] p h e = e
run-revoked (c ∷ cs) p h e = run-revoked cs (call c p).1 h.1 (stays-revoked c p h.0 e)
