-- ===== src/Protocols/Mqtt/Session.antt =====
-- The session that MqttSessionPolicy::build describes.
use agile_firmware_framework.Prelude.{
  ℕ, ◌≤◌, ◌<◌, ◌≡◌, refl, Bool, false, some, List, [], ◌∷◌, length, ◌==◌, if◌then◌else◌, Bool-cases,
  inl, inr, ◌⊎◌, arith,
}
use agile_firmware_framework.Prelude.Strings.{characters}
use agile_firmware_framework.Uhal.{Status, ok, invalid_argument, no_resources}
use agile_firmware_framework.Services.Limits.{device_id_capacity}
use agile_firmware_framework.Protocols.Mqtt.{SessionDescriptor, append_text, build_session}
use agile_firmware_framework.Protocols.Mqtt.Topics.{Appended, ended, append_text_lem}

abbrev pub keepalive : Bool → ℕ
keepalive metered = if metered then 120 else 60

-- The outcomes of `build` for the identifier `id`.
unfoldable pub Session :
    SessionDescriptor → List ℕ → Bool → Bool → Status × SessionDescriptor → Type 0
Session session id metered changed out =
    ((tail : List ℕ) × (0 < length id)
      × (length id < device_id_capacity)
      × (out ≡ (
        ok,
        record {
          client_id = ended id tail;
          keepalive_s = keepalive metered;
          clean_session = changed;
        },
      )))
    ⊎ (((id ≡ []) × (out ≡ (invalid_argument, session)))
        ⊎ ((device_id_capacity ≤ length id)
            × (out.0 ≡ no_resources)
            × (out.1.keepalive_s ≡ session.keepalive_s)
            × (out.1.clean_session ≡ session.clean_session)))

copied :
    (room : List ℕ) (id : List ℕ)
    → length room ≡ device_id_capacity
    → Appended device_id_capacity [] (characters id) (append_text device_id_capacity id room 0)
copied [] id full = absurd (omega (arith, full))
copied (y ∷ ys) id full = append_text_lem device_id_capacity id [] y ys (omega arith) full

characters-pos : (c : ℕ) (cs : List ℕ) → (c == 0) ≡ false → 0 < length (characters (c ∷ cs))
unfolding characters
characters-pos c cs e = rw e (omega arith)

named :
    (c : ℕ) (cs : List ℕ) (session : SessionDescriptor) (metered changed : Bool)
    → (c == 0) ≡ false
    → length session.client_id ≡ device_id_capacity
    → Session session
        (characters (c ∷ cs))
        metered
        changed
        (build_session session (some (c ∷ cs)) metered changed)
unfolding build_session Session Appended
named c cs session metered changed e full = elim (copied session.client_id (c ∷ cs) full) [
  | inl (tail, fits, size, f) ↦ inl (tail, characters-pos c cs e, fits, rw (e, f) refl)
  | inr (long, f, size) ↦
      inr (inr (omega (arith, long), rw (e, f) refl, rw (e, f) refl, rw (e, f) refl))
]

-- With an identifier that is not empty and fits with its terminator into the 24 characters, the
-- session starts with exactly the identifier, and has the interval for a metered link or another
-- and a clean session where the identity changed. A longer identifier gives `no_resources`, an
-- empty one `invalid_argument`, and both leave interval and clean session as they were.
pub build_session_lem :
    (session : SessionDescriptor) (id : List ℕ) (metered changed : Bool)
    → length session.client_id ≡ device_id_capacity
    → Session session
        (characters id)
        metered
        changed
        (build_session session (some id) metered changed)
unfolding build_session characters Session
build_session_lem session [] metered changed full = inr (inl (refl, refl))
build_session_lem session (c ∷ cs) metered changed full = elim (Bool-cases (c == 0)) [
  | inl e ↦ rw e (inr (inl (refl, refl)))
  | inr e ↦ named c cs session metered changed e full
]
