-- ===== src/Protocols/Mqtt/Tests.antt =====
-- The topics of a device "d1" at the site "s", and its session.
use agile_firmware_framework.Prelude.{refl, true, false, some, [], ◌∷◌, replicate}
use agile_firmware_framework.Prelude.Strings.{characters}
use agile_firmware_framework.Protocols.Mqtt.{MqttTopics, SessionDescriptor, build_session}
use agile_firmware_framework.Protocols.Mqtt.Session.{Session, build_session_lem}

abbrev device : MqttTopics
device = record { site = some (115 ∷ 0 ∷ []); device = some (100 ∷ 49 ∷ []) }

abbrev session : SessionDescriptor
session = record { client_id = replicate 24 0; keepalive_s = 60; clean_session = true }

build_session_lem_example :
    Session session
      (characters (100 ∷ 49 ∷ 0 ∷ []))
      true
      false
      (build_session session (some (100 ∷ 49 ∷ 0 ∷ [])) true false)
build_session_lem_example = build_session_lem session (100 ∷ 49 ∷ 0 ∷ []) true false refl
