-- ===== src/Protocols/Mqtt.antt =====
-- components/protocols/mqtt: MqttTopics, which builds the topics of a device, and MqttSessionPolicy,
-- which describes a session.
pub mod Topics
pub mod Session
mod Tests
use agile_firmware_framework.Prelude.{
  ℕ, ◌+◌, Bool, true, false, not, ◌&&◌, ◌||◌, Option, none, some, List, [], ◌∷◌, get_or, set, leb,
  ◌==◌, if◌then◌else◌,
}
use agile_firmware_framework.Prelude.Words.{add_size}
use agile_firmware_framework.Uhal.{Status, ok, invalid_argument, no_resources}
use agile_firmware_framework.Services.Limits.{topic_capacity, device_id_capacity}
use agile_firmware_framework.Services.Text.{Text}

pub data MqttTopicKind : Type 0 where
  status state telemetry command_request command_response ota_request ota_event diagnostics :
      MqttTopicKind

-- The loop of `append`, and the terminator. The list holds the text's bytes; past it stands 0.
unfoldable pub append_text : ℕ → List ℕ → List ℕ → ℕ → Bool × List ℕ × ℕ
append_text cap [] out pos = (true, set out pos 0, pos)
append_text cap (c ∷ cs) out pos =
    let rest = append_text cap cs (set out pos c) (add_size pos 1) in
    if c == 0
    then (true, set out pos 0, pos)
    else if leb cap (add_size pos 1)
    then (false, out, pos)
    else rest

abbrev pub append : ℕ → Text → List ℕ → ℕ → Bool × List ℕ × ℕ
append cap none out pos = (false, out, pos)
append cap (some s) out pos = append_text cap s out pos

-- `append` for each of the texts, until one fails.
unfoldable pub append_all : List Text → List ℕ → ℕ → Bool × List ℕ × ℕ
append_all [] out pos = (true, out, pos)
append_all (t ∷ ts) out pos =
    let (done, out', pos') = append topic_capacity t out pos in
    let rest = append_all ts out' pos' in if done then rest else (false, out', pos')

-- The characters of "status", "state", "telemetry", "cmd/req", "cmd/res", "ota/req", "ota/evt" and
-- "diag".
abbrev pub suffix : MqttTopicKind → List ℕ
suffix status = 115 ∷ 116 ∷ 97 ∷ 116 ∷ 117 ∷ 115 ∷ []
suffix state = 115 ∷ 116 ∷ 97 ∷ 116 ∷ 101 ∷ []
suffix telemetry = 116 ∷ 101 ∷ 108 ∷ 101 ∷ 109 ∷ 101 ∷ 116 ∷ 114 ∷ 121 ∷ []
suffix command_request = 99 ∷ 109 ∷ 100 ∷ 47 ∷ 114 ∷ 101 ∷ 113 ∷ []
suffix command_response = 99 ∷ 109 ∷ 100 ∷ 47 ∷ 114 ∷ 101 ∷ 115 ∷ []
suffix ota_request = 111 ∷ 116 ∷ 97 ∷ 47 ∷ 114 ∷ 101 ∷ 113 ∷ []
suffix ota_event = 111 ∷ 116 ∷ 97 ∷ 47 ∷ 101 ∷ 118 ∷ 116 ∷ []
suffix diagnostics = 100 ∷ 105 ∷ 97 ∷ 103 ∷ []

pub record MqttTopics : Type 0 where
  pub site : Text
  pub device : Text

-- "asd/v1/" and "/"
abbrev pub topic_root : List ℕ
topic_root = 97 ∷ 115 ∷ 100 ∷ 47 ∷ 118 ∷ 49 ∷ 47 ∷ []

abbrev pub slash : List ℕ
slash = 47 ∷ []

abbrev pub base_parts : MqttTopics → MqttTopicKind → List Text
base_parts t kind =
    some topic_root ∷ t.site ∷ some slash ∷ t.device ∷ some slash ∷ some (suffix kind) ∷ []

abbrev pub has_channel : MqttTopicKind → Bool
has_channel state = true
has_channel telemetry = true
has_channel _ = false

-- The texts that `build` appends for a channel.
abbrev pub channel_parts : MqttTopicKind → Text → List Text
channel_parts kind none = []
channel_parts kind (some channel) = if has_channel kind then some slash ∷ some channel ∷ [] else []

unfoldable pub build : MqttTopics → List ℕ → MqttTopicKind → Text → Status × List ℕ
build t out kind channel =
    let (based, out1, p1) = append_all (base_parts t kind) (set out 0 0) 0 in
    let (ended, out2, p2) = append_all (channel_parts kind channel) out1 p1 in
    if not based
    then (no_resources, out1)
    else if not ended
    then (no_resources, out2)
    else (ok, out2)

pub record SessionDescriptor : Type 0 where
  pub client_id : List ℕ
  pub keepalive_s : ℕ
  pub clean_session : Bool

unfoldable pub build_session : SessionDescriptor → Text → Bool → Bool → Status × SessionDescriptor
build_session session none metered changed = (invalid_argument, session)
build_session session (some id) metered changed =
    let (copied, client_id, size) = append_text device_id_capacity id session.client_id 0 in
    if get_or id 0 0 == 0
    then (invalid_argument, session)
    else if not copied
    then (no_resources, record session { client_id = client_id })
    else (
      ok,
      record {
        client_id = client_id;
        keepalive_s = (if metered then 120 else 60);
        clean_session = changed;
      },
    )
