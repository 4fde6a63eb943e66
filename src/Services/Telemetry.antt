-- ===== src/Services/Telemetry.antt =====
-- components/services/telemetry: TelemetryService::publish_bool, which sends a Boolean measurement or
-- queues it. `replay_one` is in Services/Offline.
use agile_firmware_framework.Prelude.{
  ℕ, Bool, true, false, not, some, List, [], ◌∷◌, replicate, if◌then◌else◌,
}
use agile_firmware_framework.Prelude.Words.{add32}
use agile_firmware_framework.Uhal.{Status, ok, no_resources, is_ok}
use agile_firmware_framework.Libraries.Json.Writer.{
  JsonWriter, json_writer, both, begin_object, end_object, field_u32, field_bool,
}
use agile_firmware_framework.Protocols.Mqtt.{MqttTopics, telemetry, build}
use agile_firmware_framework.Services.Limits.{topic_capacity, payload_capacity}
use agile_firmware_framework.Services.Text.{Text}
use agile_firmware_framework.Services.Messages.{MessageEnvelope, at_most_once}
use agile_firmware_framework.Services.Offline.{OfflineQueue, Transport, enqueue}

-- "ts", "seq" and "value"
abbrev pub ts_key : List ℕ
ts_key = 116 ∷ 115 ∷ []

abbrev pub seq_key : List ℕ
seq_key = 115 ∷ 101 ∷ 113 ∷ []

abbrev pub measured_key : List ℕ
measured_key = 118 ∷ 97 ∷ 108 ∷ 117 ∷ 101 ∷ []

-- The object of a measurement.
unfoldable pub write_measurement : ℕ → ℕ → Bool → Bool × JsonWriter
write_measurement utc sequence value =
    both begin_object
      (both (field_u32 (some ts_key) utc) (
        both (field_u32 (some seq_key) sequence)
          (both (field_bool (some measured_key) value) end_object)))
      (json_writer (replicate payload_capacity 0) payload_capacity)

module _ {W : Type 0} (transport : Transport W) (depth : ℕ) where
  -- `publish_bool` from the message on.
  unfoldable pub hand_on : MessageEnvelope → OfflineQueue → W → Status × OfflineQueue × W
  hand_on message q w =
      let (status, w') = transport.publish message w in
      let (queued, q') = enqueue depth message true q in
      if not (transport.is_connected w)
      then (queued, q', w)
      else if not (is_ok status)
      then (queued, q', w')
      else (ok, q, w')

  unfoldable pub publish_bool :
      MqttTopics → Text → Bool → ℕ → ℕ → OfflineQueue → W → Status × ℕ × OfflineQueue × W
  publish_bool topics channel value utc sequence q w =
      let (written, writer) = write_measurement utc sequence value in
      let (built, topic) = build topics (replicate topic_capacity 0) telemetry channel in
      let (status, q', w') =
        hand_on
          (record {
            topic = topic;
            payload = record { data_bytes = writer.data_bytes; size = writer.position };
            qos = at_most_once;
            retain = false;
            correlation_id = 0;
          })
          q w in
      if not written
      then (no_resources, sequence, q, w)
      else if not (is_ok built)
      then (no_resources, sequence, q, w)
      else (status, add32 sequence 1, q', w')
