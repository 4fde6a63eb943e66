-- ===== src/Services/Messages.antt =====
-- components/services/messaging: the messages that services exchange with a transport.
use agile_firmware_framework.Prelude.{ℕ, Bool, false, List, [], replicate}
use agile_firmware_framework.Services.Limits.{topic_capacity, payload_capacity}

pub data QosLevel : Type 0 where
  at_most_once at_least_once : QosLevel

-- A pointer and a size; `data` holds the bytes at the pointer.
pub record PayloadView : Type 0 where
  pub data_bytes : List ℕ
  pub size : ℕ

-- `topic` is the array of the TopicBuffer.
pub record MessageEnvelope : Type 0 where
  pub topic : List ℕ
  pub payload : PayloadView
  pub qos : QosLevel
  pub retain : Bool
  pub correlation_id : ℕ

abbrev pub blank_envelope : MessageEnvelope
blank_envelope = record {
  topic = replicate topic_capacity 0;
  payload = record { data_bytes = []; size = 0 };
  qos = at_most_once;
  retain = false;
  correlation_id = 0;
}

pub record QueuedMessage : Type 0 where
  pub topic : List ℕ
  pub payload : List ℕ
  pub payload_size : ℕ
  pub qos : QosLevel
  pub retain : Bool
  pub correlation_id : ℕ

abbrev pub blank_queued : QueuedMessage
blank_queued = record {
  topic = replicate topic_capacity 0;
  payload = replicate payload_capacity 0;
  payload_size = 0;
  qos = at_most_once;
  retain = false;
  correlation_id = 0;
}
