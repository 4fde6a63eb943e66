-- ===== src/Services/Offline.antt =====
-- components/services/offline_queue: OfflineQueue, which keeps messages while there is no connection,
-- and from components/services/telemetry TelemetryService::replay_one, which sends them later.
pub mod Contents
pub mod Replay
mod Tests
use agile_firmware_framework.Prelude.{
  ℕ, ◌+◌, Bool, true, false, not, Option, none, some, List, [], length, replicate, ltb, leb,
  if◌then◌else◌,
}
use agile_firmware_framework.Prelude.Copy.{copy}
use agile_firmware_framework.Prelude.Words.{u16, add32}
use agile_firmware_framework.Uhal.{Status, ok, is_ok, no_resources, not_ready, not_found}
use agile_firmware_framework.Libraries.RingBuffer.{
  RingBuffer, empty_buffer, try_push, peek, drop_oldest,
}
use agile_firmware_framework.Services.Limits.{topic_capacity, payload_capacity}
use agile_firmware_framework.Services.Text.{text_length, c_text}
use agile_firmware_framework.Services.Messages.{
  MessageEnvelope, QueuedMessage, blank_envelope, blank_queued,
}

pub record OfflineQueue : Type 0 where
  pub queue : RingBuffer QueuedMessage
  pub dropped : ℕ

-- `enqueue` up to the pushes: the message as it is queued, for a topic of `topic_size` characters.
abbrev pub pack : ℕ → MessageEnvelope → QueuedMessage
pack topic_size message = record {
  topic = copy topic_size message.topic (replicate topic_capacity 0);
  payload = copy message.payload.size message.payload.data_bytes (replicate payload_capacity 0);
  payload_size = u16 message.payload.size;
  qos = message.qos;
  retain = message.retain;
  correlation_id = message.correlation_id;
}

-- The template's depth.
module _ (depth : ℕ) where
  abbrev pub empty_queue : OfflineQueue
  unfolding empty_buffer
  empty_queue = record { queue = empty_buffer depth blank_queued; dropped = 0 }

  -- `enqueue` from the first push on.
  unfoldable pub push_queued : QueuedMessage → Bool → OfflineQueue → Status × OfflineQueue
  unfolding try_push drop_oldest
  push_queued queued allow_drop q =
      let (pushed, queue) = try_push depth blank_queued queued q.queue in
      let (again, queue') =
        try_push depth blank_queued queued (drop_oldest depth blank_queued queue).1 in
      if pushed
      then (ok, record q { queue = queue })
      else if not allow_drop
      then (no_resources, record q { queue = queue })
      else (
        (if again then ok else no_resources),
        record q { queue = queue'; dropped = add32 q.dropped 1 },
      )

  unfoldable pub enqueue : MessageEnvelope → Bool → OfflineQueue → Status × OfflineQueue
  unfolding text_length
  enqueue message allow_drop q =
      let topic_size = text_length (some message.topic) topic_capacity in
      if ltb payload_capacity message.payload.size
      then (no_resources, q)
      else if leb topic_capacity topic_size
      then (no_resources, q)
      else push_queued (pack topic_size message) allow_drop q

  unfoldable pub peek_queued : QueuedMessage → OfflineQueue → Bool × QueuedMessage
  unfolding peek
  peek_queued message q = peek depth blank_queued message q.queue

  unfoldable pub commit_front : OfflineQueue → OfflineQueue
  unfolding drop_oldest
  commit_front q = record q { queue = (drop_oldest depth blank_queued q.queue).1 }

-- The transport, which has its state in `W`.
pub record Transport (W : Type 0) : Type 0 where
  pub publish : MessageEnvelope → W → Status × W
  pub is_connected : W → Bool

-- The envelope that `replay_one` makes of a queued message.
unfoldable pub unpack : QueuedMessage → MessageEnvelope
unpack queued = record {
  topic = copy (length (c_text 95 queued.topic)) queued.topic (replicate topic_capacity 0);
  payload = record { data_bytes = queued.payload; size = queued.payload_size };
  qos = queued.qos;
  retain = queued.retain;
  correlation_id = queued.correlation_id;
}

module _ {W : Type 0} (transport : Transport W) (depth : ℕ) where
  unfoldable pub replay_one : OfflineQueue → W → Status × OfflineQueue × W
  unfolding unpack peek_queued commit_front
  replay_one q w =
      let (found, queued) = peek_queued depth blank_queued q in
      let (status, w') = transport.publish (unpack queued) w in
      if not (transport.is_connected w)
      then (not_ready, q, w)
      else if not found
      then (not_found, q, w)
      else (status, (if is_ok status then commit_front depth q else q), w')
