-- ===== src/Services/Offline/Tests.antt =====
-- A queue of two places, and a transport that keeps what it is given.
use agile_firmware_framework.Prelude.{
  ℕ, ◌≡◌, true, List, [], ◌∷◌, take, length, ltb, leb, ◌||◌, if◌then◌else◌, arith,
}
use agile_firmware_framework.Uhal.{Status, ok, no_resources}
use agile_firmware_framework.Libraries.RingBuffer.{empty_buffer}
use agile_firmware_framework.Libraries.RingBuffer.Refine.{IsValid, empty_buffer-IsValid}
use agile_firmware_framework.Services.Limits.{topic_capacity, payload_capacity}
use agile_firmware_framework.Services.Text.{c_text}
use agile_firmware_framework.Services.Messages.{
  MessageEnvelope, QueuedMessage, at_least_once, blank_queued,
}
use agile_firmware_framework.Services.Offline.{
  OfflineQueue, Transport, pack, unpack, empty_queue, enqueue, replay_one,
}
use agile_firmware_framework.Services.Offline.Contents.{messages, accept, enqueue_lem}
use agile_firmware_framework.Services.Offline.Replay.{unpack-pack, resend, replay_one_lem}

abbrev greeting : MessageEnvelope
greeting = record {
  topic = 97 ∷ 47 ∷ 98 ∷ 0 ∷ [];
  payload = record { data_bytes = 1 ∷ 2 ∷ 3 ∷ []; size = 2 };
  qos = at_least_once;
  retain = true;
  correlation_id = 77;
}

abbrev radio : Transport (List MessageEnvelope)
radio = record { publish = λ message sent. (ok, message ∷ sent); is_connected = λ sent. true }

enqueue_lem_example :
    let (status, q') = enqueue 2 greeting true (empty_queue 2) in
    let n = length (c_text topic_capacity greeting.topic) in
    IsValid 2 blank_queued q'.queue
    × ◌≡◌ {A = Status × List QueuedMessage × ℕ}
        (status, messages 2 q', q'.dropped)
        (if ltb payload_capacity greeting.payload.size || leb topic_capacity n
          then (no_resources, messages 2 (empty_queue 2), 0)
          else accept 2 (pack n greeting) true (messages 2 (empty_queue 2)) 0)
unfolding empty_queue empty_buffer
enqueue_lem_example =
    enqueue_lem 2 (omega arith) greeting true (empty_queue 2)
      (empty_buffer-IsValid 2 blank_queued (omega arith) (omega arith))

unpack-pack_example :
    let sent = unpack (pack (length (c_text topic_capacity greeting.topic)) greeting) in
    (c_text topic_capacity sent.topic ≡ c_text topic_capacity greeting.topic)
    × (sent.payload.size ≡ 2)
    × (take sent.payload.size sent.payload.data_bytes ≡ take 2 greeting.payload.data_bytes)
    × (sent.qos ≡ at_least_once)
    × (sent.retain ≡ true)
    × (sent.correlation_id ≡ 77)
unfolding c_text
unpack-pack_example = unpack-pack greeting (omega arith) (omega arith) (omega arith)

abbrev waiting : OfflineQueue
unfolding enqueue empty_queue
waiting = (enqueue 2 greeting true (empty_queue 2)).1

waiting-IsValid : IsValid 2 blank_queued waiting.queue
unfolding waiting empty_buffer
waiting-IsValid =
    (enqueue_lem 2 (omega arith) greeting true (empty_queue 2)
      (empty_buffer-IsValid 2 blank_queued (omega arith) (omega arith))).0

replay_one_lem_example :
    let (status, q', sent) = replay_one radio 2 waiting [] in
    IsValid 2 blank_queued q'.queue
    × ◌≡◌ {A = Status × List QueuedMessage × List MessageEnvelope}
        (status, messages 2 q', sent)
        (resend radio (messages 2 waiting) [])
replay_one_lem_example = replay_one_lem radio 2 waiting [] waiting-IsValid
