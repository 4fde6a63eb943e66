-- ===== src/Services/Offline/Contents.antt =====
-- What OfflineQueue::enqueue leaves in the queue.
use agile_firmware_framework.Prelude.{
  ℕ, ◌<◌, ◌≡◌, refl, ap, Bool, false, not, ◌||◌, List, [], ◌∷◌, ◌++◌, length, ltb, leb, ◌==◌,
  if◌then◌else◌, Bool-cases, inl, inr,
}
use agile_firmware_framework.Prelude.Words.{add32}
use agile_firmware_framework.Uhal.{Status, ok, no_resources}
use agile_firmware_framework.Libraries.RingBuffer.Refine.{
  IsValid, contents, length-contents, try_push-IsValid,
}
use agile_firmware_framework.Libraries.RingBuffer.Newest.{
  newest, try_push-contents, try_push_full, try_push-drop_oldest,
}
use agile_firmware_framework.Services.Limits.{topic_capacity, payload_capacity}
use agile_firmware_framework.Services.Text.{text_length_lem, c_text}
use agile_firmware_framework.Services.Messages.{MessageEnvelope, QueuedMessage, blank_queued}
use agile_firmware_framework.Services.Offline.{OfflineQueue, pack, push_queued, enqueue}

abbrev pub messages : ℕ → OfflineQueue → List QueuedMessage
messages depth q = contents depth blank_queued q.queue

-- A bounded queue of messages, with a count of those dropped: on a full one the oldest message makes
-- room where the caller allows it, else the new one is refused.
abbrev pub accept :
    ℕ → QueuedMessage → Bool → List QueuedMessage → ℕ → Status × List QueuedMessage × ℕ
accept depth m allow_drop q dropped =
    if not (length q == depth)
    then (ok, q ++ (m ∷ []), dropped)
    else if not allow_drop
    then (no_resources, q, dropped)
    else (ok, newest depth (q ++ (m ∷ [])), add32 dropped 1)

module _ (depth : ℕ) where
  push_queued_lem :
      0 < depth
      → (m : QueuedMessage) (allow_drop : Bool) (q : OfflineQueue)
      → IsValid depth blank_queued q.queue
      → let (status, q') = push_queued depth m allow_drop q in
        IsValid depth blank_queued q'.queue
        × ◌≡◌ {A = Status × List QueuedMessage × ℕ}
            (status, messages depth q', q'.dropped)
            (accept depth m allow_drop (messages depth q) q.dropped)
  unfolding push_queued
  push_queued_lem positive m allow_drop q v =
      let size = length-contents depth blank_queued q.queue in
      elim (Bool-cases (q.queue.count == depth)) [
        | inl e ↦
            let refused = try_push_full depth blank_queued m q.queue e in
            let again = try_push-drop_oldest depth blank_queued m q.queue v positive e in
            elim (Bool-cases allow_drop) [
              | inl f ↦
                  rw (refused, f, again.1, size, e)
                    (again.0, ap (λ l. (ok, l, add32 q.dropped 1)) again.2)
              | inr f ↦ rw (refused, f, size, e) (v, refl)
            ]
        | inr e ↦
            let pushed = try_push-contents depth blank_queued m q.queue v e in
            let room : length (messages depth q) == depth ≡ false = rw size e in
            rw (pushed.0, room)
              (
                try_push-IsValid depth blank_queued m q.queue v,
                ap (λ l. (ok, l, q.dropped)) pushed.1,
              )
      ]

  -- In a queue of positive depth, a message with more than 256 bytes of payload, or whose topic does
  -- not end within its array, is refused and changes nothing. Any other becomes the newest: on a full
  -- queue the oldest makes room for it, and is counted, where the caller allows that; else it is
  -- refused with `no_resources`. The queue stays well formed.
  pub enqueue_lem :
      0 < depth
      → (message : MessageEnvelope) (allow_drop : Bool) (q : OfflineQueue)
      → IsValid depth blank_queued q.queue
      → let (status, q') = enqueue depth message allow_drop q in
        let n = length (c_text topic_capacity message.topic) in
        IsValid depth blank_queued q'.queue
        × ◌≡◌ {A = Status × List QueuedMessage × ℕ}
            (status, messages depth q', q'.dropped)
            (if ltb payload_capacity message.payload.size || leb topic_capacity n
              then (no_resources, messages depth q, q.dropped)
              else accept depth (pack n message) allow_drop (messages depth q) q.dropped)
  unfolding enqueue
  enqueue_lem positive message allow_drop q v =
      let n = length (c_text topic_capacity message.topic) in
      rw (text_length_lem message.topic topic_capacity)
        (elim (Bool-cases (ltb payload_capacity message.payload.size)) [
          | inl e ↦ rw e (v, refl)
          | inr e ↦ elim (Bool-cases (leb topic_capacity n)) [
            | inl f ↦ rw (e, f) (v, refl)
            | inr f ↦ rw (e, f) (push_queued_lem positive (pack n message) allow_drop q v)
          ]
        ])
