-- ===== src/Services/Offline/Replay.antt =====
-- What TelemetryService::replay_one sends of the queue.
use agile_firmware_framework.Prelude.{
  ℕ, ◌≤◌, ◌<◌, ◌≡◌, refl, ap, ◌∙◌, Bool, true, false, List, [], ◌∷◌, length, take, drop, get_or,
  replicate, if◌then◌else◌, Bool-cases, inl, inr, arith,
}
use agile_firmware_framework.Prelude.Copy.{copy, take-copy}
use agile_firmware_framework.Prelude.Words.{u16}
use agile_firmware_framework.Uhal.{Status, is_ok, not_ready, not_found}
use agile_firmware_framework.Libraries.RingBuffer.{RingBuffer, peek}
use agile_firmware_framework.Libraries.RingBuffer.Queue.{look, queue_step, buffer_step}
use agile_firmware_framework.Libraries.RingBuffer.Refine.{
  IsValid, contents, buffer_step_refines, drop_oldest-IsValid,
}
use agile_firmware_framework.Libraries.RingBuffer.Newest.{drop_oldest-contents}
use agile_firmware_framework.Services.Limits.{topic_capacity, payload_capacity}
use agile_firmware_framework.Services.Text.{c_text, c_text-copy_zeros, c_text-short}
use agile_firmware_framework.Services.Messages.{MessageEnvelope, QueuedMessage, blank_queued}
use agile_firmware_framework.Services.Offline.{
  OfflineQueue, Transport, pack, unpack, peek_queued, commit_front, replay_one,
}
use agile_firmware_framework.Services.Offline.Contents.{messages}

-- A message that the queue accepted is sent again as it was: with the text of its topic, its bytes,
-- quality of service, retain flag and correlation.
pub unpack-pack :
    (message : MessageEnvelope)
    → message.payload.size ≤ payload_capacity
    → message.payload.size ≤ length message.payload.data_bytes
    → length (c_text topic_capacity message.topic) < topic_capacity
    → let sent = unpack (pack (length (c_text topic_capacity message.topic)) message) in
      (c_text topic_capacity sent.topic ≡ c_text topic_capacity message.topic)
      × (sent.payload.size ≡ message.payload.size)
      × (take sent.payload.size sent.payload.data_bytes
          ≡ take message.payload.size message.payload.data_bytes)
      × (sent.qos ≡ message.qos)
      × (sent.retain ≡ message.retain)
      × (sent.correlation_id ≡ message.correlation_id)
unfolding unpack
unpack-pack message small backed ended =
    let n = length (c_text topic_capacity message.topic) in
    let queued = copy n message.topic (replicate topic_capacity 0) in
    let kept : c_text 96 queued ≡ c_text 96 message.topic =
      c_text-copy_zeros 96 96 message.topic (omega arith) in
    let short : c_text 95 queued ≡ c_text 96 queued =
      c_text-short 95 queued (omega (arith, ended, ap length kept)) in
    let fits : u16 message.payload.size ≡ message.payload.size = omega (arith, small) in
    (
      c_text-copy_zeros 95 96 queued (omega arith) ∙ short ∙ kept,
      fits,
      rw fits (
          take-copy message.payload.size message.payload.data_bytes (replicate 256 0) backed small),
      refl,
      refl,
      refl,
    )

-- Sends the oldest message, which is left where it could not be sent.
abbrev pub resend :
    {W : Type 0} → Transport W → List QueuedMessage → W → Status × List QueuedMessage × W
resend transport [] w = (not_found, [], w)
resend transport (m ∷ rest) w =
    let (status, w') = transport.publish (unpack m) w in
    (status, (if is_ok status then rest else m ∷ rest), w')

module _ {A : Type 0} (depth : ℕ) (blank : A) where
  peek_step :
      (v : A) (b : RingBuffer A)
      → IsValid depth blank b
      → ◌≡◌ {A = Bool × List A × List A}
          ((peek depth blank v b).0, (peek depth blank v b).1 ∷ [], contents depth blank b)
          (queue_step depth (look v) (contents depth blank b))
  unfolding buffer_step
  peek_step v b valid = buffer_step_refines depth blank (look v) b valid

  peek-empty :
      (v : A) (b : RingBuffer A)
      → IsValid depth blank b
      → contents depth blank b ≡ []
      → (peek depth blank v b).0 ≡ false
  unfolding queue_step
  peek-empty v b valid h = ap (λ r. r.0) (rw h at (peek_step v b valid))

  peek-first :
      (v : A) (b : RingBuffer A) (m : A) (rest : List A)
      → IsValid depth blank b
      → contents depth blank b ≡ m ∷ rest
      → ((peek depth blank v b).0 ≡ true) × ((peek depth blank v b).1 ≡ m)
  unfolding queue_step
  peek-first v b m rest valid h =
      let step = rw h at (peek_step v b valid) in
      (ap (λ r. r.0) step, ap (λ r. get_or r.1 0 m) step)

module _ {W : Type 0} (transport : Transport W) (depth : ℕ) where
  replay_messages :
      (l : List QueuedMessage) (q : OfflineQueue) (w : W)
      → IsValid depth blank_queued q.queue
      → messages depth q ≡ l
      → let (status, q', w') = replay_one transport depth q w in
        IsValid depth blank_queued q'.queue
        × ◌≡◌ {A = Status × List QueuedMessage × W}
            (status, messages depth q', w')
            (if transport.is_connected w then resend transport l w else (not_ready, l, w))
  unfolding replay_one peek_queued commit_front
  replay_messages l q w v h = elim (Bool-cases (transport.is_connected w)) [
    | inl e ↦ connected l h e
    | inr e ↦ rw e (v, ap (λ k. (not_ready, k, w)) h)
  ]
    where
      connected :
          (k : List QueuedMessage)
          → messages depth q ≡ k
          → transport.is_connected w ≡ true
          → let (status, q', w') = replay_one transport depth q w in
            IsValid depth blank_queued q'.queue
            × ◌≡◌ {A = Status × List QueuedMessage × W}
                (status, messages depth q', w')
                (if transport.is_connected w then resend transport k w else (not_ready, k, w))
      connected [] g e =
          let absent = peek-empty depth blank_queued blank_queued q.queue v g in
          rw (e, absent) (v, ap (λ k. (not_found, k, w)) g)
      connected (m ∷ rest) g e =
          let first = peek-first depth blank_queued blank_queued q.queue m rest v g in
          let kept = drop_oldest-contents depth blank_queued q.queue v in
          rw (e, first.0, first.1)
            (elim (Bool-cases (is_ok (transport.publish (unpack m) w).0)) [
              | inl f ↦ rw f (
                drop_oldest-IsValid depth blank_queued q.queue v,
                ap
                    (λ k.
                      ((transport.publish (unpack m) w).0, k, (transport.publish (unpack m) w).1))
                    (kept ∙ ap (λ k. drop 1 k) g),
              )
              | inr f ↦ rw f (
                v,
                ap
                    (λ k.
                      ((transport.publish (unpack m) w).0, k, (transport.publish (unpack m) w).1))
                    g,
              )
            ])

  -- With a connection, the oldest message is sent as an envelope; it leaves the queue exactly where
  -- sending it succeeded, and the result is that of sending. Of an empty queue nothing is sent, and
  -- without a connection the transport is not called. The queue stays well formed.
  pub replay_one_lem :
      (q : OfflineQueue) (w : W)
      → IsValid depth blank_queued q.queue
      → let (status, q', w') = replay_one transport depth q w in
        IsValid depth blank_queued q'.queue
        × ◌≡◌ {A = Status × List QueuedMessage × W}
            (status, messages depth q', w')
            (if transport.is_connected w
              then resend transport (messages depth q) w
              else (not_ready, messages depth q, w))
  replay_one_lem q w v = replay_messages (messages depth q) q w v refl
