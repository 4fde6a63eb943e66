-- ===== src/Libraries/Events/Queue.antt =====
-- EventQueue is the ring buffer under other names.
use agile_firmware_framework.Prelude.{ℕ, ◌≡◌, ◌==◌, Bool-cases, inl, inr}
use agile_firmware_framework.Libraries.RingBuffer.{RingBuffer, try_push, try_pop}
use agile_firmware_framework.Libraries.Events.{EventQueue, event_push, event_pop}

abbrev pub as_buffer {ℓ} : {A : Type ℓ} → EventQueue A → RingBuffer A
as_buffer q = record {
  entries = q.events;
  read_index = q.read_index;
  write_index = q.write_index;
  count = q.size;
}

module _ {ℓ} {A : Type ℓ} (capacity : ℕ) (blank : A) where
  -- Both operations of the event queue are those of the ring buffer, in result and in state.
  pub event_queue_lem :
      (x : A) (q : EventQueue A)
      → (let (pushed, q') = event_push capacity blank x q in
          (pushed, as_buffer q') ≡ try_push capacity blank x (as_buffer q))
        × (let (popped, y, q') = event_pop capacity blank x q in
            (popped, y, as_buffer q') ≡ try_pop capacity blank x (as_buffer q))
  unfolding event_push event_pop try_push try_pop
  event_queue_lem x q = (push, pop)
    where
      push :
          (let (pushed, q') = event_push capacity blank x q in (pushed, as_buffer q'))
          ≡ try_push capacity blank x (as_buffer q)
      push = elim (Bool-cases (q.size == capacity)) [ inl e ↦ rw e | inr e ↦ rw e ]

      pop :
          (let (popped, y, q') = event_pop capacity blank x q in (popped, y, as_buffer q'))
          ≡ try_pop capacity blank x (as_buffer q)
      pop = elim (Bool-cases (q.size == 0)) [ inl e ↦ rw e | inr e ↦ rw e ]
