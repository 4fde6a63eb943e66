-- ===== src/Libraries/RingBuffer/Queue.antt =====
-- The contract of a bounded queue, oldest value first, and scripts of calls on either side.
use agile_firmware_framework.Prelude.{
  ℕ, Bool, true, false, List, [], ◌∷◌, ◌++◌, length, ◌==◌, if◌then◌else◌,
}
use agile_firmware_framework.Libraries.RingBuffer.{
  RingBuffer, try_push, try_pop, peek, drop_oldest, clear, size, empty, full,
}

pub data Call {ℓ} (A : Type ℓ) : Type ℓ where
  push : A → Call A
  pop look : A → Call A
  skip wipe : Call A

-- What a caller sees: the Boolean result and its variable after the call, with the size, the
-- empty and the full flag that it can ask for next.
pub data Reply {ℓ} (A : Type ℓ) : Type ℓ where
  reply : Bool → List A → ℕ → Bool → Bool → Reply A

module _ {ℓ} {A : Type ℓ} (capacity : ℕ) where
  unfoldable pub queue_step : Call A → List A → Bool × List A × List A
  queue_step (push x) q = if length q == capacity then (false, [], q) else (true, [], q ++ (x ∷ []))
  queue_step (pop v) [] = (false, v ∷ [], [])
  queue_step (pop v) (x ∷ q) = (true, x ∷ [], q)
  queue_step (look v) [] = (false, v ∷ [], [])
  queue_step (look v) (x ∷ q) = (true, x ∷ [], x ∷ q)
  queue_step skip [] = (false, [], [])
  queue_step skip (x ∷ q) = (true, [], q)
  queue_step wipe q = (true, [], [])

  unfoldable pub queue_run : List (Call A) → List A → List (Reply A)
  queue_run [] q = []
  queue_run (c ∷ cs) q =
      let (done, out, q') = queue_step c q in
      reply done out (length q') (length q' == 0) (length q' == capacity) ∷ queue_run cs q'

module _ {ℓ} {A : Type ℓ} (capacity : ℕ) (blank : A) where
  unfoldable pub buffer_step : Call A → RingBuffer A → Bool × List A × RingBuffer A
  unfolding try_push try_pop peek drop_oldest clear
  buffer_step (push x) b = let (done, b') = try_push capacity blank x b in (done, [], b')
  buffer_step (pop v) b = let (done, x, b') = try_pop capacity blank v b in (done, x ∷ [], b')
  buffer_step (look v) b = let (done, x) = peek capacity blank v b in (done, x ∷ [], b)
  buffer_step skip b = let (done, b') = drop_oldest capacity blank b in (done, [], b')
  buffer_step wipe b = (true, [], clear capacity blank b)

  unfoldable pub buffer_run : List (Call A) → RingBuffer A → List (Reply A)
  unfolding buffer_step size empty full
  buffer_run [] b = []
  buffer_run (c ∷ cs) b =
      let (done, out, b') = buffer_step c b in
      reply done out (size capacity blank b') (empty capacity blank b') (full capacity blank b')
      ∷ buffer_run cs b'
