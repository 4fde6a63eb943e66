-- ===== src/Libraries/RingBuffer.antt =====
-- libraries/FixedRingBuffer.hpp: a queue of at most `capacity` values in a fixed array.
pub mod Queue
pub mod Refine
pub mod Newest
mod Tests
use agile_firmware_framework.Prelude.{
  ℕ, ◌+◌, ◌-◌, ◌%◌, Bool, true, false, List, get_or, set, replicate, ◌==◌, if◌then◌else◌,
}
use agile_firmware_framework.Prelude.Words.{add_size}

pub record RingBuffer {ℓ} (A : Type ℓ) : Type ℓ where
  pub entries : List A
  pub read_index : ℕ
  pub write_index : ℕ
  pub count : ℕ

-- The template's arguments: the capacity, and `T{}`, which fills the array at first.
module _ {ℓ} {A : Type ℓ} (capacity : ℕ) (blank : A) where
  unfoldable pub empty_buffer : RingBuffer A
  empty_buffer = record {
    entries = replicate capacity blank;
    read_index = 0;
    write_index = 0;
    count = 0;
  }

  unfoldable pub try_push : A → RingBuffer A → Bool × RingBuffer A
  try_push value b = if b.count == capacity then (false, b) else (
    true,
    record b {
      entries = set b.entries b.write_index value;
      write_index = add_size b.write_index 1 % capacity;
      count = add_size b.count 1;
    },
  )

  -- `value` is what the caller's variable holds before the call.
  unfoldable pub try_pop : A → RingBuffer A → Bool × A × RingBuffer A
  try_pop value b = if b.count == 0 then (false, value, b) else (
    true,
    get_or b.entries b.read_index blank,
    record b { read_index = add_size b.read_index 1 % capacity; count = b.count - 1 },
  )

  unfoldable pub peek : A → RingBuffer A → Bool × A
  peek value b =
      if b.count == 0 then (false, value) else (true, get_or b.entries b.read_index blank)

  unfoldable pub drop_oldest : RingBuffer A → Bool × RingBuffer A
  drop_oldest b =
      if b.count == 0
      then (false, b)
      else (true, record b { read_index = add_size b.read_index 1 % capacity; count = b.count - 1 })

  unfoldable pub clear : RingBuffer A → RingBuffer A
  clear b = record b { read_index = 0; write_index = 0; count = 0 }

  unfoldable pub size : RingBuffer A → ℕ
  size b = b.count

  unfoldable pub empty : RingBuffer A → Bool
  empty b = b.count == 0

  unfoldable pub full : RingBuffer A → Bool
  full b = b.count == capacity
