-- ===== src/Libraries/Events.antt =====
-- libraries/EventBus.hpp: EventQueue, a bounded queue of events, and EventBus, which hands an event
-- to the sinks that subscribed to its topic.
pub mod Queue
pub mod Deliveries
mod Tests
use agile_firmware_framework.Prelude.{
  ℕ, ◌+◌, ◌-◌, ◌%◌, Bool, true, false, ◌||◌, Option, none, some, List, [], ◌∷◌, get_or, set,
  replicate, leb, ◌==◌, if◌then◌else◌,
}
use agile_firmware_framework.Prelude.Words.{add_size}

pub record EventQueue {ℓ} (A : Type ℓ) : Type ℓ where
  pub events : List A
  pub read_index : ℕ
  pub write_index : ℕ
  pub size : ℕ

-- The template's capacity, and `Event{}`, which fills the array at first.
module _ {ℓ} {A : Type ℓ} (capacity : ℕ) (blank : A) where
  unfoldable pub event_push : A → EventQueue A → Bool × EventQueue A
  event_push event q = if q.size == capacity then (false, q) else (
    true,
    record q {
      events = set q.events q.write_index event;
      write_index = add_size q.write_index 1 % capacity;
      size = add_size q.size 1;
    },
  )

  -- `event` is what the caller's variable holds before the call.
  unfoldable pub event_pop : A → EventQueue A → Bool × A × EventQueue A
  event_pop event q = if q.size == 0 then (false, event, q) else (
    true,
    get_or q.events q.read_index blank,
    record q { read_index = add_size q.read_index 1 % capacity; size = q.size - 1 },
  )

-- The subscribers of one topic: sinks by the number of their object, `none` for a null pointer.
abbrev pub Row : Type 0
Row = List (Option ℕ)

abbrev pub prefix : Option ℕ → Option Row → Option Row
prefix s none = none
prefix s (some row) = some (s ∷ row)

-- The loop of `subscribe`; `none` where it ends without a place.
unfoldable pub subscribe_row : Row → ℕ → Option Row
subscribe_row [] sink = none
subscribe_row (none ∷ row) sink = some (some sink ∷ row)
subscribe_row (some s ∷ row) sink =
    let rest = prefix (some s) (subscribe_row row sink) in
    if s == sink then some (some s ∷ row) else rest

abbrev pub stored : List Row → ℕ → Option Row → Bool × List Row
stored bus topic none = (false, bus)
stored bus topic (some row) = (true, set bus topic row)

-- The bus is its array of topics, `topic_count` of them.
unfoldable pub subscribe : ℕ → ℕ → ℕ → List Row → Bool × List Row
subscribe topic_count topic sink bus =
    if leb topic_count topic
    then (false, bus)
    else stored bus topic (subscribe_row (get_or bus topic []) sink)

-- Sinks are called through their interface, over a state `W` that holds them all.
module _ {E W : Type 0} (try_push : ℕ → E → W → Bool × W) where
  -- The loop of `publish`.
  unfoldable pub publish_row : Row → E → W → Bool × W
  publish_row [] event w = (false, w)
  publish_row (none ∷ row) event w = publish_row row event w
  publish_row (some s ∷ row) event w =
      let (pushed, w') = try_push s event w in
      let (delivered, w'') = publish_row row event w' in (pushed || delivered, w'')

  unfoldable pub publish : ℕ → ℕ → E → List Row → W → Bool × W
  publish topic_count topic event bus w =
      if leb topic_count topic then (false, w) else publish_row (get_or bus topic []) event w
