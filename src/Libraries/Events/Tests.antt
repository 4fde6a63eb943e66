-- ===== src/Libraries/Events/Tests.antt =====
-- The event queue and the event bus at concrete inputs.
use agile_firmware_framework.Prelude.{
  ℕ, ◌+◌, ◌≡◌, refl, Bool, true, ◌&&◌, none, some, List, [], ◌∷◌, get_or, All, arith, ◌==◌,
  if◌then◌else◌,
}
use agile_firmware_framework.Libraries.Events.{EventQueue, Row, subscribe, publish}
use agile_firmware_framework.Libraries.Events.Deliveries.{
  places, IsRow, IsCounted, publish-subscribe,
}

abbrev waiting : EventQueue ℕ
waiting = record { events = 4 ∷ 0 ∷ []; read_index = 0; write_index = 1; size = 1 }

-- Sinks that count their calls.
abbrev count_push : ℕ → ℕ → (ℕ → ℕ) → Bool × (ℕ → ℕ)
count_push s event w = (true, λ x. (if s == x then 1 else 0) + w x)

count_push-IsCounted : IsCounted count_push (λ w. w)
count_push-IsCounted s event w x = refl

-- Two topics; the sink 5 has subscribed to the second.
abbrev bus : List Row
bus = (none ∷ none ∷ []) ∷ (some 5 ∷ none ∷ []) ∷ []

bus-IsRow : All IsRow bus
unfolding IsRow places
bus-IsRow = (λ s. refl, ((refl, λ s. refl), tt))

publish-subscribe_example :
    let (subscribed, bus') = subscribe 2 1 8 bus in
    All IsRow bus'
    × ((publish count_push 2 1 3 bus' (λ x. 0)).1 8
        ≡ (if subscribed && (1 == 1 && 8 == 8) then 1 else places 8 (get_or bus 1 [])) + 0)
publish-subscribe_example =
    publish-subscribe count_push (λ w. w) count_push-IsCounted 2 1 1 8 3 bus (λ x. 0) 8 bus-IsRow
      refl (omega arith) (omega arith)
