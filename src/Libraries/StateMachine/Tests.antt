-- ===== src/Libraries/StateMachine/Tests.antt =====
-- A switch that counts how often it is turned on, with an earlier and a later transition for the
-- same event.
use agile_firmware_framework.Prelude.{
  ℕ, ◌+◌, ◌≡◌, true, false, none, some, List, [], ◌∷◌, ◌==◌, ◌⊎◌, All,
}
use agile_firmware_framework.Libraries.StateMachine.{Transition, process}
use agile_firmware_framework.Libraries.StateMachine.Process.{Acted, First, applies, process_lem}

abbrev count_up : ℕ → ℕ
count_up c = c + 1

abbrev switch : List (Transition ℕ ℕ ℕ)
switch =
    record { current_state = 0; event = 7; next_state = 1; action = some count_up }
    ∷ record { current_state = 1; event = 7; next_state = 0; action = none }
    ∷ record { current_state = 1; event = 7; next_state = 5; action = some count_up }
    ∷ []

process_lem_example :
    ((t : Transition ℕ ℕ ℕ) × First (λ a b. a == b) (λ a b. a == b) 1 7 t switch
      × (context' : ℕ) × Acted 4 t.action context'
      × (process (λ a b. a == b) (λ a b. a == b) switch 1 7 4 ≡ (true, t.next_state, context')))
    ⊎ (All (λ (t : Transition ℕ ℕ ℕ). applies (λ a b. a == b) (λ a b. a == b) t 1 7 ≡ false) switch
        × (process (λ a b. a == b) (λ a b. a == b) switch 1 7 4 ≡ (false, 1, 4)))
process_lem_example = process_lem (λ a b. a == b) (λ a b. a == b) switch 1 7 4
