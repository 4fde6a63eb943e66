-- ===== src/Libraries/StateMachine.antt =====
-- libraries/StateMachine.hpp: StateMachine, driven by a table of transitions.
pub mod Process
mod Tests
use agile_firmware_framework.Prelude.{
  Bool, true, false, not, ◌||◌, Option, none, some, List, [], ◌∷◌, if◌then◌else◌,
}

-- An action is a function pointer, which changes the context; `none` is a null pointer.
pub record Transition (S E C : Type 0) : Type 0 where
  pub current_state : S
  pub event : E
  pub next_state : S
  pub action : Option (C → C)

abbrev pub perform : {C : Type 0} → Option (C → C) → C → C
perform none context = context
perform (some action) context = action context

-- The template's types with their `==`.
module _ {S E C : Type 0} (same_state : S → S → Bool) (same_event : E → E → Bool) where
  -- `process` over the transitions left, from the current state: the result, the state after the
  -- call and the context.
  unfoldable pub process : List (Transition S E C) → S → E → C → Bool × S × C
  process [] state event context = (false, state, context)
  process (t ∷ ts) state event context =
      let rest = process ts state event context in
      if not (same_state t.current_state state) || not (same_event t.event event)
      then rest
      else (true, t.next_state, perform t.action context)
