-- ===== src/Libraries/StateMachine/Process.antt =====
-- Which transition StateMachine::process takes.
use agile_firmware_framework.Prelude.{
  ◌≡◌, refl, Bool, true, false, ◌&&◌, Option, none, some, List, [], ◌∷◌, All, Bool-cases, inl, inr,
  ◌⊎◌, arith,
}
use agile_firmware_framework.Libraries.StateMachine.{Transition, perform, process}

-- The context after an action: a null pointer leaves it, and a function is called on it.
pub data Acted {C : Type 0} (context : C) : Option (C → C) → C → Type 0 where
  idle : Acted context none context
  called : (action : C → C) → Acted context (some action) (action context)

perform-Acted :
    {C : Type 0} (action : Option (C → C)) (context : C)
    → Acted context action (perform action context)
perform-Acted none context = idle
perform-Acted (some action) context = called action

module _ {S E C : Type 0} (same_state : S → S → Bool) (same_event : E → E → Bool) where
  abbrev pub applies : Transition S E C → S → E → Bool
  applies t state event = same_state t.current_state state && same_event t.event event

  -- The transition is the first of the table that applies.
  pub data First (state : S) (event : E) (t : Transition S E C)
      : List (Transition S E C) → Type 0 where
    here :
        {ts : List (Transition S E C)} → applies t state event ≡ true → First state event t (t ∷ ts)
    later :
        {u : Transition S E C} {ts : List (Transition S E C)}
        → applies u state event ≡ false
        → First state event t ts
        → First state event t (u ∷ ts)

  -- A call takes the first transition of the table whose state and event are the current ones: its
  -- action, where it has one, is called on the context, the machine enters its next state, and the
  -- result is true. Where there is no such transition, the result is false, and neither the state
  -- nor the context changes.
  pub process_lem :
      (ts : List (Transition S E C)) (state : S) (event : E) (context : C)
      → ((t : Transition S E C) × First state event t ts
          × (context' : C) × Acted context t.action context'
          × (process same_state same_event ts state event context ≡ (true, t.next_state, context')))
        ⊎ (All (λ (t : Transition S E C). applies t state event ≡ false) ts
            × (process same_state same_event ts state event context ≡ (false, state, context)))
  unfolding process
  process_lem [] state event context = inr (tt, refl)
  process_lem (t ∷ ts) state event context = elim (Bool-cases (applies t state event)) [
    | inl e ↦
        inl (t, here e, perform t.action context, perform-Acted t.action context, ground arith)
    | inr e ↦ elim (process_lem ts state event context) [
      | inl (u, first, context', acted, h) ↦ inl (u, later e first, context', acted, ground arith)
      | inr (none_before, h) ↦ inr ((e, none_before), ground arith)
    ]
  ]
