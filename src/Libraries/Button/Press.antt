-- ===== src/Libraries/Button/Press.antt =====
-- ButtonInput over whole presses: which events a sequence of samples gives.
use agile_firmware_framework.Prelude.{
  ℕ, ◌+◌, ◌≤◌, ◌<◌, ◌^◌, ◌≡◌, refl, Bool, true, false, List, [], ◌∷◌, ltb, leb, Bool-cases, inl,
  inr, arith,
}
use agile_firmware_framework.Prelude.Words.{u32, sub32, IsU32}
use agile_firmware_framework.Libraries.Button.{
  ButtonEvent, no_event, press_started, short_press, commissioning_press, factory_reset_press,
  ButtonInputConfig, ButtonInput, classify, settle, update,
}

-- A sample of the pin: the level and the clock.
abbrev pub Sample : Type 0
Sample = Bool × ℕ

unfoldable pub samples : List Sample → ButtonInput → List ButtonEvent × ButtonInput
samples [] b = ([], b)
samples ((raw, now) ∷ ss) b =
    let (event, b') = update raw now b in let (events, b'') = samples ss b' in (event ∷ events, b'')

-- A button at rest: the level is low and stable.
abbrev pub IsResting : ButtonInput → Type 0
IsResting b = (b.raw_last ≡ false) × (b.stable_pressed ≡ false) × (b.debouncing ≡ false)

-- The event of a press of so many milliseconds: the longest of the three kinds that it reaches. A
-- press that is too long for a short one and too short for the others gives none.
pub data PressEvent (c : ButtonInputConfig) (held : ℕ) : ButtonEvent → Type 0 where
  resets : c.factory_reset_press_min_ms ≤ held → PressEvent c held factory_reset_press
  commissions :
      held < c.factory_reset_press_min_ms
      → c.commissioning_press_min_ms ≤ held
      → PressEvent c held commissioning_press
  is_short :
      held < c.factory_reset_press_min_ms
      → held < c.commissioning_press_min_ms
      → held ≤ c.short_press_max_ms
      → PressEvent c held short_press
  is_between :
      held < c.factory_reset_press_min_ms
      → held < c.commissioning_press_min_ms
      → c.short_press_max_ms < held
      → PressEvent c held no_event

classify-PressEvent : (c : ButtonInputConfig) (held : ℕ) → PressEvent c held (classify c held)
unfolding classify
classify-PressEvent c held = elim (Bool-cases (leb c.factory_reset_press_min_ms held)) [
  | inl e ↦ rw e (resets (ground arith))
  | inr e ↦ elim (Bool-cases (leb c.commissioning_press_min_ms held)) [
    | inl f ↦ rw (e, f) (commissions (ground arith) (ground arith))
    | inr f ↦ elim (Bool-cases (leb held c.short_press_max_ms)) [
      | inl g ↦ rw (e, f, g) (is_short (ground arith) (ground arith) (ground arith))
      | inr g ↦ rw (e, f, g) (is_between (ground arith) (ground arith) (ground arith))
    ]
  ]
]

-- A press of a button at rest on a 32-bit clock, sampled when the level rises, when it has been high for the debounce
-- time, when it falls `held` milliseconds after that, and when it has been low for the debounce
-- time: the press starts at the second sample, and the fourth gives the event of its length,
-- counted from the second sample, also where the clock wraps, as long as the whole takes less than
-- 2 ^ 32 milliseconds. That event is a factory reset from the minimum of that on, else a
-- commissioning press from its minimum on, else a short press up to its maximum, else none. Then the
-- button is at rest again.
pub samples-press :
    (b : ButtonInput) (now rise held fall : ℕ)
    → IsResting b
    → IsU32 now
    → b.config.debounce_ms ≤ rise
    → b.config.debounce_ms ≤ fall
    → rise + held + fall < 2 ^ 32
    → let (events, b') =
        samples
          ((true, now)
            ∷ (true, u32 (now + rise))
            ∷ (false, u32 (now + rise + held))
            ∷ (false, u32 (now + rise + held + fall))
            ∷ [])
          b in
      (last : ButtonEvent) × PressEvent b.config (held + fall) last
      × (events ≡ no_event ∷ press_started ∷ no_event ∷ last ∷ [])
      × IsResting b'
unfolding samples update settle
samples-press b now rise held fall rest small h k whole = (
  classify b.config (held + fall),
  classify-PressEvent b.config (held + fall),
  simp (rest.0, rest.1, rest.2, high, low, length_lem) refl,
  simp (rest.0, rest.1, rest.2, high, low, length_lem) (refl, refl, refl),
)
  where
    high : ltb (sub32 (u32 (now + rise)) now) b.config.debounce_ms ≡ false
    high = ground (arith, small, h, whole)

    low :
        ltb (sub32 (u32 (now + rise + held + fall)) (u32 (now + rise + held))) b.config.debounce_ms
        ≡ false
    low = ground (arith, small, k, whole)

    length_lem : sub32 (u32 (now + rise + held + fall)) (u32 (now + rise)) ≡ held + fall
    length_lem = omega (arith, small, whole)
