-- ===== src/Libraries/Button/Tests.antt =====
-- Presses at concrete inputs.
use agile_firmware_framework.Prelude.{◌+◌, ◌≡◌, refl, true, false, [], ◌∷◌, arith}
use agile_firmware_framework.Prelude.Words.{u32}
use agile_firmware_framework.Libraries.Button.{
  ButtonEvent, default_config, button, classify, no_event, press_started, commissioning_press,
}
use agile_firmware_framework.Libraries.Button.Press.{PressEvent, IsResting, samples, samples-press}

held_six_seconds : classify default_config 6000 ≡ commissioning_press
unfolding classify
held_six_seconds = refl

-- A press of six seconds, in the middle of which the clock wraps.
samples-press_example :
    let (events, b') =
      samples
        ((true, 4294962000)
          ∷ (true, u32 (4294962000 + 30))
          ∷ (false, u32 (4294962000 + 30 + 5970))
          ∷ (false, u32 (4294962000 + 30 + 5970 + 30))
          ∷ [])
        (button default_config) in
    (last : ButtonEvent) × PressEvent default_config (5970 + 30) last
    × (events ≡ no_event ∷ press_started ∷ no_event ∷ last ∷ [])
    × IsResting b'
unfolding button
samples-press_example =
    samples-press (button default_config) 4294962000 30 5970 30 (refl, refl, refl) (omega arith)
      (omega arith) (omega arith) (omega arith)
