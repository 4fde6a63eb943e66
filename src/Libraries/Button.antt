-- ===== src/Libraries/Button.antt =====
-- components/libraries/button: ButtonInput, which debounces a pin and classifies presses by their
-- length.
pub mod Press
mod Tests
use agile_firmware_framework.Prelude.{
  ℕ, Bool, true, false, ◌&&◌, ◌||◌, not, ltb, leb, if◌then◌else◌,
}
use agile_firmware_framework.Prelude.Words.{sub32}

pub data ButtonEvent : Type 0 where
  no_event press_started short_press commissioning_press factory_reset_press : ButtonEvent

pub record ButtonInputConfig : Type 0 where
  pub debounce_ms : ℕ
  pub short_press_max_ms : ℕ
  pub commissioning_press_min_ms : ℕ
  pub factory_reset_press_min_ms : ℕ

abbrev pub default_config : ButtonInputConfig
default_config = record {
  debounce_ms = 25;
  short_press_max_ms = 1000;
  commissioning_press_min_ms = 5000;
  factory_reset_press_min_ms = 10000;
}

pub record ButtonInput : Type 0 where
  pub config : ButtonInputConfig
  pub raw_last : Bool
  pub stable_pressed : Bool
  pub debouncing : Bool
  pub last_change_ms : ℕ
  pub press_start_ms : ℕ

unfoldable pub button : ButtonInputConfig → ButtonInput
button config = record {
  config = config;
  raw_last = false;
  stable_pressed = false;
  debouncing = false;
  last_change_ms = 0;
  press_start_ms = 0;
}

-- a == b
abbrev pub same_level : Bool → Bool → Bool
same_level true b = b
same_level false b = not b

-- The event of a release after a press of `held_ms`.
unfoldable pub classify : ButtonInputConfig → ℕ → ButtonEvent
classify c held_ms =
    if leb c.factory_reset_press_min_ms held_ms
    then factory_reset_press
    else if leb c.commissioning_press_min_ms held_ms
    then commissioning_press
    else if leb held_ms c.short_press_max_ms
    then short_press
    else no_event

-- `update` once the level has been stable for the debounce time.
unfoldable pub settle : ButtonInput → ℕ → ButtonEvent × ButtonInput
settle b now =
    let calm = record b { debouncing = false } in
    if same_level b.stable_pressed b.raw_last
    then (no_event, calm)
    else if b.raw_last
    then (press_started, record calm { stable_pressed = true; press_start_ms = now })
    else (classify b.config (sub32 now b.press_start_ms), record calm { stable_pressed = false })

unfoldable pub update : Bool → ℕ → ButtonInput → ButtonEvent × ButtonInput
update raw_pressed now b =
    if not (same_level raw_pressed b.raw_last)
    then (no_event, record b { raw_last = raw_pressed; debouncing = true; last_change_ms = now })
    else if not b.debouncing || ltb (sub32 now b.last_change_ms) b.config.debounce_ms
    then (no_event, b)
    else settle b now

unfoldable pub is_pressed : ButtonInput → Bool
is_pressed b = b.stable_pressed

unfoldable pub is_active : ButtonInput → Bool
is_active b = b.debouncing || b.stable_pressed

unfoldable pub hold_ms : ButtonInput → ℕ → ℕ
hold_ms b now = if b.stable_pressed then sub32 now b.press_start_ms else 0
