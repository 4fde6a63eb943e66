-- ===== src/Services/BinarySwitch.antt =====
-- components/services/binary_switch: BinarySwitchService, which switches a load and its indicator
-- together and stores the state.
use agile_firmware_framework.Prelude.{Bool, false, not, ◌&&◌, if◌then◌else◌}
use agile_firmware_framework.Uhal.{Status, ok, io_error, is_ok}

pub data GpioLevel : Type 0 where
  low high : GpioLevel

-- BinaryState has the one member `on`.
pub record BinaryState : Type 0 where
  pub on : Bool

-- The load's pin, the indicator's pin and the store, over their state `W`. `load` also gives what the
-- caller's object holds then.
pub record SwitchPorts (W : Type 0) : Type 0 where
  pub set_load : GpioLevel → W → Status × W
  pub set_indicator : GpioLevel → W → Status × W
  pub load : BinaryState → W → Status × BinaryState × W
  pub save : BinaryState → W → Status × W

module _ {W : Type 0} (ports : SwitchPorts W) where
  unfoldable pub apply : BinaryState → W → Status × W
  apply s w =
      let level = if s.on then high else low in
      let (load_status, w1) = ports.set_load level w in
      let (indicator_status, w2) = ports.set_indicator level w1 in
      ((if is_ok load_status && is_ok indicator_status then ok else io_error), w2)

  unfoldable pub restore : BinaryState → W → Status × BinaryState × W
  restore s w =
      let (status, restored, w1) = ports.load (record { on = false }) w in
      let s' = if is_ok status then restored else record { on = false } in
      let (applied, w2) = apply s' w1 in (applied, s', w2)

  unfoldable pub set : Bool → BinaryState → W → Status × BinaryState × W
  set on s w =
      let s' : BinaryState = record { on = on } in
      let (applied, w1) = apply s' w in
      let (saved, w2) = ports.save s' w1 in
      if not (is_ok applied) then (applied, s', w1) else (saved, s', w2)

  unfoldable pub toggle : BinaryState → W → Status × BinaryState × W
  unfolding set
  toggle s w = set (not s.on) s w
