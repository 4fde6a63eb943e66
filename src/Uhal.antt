-- ===== src/Uhal.antt =====
-- components/uhal: the status codes and levels that every component shares. The interfaces are
-- in the children; what implements them is outside this repository or in its platform layer.
pub mod Storage
use agile_firmware_framework.Prelude.{◌≡◌, Bool, true, false, arith}

-- uhal/Status.hpp
pub data Status : Type 0 where
  ok timeout nack bus_error busy io_error unsupported invalid_argument : Status
  not_found no_resources corrupt not_ready denied aborted : Status

-- status == Status::ok
abbrev pub is_ok : Status → Bool
is_ok ok = true
is_ok _ = false

pub is_ok→eq : (status : Status) → is_ok status ≡ true → status ≡ ok
is_ok→eq status h = ground arith

-- status == Status::busy
abbrev pub is_busy : Status → Bool
is_busy busy = true
is_busy _ = false

-- uhal/IGpio.hpp
pub data GpioLevel : Type 0 where
  low high : GpioLevel
