-- ===== src/Libraries/Retry.antt =====
-- components/libraries/retry: BackoffPolicy (Backoff.hpp) and Deadline (Deadline.hpp).
pub mod Laws
use agile_firmware_framework.Prelude.{
  ℕ, suc, ◌+◌, ◌-◌, ◌≤◌, Bool, true, false, List, [], ◌∷◌, get_or, ltb, leb, if◌then◌else◌,
}
use agile_firmware_framework.Prelude.Words.{u8, sub32}

abbrev pub delay_count : ℕ
delay_count = 5

abbrev pub delays_ms : List ℕ
delays_ms = 30000 ∷ 60000 ∷ 120000 ∷ 240000 ∷ 300000 ∷ []

pub record BackoffPolicy : Type 0 where
  pub max_attempts : ℕ
  pub attempt : ℕ

-- The policy of the default constructor.
abbrev pub default_policy : BackoffPolicy
default_policy = record { max_attempts = 10; attempt = 0 }

unfoldable pub next_delay_ms : BackoffPolicy → ℕ × BackoffPolicy
next_delay_ms b =
    let index = if ltb b.attempt delay_count then b.attempt else delay_count - 1 in
    (
      get_or delays_ms index 0,
      if ltb b.attempt b.max_attempts then record b { attempt = u8 (b.attempt + 1) } else b,
    )

unfoldable pub reset : BackoffPolicy → BackoffPolicy
reset b = record b { attempt = 0 }

unfoldable pub exhausted : BackoffPolicy → Bool
exhausted b = leb b.max_attempts b.attempt

pub record Deadline : Type 0 where
  pub start_ms : ℕ
  pub timeout_ms : ℕ

unfoldable pub elapsed_ms : Deadline → ℕ → ℕ
elapsed_ms d now = sub32 now d.start_ms

unfoldable pub expired : Deadline → ℕ → Bool
expired d now = leb d.timeout_ms (sub32 now d.start_ms)
