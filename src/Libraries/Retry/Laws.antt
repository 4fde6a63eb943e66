-- ===== src/Libraries/Retry/Laws.antt =====
-- How often a policy retries, how long it waits, and deadlines through the wrap of the clock.
use agile_firmware_framework.Prelude.{
  ℕ, zero, suc, ◌+◌, ◌≤◌, ◌<◌, ◌^◌, min, ◌≡◌, ap, List, [], ◌∷◌, ltb, leb, arith, Bool-cases, inl,
  inr,
}
use agile_firmware_framework.Prelude.Words.{u8, u32, sub32, IsU32}
use agile_firmware_framework.Libraries.Retry.{
  BackoffPolicy, next_delay_ms, reset, exhausted, Deadline, elapsed_ms, expired,
}

-- The delays of a number of retries in a row, and the policy after them.
unfoldable pub retries : ℕ → BackoffPolicy → List ℕ × BackoffPolicy
retries zero b = ([], b)
retries (suc n) b =
    let (delay, b') = next_delay_ms b in let (delays, b'') = retries n b' in (delay ∷ delays, b'')

-- The attempts count up to the maximum and stay there.
attempt-retries :
    (n : ℕ) (b : BackoffPolicy)
    → b.max_attempts < 2 ^ 8
    → b.attempt ≤ b.max_attempts
    → (retries n b).1 ≡ record b { attempt = min (b.attempt + n) b.max_attempts }
unfolding retries next_delay_ms
attempt-retries zero b h k = ground arith
attempt-retries (suc n) b h k = elim (Bool-cases (ltb b.attempt b.max_attempts)) [
  | inl e ↦ ground (arith, attempt-retries n (record b { attempt = u8 (b.attempt + 1) }))
  | inr e ↦ ground (arith, attempt-retries n b)
]

-- After `n` calls of `next_delay_ms` in a row on a policy that was just reset, `exhausted` holds exactly when `n` has
-- reached the maximum, which is below 2 ^ 8.
pub exhausted-retries :
    (n : ℕ) (b : BackoffPolicy)
    → b.max_attempts < 2 ^ 8
    → exhausted (retries n (reset b)).1 ≡ leb b.max_attempts n
unfolding exhausted reset
exhausted-retries n b h =
    rw (attempt-retries n (record b { attempt = 0 }) h (omega arith)) (ground arith)

-- While the clock has advanced by less than 2 ^ 32 milliseconds since the start, a deadline has
-- expired exactly when it has advanced by the timeout, also where the clock wraps in between.
pub expired-u32 :
    (start timeout advance : ℕ)
    → IsU32 start
    → IsU32 advance
    → let d : Deadline = record { start_ms = start; timeout_ms = timeout } in
      let now = u32 (start + advance) in
      (elapsed_ms d now ≡ advance) × (expired d now ≡ leb timeout advance)
unfolding elapsed_ms expired
expired-u32 start timeout advance h k =
    let e : sub32 (u32 (start + advance)) start ≡ advance = omega arith in (e, ap (leb timeout) e)
