-- ===== src/Libraries/RingBuffer/Tests.antt =====
-- Concrete runs of the ring buffer, and the theorems at concrete inputs.
use agile_firmware_framework.Prelude.{ℕ, ◌≡◌, refl, true, false, List, [], ◌∷◌, arith}
use agile_firmware_framework.Libraries.RingBuffer.{
  RingBuffer, try_push, try_pop, peek, drop_oldest, clear, size, empty, full,
}
use agile_firmware_framework.Libraries.RingBuffer.Queue.{
  Call, push, pop, look, skip, wipe, reply, queue_run, buffer_step, buffer_run,
}
use agile_firmware_framework.Libraries.RingBuffer.Refine.{IsValid, buffer_run_refines}

-- Three places, two values, the write index wrapped round.
abbrev wrapped : RingBuffer ℕ
wrapped = record { entries = 9 ∷ 7 ∷ 8 ∷ []; read_index = 1; write_index = 0; count = 2 }

wrapped-IsValid : IsValid 3 0 wrapped
wrapped-IsValid = record {
  backed = refl;
  small = omega arith;
  read_in = omega arith;
  counted = omega arith;
  write_at = refl;
}

abbrev script : List (Call ℕ)
script = push 5 ∷ push 6 ∷ pop 0 ∷ look 0 ∷ skip ∷ pop 0 ∷ pop 4 ∷ wipe ∷ push 1 ∷ []

script_replies :
    buffer_run 3 0 script wrapped
    ≡ reply true [] 3 false true
      ∷ reply false [] 3 false true
      ∷ reply true (7 ∷ []) 2 false false
      ∷ reply true (8 ∷ []) 2 false false
      ∷ reply true [] 1 false false
      ∷ reply true (5 ∷ []) 0 true false
      ∷ reply false (4 ∷ []) 0 true false
      ∷ reply true [] 0 true false
      ∷ reply true [] 1 false false
      ∷ []
unfolding buffer_run buffer_step try_push try_pop peek drop_oldest clear size empty full
script_replies = refl

buffer_run_refines_example : buffer_run 3 0 script wrapped ≡ queue_run 3 script (7 ∷ 8 ∷ [])
buffer_run_refines_example = buffer_run_refines 3 0 script wrapped wrapped-IsValid
