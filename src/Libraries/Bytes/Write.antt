-- ===== src/Libraries/Bytes/Write.antt =====
-- What ByteWriter::write_bytes does to the buffer: it appends, or changes nothing but the flag.
use agile_firmware_framework.Prelude.{
  ℕ, ◌+◌, ◌^◌, ◌≤◌, ◌<◌, ◌≡◌, ap, ◌∙◌, Bool, true, false, some, List, [], ◌∷◌, ◌++◌, append-nil,
  append_assoc, arith, length, take, drop, set, length-append, set-append, take-append-drop,
  length-take, drop-drop, length-drop, leb, if◌then◌else◌,
}
use agile_firmware_framework.Libraries.Bytes.{ByteWriter, write_loop, write_bytes}

-- A writer with its flag that has written `out` and has `rest` of its buffer ahead.
abbrev pub after_flag : Bool → ℕ → List ℕ → List ℕ → ByteWriter
after_flag flag capacity out rest = record {
  bytes = out ++ rest;
  capacity = capacity;
  position = length out;
  overflow = flag;
}

abbrev pub after : ℕ → List ℕ → List ℕ → ByteWriter
after = after_flag false

write_loop-after :
    (vs : List ℕ) (flag : Bool) (capacity : ℕ) (out rest : List ℕ)
    → length vs ≤ length rest
    → write_loop vs (after_flag flag capacity out rest)
      ≡ after_flag flag capacity (out ++ vs) (drop (length vs) rest)
unfolding write_loop
write_loop-after [] flag capacity out rest h = rw append-nil
write_loop-after (x ∷ xs) flag capacity out [] h = absurd (omega arith)
write_loop-after (x ∷ xs) flag capacity out (y ∷ ys) h =
    ap (write_loop xs) step
    ∙ write_loop-after xs flag capacity (out ++ (x ∷ [])) ys (omega arith)
    ∙ ap (λ o. after_flag flag capacity o (drop (length xs) ys)) (append_assoc out (x ∷ []) xs)
  where
    step :
        record (after_flag flag capacity out (y ∷ ys)) {
          bytes = set (out ++ (y ∷ ys)) (length out) x;
          position = length out + 1;
        }
        ≡ after_flag flag capacity (out ++ (x ∷ [])) ys
    step =
        ground
          (arith, set-append out y x ys, append_assoc out (x ∷ []) ys, length-append out (x ∷ []))

-- Whatever fits below the capacity is appended.
pub write_bytes-after :
    (vs : List ℕ) (capacity : ℕ) (out rest : List ℕ)
    → length out + length vs ≤ capacity
    → capacity < 2 ^ 32
    → length vs ≤ length rest
    → write_bytes (some vs) (after capacity out rest)
      ≡ (true, after capacity (out ++ vs) (drop (length vs) rest))
unfolding write_bytes
write_bytes-after vs capacity out rest fits small room =
    ground (arith, write_loop-after vs false capacity out rest room)

pub record IsValid (w : ByteWriter) : Type 0 where
  pub inside : w.position ≤ w.capacity
  pub backed : w.capacity ≤ length w.bytes
  pub small : w.capacity < 2 ^ 31

-- What has been written so far.
abbrev pub written : ByteWriter → List ℕ
written w = take w.position w.bytes

-- Any valid writer is one that has written its prefix.
as_after :
    (w : ByteWriter)
    → IsValid w
    → w ≡ after_flag w.overflow w.capacity (written w) (drop w.position w.bytes)
as_after w v = ground (arith, take-append-drop w.position w.bytes, length-take w.position w.bytes)

write_loop_lem :
    (vs : List ℕ) (w : ByteWriter)
    → IsValid w
    → w.position + length vs ≤ w.capacity
    → write_loop vs w ≡ record w {
      bytes = (written w ++ vs) ++ drop (w.position + length vs) w.bytes;
      position = w.position + length vs;
    }
write_loop_lem vs w v fits =
    ap (write_loop vs) (as_after w v)
    ∙ write_loop-after vs w.overflow w.capacity (written w) (drop w.position w.bytes) room
    ∙ ground (
      arith,
      drop-drop (length vs) w.position w.bytes,
      length-append (written w) vs,
      length-take w.position w.bytes,
    )
  where
    room : length vs ≤ length (drop w.position w.bytes)
    room = omega (arith, length-drop w.position w.bytes)

-- On a valid writer and for fewer than 2 ^ 31 bytes, `write_bytes` succeeds exactly when the value fits. Then it appends the value
-- to what was written and leaves the bytes behind it alone; otherwise it only sets the flag.
pub write_bytes_lem :
    (vs : List ℕ) (w : ByteWriter)
    → IsValid w
    → length vs < 2 ^ 31
    → let fits = leb (w.position + length vs) w.capacity in
      write_bytes (some vs) w ≡ (
        fits,
        if fits
            then record w {
              bytes = (written w ++ vs) ++ drop (w.position + length vs) w.bytes;
              position = w.position + length vs;
            }
            else record w { overflow = true },
      )
unfolding write_bytes
write_bytes_lem vs w v small = ground (arith, write_loop_lem vs w v)

-- A write of fewer than 2 ^ 31 bytes keeps a valid writer valid.
pub write_bytes-IsValid :
    (vs : List ℕ) (w : ByteWriter)
    → IsValid w
    → length vs < 2 ^ 31
    → IsValid (write_bytes (some vs) w).1
write_bytes-IsValid vs w v small =
    let n : ℕ = w.position + length vs in
    rw (write_bytes_lem vs w v small) (
      ground (
        arith,
        length-append (written w ++ vs) (drop n w.bytes),
        length-append (written w) vs,
        length-take w.position w.bytes,
        length-drop n w.bytes,
      ))
