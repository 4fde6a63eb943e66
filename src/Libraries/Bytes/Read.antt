-- ===== src/Libraries/Bytes/Read.antt =====
-- What ByteReader::read_bytes copies, and that it stays inside the buffer.
use agile_firmware_framework.Prelude.{
  ℕ, ◌+◌, ◌^◌, ◌≤◌, ◌<◌, ◌≡◌, true, some, List, [], ◌∷◌, ◌++◌, append-nil, append_assoc, arith,
  length, take, drop, length-append, set-append, get_or-append, take-append-drop, length-take,
  length-drop, leb, if◌then◌else◌,
}
use agile_firmware_framework.Libraries.Bytes.{ByteReader, read_loop, read_bytes}

-- A reader that has read `out` and has `rest` of its buffer ahead.
abbrev pub before : ℕ → List ℕ → List ℕ → ByteReader
before size out rest = record { bytes = out ++ rest; size = size; position = length out }

-- The destination holds `got` so far, and `room` is still to be filled.
read_loop-before :
    (vs : List ℕ) (size : ℕ) (out rest got room : List ℕ)
    → length vs ≤ length room
    → read_loop (length vs) (length got) (got ++ room) (before size out (vs ++ rest))
      ≡ ((got ++ vs) ++ drop (length vs) room, before size (out ++ vs) rest)
unfolding read_loop
read_loop-before [] size out rest got room h = simp append-nil
read_loop-before (x ∷ xs) size out rest got [] h = absurd (omega arith)
read_loop-before (x ∷ xs) size out rest got (y ∷ ys) h = ground (
  arith,
  set-append got y x ys,
  get_or-append out x (xs ++ rest) 0,
  append_assoc got (x ∷ []) ys,
  append_assoc out (x ∷ []) (xs ++ rest),
  append_assoc got (x ∷ []) xs,
  append_assoc out (x ∷ []) xs,
  length-append got (x ∷ []),
  length-append out (x ∷ []),
  read_loop-before xs size (out ++ (x ∷ [])) rest (got ++ (x ∷ [])) ys,
)

-- A read that fits copies the next bytes over the front of the destination.
pub read_bytes-before :
    (vs room : List ℕ) (size : ℕ) (out rest : List ℕ)
    → length out + length vs ≤ size
    → size < 2 ^ 32
    → length vs ≤ length room
    → read_bytes (some room) (length vs) (before size out (vs ++ rest))
      ≡ (true, vs ++ drop (length vs) room, before size (out ++ vs) rest)
unfolding read_bytes
read_bytes-before vs room size out rest fits small h =
    ground (arith, read_loop-before vs size out rest [] room h)

pub record IsValid (r : ByteReader) : Type 0 where
  pub inside : r.position ≤ r.size
  pub backed : r.size ≤ length r.bytes
  pub small : r.size < 2 ^ 31

-- The next `n` bytes.
abbrev pub upcoming : ByteReader → ℕ → List ℕ
upcoming r n = take n (drop r.position r.bytes)

read_loop_lem :
    (value : List ℕ) (n : ℕ) (r : ByteReader)
    → IsValid r
    → n ≤ length value
    → r.position + n ≤ r.size
    → read_loop n 0 value r ≡ (upcoming r n ++ drop n value, record r { position = r.position + n })
read_loop_lem value n r v room fits = ground (
  arith,
  take-append-drop r.position r.bytes,
  take-append-drop n (drop r.position r.bytes),
  length-take r.position r.bytes,
  length-drop r.position r.bytes,
  length-take n (drop r.position r.bytes),
  length-append (take r.position r.bytes) (upcoming r n),
  append_assoc (take r.position r.bytes) (upcoming r n) (drop n (drop r.position r.bytes)),
  read_loop-before (upcoming r n) r.size (take r.position r.bytes)
      (drop n (drop r.position r.bytes)) [] value,
)

-- On a valid reader, with `n` below 2 ^ 31 and a destination of at least `n` bytes, `read_bytes`
-- succeeds exactly when `n`
-- bytes are left. Then it copies them to the front of the destination and moves past them;
-- otherwise neither the destination nor the reader changes.
pub read_bytes_lem :
    (value : List ℕ) (n : ℕ) (r : ByteReader)
    → IsValid r
    → n ≤ length value
    → n < 2 ^ 31
    → let fits = leb (r.position + n) r.size in
      read_bytes (some value) n r ≡ (
        fits,
        if fits then upcoming r n ++ drop n value else value,
        if fits then record r { position = r.position + n } else r,
      )
unfolding read_bytes
read_bytes_lem value n r v room small = ground (arith, read_loop_lem value n r v room)
