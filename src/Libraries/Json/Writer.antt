-- ===== src/Libraries/Json/Writer.antt =====
-- JsonWriter.hpp. Characters are their ASCII codes: 34 is the quotation mark, 44 the comma, 58 the
-- colon, 92 the backslash, 123 and 125 the braces.
use agile_firmware_framework.Prelude.{
  ℕ, zero, suc, ◌+◌, ◌/◌, ◌%◌, Bool, true, false, ◌||◌, Option, none, some, List, [], ◌∷◌, set, leb,
  ◌==◌, if◌then◌else◌,
}
use agile_firmware_framework.Prelude.Words.{u8, add_size}

pub record JsonWriter : Type 0 where
  pub data_bytes : List ℕ
  pub capacity : ℕ
  pub position : ℕ
  pub first : Bool
  pub overflow : Bool

-- The constructor.
abbrev pub json_writer : List ℕ → ℕ → JsonWriter
json_writer bytes capacity = record {
  data_bytes = bytes;
  capacity = capacity;
  position = 0;
  first = true;
  overflow = false;
}

unfoldable pub put : ℕ → JsonWriter → Bool × JsonWriter
put value w = if leb w.capacity w.position then (false, record w { overflow = true }) else (
  true,
  record w {
    data_bytes = set w.data_bytes w.position (u8 value);
    position = add_size w.position 1;
  },
)

unfoldable pub terminate : JsonWriter → Bool × JsonWriter
terminate w =
    if leb w.capacity w.position
    then (false, record w { overflow = true })
    else (true, record w { data_bytes = set w.data_bytes w.position 0 })

-- `f && g` for calls on the writer.
abbrev pub both :
    (JsonWriter → Bool × JsonWriter)
    → (JsonWriter → Bool × JsonWriter)
    → JsonWriter
    → Bool × JsonWriter
both f g w = let (done, w') = f w in if done then g w' else (false, w')

-- The loop of `append`; past the text's list stands its terminator.
unfoldable pub append_text : List ℕ → JsonWriter → Bool × JsonWriter
append_text [] w = (true, w)
append_text (c ∷ cs) w =
    let rest = both (put c) (append_text cs) w in if c == 0 then (true, w) else rest

abbrev pub append : Option (List ℕ) → JsonWriter → Bool × JsonWriter
append none w = (false, w)
append (some text) w = append_text text w

unfoldable pub begin_object : JsonWriter → Bool × JsonWriter
unfolding put
begin_object w = put 123 (record w { first = true })

unfoldable pub end_object : JsonWriter → Bool × JsonWriter
unfolding put terminate
end_object w = both (put 125) terminate w

-- `field_prefix` from the quotation mark of the key on.
unfoldable pub put_key : Option (List ℕ) → JsonWriter → Bool × JsonWriter
unfolding put append_text
put_key key w = both (put 34) (both (append key) (both (put 34) (put 58))) w

unfoldable pub field_prefix : Option (List ℕ) → JsonWriter → Bool × JsonWriter
unfolding put put_key
field_prefix key w =
    let (separated, w') = if w.first then (true, w) else put 44 w in
    if separated then put_key key (record w' { first = false }) else (false, w')

-- "true" and "false"
abbrev pub bool_text : Bool → List ℕ
bool_text true = 116 ∷ 114 ∷ 117 ∷ 101 ∷ []
bool_text false = 102 ∷ 97 ∷ 108 ∷ 115 ∷ 101 ∷ []

unfoldable pub field_bool : Option (List ℕ) → Bool → JsonWriter → Bool × JsonWriter
unfolding field_prefix append_text
field_bool key value w = both (field_prefix key) (append_text (bool_text value)) w

-- The do loop of `field_u32`, for the places left in `digits`: the lowest digit comes first.
unfoldable pub digits : ℕ → ℕ → List ℕ
digits zero value = []
digits (suc places) value =
    let rest = digits places (value / 10) in
    (48 + value % 10) ∷ (if value / 10 == 0 then [] else rest)

-- The last loop of `field_u32`: the digits from the highest on.
unfoldable pub put_digits : List ℕ → JsonWriter → Bool × JsonWriter
unfolding put
put_digits [] w = (true, w)
put_digits (d ∷ ds) w = both (put_digits ds) (put d) w

unfoldable pub field_u32 : Option (List ℕ) → ℕ → JsonWriter → Bool × JsonWriter
unfolding field_prefix digits put_digits
field_u32 key value w = both (field_prefix key) (put_digits (digits 10 value)) w

-- The loop of `field_string`.
unfoldable pub put_escaped : List ℕ → JsonWriter → Bool × JsonWriter
unfolding put
put_escaped [] w = (true, w)
put_escaped (c ∷ cs) w =
    let plain = both (put c) (put_escaped cs) w in
    let escaped = both (put 92) (both (put c) (put_escaped cs)) w in
    if c == 0 then (true, w) else if c == 34 || c == 92 then escaped else plain

-- A value that is a null pointer is written as an empty text.
unfoldable pub put_value : Option (List ℕ) → JsonWriter → Bool × JsonWriter
unfolding put_escaped
put_value none w = (true, w)
put_value (some value) w = put_escaped value w

unfoldable pub field_string : Option (List ℕ) → Option (List ℕ) → JsonWriter → Bool × JsonWriter
unfolding field_prefix put put_value
field_string key value w =
    both (both (field_prefix key) (put 34)) (both (put_value value) (put 34)) w
