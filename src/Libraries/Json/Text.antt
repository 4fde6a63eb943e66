-- ===== src/Libraries/Json/Text.antt =====
-- The texts of objects, and the calls of JsonWriter that write one.
use agile_firmware_framework.Prelude.{
  ℕ, zero, suc, ◌+◌, ◌/◌, ◌%◌, ltb, Bool, true, false, ◌||◌, some, List, [], ◌∷◌, ◌++◌, All, ◌==◌,
  if◌then◌else◌,
}
use agile_firmware_framework.Prelude.Strings.{characters}
use agile_firmware_framework.Prelude.Words.{IsByte}
use agile_firmware_framework.Libraries.Json.Writer.{
  JsonWriter, both, begin_object, end_object, field_bool, field_u32, field_string,
}

-- The characters of a text with a backslash before each quotation mark and backslash.
unfoldable pub escape : List ℕ → List ℕ
escape [] = []
escape (c ∷ cs) = if c == 34 || c == 92 then 92 ∷ c ∷ escape cs else c ∷ escape cs

-- A list read from its end.
unfoldable pub backwards : List ℕ → List ℕ
backwards [] = []
backwards (x ∷ xs) = backwards xs ++ (x ∷ [])

abbrev pub key_text : List ℕ → List ℕ
key_text key = 34 ∷ (characters key ++ (34 ∷ 58 ∷ []))

-- The comma before every field but the first.
abbrev pub separator : Bool → List ℕ
separator true = []
separator false = 44 ∷ []

-- A field with its key.
pub data Field : Type 0 where
  flag : List ℕ → Bool → Field
  number : List ℕ → ℕ → Field
  text : List ℕ → List ℕ → Field

abbrev pub flag_text : Bool → List ℕ
flag_text false = 102 ∷ 97 ∷ 108 ∷ 115 ∷ 101 ∷ []
flag_text true = 116 ∷ 114 ∷ 117 ∷ 101 ∷ []

-- A number in decimal, without leading zeros: a number below ten is one digit, and any other is the
-- text of its tenth with its last digit behind. There are no more places than the first argument;
-- ten are enough for 32 bits.
unfoldable pub decimal : ℕ → ℕ → List ℕ
decimal zero value = []
decimal (suc places) value =
    let tenth = decimal places (value / 10) in
    if ltb value 10 then (48 + value) ∷ [] else tenth ++ ((48 + value % 10) ∷ [])

unfoldable pub value_text : Field → List ℕ
value_text (flag key value) = flag_text value
value_text (number key value) = decimal 10 value
value_text (text key value) = 34 ∷ (escape (characters value) ++ (34 ∷ []))

abbrev pub key_of : Field → List ℕ
key_of (flag key value) = key
key_of (number key value) = key
key_of (text key value) = key

unfoldable pub fields_text : Bool → List Field → List ℕ
fields_text first [] = []
fields_text first (f ∷ fs) =
    (separator first ++ key_text (key_of f)) ++ (value_text f ++ fields_text false fs)

-- The object with these fields, in their order.
abbrev pub object_text : List Field → List ℕ
object_text fs = 123 ∷ (fields_text true fs ++ (125 ∷ []))

abbrev pub write_field : Field → JsonWriter → Bool × JsonWriter
write_field (flag key value) w = field_bool (some key) value w
write_field (number key value) w = field_u32 (some key) value w
write_field (text key value) w = field_string (some key) (some value) w

abbrev pub write_fields : List Field → JsonWriter → Bool × JsonWriter
write_fields [] w = (true, w)
write_fields (f ∷ fs) w = both (write_field f) (write_fields fs) w

abbrev pub write_object : List Field → JsonWriter → Bool × JsonWriter
write_object fs w = both begin_object (both (write_fields fs) end_object) w

abbrev pub IsField : Field → Type 0
IsField (flag key value) = All IsByte key
IsField (number key value) = All IsByte key
IsField (text key value) = All IsByte key × All IsByte value
