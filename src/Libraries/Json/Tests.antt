-- ===== src/Libraries/Json/Tests.antt =====
-- An object with the fields "id", of value a"b, and "n".
use agile_firmware_framework.Prelude.{
  ℕ, ◌≤◌, ◌≡◌, refl, true, false, some, List, [], ◌∷◌, ◌++◌, length, take, replicate, ◌⊎◌, arith,
}
use agile_firmware_framework.Prelude.Strings.{characters}
use agile_firmware_framework.Libraries.Json.Writer.{json_writer}
use agile_firmware_framework.Libraries.Json.Scanner.{get_string, get_u32}
use agile_firmware_framework.Libraries.Json.Text.{
  Field, number, text, object_text, fields_text, value_text, escape, decimal, write_object,
}
use agile_firmware_framework.Libraries.Json.Object.{write_object_lem}
use agile_firmware_framework.Libraries.Json.Numbers.{get_u32-write_object}
use agile_firmware_framework.Libraries.Json.Lookup.{Copied, get_string-write_object}

abbrev id_key : List ℕ
id_key = 105 ∷ 100 ∷ 0 ∷ []

abbrev id_value : List ℕ
id_value = 97 ∷ 34 ∷ 98 ∷ 0 ∷ []

abbrev others : List Field
others = number (110 ∷ []) 7 ∷ []

write_object_lem_example :
    let t = object_text (text id_key id_value ∷ others) in
    let (done, w) =
      write_object (text id_key id_value ∷ others) (json_writer (replicate 40 9) 40) in
    ((rest : List ℕ) × (length (t ++ (0 ∷ rest)) ≡ 40)
      × (done ≡ true)
      × (w.data_bytes ≡ t ++ (0 ∷ rest))
      × (w.position ≡ length t))
    ⊎ ((40 ≤ length t) × (done ≡ false) × (w.overflow ≡ true))
write_object_lem_example =
    write_object_lem 40 (omega arith) (text id_key id_value) others (replicate 40 9)
      (
        (
          (omega arith, (omega arith, (omega arith, tt))),
          (omega arith, (omega arith, (omega arith, (omega arith, tt)))),
        ),
        ((omega arith, tt), tt),
      )
      refl

get_string-write_object_example :
    let (done, w) =
      write_object (text id_key id_value ∷ others) (json_writer (replicate 40 9) 40) in
    (done ≡ true)
    × Copied 8
        (characters id_value)
        (get_string (some id_key) (replicate 8 0) 8 (take w.position w.data_bytes))
unfolding fields_text value_text escape characters decimal
get_string-write_object_example =
    get_string-write_object 40 8 id_key id_value others (replicate 40 9) (replicate 8 0)
      (omega arith) (omega arith) (omega arith)
      (
        (
          (omega arith, (omega arith, (omega arith, tt))),
          (omega arith, (omega arith, (omega arith, (omega arith, tt)))),
        ),
        ((omega arith, tt), tt),
      )
      refl refl (omega arith)

get_u32-write_object_example :
    let (done, w) =
      write_object (number id_key 4294967295 ∷ others) (json_writer (replicate 40 9) 40) in
    (done ≡ true) × (get_u32 (some id_key) 0 (take w.position w.data_bytes) ≡ (true, 4294967295))
unfolding fields_text value_text characters decimal
get_u32-write_object_example =
    get_u32-write_object 40 id_key 4294967295 others (replicate 40 9) 0 (omega arith) (omega arith)
      ((omega arith, (omega arith, (omega arith, tt))), ((omega arith, tt), tt)) refl (omega arith)
