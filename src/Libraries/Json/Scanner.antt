-- ===== src/Libraries/Json/Scanner.antt =====
-- JsonScanner.hpp. A position is the list of the bytes from it on, the end of the data the empty one.
use agile_firmware_framework.Prelude.{
  ℕ, ◌+◌, ◌-◌, ◌*◌, ◌/◌, ◌^◌, Bool, true, false, not, ◌&&◌, ◌||◌, Option, none, some, List, [], ◌∷◌,
  set, ltb, leb, ◌==◌, if◌then◌else◌,
}
use agile_firmware_framework.Prelude.Words.{add_size}

-- The while loop that skips spaces and tabs.
unfoldable pub skip_blanks : List ℕ → List ℕ
skip_blanks [] = []
skip_blanks (x ∷ xs) = let rest = skip_blanks xs in if x == 32 || x == 9 then rest else x ∷ xs

-- From a quotation mark on, the key, a quotation mark and a colon between blanks: what stands behind.
unfoldable pub after_colon : List ℕ → Option (List ℕ)
after_colon [] = none
after_colon (x ∷ xs) = if x == 58 then some (skip_blanks xs) else none

unfoldable pub after_key : List ℕ → List ℕ → Option (List ℕ)
after_key [] [] = none
after_key [] (x ∷ xs) = if x == 34 then after_colon (skip_blanks xs) else none
after_key (k ∷ ks) [] = none
after_key (k ∷ ks) (x ∷ xs) =
    let rest = after_key ks xs in
    let ended = if x == 34 then after_colon (skip_blanks xs) else none in
    if k == 0 then ended else if x == k then rest else none

abbrev pub or_else : Option (List ℕ) → Option (List ℕ) → Option (List ℕ)
or_else none other = other
or_else (some xs) other = some xs

-- The loop of `find_value` over the starts left.
unfoldable pub find_loop : List ℕ → List ℕ → List ℕ
find_loop key [] = []
find_loop key (x ∷ xs) =
    let rest = find_loop key xs in if x == 34 then found rest (after_key key xs) else rest
  where
    found : List ℕ → Option (List ℕ) → List ℕ
    found rest none = rest
    found rest (some value) = value

abbrev pub find_value : Option (List ℕ) → List ℕ → List ℕ
find_value none bytes = []
find_value (some key) bytes = find_loop key bytes

unfoldable pub matches : List ℕ → List ℕ → Bool
matches [] bytes = true
matches (c ∷ cs) [] = false
matches (c ∷ cs) (x ∷ xs) = x == c && matches cs xs

-- `value` is what the caller's variable holds before the call.
unfoldable pub get_bool : Option (List ℕ) → Bool → List ℕ → Bool × Bool
get_bool key value bytes =
    let at = find_value key bytes in
    if matches (116 ∷ 114 ∷ 117 ∷ 101 ∷ []) at
    then (true, true)
    else if matches (102 ∷ 97 ∷ 108 ∷ 115 ∷ 101 ∷ []) at
    then (true, false)
    else (false, value)

abbrev pub is_digit : ℕ → Bool
is_digit x = leb 48 x && leb x 57

-- The loop of `get_u32`; `none` where the number does not fit 32 bits.
unfoldable pub parse_digits : ℕ → List ℕ → Option ℕ
parse_digits parsed [] = some parsed
parse_digits parsed (x ∷ xs) =
    let digit = x - 48 in
    let rest = parse_digits (parsed * 10 + digit) xs in
    if not (is_digit x)
    then some parsed
    else if ltb ((2 ^ 32 - 1 - digit) / 10) parsed
    then none
    else rest

abbrev pub parsed_or : ℕ → Option ℕ → Bool × ℕ
parsed_or value none = (false, value)
parsed_or value (some parsed) = (true, parsed)

-- `get_u32` from the position of the value on.
unfoldable pub u32_at : ℕ → List ℕ → Bool × ℕ
u32_at value [] = (false, value)
u32_at value (x ∷ xs) =
    if is_digit x then parsed_or value (parse_digits 0 (x ∷ xs)) else (false, value)

unfoldable pub get_u32 : Option (List ℕ) → ℕ → List ℕ → Bool × ℕ
get_u32 key value bytes = u32_at value (find_value key bytes)

-- The loop of `get_string`, with the index of the next character written.
unfoldable pub copy_string : ℕ → List ℕ → List ℕ → ℕ → Bool × List ℕ
copy_string capacity [] value output = (false, value)
copy_string capacity (x ∷ []) value output =
    if x == 34
    then (true, set value output 0)
    else if leb capacity (add_size output 1)
    then (false, value)
    else (false, set value output x)
copy_string capacity (x ∷ y ∷ xs) value output =
    let plain = copy_string capacity (y ∷ xs) (set value output x) (add_size output 1) in
    let escaped = copy_string capacity xs (set value output y) (add_size output 1) in
    if x == 34
    then (true, set value output 0)
    else if leb capacity (add_size output 1)
    then (false, value)
    else if x == 92
    then escaped
    else plain

-- `get_string` from the position of the value on.
unfoldable pub string_at : List ℕ → ℕ → List ℕ → Bool × List ℕ
string_at value capacity [] = (false, value)
string_at value capacity (x ∷ xs) =
    if not (x == 34) || capacity == 0 then (false, value) else copy_string capacity xs value 0

unfoldable pub get_string : Option (List ℕ) → List ℕ → ℕ → List ℕ → Bool × List ℕ
get_string key value capacity bytes = string_at value capacity (find_value key bytes)
