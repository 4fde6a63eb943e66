-- ===== src/Services/Config/Lookup.antt =====
-- `find` against the dictionary: the first record with a key is the one that the dictionary gives,
-- and writing that record, or a free one, changes the dictionary at that key alone.
use agile_firmware_framework.Prelude.{
  ℕ, zero, suc, ◌≡◌, refl, true, Option, none, some, List, [], ◌∷◌, set, get_or, if◌then◌else◌, All,
  arith,
}
use agile_firmware_framework.Services.Limits.{config_key_capacity}
use agile_firmware_framework.Services.Text.{
  c_text, same, same→eq, same_refl, text_equal, text_equal_lem, same_sym,
}
use agile_firmware_framework.Services.Config.State.{
  Record, blank_record, find, find_free, next_index,
}
use agile_firmware_framework.Services.Config.Contents.{
  key_text, value_bytes, contents, lookup, IsRecord,
}

abbrev map_value : Option ℕ → List Record → Option (List ℕ)
map_value none rs = none
map_value (some i) rs = some (value_bytes (get_or rs i blank_record))

map_value-next :
    (i : Option ℕ) (r : Record) (rs : List Record)
    → map_value (next_index i) (r ∷ rs) ≡ map_value i rs
map_value-next none r rs = refl
map_value-next (some i) r rs = refl

-- The test that `find` makes is equality of the texts.
test_lem :
    (r : Record) (key : List ℕ)
    → IsRecord r
    → text_equal (some r.key) (some key) config_key_capacity
      ≡ same (c_text config_key_capacity key) (key_text r)
test_lem r key v = ground (
  arith,
  text_equal_lem r.key key config_key_capacity,
  same_sym (key_text r) (c_text config_key_capacity key),
)

-- `find` answers as the dictionary does.
pub lookup-find :
    (rs : List Record) (key : List ℕ)
    → All IsRecord rs
    → lookup (c_text config_key_capacity key) (contents rs) ≡ map_value (find rs (some key)) rs
unfolding lookup contents find
lookup-find [] key v = refl
lookup-find (r ∷ rs) key (vr, vs) =
    ground
      (arith, test_lem r key vr, map_value-next (find rs (some key)) r rs, lookup-find rs key vs)

-- Writing a record over the one that `find` gave.
pub lookup-set_found :
    (rs : List Record) (key j : List ℕ) (i : ℕ) (new : Record)
    → All IsRecord rs
    → find rs (some key) ≡ some i
    → new.used ≡ true
    → key_text new ≡ c_text config_key_capacity key
    → lookup j (contents (set rs i new))
      ≡ (if same j (key_text new) then some (value_bytes new) else lookup j (contents rs))
unfolding lookup contents find
lookup-set_found [] key j i new v f u e = cc
lookup-set_found (r ∷ rs) key j zero new (vr, vs) f u e =
    ground (arith, test_lem r key vr, same→eq (c_text config_key_capacity key) (key_text r))
lookup-set_found (r ∷ rs) key j (suc i) new (vr, vs) f u e = ground (
  arith,
  test_lem r key vr,
  same→eq j (key_text r),
  same→eq j (key_text new),
  same_refl j,
  lookup-set_found rs key j i new vs,
)

-- Writing a record over a free one, when the key is not there.
pub lookup-set_free :
    (rs : List Record) (key j : List ℕ) (i : ℕ) (new : Record)
    → All IsRecord rs
    → find rs (some key) ≡ none
    → find_free rs ≡ some i
    → new.used ≡ true
    → key_text new ≡ c_text config_key_capacity key
    → lookup j (contents (set rs i new))
      ≡ (if same j (key_text new) then some (value_bytes new) else lookup j (contents rs))
unfolding lookup contents find find_free
lookup-set_free [] key j i new v f g u e = cc
lookup-set_free (r ∷ rs) key j zero new (vr, vs) f g u e = ground arith
lookup-set_free (r ∷ rs) key j (suc i) new (vr, vs) f g u e = ground (
  arith,
  test_lem r key vr,
  same→eq j (key_text r),
  same→eq j (key_text new),
  same_refl j,
  lookup-set_free rs key j i new vs,
)
