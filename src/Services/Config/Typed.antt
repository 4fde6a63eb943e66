-- ===== src/Services/Config/Typed.antt =====
-- ConfigService::set_u32 and get_u32.
use agile_firmware_framework.Prelude.{
  ℕ, ◌≡◌, refl, ◌∙◌, Bool, true, false, some, List, [], ◌∷◌, replicate, arith, if◌then◌else◌, not,
  ◌||◌, ltb, ◌==◌,
}
use agile_firmware_framework.Prelude.Words.{IsU32}
use agile_firmware_framework.Uhal.{Status, ok, corrupt}
use agile_firmware_framework.Libraries.Bytes.Fields.{le32}
use agile_firmware_framework.Libraries.Bytes.RoundTrip.{read_u32-before}
use agile_firmware_framework.Services.Text.{same_refl}
use agile_firmware_framework.Services.Config.State.{
  ConfigService, get_blob, set_blob, get_u32, set_u32, get_bool, set_bool,
}
use agile_firmware_framework.Services.Config.Contents.{lookup, IsValid}
use agile_firmware_framework.Services.Config.Blob.{dictionary, key_arg, blob_answer, get_blob_lem}
use agile_firmware_framework.Services.Config.Update.{set_blob_lem, set_blob-IsValid}
use agile_firmware_framework.Services.Config.Sealed.{write_crc}

set_u32_blob :
    (s : ConfigService) (key : List ℕ) (value : ℕ)
    → set_u32 s (some key) value ≡ set_blob s (some key) (some (le32 value)) 4
unfolding set_u32
set_u32_blob s key value = rw (write_crc value)

-- A number of 32 bits that `set_u32` stored in a valid service, answering `ok`, is what `get_u32`
-- finds under the same key.
pub get_u32-set_u32 :
    (s : ConfigService) (key : List ℕ) (value old : ℕ)
    → IsValid s
    → IsU32 value
    → (set_u32 s (some key) value).0 ≡ ok
    → get_u32 (set_u32 s (some key) value).1 (some key) old ≡ (ok, value)
unfolding get_u32
get_u32-set_u32 s key value old v small done =
    rw (set_u32_blob s key value)
      (rw found (rw (read_u32-before 4 [] [] (omega arith) old value small (omega arith))))
  where
    s' : ConfigService
    s' = (set_blob s (some key) (some (le32 value)) 4).1

    confirmed : (set_blob s (some key) (some (le32 value)) 4).0 ≡ ok
    confirmed = rw (← set_u32_blob s key value) done

    stored : lookup (key_arg key) (dictionary s') ≡ some (le32 value)
    stored =
        (set_blob_lem s key (le32 value) 4 v (omega arith) (key_arg key)).1
        ∙ rw (confirmed, same_refl (key_arg key))

    found : get_blob s' (some key) (some (replicate 4 0)) 4 0 ≡ (ok, some (le32 value), 4)
    found =
        get_blob_lem s' key (replicate 4 0) 4 0
          (set_blob-IsValid s key (le32 value) 4 v (omega arith)) (omega arith)
        ∙ rw stored (unfold blob_answer in refl)

abbrev bool_bytes : Bool → List ℕ
bool_bytes value = (if value then 1 else 0) ∷ []

-- A Boolean that `set_bool` stored in a valid service, answering `ok`, is what `get_bool` finds
-- under the same key.
pub get_bool-set_bool :
    (s : ConfigService) (key : List ℕ) (value old : Bool)
    → IsValid s
    → (set_bool s (some key) value).0 ≡ ok
    → get_bool (set_bool s (some key) value).1 (some key) old ≡ (ok, value)
unfolding get_bool set_bool
get_bool-set_bool s key value old v done = rw found (flag value)
  where
    s' : ConfigService
    s' = (set_blob s (some key) (some (bool_bytes value)) 1).1

    flag :
        (b : Bool)
        → ◌≡◌ {A = Status × Bool}
            (if not (1 == 1) || ltb 1 (if b then 1 else 0)
              then (corrupt, old)
              else (ok, not ((if b then 1 else 0) == 0)))
            (ok, b)
    flag true = refl
    flag false = refl

    stored : lookup (key_arg key) (dictionary s') ≡ some (bool_bytes value)
    stored =
        (set_blob_lem s key (bool_bytes value) 1 v (omega arith) (key_arg key)).1
        ∙ rw (done, same_refl (key_arg key))

    found : get_blob s' (some key) (some (0 ∷ [])) 1 0 ≡ (ok, some (bool_bytes value), 1)
    found =
        get_blob_lem s' key (0 ∷ []) 1 0
          (set_blob-IsValid s key (bool_bytes value) 1 v (omega arith)) (omega arith)
        ∙ rw stored (unfold blob_answer in refl)
