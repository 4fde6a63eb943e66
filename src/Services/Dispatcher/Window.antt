-- ===== src/Services/Dispatcher/Window.antt =====
-- That a repeated command is answered from the window.
use agile_firmware_framework.Prelude.{
  ℕ, zero, suc, ◌^◌, ◌<◌, ◌≡◌, refl, ap, ◌∙◌, true, ◌&&◌, Option, none, some, List, [], ◌∷◌, length,
  set, take, replicate, ltb, leb, ◌==◌, Bool-cases, Option-cases, inl, inr, arith, length-set,
}
use agile_firmware_framework.Prelude.Copy.{copy}
use agile_firmware_framework.Prelude.Words.{add_size}
use agile_firmware_framework.Services.Text.{
  same_refl, text_equal, text_equal_lem, c_text, c_text-copy_zeros, c_text-short, set-copy_zeros,
}
use agile_firmware_framework.Libraries.Json.Scanner.{find_value, copy_string, string_at, get_string}
use agile_firmware_framework.Services.Messages.{MessageEnvelope}
use agile_firmware_framework.Services.Dispatcher.{
  CommandRequest, CommandResponse, Cache, CommandDispatcher, DispatcherPorts, id_key, name_key,
  find_cached, cache_item, cache_response, parse_request, respond, execute, answer, receive,
  on_message,
}

c_text-set :
    (xs : List ℕ) (i : ℕ) → i < length xs → length (c_text (length xs) (set xs i 0)) < length xs
unfolding c_text
c_text-set [] i h = absurd (omega (arith, h))
c_text-set (x ∷ xs) zero h = ground arith
c_text-set (x ∷ xs) (suc i) h = ground (arith, c_text-set xs i (omega (arith, h)))

-- A text that get_string found ends within its array.
copy_string-ended :
    (capacity : ℕ) (bytes value : List ℕ) (output : ℕ)
    → capacity < 2 ^ 32
    → length value ≡ capacity
    → output < capacity
    → (copy_string capacity bytes value output).0 ≡ true
    → length (c_text capacity (copy_string capacity bytes value output).1) < capacity
unfolding copy_string
copy_string-ended capacity [] value output small full room found = absurd (ground arith)
copy_string-ended capacity (x ∷ []) value output small full room found =
    elim (Bool-cases (x == 34)) [
      | inl e ↦ rw e (rw full at (c_text-set value output (omega (arith, room, full))))
      | inr e ↦ absurd (ground arith)
    ]
copy_string-ended capacity (x ∷ y ∷ xs) value output small full room found =
    elim (Bool-cases (x == 34)) [
      | inl e ↦ rw e (rw full at (c_text-set value output (omega (arith, room, full))))
      | inr e ↦ elim (Bool-cases (leb capacity (add_size output 1))) [
        | inl f ↦ absurd (ground arith)
        | inr f ↦
            let next : add_size output 1 < capacity = ground arith in
            elim (Bool-cases (x == 92)) [
              | inl g ↦
                  rw (e, f, g)
                    (copy_string-ended capacity xs (set value output y) (add_size output 1) small
                      (length-set value output y ∙ full) next (rw (e, f, g) at found))
              | inr g ↦
                  rw (e, f, g)
                    (copy_string-ended capacity (y ∷ xs) (set value output x) (add_size output 1)
                      small (length-set value output x ∙ full) next (rw (e, f, g) at found))
            ]
      ]
    ]

string_at-ended :
    (bytes : List ℕ)
    → (string_at (replicate 16 0) 16 bytes).0 ≡ true
    → length (c_text 16 (string_at (replicate 16 0) 16 bytes).1) < 16
unfolding string_at
string_at-ended [] found = absurd (ground arith)
string_at-ended (x ∷ xs) found = elim (Bool-cases (x == 34)) [
  | inl e ↦
      rw e (
        copy_string-ended 16 xs (replicate 16 0) 0 (omega arith) refl (omega arith) (rw e at found))
  | inr e ↦ absurd (ground arith)
]

none≢some : (request : CommandRequest) → ◌≡◌ {A = Option CommandRequest} none (some request) → ⊥
none≢some request h = cc

abbrev id_of : Option CommandRequest → List ℕ
id_of none = []
id_of (some request) = request.id

parse_request-ended :
    (m : MessageEnvelope) (request : CommandRequest)
    → parse_request m ≡ some request
    → length (c_text 16 request.id) < 16
unfolding parse_request get_string
parse_request-ended m request parsed =
    let bytes = take m.payload.size m.payload.data_bytes in
    let (has_id, id) = string_at (replicate 16 0) 16 (find_value (some id_key) bytes) in
    let (has_name, name) = string_at (replicate 24 0) 24 (find_value (some name_key) bytes) in
    elim (Bool-cases has_id) [
      | inl e ↦ elim (Bool-cases has_name) [
        | inl f ↦
            let same_id : id ≡ request.id = ap id_of (rw (e, f) at parsed) in
            rw (← same_id) (string_at-ended (find_value (some id_key) bytes) e)
        | inr f ↦ absurd (none≢some request (rw (e, f) at parsed))
      ]
      | inr e ↦ absurd (none≢some request (rw e at parsed))
    ]

stored-matches :
    (id : List ℕ) (r : CommandResponse)
    → length (c_text 16 id) < 16
    → text_equal (some (cache_item id r).id) (some id) 16 ≡ true
stored-matches id r ended =
    let n = length (c_text 15 id) in
    let kept : c_text 16 (copy n id (replicate 16 0)) ≡ c_text 15 id =
      c_text-copy_zeros 15 16 id (omega arith) in
    let short : c_text 15 id ≡ c_text 16 id = c_text-short 15 id (omega (arith, ended)) in
    let under : ltb (length (c_text 16 id)) 16 ≡ true = ground (arith, ended) in
    rw
      (
        set-copy_zeros n 16 id,
        text_equal_lem (copy n id (replicate 16 0)) id 16,
        kept,
        short,
        same_refl (c_text 16 id),
        under,
      )
      refl

find_cached-set :
    (items : List Cache) (i : ℕ) (id : List ℕ) (item : Cache)
    → item.used && text_equal (some item.id) (some id) 16 ≡ true
    → i < length items
    → find_cached items id ≡ none
    → find_cached (set items i item) id ≡ some item.response
unfolding find_cached
find_cached-set [] i id item hit small missing = absurd (omega (arith, small))
find_cached-set (c ∷ items) zero id item hit small missing = rw hit refl
find_cached-set (c ∷ items) (suc i) id item hit small missing =
    elim (Bool-cases (c.used && text_equal (some c.id) (some id) 16)) [
      | inl e ↦ absurd (ground (arith, e, missing))
      | inr e ↦
          simp e (find_cached-set items i id item hit (omega (arith, small)) (simp e at missing))
    ]

-- A dispatcher whose window has eight places.
abbrev pub IsWindow : CommandDispatcher → Type 0
IsWindow d = (length d.cache ≡ 8) × (d.cache_index < 8)

find_cached-cache_response :
    (d : CommandDispatcher) (id : List ℕ) (r : CommandResponse)
    → IsWindow d
    → length (c_text 16 id) < 16
    → find_cached d.cache id ≡ none
    → find_cached (cache_response id r d).cache id ≡ some r
unfolding cache_response
find_cached-cache_response d id r v ended missing =
    find_cached-set d.cache d.cache_index id (cache_item id r) (stored-matches id r ended)
      (omega (arith, v.0, v.1)) missing

module _ {W : Type 0} (ports : DispatcherPorts W) where
  -- A message that parses (an id and a name that fit their arrays are found in its payload), handled
  -- by a dispatcher with a valid window, and later another message that parses, with the same id,
  -- however the world has changed between: both are answered with the same response, under the first
  -- id, each with its own correlation id. For the second one that answer is all that changes the
  -- world, so no handler runs again, and the dispatcher stays as it is.
  pub on_message-twice :
      (m again : MessageEnvelope) (first second : CommandRequest) (d : CommandDispatcher)
      (w later : W)
      → IsWindow d
      → parse_request m ≡ some first
      → parse_request again ≡ some second
      → second.id ≡ first.id
      → let d' = (on_message ports m d w).0 in
        (r : CommandResponse) × (before : W) × ((on_message ports m d w).1
          ≡ respond ports d.topics first.id r m.correlation_id before)
        × (on_message ports again d' later
            ≡ (d', respond ports d.topics first.id r again.correlation_id later))
  unfolding on_message receive answer cache_response
  on_message-twice m again first second d w later v parsed parsed' same_id =
      elim (Option-cases (find_cached d.cache first.id)) [
        | inl missing ↦
            let (r, before) = execute ports first d w in
            let kept =
              find_cached-cache_response d first.id r v (parse_request-ended m first parsed)
                missing in
            (
              r,
              before,
              rw (parsed, missing) refl,
              rw (parsed, missing, parsed', same_id, kept) refl,
            )
        | inr (r, found) ↦
            (r, w, rw (parsed, found) refl, rw (parsed, found, parsed', same_id, found) refl)
      ]
