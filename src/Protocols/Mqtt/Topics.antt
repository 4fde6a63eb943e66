-- ===== src/Protocols/Mqtt/Topics.antt =====
-- The topic that MqttTopics::build writes.
use agile_firmware_framework.Prelude.{
  ℕ, ◌+◌, ◌^◌, ◌≤◌, ◌<◌, ◌≡◌, refl, sym, Bool, true, false, Option, none, some, List, [], ◌∷◌, ◌++◌,
  length, set, leb, ◌==◌, Bool-cases, inl, inr, ◌⊎◌, arith, append_assoc, append-nil, length-append,
  set-append,
}
use agile_firmware_framework.Prelude.Strings.{characters}
use agile_firmware_framework.Prelude.Words.{add_size}
use agile_firmware_framework.Services.Limits.{topic_capacity}
use agile_firmware_framework.Services.Text.{Text}
use agile_firmware_framework.Protocols.Mqtt.{
  MqttTopicKind, status, state, telemetry, command_request, command_response, ota_request,
  ota_event, diagnostics, MqttTopics, append_text, base_parts, channel_parts,
}

abbrev prefixed : List ℕ → Option (List ℕ) → Option (List ℕ)
prefixed xs none = none
prefixed xs (some ys) = some (xs ++ ys)

-- The texts one after the other; `none` where one of them is a null pointer.
unfoldable pub joined : List Text → Option (List ℕ)
joined [] = some []
joined (none ∷ ts) = none
joined (some s ∷ ts) = prefixed (characters s) (joined ts)

-- A text of an array: its characters, the terminator and the rest.
abbrev pub ended : List ℕ → List ℕ → List ℕ
ended xs tail = xs ++ (0 ∷ tail)

-- Appending to the text `xs` gives the longer text, or fails where that does not fit.
unfoldable pub Appended : ℕ → List ℕ → List ℕ → Bool × List ℕ × ℕ → Type 0
Appended capacity xs s r =
    ((tail : List ℕ) × (length (xs ++ s) < capacity)
      × (length (ended (xs ++ s) tail) ≡ capacity)
      × (r ≡ (true, ended (xs ++ s) tail, length (xs ++ s))))
    ⊎ ((capacity ≤ length xs + length s) × (r.0 ≡ false) × (length r.1 ≡ capacity))

Appended-cons :
    (capacity : ℕ) (xs : List ℕ) (c : ℕ) (s : List ℕ) (r : Bool × List ℕ × ℕ)
    → Appended capacity (xs ++ (c ∷ [])) s r
    → Appended capacity xs (c ∷ s) r
unfolding Appended
Appended-cons capacity xs c s r h =
    let joint : (xs ++ (c ∷ [])) ++ s ≡ xs ++ (c ∷ s) = append_assoc xs (c ∷ []) s in
    elim h [
      | inl (tail, fits, size, e) ↦ inl (tail, rw joint at fits, rw joint at size, rw joint at e)
      | inr (long, e, size) ↦ inr (omega (arith, long, length-append xs (c ∷ [])), e, size)
    ]

terminated :
    (capacity : ℕ) (xs : List ℕ) (y : ℕ) (tail : List ℕ)
    → length (xs ++ (y ∷ tail)) ≡ capacity
    → Appended capacity xs [] (true, set (xs ++ (y ∷ tail)) (length xs) 0, length xs)
unfolding Appended
terminated capacity xs y tail full =
    let size = length-append xs (y ∷ tail) in
    rw (append-nil xs, set-append xs y 0 tail)
      (inl (
        tail,
        omega (arith, size, full),
        omega (arith, size, full, length-append xs (0 ∷ tail)),
        refl,
      ))

pub append_text_lem :
    (capacity : ℕ) (s xs : List ℕ) (y : ℕ) (tail : List ℕ)
    → capacity < 2 ^ 32
    → length (xs ++ (y ∷ tail)) ≡ capacity
    → Appended capacity xs (characters s) (append_text capacity s (xs ++ (y ∷ tail)) (length xs))
unfolding append_text Appended characters
append_text_lem capacity [] xs y tail small full = terminated capacity xs y tail full
append_text_lem capacity (c ∷ cs) xs y [] small full = elim (Bool-cases (c == 0)) [
  | inl e ↦ rw e (terminated capacity xs y [] full)
  | inr e ↦
      let stop : leb capacity (add_size (length xs) 1) ≡ true =
        ground (arith, length-append xs (y ∷ []), full) in
      rw (e, stop) (inr (omega (arith, length-append xs (y ∷ []), full), refl, full))
]
append_text_lem capacity (c ∷ cs) xs y (z ∷ rest) small full = elim (Bool-cases (c == 0)) [
  | inl e ↦ rw e (terminated capacity xs y (z ∷ rest) full)
  | inr e ↦
      let size = length-append xs (y ∷ z ∷ rest) in
      let size' = length-append xs (c ∷ []) in
      let next : add_size (length xs) 1 ≡ length (xs ++ (c ∷ [])) =
        omega (arith, size, full, small, size') in
      let on : leb capacity (length (xs ++ (c ∷ []))) ≡ false = ground (arith, size, full, size') in
      let moved : xs ++ (c ∷ z ∷ rest) ≡ (xs ++ (c ∷ [])) ++ (z ∷ rest) =
        sym (append_assoc xs (c ∷ []) (z ∷ rest)) in
      let backed : length ((xs ++ (c ∷ [])) ++ (z ∷ rest)) ≡ capacity =
        omega (arith, length-append (xs ++ (c ∷ [])) (z ∷ rest), size', size, full) in
      rw (e, set-append xs y c (z ∷ rest), next, on, moved)
        (Appended-cons capacity xs c (characters cs)
          (append_text capacity cs ((xs ++ (c ∷ [])) ++ (z ∷ rest)) (length (xs ++ (c ∷ []))))
          (append_text_lem capacity cs (xs ++ (c ∷ [])) z rest small backed))
]

-- The last level of a topic, by its ASCII characters: "status", "state", "telemetry", "cmd/req",
-- "cmd/res", "ota/req", "ota/evt" and "diag".
abbrev pub level : MqttTopicKind → List ℕ
level command_request = 99 ∷ 109 ∷ 100 ∷ 47 ∷ 114 ∷ 101 ∷ 113 ∷ []
level command_response = 99 ∷ 109 ∷ 100 ∷ 47 ∷ 114 ∷ 101 ∷ 115 ∷ []
level ota_request = 111 ∷ 116 ∷ 97 ∷ 47 ∷ 114 ∷ 101 ∷ 113 ∷ []
level ota_event = 111 ∷ 116 ∷ 97 ∷ 47 ∷ 101 ∷ 118 ∷ 116 ∷ []
level diagnostics = 100 ∷ 105 ∷ 97 ∷ 103 ∷ []
level status = 115 ∷ 116 ∷ 97 ∷ 116 ∷ 117 ∷ 115 ∷ []
level state = 115 ∷ 116 ∷ 97 ∷ 116 ∷ 101 ∷ []
level telemetry = 116 ∷ 101 ∷ 108 ∷ 101 ∷ 109 ∷ 101 ∷ 116 ∷ 114 ∷ 121 ∷ []

-- What a channel adds to a topic: "/" and the channel, for states and telemetry only.
abbrev pub channel_level : MqttTopicKind → Text → List Text
channel_level state (some channel) = some (47 ∷ []) ∷ some channel ∷ []
channel_level telemetry (some channel) = some (47 ∷ []) ∷ some channel ∷ []
channel_level _ _ = []

-- "asd/v1/", the site, "/", the device, "/", the last level and what the channel adds.
abbrev pub topic : MqttTopics → MqttTopicKind → Text → Option (List ℕ)
topic t kind channel = joined (
    some (97 ∷ 115 ∷ 100 ∷ 47 ∷ 118 ∷ 49 ∷ 47 ∷ [])
    ∷ t.site
    ∷ some (47 ∷ [])
    ∷ t.device
    ∷ some (47 ∷ [])
    ∷ some (level kind)
    ∷ channel_level kind channel)

-- Appending all the texts to `xs`, or failing where they do not fit or one is a null pointer.
Built : List ℕ → List Text → Bool × List ℕ × ℕ → Type 0
Built xs ts r =
    ((j tail : List ℕ) × (joined ts ≡ some j)
      × (length (xs ++ j) < topic_capacity)
      × (length (ended (xs ++ j) tail) ≡ topic_capacity)
      × (r ≡ (true, ended (xs ++ j) tail, length (xs ++ j))))
    ⊎ (((j : List ℕ) → joined ts ≡ some j → topic_capacity ≤ length xs + length j)
        × (r.0 ≡ false)
        × (length r.1 ≡ topic_capacity))

abbrev parts : MqttTopics → MqttTopicKind → Text → List Text
parts t kind channel = base_parts t kind ++ channel_parts kind channel
