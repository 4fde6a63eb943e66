-- ===== src/Libraries/Events/Deliveries.antt =====
-- Which sinks an event reaches, and how often.
use agile_firmware_framework.Prelude.{
  ℕ, ◌+◌, ◌<◌, ◌≡◌, ap, ◌∙◌, Bool, false, ◌&&◌, none, some, List, [], ◌∷◌, length, get_or, set, leb,
  ◌==◌, if◌then◌else◌, Bool-cases, Option-cases, inl, inr, arith, All, All-get_or, All-set,
  get_or-set_self, get_or-set_ne,
}
use agile_firmware_framework.Libraries.Events.{Row, subscribe_row, subscribe, publish_row, publish}

-- How often a sink stands in a row.
unfoldable pub places : ℕ → Row → ℕ
places s [] = 0
places s (none ∷ row) = places s row
places s (some t ∷ row) = (if t == s then 1 else 0) + places s row

-- Null pointers stand behind the sinks, and no sink stands in the row twice.
unfoldable pub IsRow : Row → Type 0
IsRow [] = Unit
IsRow (none ∷ row) = (s : ℕ) → places s row ≡ 0
IsRow (some t ∷ row) = (places t row ≡ 0) × IsRow row

subscribe_row-places :
    (row : Row) (sink s : ℕ) (row' : Row)
    → IsRow row
    → subscribe_row row sink ≡ some row'
    → places s row' ≡ (if s == sink then 1 else places s row)
unfolding subscribe_row places IsRow
subscribe_row-places [] sink s row' v h = cc
subscribe_row-places (none ∷ row) sink s row' v h = ground (arith, v s)
subscribe_row-places (some t ∷ row) sink s row' v h = elim (Option-cases (subscribe_row row sink)) [
  | inl e ↦ ground (arith, v)
  | inr (r, e) ↦ ground (arith, v, subscribe_row-places row sink s r v.1 e)
]

some_eq : (a b : Row) → some a ≡ some b → a ≡ b
some_eq a b h = cc

empty-IsRow : (row : Row) → ((s : ℕ) → places s row ≡ 0) → IsRow row
unfolding IsRow places
empty-IsRow [] all = tt
empty-IsRow (none ∷ row) all = all
empty-IsRow (some t ∷ row) all = absurd (ground (arith, all t))

subscribe_row-IsRow :
    (row : Row) (sink : ℕ) (row' : Row)
    → IsRow row
    → subscribe_row row sink ≡ some row'
    → IsRow row'
unfolding subscribe_row IsRow
subscribe_row-IsRow [] sink row' v h = cc
subscribe_row-IsRow (none ∷ row) sink row' v h =
    rw (← some_eq (some sink ∷ row) row' h) (v sink, empty-IsRow row v)
subscribe_row-IsRow (some t ∷ row) sink row' v h = elim (Bool-cases (t == sink)) [
  | inl e ↦ rw (← some_eq (some t ∷ row) row' (rw e at h)) v
  | inr e ↦ elim (Option-cases (subscribe_row row sink)) [
    | inl f ↦ ground (arith, f)
    | inr (r, f) ↦
        let g : row' ≡ some t ∷ r = ground arith in
        rw g (
          ground (arith, subscribe_row-places row sink t r v.1 f),
          subscribe_row-IsRow row sink r v.1 f,
        )
  ]
]

module _ {E W : Type 0} (try_push : ℕ → E → W → Bool × W) (calls : W → ℕ → ℕ) where
  -- `calls` counts the calls of each sink.
  abbrev pub IsCounted : Type 0
  IsCounted =
      (s : ℕ) (event : E) (w : W) (x : ℕ)
      → calls (try_push s event w).1 x ≡ (if s == x then 1 else 0) + calls w x

  publish_row-calls :
      IsCounted
      → (row : Row) (event : E) (w : W) (x : ℕ)
      → calls (publish_row try_push row event w).1 x ≡ places x row + calls w x
  unfolding publish_row places
  publish_row-calls counted [] event w x = omega arith
  publish_row-calls counted (none ∷ row) event w x = publish_row-calls counted row event w x
  publish_row-calls counted (some s ∷ row) event w x =
      omega
        (arith, publish_row-calls counted row event (try_push s event w).1 x, counted s event w x)

  -- A sink that subscribed to a topic with `true` is called once by a publication there; and
  -- however the call ended, all other sinks as often as before, the sinks of other topics included.
  -- The bus has an array for each topic, in each of which a sink stands at most once, and the null
  -- pointers behind all sinks; subscribing keeps it so.
  pub publish-subscribe :
      IsCounted
      → (topic_count topic other sink : ℕ) (event : E) (bus : List Row) (w : W) (x : ℕ)
      → All IsRow bus
      → length bus ≡ topic_count
      → topic < topic_count
      → other < topic_count
      → let (subscribed, bus') = subscribe topic_count topic sink bus in
        All IsRow bus'
        × (calls (publish try_push topic_count other event bus' w).1 x
            ≡ (if subscribed && (topic == other && x == sink)
                then 1
                else places x (get_or bus other []))
              + calls w x)
  unfolding subscribe publish
  publish-subscribe counted topic_count topic other sink event bus w x v size at_topic at_other =
      rw (in_topic, in_other)
        (elim (Option-cases (subscribe_row (get_or bus topic []) sink)) [
          | inl e ↦ rw e (v, publish_row-calls counted (get_or bus other []) event w x)
          | inr (row, e) ↦ rw e (
            All-set IsRow bus topic row v
                (subscribe_row-IsRow (get_or bus topic []) sink row old e),
            publish_row-calls counted (get_or (set bus topic row) other []) event w x
                ∙ ap (λ (n : ℕ). n + calls w x) (in_row row e),
          )
        ])
    where
      in_topic : leb topic_count topic ≡ false
      in_topic = ground arith

      in_other : leb topic_count other ≡ false
      in_other = ground arith

      old : IsRow (get_or bus topic [])
      old = All-get_or IsRow bus topic [] v (unfold IsRow in tt)

      in_row :
          (row : Row)
          → subscribe_row (get_or bus topic []) sink ≡ some row
          → places x (get_or (set bus topic row) other [])
            ≡ (if topic == other && x == sink then 1 else places x (get_or bus other []))
      in_row row e = elim (Bool-cases (topic == other)) [
        | inl f ↦
            let same : other ≡ topic = ground arith in
            rw (f, same, get_or-set_self bus topic row [] (omega arith))
              (subscribe_row-places (get_or bus topic []) sink x row old e)
        | inr f ↦ rw (f, get_or-set_ne bus topic other row [] (ground arith))
      ]
