-- ===== src/Libraries/RingBuffer/Refine.antt =====
-- FixedRingBuffer keeps its indices in range and behaves as the bounded queue of its values.
use agile_firmware_framework.Prelude.{
  ℕ, zero, suc, ◌+◌, ◌-◌, ◌%◌, ◌^◌, ◌≤◌, ◌<◌, ◌≡◌, ◌≢◌, ◌⊎◌, inl, inr, refl, sym, ap, ap₂, ◌∙◌,
  List, [], ◌∷◌, ◌++◌, length, get_or, set, length-set, length-replicate, get_or-set_self,
  get_or-set_ne, arith, dec_lt, ◌==◌, Bool-cases,
}
use agile_firmware_framework.Prelude.Words.{add_size}
use native.Mathlib.Nat.{mod-add-mod, mod-eq_of_lt, mod-eq-sub-mod}
use agile_firmware_framework.Libraries.RingBuffer.{
  RingBuffer, empty_buffer, try_push, try_pop, drop_oldest, clear,
}
use agile_firmware_framework.Libraries.RingBuffer.Queue.{
  Call, push, pop, look, skip, wipe, queue_step, queue_run, buffer_step, buffer_run,
}

module _ {ℓ} {A : Type ℓ} (capacity : ℕ) (blank : A) where
  pub record IsValid (b : RingBuffer A) : Type ℓ where
    pub backed : length b.entries ≡ capacity
    pub small : capacity < 2 ^ 32
    pub read_in : b.read_index < capacity
    pub counted : b.count ≤ capacity
    pub write_at : b.write_index ≡ (b.read_index + b.count) % capacity

  -- `n` values from position `s` on, where positions count on round the array.
  abbrev pub view : List A → ℕ → ℕ → List A
  view es s zero = []
  view es s (suc n) = get_or es (s % capacity) blank ∷ view es (suc s) n

  abbrev pub contents : RingBuffer A → List A
  contents b = view b.entries b.read_index b.count

  length-view : (es : List A) (s n : ℕ) → length (view es s n) ≡ n
  length-view es s zero = refl
  length-view es s (suc n) = ap suc (length-view es (suc s) n)

  suc-mod : (s : ℕ) → suc s % capacity ≡ (s % capacity + 1) % capacity
  suc-mod s =
      ap (λ t. t % capacity) {x = suc s} {y = s + 1} (omega arith) ∙ sym (mod-add-mod s capacity 1)

  -- Only the position's remainder matters.
  view-mod : (es : List A) (n s t : ℕ) → s % capacity ≡ t % capacity → view es s n ≡ view es t n
  view-mod es zero s t e = refl
  view-mod es (suc n) s t e =
      ap₂ ◌∷◌ (ap (λ i. get_or es i blank) e) (view-mod es n (suc s) (suc t) next)
    where
      next : suc s % capacity ≡ suc t % capacity
      next = suc-mod s ∙ ap (λ (i : ℕ). (i + 1) % capacity) e ∙ sym (suc-mod t)

  -- A write outside the positions of a view leaves it alone.
  view-set :
      (es : List A) (n s i : ℕ) (x : A)
      → ((k : ℕ) → k < n → i ≢ (s + k) % capacity)
      → view (set es i x) s n ≡ view es s n
  view-set es zero s i x away = refl
  view-set es (suc n) s i x away =
      ap₂ ◌∷◌ (get_or-set_ne es i (s % capacity) x blank (λ e. away 0 (omega arith) (e ∙ here)))
        (view-set es n (suc s) i x (λ k h e. away (suc k) (omega arith) (e ∙ there k)))
    where
      here : s % capacity ≡ (s + 0) % capacity
      here = ap (λ t. t % capacity) {x = s} {y = s + 0} (omega arith)

      there : (k : ℕ) → (suc s + k) % capacity ≡ (s + suc k) % capacity
      there k = ap (λ t. t % capacity) {x = suc s + k} {y = s + suc k} (omega arith)

  view-snoc :
      (es : List A) (n s : ℕ)
      → view es s (suc n) ≡ view es s n ++ (get_or es ((s + n) % capacity) blank ∷ [])
  view-snoc es zero s =
      ap (λ t. get_or es (t % capacity) blank ∷ []) {x = s} {y = s + 0} (omega arith)
  view-snoc es (suc n) s =
      ap (λ t. get_or es (s % capacity) blank ∷ t)
        (view-snoc es n (suc s)
          ∙ ap (λ t. view es (suc s) n ++ (get_or es (t % capacity) blank ∷ [])) {x = suc s + n}
              {y = s + suc n} (omega arith))

  -- Two positions less than a round apart have different indices.
  positions-ne :
      (s k n : ℕ) → k < n → n < capacity → s < capacity → (s + n) % capacity ≢ (s + k) % capacity
  positions-ne s k n hk hn hs e = omega (arith, wrapped n hn, wrapped k (omega arith), e)
    where
      wrapped :
          (m : ℕ)
          → m < capacity
          → ((s + m) % capacity ≡ s + m) × (s + m < capacity)
            ⊎ ((s + m) % capacity + capacity ≡ s + m)
      wrapped m hm = elim (dec_lt (s + m) capacity) [
        | yes p ↦ inl (mod-eq_of_lt p, p)
        | no p ↦ inr (
            omega (
              arith,
              mod-eq-sub-mod {n = s + m} {m = capacity} (omega arith),
              mod-eq_of_lt {n = s + m - capacity} {m = capacity} (omega arith),
            ))
      ]

  -- `try_push` appends its value unless the buffer is full.
  push_contents :
      (x : A) (b : RingBuffer A)
      → IsValid b
      → b.count < capacity
      → view (set b.entries b.write_index x) b.read_index (suc b.count) ≡ contents b ++ (x ∷ [])
  push_contents x b v room =
      view-snoc (set b.entries b.write_index x) b.count b.read_index
      ∙ ap₂ (λ q y. q ++ (y ∷ []))
          (view-set b.entries b.count b.read_index b.write_index x
            (λ k h e. positions-ne b.read_index k b.count h room v.read_in (rw (← v.write_at) e)))
          (rw (← v.write_at) (get_or-set_self b.entries b.write_index x blank inside))
    where
      inside : b.write_index < length b.entries
      inside = omega arith

  no_wrap : (i : ℕ) → i < capacity → capacity < 2 ^ 32 → add_size i 1 ≡ i + 1
  no_wrap i h small = omega arith

  pub try_push-IsValid :
      (x : A) (b : RingBuffer A) → IsValid b → IsValid (try_push capacity blank x b).1
  unfolding try_push
  try_push-IsValid x b v = ground (
    arith,
    length-set b.entries b.write_index x,
    mod-add-mod (b.read_index + b.count) capacity 1,
    no_wrap b.write_index,
    no_wrap b.count,
  )

  pub drop_oldest-IsValid :
      (b : RingBuffer A) → IsValid b → IsValid (drop_oldest capacity blank b).1
  unfolding drop_oldest
  drop_oldest-IsValid b v =
      ground (arith, mod-add-mod (b.read_index + 1) capacity (b.count - 1), no_wrap b.read_index)

  -- `try_pop` leaves the buffer that `drop_oldest` leaves.
  try_pop-drop_oldest :
      (x : A) (b : RingBuffer A) → (try_pop capacity blank x b).2 ≡ (drop_oldest capacity blank b).1
  unfolding try_pop drop_oldest
  try_pop-drop_oldest x b = ground arith

  clear-IsValid : (b : RingBuffer A) → IsValid b → IsValid (clear capacity blank b)
  unfolding clear
  clear-IsValid b v = ground (arith, mod-eq_of_lt {n = 0} {m = capacity})

  pub length-contents : (b : RingBuffer A) → length (contents b) ≡ b.count
  length-contents b = length-view b.entries b.read_index b.count

  contents-nil : (b : RingBuffer A) → b.count ≡ 0 → contents b ≡ []
  contents-nil b h = ap (view b.entries b.read_index) h

  -- With a value inside, the view is the oldest value and the view after dropping it.
  contents-drop :
      (b : RingBuffer A)
      → IsValid b
      → b.count ≢ 0
      → contents b
        ≡ get_or b.entries b.read_index blank
          ∷ view b.entries (add_size b.read_index 1 % capacity) (b.count - 1)
  contents-drop b v h =
      let e : b.count ≡ suc (b.count - 1) = omega arith in
      ap (view b.entries b.read_index) e
      ∙ ap₂ (λ i q. get_or b.entries i blank ∷ q) (mod-eq_of_lt v.read_in)
          (view-mod b.entries (b.count - 1) (suc b.read_index) (add_size b.read_index 1 % capacity)
            again)
    where
      again : suc b.read_index % capacity ≡ add_size b.read_index 1 % capacity % capacity
      again =
          let e : add_size b.read_index 1 ≡ suc b.read_index = omega arith in
          rw e (sym (mod-eq_of_lt (omega arith)))

  -- An empty buffer is valid when the capacity is positive and fits size_t.
  pub empty_buffer-IsValid :
      0 < capacity → capacity < 2 ^ 32 → IsValid (empty_buffer capacity blank)
  unfolding empty_buffer
  empty_buffer-IsValid h small =
      ground (arith, length-replicate capacity blank, mod-eq_of_lt {n = 0} {m = capacity})

  -- Every call keeps a valid buffer valid.
  pub buffer_step-IsValid :
      (c : Call A) (b : RingBuffer A) → IsValid b → IsValid (buffer_step capacity blank c b).2
  unfolding buffer_step
  buffer_step-IsValid (push x) b v = try_push-IsValid x b v
  buffer_step-IsValid (pop x) b v = rw (try_pop-drop_oldest x b) (drop_oldest-IsValid b v)
  buffer_step-IsValid (look x) b v = v
  buffer_step-IsValid skip b v = drop_oldest-IsValid b v
  buffer_step-IsValid wipe b v = clear-IsValid b v

  -- Every call on a valid buffer answers, and changes the values held, as the bounded queue does.
  pub buffer_step_refines :
      (c : Call A) (b : RingBuffer A)
      → IsValid b
      → let (done, out, b') = buffer_step capacity blank c b in
        (done, out, contents b') ≡ queue_step capacity c (contents b)
  unfolding buffer_step queue_step
  buffer_step_refines (push x) b v = elim (Bool-cases (b.count == capacity)) [
    | inl e ↦ rw (e, length-view, e)
    | inr e ↦
        let room : b.count < capacity = ground arith in
        let next : add_size b.count 1 ≡ suc b.count = omega arith in
        rw (e, length-view, e, next, push_contents x b v room)
  ]
  buffer_step_refines (pop x) b v = elim (Bool-cases (b.count == 0)) [
    | inl e ↦ rw (e, contents-nil b (ground arith))
    | inr e ↦ rw (e, contents-drop b v (ground arith))
  ]
  buffer_step_refines (look x) b v = elim (Bool-cases (b.count == 0)) [
    | inl e ↦ rw (e, contents-nil b (ground arith))
    | inr e ↦ rw (e, contents-drop b v (ground arith))
  ]
  buffer_step_refines skip b v = elim (Bool-cases (b.count == 0)) [
    | inl e ↦ rw (e, contents-nil b (ground arith))
    | inr e ↦ rw (e, contents-drop b v (ground arith))
  ]
  buffer_step_refines wipe b v = refl

  -- The replies of any script of calls on a valid buffer, with the size and the flags after each,
  -- are those of the bounded queue of its values.
  pub buffer_run_refines :
      (cs : List (Call A)) (b : RingBuffer A)
      → IsValid b
      → buffer_run capacity blank cs b ≡ queue_run capacity cs (contents b)
  unfolding buffer_run queue_run
  buffer_run_refines [] b v = refl
  buffer_run_refines (c ∷ cs) b v = rw (
    buffer_run_refines cs (buffer_step capacity blank c b).2 (buffer_step-IsValid c b v),
    ← buffer_step_refines c b v,
    length-view,
  )
