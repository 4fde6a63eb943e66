-- ===== src/Services/Network/Starts.antt =====
-- How often NetworkManager starts links that stay down.
use agile_firmware_framework.Prelude.{
  ℕ, zero, suc, ◌+◌, ◌*◌, ◌≤◌, ◌<◌, ◌≡◌, refl, true, false, not, ◌||◌, Option, none, some, List, [],
  ◌∷◌, All, length, get_or, set, take, leb, ltb, ◌==◌, if◌then◌else◌, Bool-cases, inl, inr, arith,
  length-set, ◌∙◌,
}
use agile_firmware_framework.Prelude.Words.{reached}
use agile_firmware_framework.Uhal.{is_ok, is_busy}
use agile_firmware_framework.Libraries.Retry.{
  BackoffPolicy, default_policy, exhausted, next_delay_ms,
}
use agile_firmware_framework.Services.Network.{
  LinkKind, ConnectivityState, state_code, offline, connecting, is_up, LinkPorts, NetworkManager,
  fresh_manager, add_link, set_observer, poll_links, first_up, notify, publish, start_link,
  try_links, backoff_of, connect, poll,
}
use agile_firmware_framework.Services.Limits.{network_link_capacity}

-- The calls that change the manager.
pub data Call : Type 0 where
  add : ℕ → Call
  observe : Option ℕ → Call
  poll_at : ℕ → Call

module _ {Q W : Type 0} (ports : LinkPorts Q W) where
  abbrev pub call : Call → NetworkManager → W → NetworkManager × W
  call (add link) m w = ((add_link link m).1, w)
  call (observe observer) m w = (set_observer observer m, w)
  call (poll_at now) m w = poll ports now m w

  abbrev pub run : List Call → NetworkManager → W → NetworkManager × W
  run [] m w = (m, w)
  run (c ∷ cs) m w = let (m', w') = call c m w in run cs m' w'

-- All attempts of the backoffs.
abbrev attempts : List BackoffPolicy → ℕ
attempts [] = 0
attempts (b ∷ bs) = b.attempt + attempts bs

abbrev IsPolicy : BackoffPolicy → Type 0
IsPolicy b = (b.attempt ≤ 10) × (b.max_attempts ≡ 10)

attempts-bound : (bs : List BackoffPolicy) → All IsPolicy bs → attempts bs ≤ 10 * length bs
attempts-bound [] h = omega arith
attempts-bound (b ∷ bs) h = omega (arith, attempts-bound bs h.1, h.0.0)

attempts-next :
    (bs : List BackoffPolicy) (i : ℕ)
    → All IsPolicy bs
    → i < length bs
    → exhausted (get_or bs i default_policy) ≡ false
    → let bs' = set bs i (next_delay_ms (get_or bs i default_policy)).1 in
      All IsPolicy bs' × (attempts bs' ≡ 1 + attempts bs)
unfolding exhausted next_delay_ms
attempts-next [] i h small e = absurd (omega (arith, small))
attempts-next (b ∷ bs) zero h small e =
    let on : ltb b.attempt b.max_attempts ≡ true = ground arith in
    let under : b.attempt < 10 = ground (arith, h.0.1) in
    rw on (((omega (arith, under), h.0.1), h.1), omega (arith, under))
attempts-next (b ∷ bs) (suc i) h small e =
    let rest = attempts-next bs i h.1 (omega (arith, small)) e in
    ((h.0, rest.0), omega (arith, rest.1))

module _ {Q W : Type 0} (ports : LinkPorts Q W) (starts : W → ℕ) where
  -- `starts` counts the starts of links, and no link ever comes up.
  abbrev pub IsCounted : Type 0
  IsCounted =
      ((link : ℕ) (w : W) → starts (ports.start link w).1 ≡ 1 + starts w)
      × ((link now : ℕ) (w : W) → starts (ports.poll_link link now w) ≡ starts w)
      × ((observer : ℕ) (state : ConnectivityState) (kind : LinkKind) (quality : Q) (w : W)
          → starts (ports.on_connectivity_changed observer state kind quality w) ≡ starts w)

  Bounded : NetworkManager → W → Type 0
  Bounded m w =
      All IsPolicy m.backoff
      × (length m.backoff ≡ 2)
      × (m.count ≤ 2)
      × (starts w ≤ attempts m.backoff)

  try_links-Bounded :
      IsCounted
      → (n i now : ℕ) (m : NetworkManager) (w : W) → n + i ≤ 2
      → Bounded m w
      → Bounded (try_links ports n i now m w).1 (try_links ports n i now m w).2
  unfolding Bounded try_links start_link
  try_links-Bounded counted zero i now m w small v = v
  try_links-Bounded counted (suc n) i now m w small v =
      let (status, m', w') = start_link ports i now m w in
      elim (Bool-cases (exhausted (backoff_of ports i m))) [
        | inl x ↦ simp x (try_links-Bounded counted n (suc i) now m w (omega (arith, small)) v)
        | inr x ↦ elim (Bool-cases (not (reached now (get_or m.retry_at i 0)))) [
          | inl e ↦
              simp (x, e) (try_links-Bounded counted n (suc i) now m w (omega (arith, small)) v)
          | inr e ↦
              let next = attempts-next m.backoff i v.0 (omega (arith, small, v.1)) x in
              let size = length-set m.backoff i (next_delay_ms (backoff_of ports i m)).1 in
              let more : starts w' ≤ attempts m'.backoff =
                omega (arith, counted.0 (get_or m.links i 0) w, next.1, v.3) in
              let v' : Bounded m' w' = (next.0, size ∙ v.1, v.2, more) in
              elim (Bool-cases (is_ok status || is_busy status)) [
                | inl f ↦ simp (x, e, f) v'
                | inr f ↦
                    simp (x, e, f)
                      (try_links-Bounded counted n (suc i) now m' w' (omega (arith, small)) v')
              ]
        ]
      ]

  notify-starts :
      IsCounted
      → (observer : Option ℕ) (state : ConnectivityState) (i : ℕ) (m : NetworkManager) (w : W)
      → starts (notify ports observer state i m w) ≡ starts w
  notify-starts counted none state i m w = refl
  notify-starts counted (some observer) state i m w = elim (Bool-cases (ltb i m.count)) [
    | inl e ↦ rw e (
        counted.2 observer state (ports.kind (get_or m.links i 0) w)
          (ports.quality (get_or m.links i 0) w) w)
    | inr e ↦ rw e refl
  ]

  publish-Bounded :
      IsCounted
      → (state : ConnectivityState) (i : ℕ) (m : NetworkManager) (w : W) → Bounded m w
      → Bounded (publish ports state i m w).0 (publish ports state i m w).1
  unfolding Bounded publish
  publish-Bounded counted state i m w v =
      elim (Bool-cases (state_code m.state == state_code state)) [
        | inl e ↦ simp e v
        | inr e ↦ simp e (v.0, v.1, v.2, rw (notify-starts counted m.observer state i m w) v.3)
      ]

  poll_links-starts :
      IsCounted
      → (links : List ℕ) (now : ℕ) (w : W) → starts (poll_links ports links now w) ≡ starts w
  unfolding poll_links
  poll_links-starts counted [] now w = refl
  poll_links-starts counted (link ∷ links) now w =
      poll_links-starts counted links now (ports.poll_link link now w) ∙ counted.1 link now w

  -- No link is ever up.
  abbrev pub IsDown : Type 0
  IsDown = (link : ℕ) (w : W) → is_up (ports.state link w) ≡ false

  first_up-none : IsDown → (i : ℕ) (links : List ℕ) (w : W) → first_up ports i links w ≡ none
  unfolding first_up
  first_up-none is_down i [] w = refl
  first_up-none is_down i (link ∷ links) w =
      rw (is_down link w) (first_up-none is_down (suc i) links w)

  poll-Bounded :
      IsCounted
      → IsDown
      → (now : ℕ) (m : NetworkManager) (w : W) → Bounded m w
      → Bounded (poll ports now m w).0 (poll ports now m w).1
  unfolding Bounded poll connect
  poll-Bounded counted is_down now m w v =
      let links = take m.count m.links in
      let w1 = poll_links ports links now w in
      let v1 : Bounded m w1 = (v.0, v.1, v.2, rw (poll_links-starts counted links now w) v.3) in
      let (attempted, m2, w2) =
        try_links ports m.count 0 now (record m { active = network_link_capacity }) w1 in
      rw (first_up-none is_down 0 links w1) (
        publish-Bounded counted (if attempted then connecting else offline) 0 m2 w2 (
          try_links-Bounded counted m.count 0 now (record m { active = network_link_capacity }) w1
            (omega (arith, v.2)) v1))

  add_link-Bounded :
      (link : ℕ) (m : NetworkManager) (w : W) → Bounded m w → Bounded (add_link link m).1 w
  unfolding Bounded add_link
  add_link-Bounded link m w v = elim (Bool-cases (leb 2 m.count)) [
    | inl e ↦ simp e v
    | inr e ↦ simp e (v.0, v.1, ground (arith, v.2), v.3)
  ]

  run-Bounded :
      IsCounted
      → IsDown
      → (cs : List Call) (m : NetworkManager) (w : W) → Bounded m w
      → Bounded (run ports cs m w).0 (run ports cs m w).1
  unfolding Bounded set_observer
  run-Bounded counted is_down [] m w v = v
  run-Bounded counted is_down (add link ∷ cs) m w v =
      run-Bounded counted is_down cs (add_link link m).1 w (add_link-Bounded link m w v)
  run-Bounded counted is_down (observe observer ∷ cs) m w v =
      run-Bounded counted is_down cs (set_observer observer m) w v
  run-Bounded counted is_down (poll_at now ∷ cs) m w v =
      let (m', w') = poll ports now m w in
      run-Bounded counted is_down cs m' w' (poll-Bounded counted is_down now m w v)

  -- From a fresh manager on, while no link ever comes up, links are started at most twenty times in
  -- all, whatever is added and however often the manager is polled.
  pub run-starts :
      IsCounted
      → IsDown
      → (cs : List Call) (w : W) → starts w ≡ 0
      → starts (run ports cs fresh_manager w).1 ≤ 20
  unfolding Bounded
  run-starts counted is_down cs w none_yet =
      let m' = (run ports cs fresh_manager w).0 in
      let v = run-Bounded counted is_down cs fresh_manager w (
        ((omega arith, refl), ((omega arith, refl), tt)),
        refl,
        omega arith,
        omega (arith, none_yet),
      ) in
      omega (arith, attempts-bound m'.backoff v.0, v.1, v.3)
