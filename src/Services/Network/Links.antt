-- ===== src/Services/Network/Links.antt =====
-- Which link NetworkManager::poll takes.
use agile_firmware_framework.Prelude.{
  ℕ, zero, suc, ◌+◌, ◌≡◌, ◌≢◌, refl, true, false, Option, none, some, List, [], ◌∷◌, All, get_or,
  set, take, not, ◌||◌, ap, ◌∙◌, ◌==◌, if◌then◌else◌, Bool-cases, Option-cases, ◌<◌, ltb, inl, inr,
  ◌⊎◌, arith,
}
use agile_firmware_framework.Prelude.Words.{reached}
use agile_firmware_framework.Uhal.{is_ok, is_busy}
use agile_firmware_framework.Libraries.Retry.{exhausted, reset}
use agile_firmware_framework.Services.Limits.{network_link_capacity}
use agile_firmware_framework.Services.Network.{
  ConnectivityState, offline, connecting, online_primary, online_backup, state_code, is_up,
  LinkPorts, NetworkManager, poll_links, first_up, publish, try_links, start_link, backoff_of,
  connect, poll,
}

state_code-injective : (a b : ConnectivityState) → (state_code a == state_code b) ≡ true → a ≡ b
state_code-injective a b h = ground arith

module _ {Q W : Type 0} (ports : LinkPorts Q W) where
  -- The link at the place is up, and those before it are not.
  pub data FirstUp (w : W) : ℕ → ℕ → List ℕ → Type 0 where
    here :
        {link : ℕ} {links : List ℕ}
        → is_up (ports.state link w) ≡ true
        → FirstUp w 0 link (link ∷ links)
    later :
        {i link above : ℕ} {links : List ℕ}
        → is_up (ports.state above w) ≡ false
        → FirstUp w i link links
        → FirstUp w (suc i) link (above ∷ links)

  -- The links are polled one after the other, which takes the world to another.
  pub data Polled (now : ℕ) : List ℕ → W → W → Type 0 where
    polled_all : {w : W} → Polled now [] w w
    polled_one :
        {link : ℕ} {links : List ℕ} {w w' : W}
        → Polled now links (ports.poll_link link now w) w'
        → Polled now (link ∷ links) w w'

  poll_links-Polled :
      (now : ℕ) (links : List ℕ) (w : W) → Polled now links w (poll_links ports links now w)
  unfolding poll_links
  poll_links-Polled now [] w = polled_all
  poll_links-Polled now (link ∷ links) w =
      polled_one (poll_links-Polled now links (ports.poll_link link now w))

  -- The observer, where there is one, hears of a state other than the one before, with the kind and
  -- the quality of the link.
  pub data Heard (old new : ConnectivityState) (link : ℕ) (w : W) : Option ℕ → W → Type 0 where
    no_change : {observer : Option ℕ} → old ≡ new → Heard old new link w observer w
    no_observer : old ≢ new → Heard old new link w none w
    told :
        {observer : ℕ}
        → old ≢ new
        → Heard old new link w (some observer) (
            ports.on_connectivity_changed observer new (ports.kind link w) (ports.quality link w) w)

  FirstUp-get :
      (n i link : ℕ) (links : List ℕ) (w : W)
      → FirstUp w i link (take n links)
      → (i < n) × (get_or links i 0 ≡ link)
  FirstUp-get zero i link links w first = elim first [ ]
  FirstUp-get (suc n) i link [] w first = elim first [ ]
  FirstUp-get (suc n) zero link (x ∷ links) w (here h) = (omega arith, refl)
  FirstUp-get (suc n) (suc i) link (x ∷ links) w (later h first) =
      let (fits, at) = FirstUp-get n i link links w first in (omega (arith, fits), at)

  abbrev pub AllDown : W → List ℕ → Type 0
  AllDown w links = All (λ link. is_up (ports.state link w) ≡ false) links

  first_up_lem :
      (i : ℕ) (links : List ℕ) (w : W)
      → ((n link : ℕ) × FirstUp w n link links × (first_up ports i links w ≡ some (i + n)))
        ⊎ (AllDown w links × (first_up ports i links w ≡ none))
  unfolding first_up
  first_up_lem i [] w = inr (tt, refl)
  first_up_lem i (link ∷ links) w = elim (Bool-cases (is_up (ports.state link w))) [
    | inl e ↦ inl (0, link, here e, ground arith)
    | inr e ↦ elim (first_up_lem (suc i) links w) [
      | inl (n, l, first, h) ↦ inl (suc n, l, later e first, ground arith)
      | inr (none_up, h) ↦ inr ((e, none_up), ground arith)
    ]
  ]

  abbrev pub online : ℕ → ConnectivityState
  online i = if i == 0 then online_primary else online_backup

  publish-state :
      (state : ConnectivityState) (index : ℕ) (m : NetworkManager) (w : W)
      → ((publish ports state index m w).0.state ≡ state)
        × ((publish ports state index m w).0.active ≡ m.active)
  unfolding publish
  publish-state state index m w = elim (Bool-cases (state_code m.state == state_code state)) [
    | inl e ↦ simp e (state_code-injective m.state state e, refl)
    | inr e ↦ simp e (refl, refl)
  ]

  try_links-active :
      (n i now : ℕ) (m : NetworkManager) (w : W) → (try_links ports n i now m w).1.active ≡ m.active
  unfolding try_links start_link
  try_links-active zero i now m w = refl
  try_links-active (suc n) i now m w =
      let (status, m', w') = start_link ports i now m w in
      elim (Bool-cases
        (exhausted (backoff_of ports i m) || not (reached now (get_or m.retry_at i 0)))) [
          | inl e ↦ simp e (try_links-active n (suc i) now m w)
          | inr e ↦ elim (Bool-cases (is_ok status || is_busy status)) [
            | inl f ↦ simp (e, f)
            | inr f ↦ simp (e, f) (try_links-active n (suc i) now m' w')
          ]
        ]

  connect-none :
      (now : ℕ) (m : NetworkManager) (w : W)
      → let m' = (connect ports none now m w).0 in
        (m'.active ≡ network_link_capacity) × ((m'.state ≡ connecting) ⊎ (m'.state ≡ offline))
  unfolding connect
  connect-none now m w =
      let (attempted, m', w') =
        try_links ports m.count 0 now (record m { active = network_link_capacity }) w in
      let kept = try_links-active m.count 0 now (record m { active = network_link_capacity }) w in
      let state = if attempted then connecting else offline in
      let done = publish-state state 0 m' w' in
      (
        done.1 ∙ kept,
        elim (Bool-cases attempted) [
          | inl e ↦ inl (done.0 ∙ rw e refl)
          | inr e ↦ inr (done.0 ∙ rw e refl)
        ],
      )

  -- The manager with the link `i` active.
  abbrev started : ℕ → NetworkManager → NetworkManager
  unfolding reset
  started i m = record m { active = i; backoff = set m.backoff i (reset (backoff_of ports i m)) }

  publish-Heard :
      (new : ConnectivityState) (i link : ℕ) (m : NetworkManager) (w : W)
      → i < m.count
      → get_or m.links i 0 ≡ link
      → Heard m.state new link w m.observer (publish ports new i (started i m) w).1
  unfolding publish started
  publish-Heard new i link m w fits at = elim (Bool-cases (state_code m.state == state_code new)) [
    | inl e ↦ simp e (no_change (state_code-injective m.state new e))
    | inr e ↦
        let other : m.state ≢ new = λ same. ground (arith, ap state_code same) in
        let inside : ltb i m.count ≡ true = ground arith in
        elim (Option-cases m.observer) [
          | inl nobody ↦ simp (e, nobody) (no_observer other)
          | inr (observer, somebody) ↦ simp (e, somebody, inside, at) (told other)
        ]
  ]

  -- A poll polls the links in their order and then looks for the first one that is up. If there is
  -- one, it becomes the active link, the state is `online_primary` for the first of all and
  -- `online_backup` for another, and nothing else happens to the world but that the observer, where
  -- there is one, is called with the link's kind and quality exactly when that is a new state. If no
  -- link is up, none is active, and the state is `connecting` or `offline`.
  pub network_poll_lem :
      (now : ℕ) (m : NetworkManager) (w : W)
      → let links = take m.count m.links in
        let (m', after) = poll ports now m w in
        (w' : W) × Polled now links w w'
        × (((i link : ℕ) × FirstUp w' i link links
              × (m'.active ≡ i)
              × (m'.state ≡ online i)
              × Heard m.state (online i) link w' m.observer after)
            ⊎ (AllDown w' links
                × (m'.active ≡ network_link_capacity)
                × ((m'.state ≡ connecting) ⊎ (m'.state ≡ offline))))
  unfolding poll connect started
  network_poll_lem now m w =
      let links = take m.count m.links in
      let w' = poll_links ports links now w in
      (
        w',
        poll_links-Polled now links w,
        elim (first_up_lem 0 links w') [
          | inl (n, link, first, h) ↦
              let found : first_up ports 0 links w' ≡ some n = rw h (ap some (omega arith)) in
              let done = publish-state (online n) n (started n m) w' in
              let (fits, at) = FirstUp-get m.count n link m.links w' first in
              rw found
                (inl (n, link, first, done.1, done.0, publish-Heard (online n) n link m w' fits at))
          | inr (none_up, h) ↦
              let failed = connect-none now m w' in rw h (inr (none_up, failed.0, failed.1))
        ],
      )
