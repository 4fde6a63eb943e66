-- ===== src/Services/Network.antt =====
-- components/services/network_manager: NetworkManager, which prefers the first of its links and falls
-- back to the others.
pub mod Links
pub mod Starts
mod Tests
use agile_firmware_framework.Prelude.{
  ℕ, zero, suc, ◌+◌, Bool, true, false, not, ◌||◌, Option, none, some, List, [], ◌∷◌, get_or, set,
  take, replicate, ltb, leb, ◌==◌, if◌then◌else◌,
}
use agile_firmware_framework.Prelude.Words.{add32, add_size, reached}
use agile_firmware_framework.Uhal.{Status, ok, is_ok, is_busy, no_resources}
use agile_firmware_framework.Libraries.Retry.{
  BackoffPolicy, default_policy, next_delay_ms, reset, exhausted,
}
use agile_firmware_framework.Services.Limits.{network_link_capacity}

pub data LinkKind : Type 0 where
  wifi cellular : LinkKind

pub data LinkState : Type 0 where
  down connecting_link up failed disabled : LinkState

pub data ConnectivityState : Type 0 where
  offline connecting online_primary online_backup provisioning_required : ConnectivityState

-- The numbers of the enumeration, by which states are compared.
abbrev pub state_code : ConnectivityState → ℕ
state_code offline = 0
state_code connecting = 1
state_code online_primary = 2
state_code online_backup = 3
state_code provisioning_required = 4

-- state == LinkState::up
abbrev pub is_up : LinkState → Bool
is_up up = true
is_up _ = false

-- The links and the observer, by the number of their object, over their state `W`; `Q` is a link's
-- quality, which the code only hands on.
pub record LinkPorts (Q W : Type 0) : Type 0 where
  pub start : ℕ → W → Status × W
  pub poll_link : ℕ → ℕ → W → W
  pub state : ℕ → W → LinkState
  pub quality : ℕ → W → Q
  pub kind : ℕ → W → LinkKind
  pub on_connectivity_changed : ℕ → ConnectivityState → LinkKind → Q → W → W

pub record NetworkManager : Type 0 where
  pub links : List ℕ
  pub backoff : List BackoffPolicy
  pub retry_at : List ℕ
  pub count : ℕ
  pub active : ℕ
  pub state : ConnectivityState
  pub observer : Option ℕ

-- The null pointers of `links_` are any number: no link from `count` on is looked at.
abbrev pub fresh_manager : NetworkManager
fresh_manager = record {
  links = replicate network_link_capacity 0;
  backoff = replicate network_link_capacity default_policy;
  retry_at = replicate network_link_capacity 0;
  count = 0;
  active = network_link_capacity;
  state = provisioning_required;
  observer = none;
}

unfoldable pub add_link : ℕ → NetworkManager → Status × NetworkManager
add_link link m = if leb network_link_capacity m.count then (no_resources, m) else (
  ok,
  record m {
    links = set m.links m.count link;
    count = add_size m.count 1;
    state = (if state_code m.state == state_code provisioning_required then offline else m.state);
  },
)

unfoldable pub set_observer : Option ℕ → NetworkManager → NetworkManager
set_observer observer m = record m { observer = observer }

module _ {Q W : Type 0} (ports : LinkPorts Q W) where
  -- The first loop of `poll`.
  unfoldable pub poll_links : List ℕ → ℕ → W → W
  poll_links [] now w = w
  poll_links (link ∷ links) now w = poll_links links now (ports.poll_link link now w)

  -- The second loop: the index of the first link that is up, where the links left start at `i`.
  unfoldable pub first_up : ℕ → List ℕ → W → Option ℕ
  first_up i [] w = none
  first_up i (link ∷ links) w =
      let rest = first_up (suc i) links w in if is_up (ports.state link w) then some i else rest

  abbrev pub notify : Option ℕ → ConnectivityState → ℕ → NetworkManager → W → W
  notify none state index m w = w
  notify (some observer) state index m w =
      let link = get_or m.links index 0 in
      if ltb index m.count
      then ports.on_connectivity_changed observer state (ports.kind link w) (ports.quality link w) w
      else w

  unfoldable pub publish : ConnectivityState → ℕ → NetworkManager → W → NetworkManager × W
  publish state index m w =
      if state_code m.state == state_code state
      then (m, w)
      else (record m { state = state }, notify m.observer state index m w)

  abbrev pub backoff_of : ℕ → NetworkManager → BackoffPolicy
  backoff_of i m = get_or m.backoff i default_policy

  -- `start` of a link in the third loop, with the time of its next attempt.
  unfoldable pub start_link : ℕ → ℕ → NetworkManager → W → Status × NetworkManager × W
  unfolding next_delay_ms
  start_link i now m w =
      let (status, w') = ports.start (get_or m.links i 0) w in
      let (delay, b) = next_delay_ms (backoff_of i m) in
      (
        status,
        record m { retry_at = set m.retry_at i (add32 now delay); backoff = set m.backoff i b },
        w',
      )

  -- The third loop, for the rounds left from `i` on: whether a link was started.
  unfoldable pub try_links : ℕ → ℕ → ℕ → NetworkManager → W → Bool × NetworkManager × W
  unfolding exhausted
  try_links zero i now m w = (false, m, w)
  try_links (suc n) i now m w =
      let skipped = try_links n (suc i) now m w in
      let (status, m', w') = start_link i now m w in
      let (more, m'', w'') = try_links n (suc i) now m' w' in
      if exhausted (backoff_of i m) || not (reached now (get_or m.retry_at i 0))
      then skipped
      else if is_ok status || is_busy status
      then (true, m', w')
      else (true, m'', w'')

  -- `poll` from the second loop on, for the index that it finds.
  unfoldable pub connect : Option ℕ → ℕ → NetworkManager → W → NetworkManager × W
  unfolding reset
  connect (some i) now m w =
      publish (if i == 0 then online_primary else online_backup) i
        (record m { active = i; backoff = set m.backoff i (reset (backoff_of i m)) }) w
  connect none now m w =
      let (attempted, m', w') =
        try_links m.count 0 now (record m { active = network_link_capacity }) w in
      publish (if attempted then connecting else offline) 0 m' w'

  unfoldable pub poll : ℕ → NetworkManager → W → NetworkManager × W
  poll now m w =
      let links = take m.count m.links in
      let w' = poll_links links now w in connect (first_up 0 links w') now m w'

  unfoldable pub active_kind : NetworkManager → W → LinkKind
  active_kind m w = if ltb m.active m.count then ports.kind (get_or m.links m.active 0) w else wifi
