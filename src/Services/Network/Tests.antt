-- ===== src/Services/Network/Tests.antt =====
-- Two links, of which the second is up or none is, over a world that counts starts.
use agile_firmware_framework.Prelude.{
  ℕ, suc, ◌+◌, ◌≤◌, ◌≡◌, refl, some, List, [], ◌∷◌, ◌==◌, if◌then◌else◌, ◌⊎◌,
}
use agile_firmware_framework.Uhal.{ok, timeout}
use agile_firmware_framework.Services.Limits.{network_link_capacity}
use agile_firmware_framework.Services.Network.{
  wifi, cellular, down, up, offline, connecting, LinkPorts, NetworkManager, fresh_manager, poll,
}
use agile_firmware_framework.Services.Network.Links.{
  Polled, Heard, FirstUp, AllDown, online, network_poll_lem,
}
use agile_firmware_framework.Services.Network.Starts.{Call, add, observe, poll_at, run, run-starts}

abbrev second_up : LinkPorts ℕ ℕ
second_up = record {
  start = λ link w. (ok, suc w);
  poll_link = λ link now w. suc w;
  state = λ link w. if link == 8 then up else down;
  quality = λ link w. 3;
  kind = λ link w. if link == 8 then cellular else wifi;
  on_connectivity_changed = λ observer state kind quality w. w;
}

abbrev all_down : LinkPorts ℕ ℕ
all_down = record {
  start = λ link w. (timeout, 1 + w);
  poll_link = λ link now w. w;
  state = λ link w. down;
  quality = λ link w. 3;
  kind = λ link w. wifi;
  on_connectivity_changed = λ observer state kind quality w. w;
}

abbrev two_links : NetworkManager
two_links = record fresh_manager {
  links = 7 ∷ 8 ∷ [];
  count = 2;
  state = offline;
  observer = some 4;
}

network_poll_lem_example :
    let (m', after) = poll second_up 100 two_links 0 in
    (w' : ℕ) × Polled second_up 100 (7 ∷ 8 ∷ []) 0 w'
    × (((i link : ℕ) × FirstUp second_up w' i link (7 ∷ 8 ∷ [])
          × (m'.active ≡ i)
          × (m'.state ≡ online second_up i)
          × Heard second_up offline (online second_up i) link w' (some 4) after)
        ⊎ (AllDown second_up w' (7 ∷ 8 ∷ [])
            × (m'.active ≡ network_link_capacity)
            × ((m'.state ≡ connecting) ⊎ (m'.state ≡ offline))))
network_poll_lem_example = network_poll_lem second_up 100 two_links 0

abbrev script : List Call
script = add 7 ∷ add 8 ∷ observe (some 4) ∷ poll_at 0 ∷ poll_at 30000 ∷ poll_at 100000 ∷ []

run-starts_example : (run all_down script fresh_manager 0).1 ≤ 20
run-starts_example =
    run-starts all_down (λ w. w)
      ((λ link w. refl), (λ link now w. refl), (λ observer state kind quality w. refl))
      (λ link w. refl) script 0 refl
