-- ===== src/Services/Ota/Tests.antt =====
-- Ports that hold their bytes in memory, a download over them, and the theorems at concrete inputs.
use agile_firmware_framework.Prelude.{
  ℕ, min, ◌≡◌, refl, Bool, true, false, List, [], ◌∷◌, ◌++◌, length, replicate, length-replicate,
  ◌⊎◌, arith, All,
}
use agile_firmware_framework.Prelude.Copy.{copy, length-copy}
use agile_firmware_framework.Uhal.{ok, not_ready}
use agile_firmware_framework.Services.Limits.{ota_chunk_bytes}
use agile_firmware_framework.Services.Ota.{
  idle, ready_to_activate, ImageManifest, OtaService, digest_equal, fail, offer, request_chunk,
  verify_image, advance, store_chunk, take_chunk, poll, activate,
}
use agile_firmware_framework.Services.Ota.Ports.{OtaPorts, IsFaithful}
use agile_firmware_framework.Services.Ota.Invariant.{IsImage, Holds, IsSound}
use agile_firmware_framework.Services.Ota.Calls.{
  Call, IsCall, call_offer, call_poll, run, run-IsSound, activate-run,
}

record Board : Type 0 where
  staged : List ℕ
  digested : List ℕ

-- The image that the fetcher hands over in one chunk.
abbrev image : List ℕ
image = 7 ∷ 8 ∷ 9 ∷ []

-- A digest of 32 bytes that tells lengths apart.
abbrev hash : List ℕ → List ℕ
hash bytes = replicate 32 (length bytes)

abbrev genuine : List ℕ → List ℕ → ℕ → Bool
genuine digest signature key = true

abbrev board : OtaPorts Board
board = record {
  store_begin = λ n w. (ok, record w { staged = [] });
  store_write = λ i bytes w. (ok, record w { staged = w.staged ++ bytes });
  store_finish = λ w. (ok, w);
  store_abort = λ w. record w { staged = [] };
  boot_activate_staged = λ w. (ok, w);
  fetcher_request = λ i n w. (ok, w);
  fetcher_poll = λ now w. w;
  fetcher_take = λ buffer room n w. (ok, copy 3 image buffer, min 3 room, w);
  digest_begin = λ w. (ok, record w { digested = [] });
  digest_update = λ bytes w. (ok, record w { digested = w.digested ++ bytes });
  digest_finish = λ buffer w. (ok, hash w.digested, w);
  verifier_verify = λ digest signature key w. (ok, w);
}

board-IsFaithful : IsFaithful board (λ w. w.staged) (λ w. w.digested) hash genuine
board-IsFaithful = record {
  begin_staged = λ n w h. refl;
  write_staged = λ bytes w h. refl;
  write_digested = λ i bytes w. refl;
  finish_staged = λ w. refl;
  request_keeps = λ i n w. (refl, refl);
  poll_keeps = λ now w. (refl, refl);
  take_keeps = λ buffer room n w. (refl, refl, length-copy 3 image buffer);
  take_fits = λ buffer room n w h. omega arith;
  digest_begins = λ w. refl;
  digest_empty = λ w h. refl;
  update_staged = λ bytes w. refl;
  update_digested = λ bytes w h. refl;
  digest_keeps = λ buffer w. refl;
  digest_result = λ buffer w h. refl;
  hash_length = λ bytes. length-replicate 32 (length bytes);
  verify_keeps = λ digest signature key w. refl;
  verify_genuine = λ digest signature key w h. refl;
}

abbrev manifest : ImageManifest
manifest = record {
  version = 49 ∷ [];
  size_bytes = 3;
  digest = replicate 32 3;
  signature = replicate 64 1;
  key_id = 2;
}

abbrev blank_chunk : List ℕ
blank_chunk = replicate ota_chunk_bytes 0

abbrev fresh_ota : OtaService
fresh_ota = record {
  manifest = record {
    version = [];
    size_bytes = 0;
    digest = replicate 32 0;
    signature = replicate 64 0;
    key_id = 0;
  };
  chunk = blank_chunk;
  received = 0;
  requested = false;
  state = idle;
}

abbrev blank_board : Board
blank_board = record { staged = []; digested = [] }

abbrev calls : List Call
calls = call_offer manifest ∷ call_poll 10 ∷ call_poll 20 ∷ []

download_ready : (run board calls fresh_ota blank_board).0.state ≡ ready_to_activate
unfolding run offer poll request_chunk take_chunk store_chunk advance verify_image fail digest_equal
    copy
download_ready = refl

calls-IsCall : All (λ c. IsCall c) calls
calls-IsCall = (record { size_ok = omega arith; digest_ok = refl }, (tt, (tt, tt)))

fresh_ota-IsSound :
    IsSound board (λ w. w.staged) (λ w. w.digested) hash genuine fresh_ota blank_board
unfolding Holds
fresh_ota-IsSound = record {
  manifest_ok = record { size_ok = omega arith; digest_ok = refl };
  chunk_ok = length-replicate {0} {A = ℕ} ota_chunk_bytes 0;
  holds = tt;
}

run-IsSound_example :
    let (s', w') = run board calls fresh_ota blank_board in
    IsSound board (λ w. w.staged) (λ w. w.digested) hash genuine s' w'
run-IsSound_example =
    run-IsSound board (λ w. w.staged) (λ w. w.digested) hash genuine board-IsFaithful calls
      fresh_ota blank_board calls-IsCall fresh_ota-IsSound

activate-run_example :
    let (s', w') = run board calls fresh_ota blank_board in
    (activate board s' w' ≡ (not_ready, s', w'))
    ⊎ IsImage board (λ w. w.staged) (λ w. w.digested) hash genuine s'.manifest w'
activate-run_example =
    activate-run board (λ w. w.staged) (λ w. w.digested) hash genuine board-IsFaithful calls
      fresh_ota blank_board calls-IsCall fresh_ota-IsSound
