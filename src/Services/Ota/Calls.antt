-- ===== src/Services/Ota/Calls.antt =====
-- OtaService: the invariant through every call, and what it means for activation.
use agile_firmware_framework.Prelude.{
  ℕ, ◌≡◌, refl, ap, ◌∙◌, sym, Bool, true, false, ◌||◌, not, List, [], ◌∷◌, length, ltb, ◌==◌,
  if◌then◌else◌, Bool-cases, inl, inr, ◌⊎◌, arith, All,
}
use agile_firmware_framework.Prelude.Words.{sub32}
use agile_firmware_framework.Uhal.{Status, is_ok, is_ok→eq, is_busy, not_ready}
use agile_firmware_framework.Services.Limits.{ota_chunk_bytes}
use agile_firmware_framework.Services.Ota.{
  OtaState, downloading, ready_to_activate, activating, ImageManifest, OtaService, is_idle,
  is_downloading, is_ready, offer, request_chunk, take_chunk, poll, activate, cancel,
}
use agile_firmware_framework.Services.Ota.Ports.{OtaPorts, IsFaithful}
use agile_firmware_framework.Services.Ota.Invariant.{
  IsManifest, IsImage, Holds, IsSound, fail-IsSound, holds-downloading, downloading-IsSound,
  store_chunk-IsSound,
}

pub data Call : Type 0 where
  call_offer : ImageManifest → Call
  call_poll : ℕ → Call
  call_activate call_cancel : Call

unfoldable pub run : {W : Type 0} → OtaPorts W → List Call → OtaService → W → OtaService × W
run ports [] s w = (s, w)
run ports (call_offer m ∷ cs) s w = let (status, s', w') = offer ports m s w in run ports cs s' w'
run ports (call_poll now ∷ cs) s w = let (s', w') = poll ports now s w in run ports cs s' w'
run ports (call_activate ∷ cs) s w = let (status, s', w') = activate ports s w in run ports cs s' w'
run ports (call_cancel ∷ cs) s w = let (s', w') = cancel ports s w in run ports cs s' w'

-- Every manifest that is offered is one.
abbrev pub IsCall : Call → Type 0
IsCall (call_offer m) = IsManifest m
IsCall (call_poll now) = Unit
IsCall call_activate = Unit
IsCall call_cancel = Unit

is_downloading→eq : (state : OtaState) → is_downloading state ≡ true → state ≡ downloading
is_downloading→eq state h = ground arith

is_ready→eq : (state : OtaState) → is_ready state ≡ true → state ≡ ready_to_activate
is_ready→eq state h = ground arith

module _ {W : Type 0} (ports : OtaPorts W) (staged digested : W → List ℕ) (hash : List ℕ → List ℕ)
    (genuine : List ℕ → List ℕ → ℕ → Bool)
    (faithful : IsFaithful ports staged digested hash genuine) where
  abbrev Sound : OtaService → W → Type 0
  Sound s w = IsSound ports staged digested hash genuine s w

  -- A call that keeps the bytes of both sides keeps what holds while an image is downloaded.
  kept-IsSound :
      (s s' : OtaService) (w w' : W)
      → Sound s w
      → s.state ≡ downloading
      → s'.state ≡ downloading
      → s'.manifest ≡ s.manifest
      → s'.received ≡ s.received
      → length s'.chunk ≡ ota_chunk_bytes
      → (staged w' ≡ staged w) × (digested w' ≡ digested w)
      → Sound s' w'
  kept-IsSound s s' w w' v st st' m r c same =
      let now = holds-downloading ports staged digested hash genuine faithful s w v st in
      downloading-IsSound ports staged digested hash genuine faithful s' w' (rw m v.manifest_ok) c
        st' (same.0 ∙ now.0 ∙ sym same.1, ap length same.0 ∙ now.1 ∙ sym r, rw (m, r) now.2)

  take_chunk-IsSound :
      (s : OtaService) (w : W)
      → Sound s w
      → s.state ≡ downloading
      → let (s', w') = take_chunk ports s w in Sound s' w'
  unfolding take_chunk
  take_chunk-IsSound s w v st = elim (Bool-cases (is_busy taken)) [
    | inl e ↦ rw e chunked
    | inr e ↦ elim (Bool-cases (is_ok taken)) [
      | inr f ↦
          rw (e, f)
            (fail-IsSound ports staged digested hash genuine faithful s1 w1 v.manifest_ok room)
      | inl f ↦
          rw (e, f)
            (store_chunk-IsSound ports staged digested hash genuine faithful _ s1 w1 chunked st
              (faithful.take_fits s.chunk ota_chunk_bytes 0 w (is_ok→eq taken f)))
    ]
  ]
    where
      taken : Status
      taken = (ports.fetcher_take s.chunk ota_chunk_bytes 0 w).0

      s1 : OtaService
      s1 = record s { chunk = (ports.fetcher_take s.chunk ota_chunk_bytes 0 w).1 }

      w1 : W
      w1 = (ports.fetcher_take s.chunk ota_chunk_bytes 0 w).3

      room : length s1.chunk ≡ ota_chunk_bytes
      room = (faithful.take_keeps s.chunk ota_chunk_bytes 0 w).2 ∙ v.chunk_ok

      chunked : Sound s1 w1
      chunked =
          let (a, b, c) = faithful.take_keeps s.chunk ota_chunk_bytes 0 w in
          kept-IsSound s s1 w w1 v st st refl refl room (a, b)

  request_chunk-IsSound :
      (s : OtaService) (w : W)
      → Sound s w
      → s.state ≡ downloading
      → let (s', w') = request_chunk ports s w in Sound s' w'
  unfolding request_chunk
  request_chunk-IsSound s w v st = elim (Bool-cases (is_ok status || is_busy status)) [
    | inl e ↦ rw e (
        kept-IsSound s (record s { requested = true }) w w1 v st st refl refl v.chunk_ok
          (faithful.request_keeps s.received wanted w))
    | inr e ↦
        rw e
          (fail-IsSound ports staged digested hash genuine faithful s w1 v.manifest_ok v.chunk_ok)
  ]
    where
      wanted : ℕ
      wanted =
          let remaining = sub32 s.manifest.size_bytes s.received in
          if ltb remaining ota_chunk_bytes then remaining else ota_chunk_bytes

      status : Status
      status = (ports.fetcher_request s.received wanted w).0

      w1 : W
      w1 = (ports.fetcher_request s.received wanted w).1

  poll-IsSound :
      (now : ℕ) (s : OtaService) (w : W)
      → Sound s w
      → let (s', w') = poll ports now s w in Sound s' w'
  unfolding poll
  poll-IsSound now s w v = elim (Bool-cases (is_downloading s.state)) [
    | inr e ↦ simp e v
    | inl e ↦ elim (Bool-cases s.requested) [
      | inr f ↦ simp (e, f) (request_chunk-IsSound s w1 (polled e) (is_downloading→eq s.state e))
      | inl f ↦ simp (e, f) (take_chunk-IsSound s w1 (polled e) (is_downloading→eq s.state e))
    ]
  ]
    where
      w1 : W
      w1 = ports.fetcher_poll now w

      polled : is_downloading s.state ≡ true → Sound s w1
      polled e =
          let st = is_downloading→eq s.state e in
          kept-IsSound s s w w1 v st st refl refl v.chunk_ok (faithful.poll_keeps now w)

  offer-IsSound :
      (m : ImageManifest) (s : OtaService) (w : W)
      → IsManifest m
      → Sound s w
      → let (status, s', w') = offer ports m s w in Sound s' w'
  unfolding offer
  offer-IsSound m s w good v = elim (Bool-cases (not (is_idle s.state) || m.size_bytes == 0)) [
    | inl e ↦ simp e v
    | inr e ↦ elim (Bool-cases (is_ok begun)) [
      | inr f ↦
          simp (e, f)
            (fail-IsSound ports staged digested hash genuine faithful s w1 v.manifest_ok v.chunk_ok)
      | inl f ↦ elim (Bool-cases (is_ok fresh)) [
        | inr g ↦
            simp (e, f, g)
              (fail-IsSound ports staged digested hash genuine faithful s w2 v.manifest_ok
                v.chunk_ok)
        | inl g ↦
            simp (e, f, g)
              (downloading-IsSound ports staged digested hash genuine faithful
                (record s { manifest = m; received = 0; requested = false; state = downloading }) w2
                good v.chunk_ok refl
                (
                  none_staged f ∙ sym (faithful.digest_empty w1 (is_ok→eq fresh g)),
                  ap length (none_staged f),
                  ground arith,
                ))
      ]
    ]
  ]
    where
      begun : Status
      begun = (ports.store_begin m.size_bytes w).0

      w1 : W
      w1 = (ports.store_begin m.size_bytes w).1

      fresh : Status
      fresh = (ports.digest_begin w1).0

      w2 : W
      w2 = (ports.digest_begin w1).1

      none_staged : is_ok begun ≡ true → staged w2 ≡ []
      none_staged f =
          faithful.digest_begins w1 ∙ faithful.begin_staged m.size_bytes w (is_ok→eq begun f)

  activate-IsSound :
      (s : OtaService) (w : W)
      → Sound s w
      → let (status, s', w') = activate ports s w in Sound s' w'
  unfolding activate Holds
  activate-IsSound s w v = elim (Bool-cases (is_ready s.state)) [
    | inr e ↦ simp e v
    | inl e ↦ elim (Bool-cases (is_ok (ports.boot_activate_staged w).0)) [
      | inr f ↦
          simp (e, f)
            (fail-IsSound ports staged digested hash genuine faithful
              (record s { state = activating }) _ v.manifest_ok v.chunk_ok)
      | inl f ↦
          simp (e, f) (record { manifest_ok = v.manifest_ok; chunk_ok = v.chunk_ok; holds = tt })
    ]
  ]

  cancel-IsSound :
      (s : OtaService) (w : W) → Sound s w → let (s', w') = cancel ports s w in Sound s' w'
  unfolding cancel Holds
  cancel-IsSound s w v = record { manifest_ok = v.manifest_ok; chunk_ok = v.chunk_ok; holds = tt }

  -- Any calls, whose offers are of manifests with a digest of 32 bytes and a size that leaves room
  -- for one chunk below 2 ^ 32, keep a sound service sound, whatever ports that keep their promises
  -- answer.
  pub run-IsSound :
      (cs : List Call) (s : OtaService) (w : W)
      → All IsCall cs
      → IsSound ports staged digested hash genuine s w
      → let (s', w') = run ports cs s w in IsSound ports staged digested hash genuine s' w'
  unfolding run
  run-IsSound [] s w h v = v
  run-IsSound (call_offer m ∷ cs) s w h v = run-IsSound cs _ _ h.1 (offer-IsSound m s w h.0 v)
  run-IsSound (call_poll now ∷ cs) s w h v = run-IsSound cs _ _ h.1 (poll-IsSound now s w v)
  run-IsSound (call_activate ∷ cs) s w h v = run-IsSound cs _ _ h.1 (activate-IsSound s w v)
  run-IsSound (call_cancel ∷ cs) s w h v = run-IsSound cs _ _ h.1 (cancel-IsSound s w v)

  -- After any calls on a sound service, whose offers are of manifests with a digest of 32 bytes and
  -- a size that leaves room for one chunk below 2 ^ 32, with ports that keep their promises:
  -- `activate` either answers `not_ready` and calls nothing, or the bytes staged have the length and
  -- the digest of the manifest, and the verifier holds its signature genuine.
  pub activate-run :
      (cs : List Call) (s : OtaService) (w : W)
      → All IsCall cs
      → IsSound ports staged digested hash genuine s w
      → let (s', w') = run ports cs s w in
        (activate ports s' w' ≡ (not_ready, s', w'))
        ⊎ IsImage ports staged digested hash genuine s'.manifest w'
  unfolding activate Holds
  activate-run cs s w h v = elim (Bool-cases (is_ready s'.state)) [
    | inr e ↦ inl (rw e)
    | inl e ↦ inr (ready (is_ready→eq s'.state e))
  ]
    where
      s' : OtaService
      s' = (run ports cs s w).0

      w' : W
      w' = (run ports cs s w).1

      ready :
          s'.state ≡ ready_to_activate → IsImage ports staged digested hash genuine s'.manifest w'
      ready st = simp st at (run-IsSound cs s w h v).holds
