-- ===== src/Services/Ota/Invariant.antt =====
-- OtaService: what is staged when an image is ready to activate.
use agile_firmware_framework.Prelude.{
  ℕ, zero, suc, ◌+◌, ◌≤◌, ◌<◌, ◌^◌, ◌≡◌, refl, ap, ap₂, ◌∙◌, sym, Bool, true, false, ◌||◌, List, [],
  ◌∷◌, ◌++◌, length, take, replicate, ltb, ◌==◌, Bool-cases, inl, inr, arith, length-append,
  length-take,
}
use agile_firmware_framework.Prelude.Words.{u32, add_size, add32}
use agile_firmware_framework.Uhal.{Status, is_ok, is_ok→eq}
use agile_firmware_framework.Services.Limits.{ota_chunk_bytes}
use agile_firmware_framework.Services.Ota.{
  OtaState, idle, downloading, verifying, ready_to_activate, activating, failed, rolled_back,
  ImageManifest, OtaService, digest_equal, fail, verify_image, advance, store_chunk,
}
use agile_firmware_framework.Services.Ota.Ports.{OtaPorts, IsFaithful}

-- A digest of 32 bytes, and a size that leaves room for one chunk below 2 ^ 32.
pub record IsManifest (m : ImageManifest) : Type 0 where
  pub size_ok : m.size_bytes + ota_chunk_bytes ≤ 2 ^ 32
  pub digest_ok : length m.digest ≡ 32

digest_equal→eq :
    (n : ℕ) (xs ys : List ℕ) → length xs ≡ n → length ys ≡ n → digest_equal n xs ys ≡ true → xs ≡ ys
unfolding digest_equal
digest_equal→eq zero [] [] hx hy h = refl
digest_equal→eq zero [] (y ∷ ys) hx hy h = absurd (omega (arith, hy))
digest_equal→eq zero (x ∷ xs) ys hx hy h = absurd (omega (arith, hx))
digest_equal→eq (suc n) [] ys hx hy h = absurd (omega (arith, hx))
digest_equal→eq (suc n) (x ∷ xs) [] hx hy h = absurd (omega (arith, hy))
digest_equal→eq (suc n) (x ∷ xs) (y ∷ ys) hx hy h = ground (arith, digest_equal→eq n xs ys)

module _ {W : Type 0} (ports : OtaPorts W) (staged digested : W → List ℕ) (hash : List ℕ → List ℕ)
    (genuine : List ℕ → List ℕ → ℕ → Bool) where
  -- The image that the manifest describes is staged, whole.
  abbrev pub IsImage : ImageManifest → W → Type 0
  IsImage m w =
      (length (staged w) ≡ m.size_bytes)
      × (hash (staged w) ≡ m.digest)
      × (genuine m.digest m.signature m.key_id ≡ true)

  -- What holds in a state of the service.
  unfoldable pub Holds : OtaState → OtaService → W → Type 0
  Holds downloading s w =
      (staged w ≡ digested w)
      × (length (staged w) ≡ s.received)
      × (s.received < s.manifest.size_bytes)
  Holds ready_to_activate s w = IsImage s.manifest w
  Holds idle s w = Unit
  Holds verifying s w = Unit
  Holds activating s w = Unit
  Holds failed s w = Unit
  Holds rolled_back s w = Unit

  pub record IsSound (s : OtaService) (w : W) : Type 0 where
    pub manifest_ok : IsManifest s.manifest
    pub chunk_ok : length s.chunk ≡ ota_chunk_bytes
    pub holds : Holds s.state s w

  module _ (faithful : IsFaithful ports staged digested hash genuine) where
    pub fail-IsSound :
        (s : OtaService) (w : W)
        → IsManifest s.manifest
        → length s.chunk ≡ ota_chunk_bytes
        → let (s', w') = fail ports s w in IsSound s' w'
    unfolding fail Holds
    fail-IsSound s w m c = record { manifest_ok = m; chunk_ok = c; holds = tt }

    verify_image-IsSound :
        (s : OtaService) (w : W)
        → IsManifest s.manifest
        → length s.chunk ≡ ota_chunk_bytes
        → staged w ≡ digested w
        → length (staged w) ≡ s.manifest.size_bytes
        → let (s', w') = verify_image ports s w in IsSound s' w'
    unfolding verify_image Holds
    verify_image-IsSound s w m c same whole = elim (Bool-cases (is_ok finished)) [
      | inr e ↦ rw e (fail-IsSound s w1 m c)
      | inl e ↦ elim (Bool-cases (digest_equal 32 calculated s.manifest.digest)) [
        | inr d ↦ rw (e, d) (fail-IsSound s w1 m c)
        | inl d ↦ elim (Bool-cases (is_ok verified)) [
          | inr v ↦ rw (e, d, v) (fail-IsSound s w2 m c)
          | inl v ↦ elim (Bool-cases (is_ok (ports.store_finish w2).0)) [
            | inr f ↦ rw (e, d, v, f) (fail-IsSound s (ports.store_finish w2).1 m c)
            | inl f ↦
                rw (e, d, v, f) (record { manifest_ok = m; chunk_ok = c; holds = image e d v })
          ]
        ]
      ]
    ]
      where
        finished : Status
        finished = (ports.digest_finish (replicate 32 0) w).0

        calculated : List ℕ
        calculated = (ports.digest_finish (replicate 32 0) w).1

        w1 : W
        w1 = (ports.digest_finish (replicate 32 0) w).2

        verified : Status
        verified = (ports.verifier_verify calculated s.manifest.signature s.manifest.key_id w1).0

        w2 : W
        w2 = (ports.verifier_verify calculated s.manifest.signature s.manifest.key_id w1).1

        kept : staged (ports.store_finish w2).1 ≡ staged w
        kept =
            faithful.finish_staged w2
            ∙ faithful.verify_keeps calculated s.manifest.signature s.manifest.key_id w1
            ∙ faithful.digest_keeps (replicate 32 0) w

        hashed : is_ok finished ≡ true → calculated ≡ hash (staged w)
        hashed e =
            faithful.digest_result (replicate 32 0) w (is_ok→eq finished e) ∙ ap hash (sym same)

        equal :
            is_ok finished ≡ true
            → digest_equal 32 calculated s.manifest.digest ≡ true
            → calculated ≡ s.manifest.digest
        equal e d =
            digest_equal→eq 32 calculated s.manifest.digest
              (ap length (hashed e) ∙ faithful.hash_length (staged w)) m.digest_ok d

        image :
            is_ok finished ≡ true
            → digest_equal 32 calculated s.manifest.digest ≡ true
            → is_ok verified ≡ true
            → IsImage s.manifest (ports.store_finish w2).1
        image e d v = (
          ap length kept ∙ whole,
          ap hash kept ∙ sym (hashed e) ∙ equal e d,
          ap (λ t. genuine t s.manifest.signature s.manifest.key_id) (sym (equal e d))
              ∙ faithful.verify_genuine calculated s.manifest.signature s.manifest.key_id w1
                  (is_ok→eq verified v),
        )

    advance-IsSound :
        (size : ℕ) (s : OtaService) (w : W)
        → IsManifest s.manifest
        → length s.chunk ≡ ota_chunk_bytes
        → s.state ≡ downloading
        → staged w ≡ digested w
        → length (staged w) ≡ s.received + size
        → s.received + size ≤ s.manifest.size_bytes
        → let (s', w') = advance ports size s w in IsSound s' w'
    unfolding advance Holds
    advance-IsSound size s w m c st same whole fits =
        elim (Bool-cases (add32 s.received (u32 size) == s.manifest.size_bytes)) [
          | inl e ↦ rw e (
              verify_image-IsSound
                (record s {
                  received = add32 s.received (u32 size);
                  requested = false;
                  state = verifying;
                })
                w m c same (ground (arith, m)))
          | inr e ↦ rw e (record {
            manifest_ok = m;
            chunk_ok = c;
            holds = simp st (same, ground (arith, m), ground (arith, m));
          })
        ]

    pub holds-downloading :
        (s : OtaService) (w : W)
        → IsSound s w
        → s.state ≡ downloading
        → (staged w ≡ digested w)
          × (length (staged w) ≡ s.received)
          × (s.received < s.manifest.size_bytes)
    unfolding Holds
    holds-downloading s w v st = simp st at v.holds

    pub downloading-IsSound :
        (s : OtaService) (w : W)
        → IsManifest s.manifest
        → length s.chunk ≡ ota_chunk_bytes
        → s.state ≡ downloading
        → (staged w ≡ digested w)
          × (length (staged w) ≡ s.received)
          × (s.received < s.manifest.size_bytes)
        → IsSound s w
    unfolding Holds
    downloading-IsSound s w m c st now = record {
      manifest_ok = m;
      chunk_ok = c;
      holds = simp st now;
    }

    pub store_chunk-IsSound :
        (size : ℕ) (s : OtaService) (w : W)
        → IsSound s w
        → s.state ≡ downloading
        → size ≤ ota_chunk_bytes
        → let (s', w') = store_chunk ports size s w in IsSound s' w'
    unfolding store_chunk
    store_chunk-IsSound size s w v st room =
        elim (Bool-cases (size == 0 || ltb s.manifest.size_bytes (add_size s.received size))) [
          | inl e ↦ rw e (fail-IsSound s w v.manifest_ok v.chunk_ok)
          | inr e ↦ elim (Bool-cases (is_ok written)) [
            | inr f ↦ rw (e, f) (fail-IsSound s w1 v.manifest_ok v.chunk_ok)
            | inl f ↦ elim (Bool-cases (is_ok updated)) [
              | inr g ↦ rw (e, f, g) (fail-IsSound s w2 v.manifest_ok v.chunk_ok)
              | inl g ↦
                  rw (e, f, g)
                    (advance-IsSound size s w2 v.manifest_ok v.chunk_ok st
                      (longer f ∙ ap (λ t. t ++ bytes) now.0 ∙ sym (hashed g))
                      (ap length (longer f) ∙ length-append (staged w) bytes ∙ ap₂ ◌+◌ now.1 count)
                      (fits e))
            ]
          ]
        ]
      where
        bytes : List ℕ
        bytes = take size s.chunk

        written : Status
        written = (ports.store_write s.received bytes w).0

        w1 : W
        w1 = (ports.store_write s.received bytes w).1

        updated : Status
        updated = (ports.digest_update bytes w1).0

        w2 : W
        w2 = (ports.digest_update bytes w1).1

        now :
            (staged w ≡ digested w)
            × (length (staged w) ≡ s.received)
            × (s.received < s.manifest.size_bytes)
        now = holds-downloading s w v st

        count : length bytes ≡ size
        count = omega (arith, length-take size s.chunk, v.chunk_ok)

        stored : is_ok written ≡ true → staged w1 ≡ staged w ++ bytes
        stored f = rw (← now.1) (faithful.write_staged bytes w (is_ok→eq _ (rw (now.1) f)))

        longer : is_ok written ≡ true → staged w2 ≡ staged w ++ bytes
        longer f = faithful.update_staged bytes w1 ∙ stored f

        hashed : is_ok updated ≡ true → digested w2 ≡ digested w ++ bytes
        hashed g =
            faithful.update_digested bytes w1 (is_ok→eq updated g)
            ∙ ap (λ t. t ++ bytes) (faithful.write_digested s.received bytes w)

        fits :
            (size == 0 || ltb s.manifest.size_bytes (add_size s.received size)) ≡ false
            → s.received + size ≤ s.manifest.size_bytes
        fits e = ground (arith, v.manifest_ok, now, room)
