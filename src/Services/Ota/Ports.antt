-- ===== src/Services/Ota/Ports.antt =====
-- The ports of OtaService: IFirmwareStore, IBootControl, IImageFetcher, IDigestCalculator and
-- ISignatureVerifier. A product implements them, so they are parameters over a state `W`.
use agile_firmware_framework.Prelude.{ℕ, ◌≤◌, ◌≡◌, Bool, true, List, [], ◌++◌, length}
use agile_firmware_framework.Uhal.{Status, ok}

-- `fetcher_take` and `digest_finish` get the caller's buffer and return it as they leave it;
-- `fetcher_take` also returns the caller's variable for the size.
pub record OtaPorts (W : Type 0) : Type 0 where
  pub store_begin : ℕ → W → Status × W
  pub store_write : ℕ → List ℕ → W → Status × W
  pub store_finish : W → Status × W
  pub store_abort : W → W
  pub boot_activate_staged : W → Status × W
  pub fetcher_request : ℕ → ℕ → W → Status × W
  pub fetcher_poll : ℕ → W → W
  pub fetcher_take : List ℕ → ℕ → ℕ → W → Status × List ℕ × ℕ × W
  pub digest_begin : W → Status × W
  pub digest_update : List ℕ → W → Status × W
  pub digest_finish : List ℕ → W → Status × List ℕ × W
  pub verifier_verify : List ℕ → List ℕ → ℕ → W → Status × W

-- What the ports promise, over the bytes staged in the store and the bytes given to the digest
-- since it began. `hash` is the digest of 32 bytes, and `genuine` says which signatures of a digest
-- hold under a key. Only calls that answer `ok` promise anything but to keep the others' bytes.
pub record IsFaithful {W : Type 0} (ports : OtaPorts W) (staged digested : W → List ℕ)
    (hash : List ℕ → List ℕ) (genuine : List ℕ → List ℕ → ℕ → Bool) : Type 0 where
  pub begin_staged :
      (n : ℕ) (w : W) → (ports.store_begin n w).0 ≡ ok → staged (ports.store_begin n w).1 ≡ []
  pub write_staged :
      (bytes : List ℕ) (w : W)
      → (ports.store_write (length (staged w)) bytes w).0 ≡ ok
      → staged (ports.store_write (length (staged w)) bytes w).1 ≡ staged w ++ bytes
  pub write_digested :
      (i : ℕ) (bytes : List ℕ) (w : W) → digested (ports.store_write i bytes w).1 ≡ digested w
  pub finish_staged : (w : W) → staged (ports.store_finish w).1 ≡ staged w
  pub request_keeps :
      (i n : ℕ) (w : W)
      → (staged (ports.fetcher_request i n w).1 ≡ staged w)
        × (digested (ports.fetcher_request i n w).1 ≡ digested w)
  pub poll_keeps :
      (now : ℕ) (w : W)
      → (staged (ports.fetcher_poll now w) ≡ staged w)
        × (digested (ports.fetcher_poll now w) ≡ digested w)
  pub take_keeps :
      (buffer : List ℕ) (room n : ℕ) (w : W)
      → (staged (ports.fetcher_take buffer room n w).3 ≡ staged w)
        × (digested (ports.fetcher_take buffer room n w).3 ≡ digested w)
        × (length (ports.fetcher_take buffer room n w).1 ≡ length buffer)
  pub take_fits :
      (buffer : List ℕ) (room n : ℕ) (w : W)
      → (ports.fetcher_take buffer room n w).0 ≡ ok
      → (ports.fetcher_take buffer room n w).2 ≤ room
  pub digest_begins : (w : W) → staged (ports.digest_begin w).1 ≡ staged w
  pub digest_empty :
      (w : W) → (ports.digest_begin w).0 ≡ ok → digested (ports.digest_begin w).1 ≡ []
  pub update_staged : (bytes : List ℕ) (w : W) → staged (ports.digest_update bytes w).1 ≡ staged w
  pub update_digested :
      (bytes : List ℕ) (w : W)
      → (ports.digest_update bytes w).0 ≡ ok
      → digested (ports.digest_update bytes w).1 ≡ digested w ++ bytes
  pub digest_keeps : (buffer : List ℕ) (w : W) → staged (ports.digest_finish buffer w).2 ≡ staged w
  pub digest_result :
      (buffer : List ℕ) (w : W)
      → (ports.digest_finish buffer w).0 ≡ ok
      → (ports.digest_finish buffer w).1 ≡ hash (digested w)
  pub hash_length : (bytes : List ℕ) → length (hash bytes) ≡ 32
  pub verify_keeps :
      (digest signature : List ℕ) (key : ℕ) (w : W)
      → staged (ports.verifier_verify digest signature key w).1 ≡ staged w
  pub verify_genuine :
      (digest signature : List ℕ) (key : ℕ) (w : W)
      → (ports.verifier_verify digest signature key w).0 ≡ ok
      → genuine digest signature key ≡ true
