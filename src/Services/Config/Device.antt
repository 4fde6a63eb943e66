-- ===== src/Services/Config/Device.antt =====
-- commit and initialize on a faithful storage device.
use agile_firmware_framework.Prelude.{
  ℕ, ◌+◌, ◌*◌, ◌≤◌, ◌<◌, ◌≡◌, ◌≢◌, refl, ap, ap₂, ◌∙◌, sym, false, List, length, length-append,
  arith, Bool-cases, inl, inr, ◌⊎◌, All,
}
use agile_firmware_framework.Prelude.Words.{u32}
use agile_firmware_framework.Uhal.{Status, ok, is_ok}
use agile_firmware_framework.Uhal.Storage.{Storage, IsFaithful, window, length-window, window_eq}
use agile_firmware_framework.Libraries.Crc.{crc32}
use agile_firmware_framework.Libraries.Bytes.Fields.{le32}
use agile_firmware_framework.Services.Limits.{config_record_capacity}
use agile_firmware_framework.Services.Config.State.{Record, ConfigService, slot_bytes}
use agile_firmware_framework.Services.Config.Contents.{IsRecord, IsValid}
use agile_firmware_framework.Services.Config.Slot.{check_slot, read_slot, write_slot}
use agile_firmware_framework.Services.Config.Image.{padded, slot_image}
use agile_firmware_framework.Services.Config.Sealed.{length-padded, write_slot_lem}

pub length-slot_image :
    (rs : List Record) (sequence : ℕ)
    → All IsRecord rs
    → length rs ≡ config_record_capacity
    → length (slot_image rs sequence) ≡ slot_bytes
unfolding slot_image
length-slot_image rs sequence v count =
    let p = padded rs sequence in
    omega (arith, length-append p (le32 (crc32 p)), length-padded rs sequence v count)

pub not_ok : (status : Status) → status ≡ ok → is_ok status ≡ false → ⊥
not_ok status h e = ground arith

-- What a slot holds.
abbrev pub held : {W : Type 0} → (W → ℕ → ℕ) → W → ℕ → List ℕ
held cell w slot = window (cell w) (slot * slot_bytes) slot_bytes

-- The device answers every read of a slot.
abbrev pub IsReadable : {W : Type 0} → Storage W → Type 0
IsReadable {W} storage =
    (slot : ℕ) (buffer : List ℕ) (w : W)
    → slot ≤ 1
    → length buffer ≡ slot_bytes
    → (storage.read (slot * slot_bytes) buffer w).0 ≡ ok

module _ {W : Type 0} (storage : Storage W) (cell : W → ℕ → ℕ)
    (faithful : IsFaithful storage cell) where
  pub read_slot_lem :
      (slot : ℕ) (s : ConfigService) (w : W)
      → slot ≤ 1
      → length s.scratch ≡ slot_bytes
      → IsReadable storage
      → let (found, s', w') = read_slot storage slot s w in
        (found ≡ check_slot (held cell w slot))
        × (s' ≡ record s { scratch = s'.scratch })
        × (length s'.scratch ≡ slot_bytes)
        × (cell w' ≡ cell w)
  unfolding read_slot
  read_slot_lem slot s w h full readable =
      rw (offset, readable slot s.scratch w h full)
        (
          ap check_slot bytes,
          refl,
          ap length bytes ∙ length-window (cell w) (slot * slot_bytes) slot_bytes,
          faithful.read_keeps (slot * slot_bytes) s.scratch w,
        )
    where
      offset : u32 (slot * slot_bytes) ≡ slot * slot_bytes
      offset = omega arith

      bytes : (storage.read (slot * slot_bytes) s.scratch w).1 ≡ held cell w slot
      bytes =
          faithful.read_ok (slot * slot_bytes) s.scratch w (readable slot s.scratch w h full)
          ∙ ap (window (cell w) (slot * slot_bytes)) full

  -- Writing one slot leaves the other as it was, whatever the device answers.
  pub write_slot-other :
      (slot other sequence : ℕ) (s : ConfigService) (w : W)
      → slot ≤ 1
      → other ≤ 1
      → slot ≢ other
      → IsValid s
      → held cell (write_slot storage slot sequence s w).2 other ≡ held cell w other
  write_slot-other slot other sequence s w h k ne v =
      rw (write_slot_lem storage slot sequence s w v)
        (elim (Bool-cases (is_ok (storage.erase (u32 (slot * slot_bytes)) slot_bytes w).0)) [
          | inl e ↦ rw e (written ∙ erased)
          | inr e ↦ rw e erased
        ])
    where
      full : length (slot_image s.records sequence) ≡ slot_bytes
      full = length-slot_image s.records sequence v.records_ok v.records_count

      apart :
          (i : ℕ)
          → other * slot_bytes ≤ i
          → i < other * slot_bytes + slot_bytes
          → (i < u32 (slot * slot_bytes)) ⊎ (u32 (slot * slot_bytes) + slot_bytes ≤ i)
      apart i lo hi = ground arith

      middle : W
      middle = (storage.erase (u32 (slot * slot_bytes)) slot_bytes w).1

      erased : held cell middle other ≡ held cell w other
      erased = window_eq (cell middle) (cell w) (other * slot_bytes) slot_bytes (λ i lo hi.
          faithful.erase_outside (u32 (slot * slot_bytes)) slot_bytes w i (apart i lo hi))

      written :
          held cell
            (storage.write (u32 (slot * slot_bytes)) (slot_image s.records sequence) middle).1
            other
          ≡ held cell middle other
      written = window_eq _ (cell middle) (other * slot_bytes) slot_bytes (λ i lo hi.
          faithful.write_outside (u32 (slot * slot_bytes)) (slot_image s.records sequence) middle i
            (elim (apart i lo hi) [ inl a ↦ inl a | inr a ↦ inr (omega (arith, a, full)) ]))

  -- A write that the device confirms puts the image of the records in the slot.
  pub write_slot-held :
      (slot sequence : ℕ) (s : ConfigService) (w : W)
      → slot ≤ 1
      → IsValid s
      → (write_slot storage slot sequence s w).0 ≡ ok
      → held cell (write_slot storage slot sequence s w).2 slot ≡ slot_image s.records sequence
  write_slot-held slot sequence s w h v =
      rw (write_slot_lem storage slot sequence s w v)
        (elim (Bool-cases (is_ok (storage.erase (u32 (slot * slot_bytes)) slot_bytes w).0)) [
          | inl e ↦ rw e confirmed
          | inr e ↦ rw e (λ h. absurd (not_ok _ h e))
        ])
    where
      full : length (slot_image s.records sequence) ≡ slot_bytes
      full = length-slot_image s.records sequence v.records_ok v.records_count

      offset : u32 (slot * slot_bytes) ≡ slot * slot_bytes
      offset = omega arith

      middle : W
      middle = (storage.erase (u32 (slot * slot_bytes)) slot_bytes w).1

      last : W
      last = (storage.write (u32 (slot * slot_bytes)) (slot_image s.records sequence) middle).1

      confirmed :
          (storage.write (u32 (slot * slot_bytes)) (slot_image s.records sequence) middle).0 ≡ ok
          → held cell last slot ≡ slot_image s.records sequence
      confirmed h =
          ap₂ (window (cell last)) (sym offset) (sym full)
          ∙ faithful.write_ok (u32 (slot * slot_bytes)) (slot_image s.records sequence) middle h
