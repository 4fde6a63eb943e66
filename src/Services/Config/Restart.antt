-- ===== src/Services/Config/Restart.antt =====
-- ConfigService::commit followed by a restart: what initialize finds on a faithful storage device.
use agile_firmware_framework.Prelude.{
  ℕ, zero, suc, ◌+◌, ◌≤◌, ◌<◌, ◌^◌, ◌≡◌, refl, ap, ap₂, ◌∙◌, sym, length, arith, Bool-cases, inl,
  inr,
}
use agile_firmware_framework.Prelude.Words.{add32}
use agile_firmware_framework.Uhal.{Status, ok, is_ok}
use agile_firmware_framework.Uhal.Storage.{Storage, IsFaithful, window}
use agile_firmware_framework.Services.Config.State.{ConfigService, slot_bytes}
use agile_firmware_framework.Services.Config.Contents.{IsValid}
use agile_firmware_framework.Services.Config.Blob.{dictionary}
use agile_firmware_framework.Services.Config.Slot.{
  Snapshot, valid, invalid, check_slot, choose, read_slot, write_slot, initialize, commit,
}
use agile_firmware_framework.Services.Config.Reload.{
  compact, check_slot-slot_image, contents-compact,
}
use agile_firmware_framework.Services.Config.Device.{
  held, IsReadable, read_slot_lem, write_slot-other, write_slot-held, not_ok,
}
use agile_firmware_framework.Services.Config.Choose.{
  IsOlder, other_slot, adopted, choose-first, choose-second, choose-scratch,
}

module _ {W : Type 0} (storage : Storage W) (cell : W → ℕ → ℕ)
    (faithful : IsFaithful storage cell) where
  -- commit writes the slot that is not active, and answers what `write_slot` answers.
  pub commit-target :
      (s : ConfigService) (w : W)
      → let written = write_slot storage (other_slot s.active_slot) (add32 s.sequence 1) s w in
        ((commit storage s w).0 ≡ written.0)
        × ((commit storage s w).2 ≡ written.2)
        × (written.0 ≡ ok → (commit storage s w).1.active_slot ≡ other_slot s.active_slot)
  unfolding commit
  commit-target s w =
      elim (Bool-cases
        (is_ok (write_slot storage (other_slot s.active_slot) (add32 s.sequence 1) s w).0)) [
          | inl e ↦ rw e (refl, refl, λ _. refl)
          | inr e ↦ rw e (refl, refl, λ h. absurd (not_ok _ h e))
        ]

  -- On a faithful device and a valid service, the slot that was active keeps its bytes through
  -- `commit`, whatever it answers.
  pub commit-held :
      (s : ConfigService) (w : W)
      → IsValid s
      → held cell (commit storage s w).2 s.active_slot ≡ held cell w s.active_slot
  commit-held s w v = rw ((commit-target s w).1) (
      write_slot-other storage cell faithful (other_slot s.active_slot) s.active_slot
        (add32 s.sequence 1) s w (ground arith) v.slot_ok (ground arith) v)

module _ {W : Type 0} (storage : Storage W) (cell : W → ℕ → ℕ) (faithful : IsFaithful storage cell)
    (readable : IsReadable storage) where
  -- On a faithful device that answers every read, with a scratch buffer of a slot's size,
  -- `initialize` decides by the bytes that the two slots hold, and changes nothing else of the
  -- service but its scratch buffer.
  pub initialize_lem :
      (s : ConfigService) (w : W)
      → length s.scratch ≡ slot_bytes
      → let (status, s', w') = initialize storage s w in
        (status, s')
        ≡ choose
            (check_slot (held cell w 0))
            (check_slot (held cell w 1))
            (record s { scratch = s'.scratch })
  unfolding initialize
  initialize_lem s w full =
      let (first, kept, whole, same) =
        read_slot_lem storage cell faithful 0 s w (omega arith) full readable in
      let (second, kept', whole', same') =
        read_slot_lem storage cell faithful 1 s1 w1 (omega arith) whole readable in
      ap (λ a. choose a (read_slot storage 1 s1 w1).0 s2) first
      ∙ ap₂ (λ b t. choose (check_slot (held cell w 0)) b t)
          (second ∙ ap (λ c. check_slot (window c slot_bytes slot_bytes)) same)
          (kept' ∙ λ i. record {
            records = (kept i).records;
            sequence = (kept i).sequence;
            active_slot = (kept i).active_slot;
            scratch = sym last i;
          })
    where
      s1 : ConfigService
      s1 = (read_slot storage 0 s w).1

      w1 : W
      w1 = (read_slot storage 0 s w).2

      s2 : ConfigService
      s2 = (read_slot storage 1 s1 w1).1

      last :
          (choose (read_slot storage 0 s w).0 (read_slot storage 1 s1 w1).0 s2).1.scratch
          ≡ s2.scratch
      last = choose-scratch (read_slot storage 0 s w).0 (read_slot storage 1 s1 w1).0 s2

  -- The slot that a commit answering `ok` has written is accepted, with the committed records.
  pub committed-held :
      (s : ConfigService) (w : W)
      → IsValid s
      → (commit storage s w).0 ≡ ok
      → check_slot (held cell (commit storage s w).2 (other_slot s.active_slot))
        ≡ valid (record { sequence = add32 s.sequence 1; records = compact s.records })
  committed-held s w v confirmed =
      ap (λ d. check_slot (held cell d target)) ((commit-target storage cell faithful s w).1)
      ∙ ap check_slot (
          write_slot-held storage cell faithful target (add32 s.sequence 1) s w (ground arith) v
            written)
      ∙ check_slot-slot_image s.records (add32 s.sequence 1) v.records_ok v.records_count
          (omega arith)
    where
      target : ℕ
      target = other_slot s.active_slot

      written : (write_slot storage target (add32 s.sequence 1) s w).0 ≡ ok
      written = sym ((commit-target storage cell faithful s w).0) ∙ confirmed

  -- After a restart, the slot whose sequence number is the highest counts.
  pub initialize-newest :
      (slot : ℕ) (snapshot : Snapshot) (t : ConfigService) (w : W)
      → slot ≤ 1
      → length t.scratch ≡ slot_bytes
      → check_slot (held cell w slot) ≡ valid snapshot
      → IsOlder snapshot.sequence (check_slot (held cell w (other_slot slot)))
      → let (status, t', w') = initialize storage t w in
        (status, t') ≡ adopted slot snapshot (record t { scratch = t'.scratch })
  initialize-newest zero snapshot t w h full found older =
      initialize_lem t w full
      ∙ ap
          (λ a.
            choose a (check_slot (held cell w 1))
              (record t { scratch = (initialize storage t w).1.scratch }))
          found
      ∙ choose-first snapshot (check_slot (held cell w 1))
          (record t { scratch = (initialize storage t w).1.scratch }) older
  initialize-newest (suc zero) snapshot t w h full found older =
      initialize_lem t w full
      ∙ ap
          (λ b.
            choose (check_slot (held cell w 0)) b
              (record t { scratch = (initialize storage t w).1.scratch }))
          found
      ∙ choose-second (check_slot (held cell w 0)) snapshot
          (record t { scratch = (initialize storage t w).1.scratch }) older
  initialize-newest (suc (suc n)) snapshot t w h full found older = absurd (omega (arith, h))

  -- A commit of a valid service that answers `ok`, followed by a restart, on a faithful device that
  -- answers every read: `initialize` answers `ok` and finds the dictionary that was committed, with
  -- the next sequence number, in the slot that was written. The sequence number must not be the
  -- last of its 32 bits, and the slot that was active must not hold a snapshot of the next sequence
  -- number or a later one.
  pub initialize-commit :
      (s t : ConfigService) (w : W)
      → IsValid s
      → s.sequence + 1 < 2 ^ 32
      → IsOlder (s.sequence + 1) (check_slot (held cell w s.active_slot))
      → length t.scratch ≡ slot_bytes
      → (commit storage s w).0 ≡ ok
      → let (committed, s', w') = commit storage s w in
        let (status, t', w'') = initialize storage t w' in
        (status ≡ ok)
        × (t'.sequence ≡ s.sequence + 1)
        × (t'.active_slot ≡ s'.active_slot)
        × (dictionary t' ≡ dictionary s)
  initialize-commit s t w v small older full confirmed = (
    ap (λ a. a.0) newest,
    ap (λ a. a.1.sequence) newest ∙ next,
    ap (λ a. a.1.active_slot) newest ∙ sym ((commit-target storage cell faithful s w).2 written),
    ap (λ a. dictionary a.1) newest ∙ contents-compact s.records v.records_ok,
  )
    where
      target : ℕ
      target = other_slot s.active_slot

      snapshot : Snapshot
      snapshot = record { sequence = add32 s.sequence 1; records = compact s.records }

      next : add32 s.sequence 1 ≡ s.sequence + 1
      next = omega arith

      written : (write_slot storage target (add32 s.sequence 1) s w).0 ≡ ok
      written = sym ((commit-target storage cell faithful s w).0) ∙ confirmed

      found : check_slot (held cell (commit storage s w).2 target) ≡ valid snapshot
      found = committed-held s w v confirmed

      back : other_slot (other_slot s.active_slot) ≡ s.active_slot
      back = ground arith

      before :
          IsOlder
            (add32 s.sequence 1)
            (check_slot (held cell (commit storage s w).2 (other_slot target)))
      before = rw (next, back, commit-held storage cell faithful s w v) older

      newest :
          ◌≡◌ {A = Status × ConfigService}
            (
              (initialize storage t (commit storage s w).2).0,
              (initialize storage t (commit storage s w).2).1,
            )
            (adopted target snapshot
              (record t { scratch = (initialize storage t (commit storage s w).2).1.scratch }))
      newest =
          initialize-newest target snapshot t (commit storage s w).2 (ground arith) full found
            before

  -- A commit whose write did not finish, on a faithful device that answers every read: if the slot
  -- that it was writing is not accepted afterwards, and the slot that was active held a snapshot,
  -- then after a restart `initialize` answers `ok` and has that snapshot.
  pub initialize-torn :
      (s t : ConfigService) (w : W) (snapshot : Snapshot) (reason : Status)
      → IsValid s
      → check_slot (held cell w s.active_slot) ≡ valid snapshot
      → check_slot (held cell (commit storage s w).2 (other_slot s.active_slot)) ≡ invalid reason
      → length t.scratch ≡ slot_bytes
      → let (status, t', w') = initialize storage t (commit storage s w).2 in
        (status, t') ≡ adopted s.active_slot snapshot (record t { scratch = t'.scratch })
  initialize-torn s t w snapshot reason v found torn full =
      initialize-newest s.active_slot snapshot t (commit storage s w).2 v.slot_ok full
        (ap check_slot (commit-held storage cell faithful s w v) ∙ found)
        (rw torn (unfold IsOlder in tt))

  -- At the last sequence number of the 32 bits the next one is 0: on a faithful device that answers
  -- every read, where the slot that was active holds a snapshot with a positive sequence number, a
  -- commit that answers `ok` is lost, since after a restart `initialize` has that snapshot.
  pub initialize-wrapped :
      (s t : ConfigService) (w : W) (snapshot : Snapshot)
      → IsValid s
      → s.sequence + 1 ≡ 2 ^ 32
      → check_slot (held cell w s.active_slot) ≡ valid snapshot
      → 0 < snapshot.sequence
      → length t.scratch ≡ slot_bytes
      → (commit storage s w).0 ≡ ok
      → let (status, t', w') = initialize storage t (commit storage s w).2 in
        (status, t') ≡ adopted s.active_slot snapshot (record t { scratch = t'.scratch })
  initialize-wrapped s t w snapshot v last found later full confirmed =
      initialize-newest s.active_slot snapshot t (commit storage s w).2 v.slot_ok full
        (ap check_slot (commit-held storage cell faithful s w v) ∙ found)
        (rw (committed-held s w v confirmed, wrapped) (unfold IsOlder in later))
    where
      wrapped : add32 s.sequence 1 ≡ 0
      wrapped = omega arith
