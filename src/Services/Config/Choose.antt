-- ===== src/Services/Config/Choose.antt =====
-- The end of ConfigService::initialize: which of the two slots it takes over.
use agile_firmware_framework.Prelude.{
  ℕ, ◌<◌, ◌≡◌, refl, true, false, arith, if◌then◌else◌, Bool-cases, inl, inr, leb, ◌==◌,
}
use agile_firmware_framework.Uhal.{Status, ok}
use agile_firmware_framework.Services.Config.State.{ConfigService}
use agile_firmware_framework.Services.Config.Slot.{
  Snapshot, Slot, valid, invalid, both_absent, choose,
}

-- A slot that is not accepted, or whose sequence number is below the bound.
unfoldable pub IsOlder : ℕ → Slot → Type 0
IsOlder bound (valid snapshot) = snapshot.sequence < bound
IsOlder bound (invalid status) = Unit

abbrev pub other_slot : ℕ → ℕ
other_slot slot = if slot == 0 then 1 else 0

-- The service that took over the snapshot of a slot.
abbrev pub adopted : ℕ → Snapshot → ConfigService → Status × ConfigService
adopted slot snapshot s =
    (ok, record s { records = snapshot.records; sequence = snapshot.sequence; active_slot = slot })

pub choose-first :
    (snapshot : Snapshot) (second : Slot) (s : ConfigService)
    → IsOlder snapshot.sequence second
    → choose (valid snapshot) second s ≡ adopted 0 snapshot s
unfolding choose IsOlder
choose-first snapshot (valid later) s h =
    let e : leb later.sequence snapshot.sequence ≡ true = ground arith in rw e
choose-first snapshot (invalid b) s h = refl

pub choose-second :
    (first : Slot) (snapshot : Snapshot) (s : ConfigService)
    → IsOlder snapshot.sequence first
    → choose first (valid snapshot) s ≡ adopted 1 snapshot s
unfolding choose IsOlder
choose-second (valid earlier) snapshot s h =
    let e : leb snapshot.sequence earlier.sequence ≡ false = ground arith in rw e
choose-second (invalid a) snapshot s h = refl

pub choose-scratch :
    (first second : Slot) (s : ConfigService) → (choose first second s).1.scratch ≡ s.scratch
unfolding choose
choose-scratch (valid a) (valid b) s = elim (Bool-cases (leb b.sequence a.sequence)) [
  | inl e ↦ rw e
  | inr e ↦ rw e
]
choose-scratch (valid a) (invalid b) s = refl
choose-scratch (invalid a) (valid b) s = refl
choose-scratch (invalid a) (invalid b) s = elim (Bool-cases (both_absent a b)) [
  | inl e ↦ rw e
  | inr e ↦ rw e
]
