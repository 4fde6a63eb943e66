-- ===== src/Services/Indication/Selection.antt =====
-- Which request IndicationService::poll shows.
use agile_firmware_framework.Prelude.{
  ◌≡◌, refl, Bool, true, false, List, [], ◌∷◌, All, Bool-cases, inl, inr, ◌⊎◌,
}
use agile_firmware_framework.Services.Indication.{IndicationFrame, IndicationRequest, select}

-- The frame is that of the last active request: none behind it is active.
pub data LastActive (frame : IndicationFrame) : List IndicationRequest → Type 0 where
  here :
      {r : IndicationRequest} {rs : List IndicationRequest}
      → r.active ≡ true
      → r.frame ≡ frame
      → All (λ (q : IndicationRequest). q.active ≡ false) rs
      → LastActive frame (r ∷ rs)
  later :
      {r : IndicationRequest} {rs : List IndicationRequest}
      → LastActive frame rs
      → LastActive frame (r ∷ rs)

-- The loop over the requests takes the frame of the last active one, or keeps what it had where none
-- is active.
pub select_lem :
    (rs : List IndicationRequest) (selected : IndicationFrame) (found : Bool)
    → ((frame : IndicationFrame) × LastActive frame rs × (select rs selected found ≡ (frame, true)))
      ⊎ (All (λ (q : IndicationRequest). q.active ≡ false) rs
          × (select rs selected found ≡ (selected, found)))
unfolding select
select_lem [] selected found = inr (tt, refl)
select_lem (r ∷ rs) selected found = elim (Bool-cases r.active) [
  | inl e ↦ elim (select_lem rs r.frame true) [
    | inl (frame, last, h) ↦ inl (frame, later last, rw e h)
    | inr (idle, h) ↦ inl (r.frame, here e refl idle, rw e h)
  ]
  | inr e ↦ elim (select_lem rs selected found) [
    | inl (frame, last, h) ↦ inl (frame, later last, rw e h)
    | inr (idle, h) ↦ inr ((e, idle), rw e h)
  ]
]
