-- ===== src/Services/Indication.antt =====
-- components/services/indication: IndicationService, which shows the request of the most important
-- source on an indicator.
pub mod Selection
use agile_firmware_framework.Prelude.{
  ℕ, Bool, true, false, not, ◌&&◌, List, [], ◌∷◌, get_or, set, replicate, leb, ◌==◌, if◌then◌else◌,
}
use agile_firmware_framework.Prelude.Words.{add32, reached}
use agile_firmware_framework.Uhal.{Status, ok, invalid_argument, is_ok}
use agile_firmware_framework.Services.Limits.{indication_source_count}

pub data IndicationPattern : Type 0 where
  off solid slow_blink fast_blink double_blink breathe : IndicationPattern

abbrev pub pattern_code : IndicationPattern → ℕ
pattern_code off = 0
pattern_code solid = 1
pattern_code slow_blink = 2
pattern_code fast_blink = 3
pattern_code double_blink = 4
pattern_code breathe = 5

pub data IndicationSource : Type 0 where
  load_state command_ack connectivity provisioning ota fault : IndicationSource

-- static_cast<std::size_t>(source)
abbrev pub source_code : IndicationSource → ℕ
source_code load_state = 0
source_code command_ack = 1
source_code connectivity = 2
source_code provisioning = 3
source_code ota = 4
source_code fault = 5

pub record IndicationColor : Type 0 where
  pub red : ℕ
  pub green : ℕ
  pub blue : ℕ

pub record IndicationFrame : Type 0 where
  pub color : IndicationColor
  pub pattern_shown : IndicationPattern
  pub period_ms : ℕ

abbrev pub blank_indication : IndicationFrame
blank_indication = record {
  color = record { red = 0; green = 0; blue = 0 };
  pattern_shown = off;
  period_ms = 0;
}

pub record IndicationRequest : Type 0 where
  pub active : Bool
  pub frame : IndicationFrame
  pub expires_at : ℕ

abbrev pub blank_request : IndicationRequest
blank_request = record { active = false; frame = blank_indication; expires_at = 0 }

-- The object without the reference to its indicator.
pub record IndicationService : Type 0 where
  pub requests : List IndicationRequest
  pub applied : IndicationFrame
  pub has_applied : Bool

abbrev pub fresh_indication : IndicationService
fresh_indication = record {
  requests = replicate indication_source_count blank_request;
  applied = blank_indication;
  has_applied = false;
}

unfoldable pub same_frame : IndicationFrame → IndicationFrame → Bool
same_frame a b =
    (a.color.red == b.color.red)
    && (a.color.green == b.color.green)
    && (a.color.blue == b.color.blue)
    && (pattern_code a.pattern_shown == pattern_code b.pattern_shown)
    && (a.period_ms == b.period_ms)

unfoldable pub request :
    IndicationSource → IndicationFrame → ℕ → ℕ → IndicationService → Status × IndicationService
request source frame now duration s =
    let index = source_code source in
    if leb indication_source_count index then (invalid_argument, s) else (
      ok,
      record s {
        requests = set s.requests index (record {
          active = true;
          frame = frame;
          expires_at = (if duration == 0 then 0 else add32 now duration);
        });
      },
    )

unfoldable pub clear : IndicationSource → IndicationService → IndicationService
clear source s =
    let index = source_code source in
    if leb indication_source_count index then s else record s {
      requests =
          set s.requests index (record (get_or s.requests index blank_request) { active = false });
    }

-- The first loop of `poll`.
unfoldable pub expire : ℕ → List IndicationRequest → List IndicationRequest
expire now [] = []
expire now (r ∷ rs) =
    let rest = expire now rs in
    if r.active && not (r.expires_at == 0) && reached now r.expires_at
    then record r { active = false } ∷ rest
    else r ∷ rest

-- The second loop of `poll`, from what is selected so far.
unfoldable pub select : List IndicationRequest → IndicationFrame → Bool → IndicationFrame × Bool
select [] selected found = (selected, found)
select (r ∷ rs) selected found =
    let taken = select rs r.frame true in
    let passed = select rs selected found in if r.active then taken else passed

-- `apply` is IIndicator's, over its state `W`.
unfoldable pub poll :
    {W : Type 0}
    → (IndicationFrame → W → Status × W)
    → ℕ
    → IndicationService
    → W
    → Status × IndicationService × W
poll apply now s w =
    let s' = record s { requests = expire now s.requests } in
    let (chosen, found) = select s'.requests blank_indication false in
    let selected = if not found then blank_indication else chosen in
    let (status, w') = apply selected w in
    if s'.has_applied && same_frame selected s'.applied
    then (ok, s', w)
    else if is_ok status
    then (status, record s' { applied = selected; has_applied = true }, w')
    else (status, s', w')
