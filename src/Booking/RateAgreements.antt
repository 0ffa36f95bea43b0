-- ===== src/Booking/RateAgreements.antt =====
-- backend/src/modules/quote-load/services/rate-agreement-matching.service.ts
use truckmaster.Base.{
  ℕ, ◌-◌, ◌%◌, String, Bool, true, false, not, ◌&&◌, ◌||◌, Option, none, some, List, [], ◌∷◌, ◌==◌,
  leb, map, filter, find, if◌then◌else◌, codes, trim, lower, same_codes,
}
use truckmaster.Store.Statuses.{EquipmentType, RateSource, ◌is◌, equipment_type_enum}
use truckmaster.Store.Rows.{RateAgreement}
use truckmaster.Store.Transaction.{Store}

abbrev pub is_alphanumeric : ℕ → Bool
is_alphanumeric c = (leb b'a' c && leb c b'z') || (leb b'0' c && leb c b'9')

-- `replace(/[^a-z0-9]+/g, ' ')`; the flag says that the run before `c` is already replaced.
unfoldable pub collapse : Bool → List ℕ → List ℕ
collapse in_run [] = []
collapse in_run (c ∷ cs) =
    let rest = collapse (not (is_alphanumeric c)) cs in
    if is_alphanumeric c then c ∷ rest else if in_run then rest else b' ' ∷ rest

unfoldable pub normalize_codes : List ℕ → List ℕ
normalize_codes cs = trim (collapse false (map lower cs))

unfoldable pub normalize : String → List ℕ
unfolding collapse trim normalize_codes
normalize value = normalize_codes (codes value)

pub record Lane : Type 0 where
  pub origin_city : String
  pub origin_state : String
  pub destination_city : String
  pub destination_state : String

unfoldable pub same_name : String → String → Bool
unfolding normalize
same_name a b = same_codes (normalize a) (normalize b)

abbrev day : ℕ
day = 86_400_000

-- `setUTCHours(0, 0, 0, 0)`
abbrev start_of_day : ℕ → ℕ
start_of_day now = now - now % day

abbrev is_unexpired : ℕ → Option ℕ → Bool
is_unexpired today none = true
is_unexpired today (some expiration_date) = leb today expiration_date

abbrev pub is_candidate : ℕ → ℕ → ℕ → EquipmentType → RateAgreement → Bool
is_candidate today org customer_id equipment a =
    a.organization_id == org
    && a.customer_id == customer_id
    && a.equipment_type is equipment
    && leb a.effective_date today
    && is_unexpired today a.expiration_date

abbrev pub is_on_lane : Lane → RateAgreement → Bool
is_on_lane lane a =
    same_name a.origin_city lane.origin_city
    && same_name a.origin_state lane.origin_state
    && same_name a.destination_city lane.destination_city
    && same_name a.destination_state lane.destination_state

-- `today` is the start of the day of `now`, in UTC.
unfoldable pub find_match : ℕ → ℕ → ℕ → Lane → EquipmentType → Store → Option RateAgreement
find_match now org customer_id lane equipment s =
    find (is_on_lane lane)
      (filter (is_candidate (start_of_day now) org customer_id equipment) s.master.rate_agreements)

pub record ResolvedRate : Type 0 where
  pub rate_agreement_id : Option ℕ
  pub rate_source : RateSource

abbrev pub resolution : ℕ → Option RateAgreement → ResolvedRate
resolution submitted none = record { rate_agreement_id = none; rate_source = RateSource.manual }
resolution submitted (some a) = record {
  rate_agreement_id = some a.id;
  rate_source =
      if a.rate == submitted then RateSource.rate_agreement else RateSource.manual_override;
}

unfoldable pub resolve_rate : ℕ → ℕ → ℕ → Lane → EquipmentType → ℕ → Store → ResolvedRate
resolve_rate now org customer_id lane equipment submitted s =
    resolution submitted (find_match now org customer_id lane equipment s)
