-- ===== src/Risk.antt =====
-- backend/src/modules/quote-load/utils: eta-risk.ts, appointment-risk.ts, load-lateness.ts,
-- location-staleness.ts, missing-pod-risk.ts and manual-risk-flag.ts. Times are in milliseconds, and so are
-- the ages and distances that the code divides into minutes or hours.
pub mod Sweep
pub mod Alerts
pub mod Bounds
use truckmaster.Base.{
  ℕ, ◌+◌, ◌-◌, ◌*◌, ◌/◌, String, Bool, true, false, not, ◌&&◌, ◌||◌, Option, none, some, List, [],
  ◌∷◌, ltb, leb, is_some, is_blank, or_else, head?, filter, sort_by, codes, trim, if◌then◌else◌,
}
use truckmaster.Store.Statuses.{
  LoadStatus, StopType, StopPurpose, StopStatus, RiskStatus, ◌is◌, is_one_of, load_status_enum,
  stop_purpose_enum, stop_status_enum,
}
use truckmaster.Store.Rows.{Stop}

-- `AttentionSeverity`
pub data Severity : Type 0 where
  critical high medium info : Severity

abbrev pub minutes : ℕ → ℕ
minutes n = n * 60_000

abbrev is_pending_standard : Stop → Bool
is_pending_standard s =
    s.stop_purpose is StopPurpose.standard
    && s.status is StopStatus.pending
    && is_some s.details.appointment_datetime

-- The appointment of a stop that has one.
abbrev pub appointment_of : Stop → ℕ
appointment_of s = or_else s.details.appointment_datetime 0

abbrev pub distance : ℕ → ℕ → ℕ
distance a b = (a - b) + (b - a)

-- `findApplicableAppointmentStop`: the closest appointment, and of those the first in sequence.
unfoldable pub find_applicable_stop : ℕ → List Stop → Option Stop
find_applicable_stop now stops = head? (
    sort_by (λ (s : Stop). distance (appointment_of s) now)
      (sort_by (λ (s : Stop). s.sequence) (filter is_pending_standard stops)))

-- `computeEtaRiskSeverity`
abbrev pub eta_risk_severity : ℕ → Severity
eta_risk_severity minutes_after =
    if leb 60 minutes_after
    then Severity.critical
    else if leb 15 minutes_after
    then Severity.high
    else Severity.medium

pub record EtaRisk : Type 0 where
  pub stop_type : StopType
  pub appointment : ℕ
  pub current_eta : ℕ
  pub minutes_after : ℕ
  pub severity : Severity

-- `Math.ceil(ms / 60000)`
abbrev pub ceil_minutes : ℕ → ℕ
ceil_minutes ms = (ms + 59_999) / 60_000

abbrev pub eta_risk_at : ℕ → Stop → Option EtaRisk
eta_risk_at eta s =
    let after = ceil_minutes (eta - appointment_of s) in
    if leb eta (appointment_of s)
    then none
    else some (record {
      stop_type = s.details.stop_type;
      appointment = appointment_of s;
      current_eta = eta;
      minutes_after = after;
      severity = eta_risk_severity after;
    })

-- `evaluateEtaRisk`
unfoldable pub evaluate_eta_risk : ℕ → Option ℕ → List Stop → Option EtaRisk
evaluate_eta_risk now none stops = none
evaluate_eta_risk now (some eta) stops = elim (find_applicable_stop now stops) [
  | none ↦ none
  | some s ↦ eta_risk_at eta s
]

pub data ActivitySource : Type 0 where
  check_call dispatch : ActivitySource

pub record Imminent : Type 0 where
  pub stop_type : StopType
  pub appointment : ℕ
  pub until_appointment : ℕ
  pub since_activity : ℕ
  pub source : ActivitySource
  pub severity : Severity

abbrev pub last_activity : Option ℕ → Option ℕ → Option ℕ
last_activity (some at) dispatched = some at
last_activity none dispatched = dispatched

abbrev pub imminent_at : ℕ → Option ℕ → Option ℕ → Stop → Option Imminent
imminent_at now located dispatched s =
    if leb (appointment_of s) now || ltb (minutes 180) (appointment_of s - now)
    then none
    else elim (last_activity located dispatched) [
      | none ↦ none
      | some at ↦
          if ltb (now - at) (minutes 120)
          then none
          else some (record {
            stop_type = s.details.stop_type;
            appointment = appointment_of s;
            until_appointment = appointment_of s - now;
            since_activity = now - at;
            source = if is_some located then ActivitySource.check_call else ActivitySource.dispatch;
            severity =
                if leb (appointment_of s - now) (minutes 60)
                then Severity.high
                else Severity.medium;
          })
    ]

-- `evaluateAppointmentImminent`
unfoldable pub evaluate_appointment_imminent : ℕ → Option ℕ → Option ℕ → List Stop → Option Imminent
evaluate_appointment_imminent now located dispatched stops = elim (find_applicable_stop now stops) [
  | none ↦ none
  | some s ↦ imminent_at now located dispatched s
]

abbrev is_late : ℕ → Stop → Bool
is_late now s =
    s.stop_purpose is StopPurpose.standard
    && not (s.status is StopStatus.completed)
    && is_some s.details.appointment_datetime
    && ltb (appointment_of s) now

-- `findLateStop`
unfoldable pub find_late_stop : ℕ → List Stop → Option Stop
find_late_stop now stops = head? (sort_by (λ (s : Stop). s.sequence) (filter (is_late now) stops))

-- `evaluateLocationStaleness`: the age, and the severity.
unfoldable pub evaluate_location_staleness : ℕ → Option ℕ → Option (ℕ × Severity)
evaluate_location_staleness now none = none
evaluate_location_staleness now (some at) =
    if ltb (now - at) (minutes 120)
    then none
    else some (now - at, if leb (minutes 180) (now - at) then Severity.high else Severity.medium)

abbrev pub missing_pod_clock : LoadStatus → Option ℕ → Option ℕ → Option ℕ
missing_pod_clock status closed_at delivered_at =
    if status is LoadStatus.closed then closed_at else delivered_at

-- `evaluateMissingPod`
unfoldable pub evaluate_missing_pod :
    ℕ → LoadStatus → Option ℕ → Option ℕ → Bool → Option (ℕ × Severity)
evaluate_missing_pod now status closed_at delivered_at has_any_pod_document =
    if not (is_one_of status (LoadStatus.delivered ∷ LoadStatus.closed ∷ []))
      || has_any_pod_document
    then none
    else elim (missing_pod_clock status closed_at delivered_at) [
      | none ↦ none
      | some at ↦ if ltb (now - at) (48 * minutes 60) then none else some (now - at, Severity.high)
    ]

abbrev fallback_reason : Bool → String
fallback_reason delayed =
    if delayed
    then "A dispatcher marked this load Delayed; no reason was recorded."
    else "A dispatcher marked this load At Risk; no reason was recorded."

abbrev given_reason : Option String → String → String
given_reason none fallback = fallback
given_reason (some text) fallback = elim (trim (codes text)) [ [] ↦ fallback | x ∷ xs ↦ text ]

-- `evaluateManualRiskFlag`
unfoldable pub evaluate_manual_risk_flag : RiskStatus → Option String → Option (String × Severity)
evaluate_manual_risk_flag RiskStatus.normal reason = none
evaluate_manual_risk_flag RiskStatus.at_risk reason =
    some (given_reason reason (fallback_reason false), Severity.medium)
evaluate_manual_risk_flag RiskStatus.delayed reason =
    some (given_reason reason (fallback_reason true), Severity.high)
