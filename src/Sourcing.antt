-- ===== src/Sourcing.antt =====
-- backend/src/modules/quote-load/services/carrier-sourcing.service.ts: finding a carrier for a
-- booked load, up to the rate confirmation.
pub mod Assignment
pub mod RateConfirmation
pub mod Blocked
pub mod Stranded
use truckmaster.Base.{
  ℕ, String, Bool, true, false, not, ◌&&◌, ◌||◌, Option, none, some, List, [], ◌∷◌, ◌++◌, map, ◌==◌,
  filter, find, any, latest, update_where, is_some, if◌then◌else◌,
}
use truckmaster.Store.Statuses.{
  LoadStatus, AttemptOutcome, ChargeSide, ChargeSource, ScanStatus, ReviewStatus, GenerationStatus,
  DocumentCode, EntityType, NotificationType, Role, ◌is◌, is_one_of, load_status_enum,
  attempt_outcome_enum, charge_side_enum, charge_source_enum, notification_type_enum, role_enum,
}
use truckmaster.Store.Rows.{
  Load, SourcingAttempt, ChargeLineItem, ChargeType, Document, Membership, Notification, Carrier,
}
use truckmaster.Store.Transaction.{
  Store, Action, Job, pure, throw, gets, or_throw, throw_if, modify, when, record_audit, enqueue,
  fresh_id, with_tenant_transaction, ◌>>=◌, ◌>>◌, not_found, invalid_transition, business_rule,
  eligibility,
}
use truckmaster.Store.Audit
use truckmaster.Store.Queries.{
  require, find_load, find_carrier, update_load, find_document_type, find_linehaul,
}
use truckmaster.Carrier.Eligibility.{Eligibility, recalculate}

unfoldable pub begin_sourcing : ℕ → ℕ → ℕ → Action Load
begin_sourcing org load_id actor = with_tenant_transaction do
  load ← require (find_load org load_id)
  throw_if (not (load.status is LoadStatus.booked)) invalid_transition
  updated ← update_load load_id (λ l. record l { status = LoadStatus.carrier_sourcing })
  record_audit org load_id Audit.load_entered_carrier_sourcing (some actor)
  pure updated

pub record AttemptDto : Type 0 where
  pub carrier_id : ℕ
  pub carrier_rate : Option ℕ
  pub outcome : AttemptOutcome

abbrev pub create_attempt : SourcingAttempt → Action SourcingAttempt
create_attempt attempt = do
  modify (λ s. record s { sourcing_attempts = s.sourcing_attempts ++ attempt ∷ [] })
  pure attempt

unfoldable pub log_sourcing_attempt : ℕ → ℕ → ℕ → AttemptDto → ℕ → Action SourcingAttempt
log_sourcing_attempt now org load_id dto actor = with_tenant_transaction do
  require (find_load org load_id)
  require (find_carrier org dto.carrier_id)
  id ← fresh_id
  attempt ← create_attempt (record {
    id = id;
    organization_id = org;
    load_id = load_id;
    carrier_id = dto.carrier_id;
    carrier_rate = dto.carrier_rate;
    outcome = dto.outcome;
    rejection_reason = none;
    logged_by_user_id = actor;
    logged_at = now;
  })
  record_audit org load_id
      (Audit.sourcing_attempt_logged dto.carrier_id dto.outcome dto.carrier_rate) (some actor)
  pure attempt
