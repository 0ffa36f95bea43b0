-- ===== src/Sourcing/RateConfirmation.antt =====
-- `generateRateConfirmation` of carrier-sourcing.service.ts, and the row of a generated document.
use truckmaster.Base.{
  ℕ, String, Bool, true, false, not, ◌||◌, Option, none, some, [], ◌∷◌, ◌++◌, is_some,
}
use truckmaster.Store.Statuses.{
  LoadStatus, ScanStatus, ReviewStatus, GenerationStatus, DocumentCode, EntityType, ◌is◌,
  load_status_enum,
}
use truckmaster.Store.Rows.{Load, Document}
use truckmaster.Store.Transaction.{
  Store, Action, Job, pure, gets, throw_if, modify, record_audit, enqueue, fresh_id,
  with_tenant_transaction, ◌>>=◌, ◌>>◌, invalid_transition, business_rule,
}
use truckmaster.Store.Audit
use truckmaster.Store.Queries.{require, find_load, update_load, find_document_type}

-- A document that the system generates: clean from the start, its PDF still to be rendered.
abbrev pub generated_document : ℕ → ℕ → ℕ → ℕ → EntityType → ℕ → DocumentCode → ℕ → Document
generated_document now id type_id org entity_type entity_id code actor = record {
  id = id;
  organization_id = org;
  entity_type = entity_type;
  entity_id = entity_id;
  document_type_id = type_id;
  code = code;
  is_current_version = true;
  scan_status = ScanStatus.clean;
  review_status = ReviewStatus.not_applicable;
  generation_status = some GenerationStatus.pending;
  uploaded_by_user_id = actor;
  uploaded_at = now;
}

abbrev pub create_document : Document → Action (Unit {0})
create_document d = modify λ s. record s { documents = s.documents ++ d ∷ [] }

-- The email address of the included `assignedCarrier`.
abbrev carrier_email : Option ℕ → Store → Option String
carrier_email none s = none
carrier_email (some id) s = elim (s.carriers id) [ none ↦ none | some c ↦ c.primary_contact_email ]

pub record Generated : Type 0 where
  pub load : Load
  pub document_id : ℕ
  pub carrier_email : Option String

unfoldable pub create_rate_confirmation : ℕ → ℕ → ℕ → ℕ → Action Generated
create_rate_confirmation now org load_id actor = with_tenant_transaction do
  existing ← require (find_load org load_id)
  throw_if (not (existing.status is LoadStatus.carrier_assigned)) invalid_transition
  throw_if (not (is_some existing.assigned_carrier_id) || not (is_some existing.carrier_rate))
      business_rule
  type ← require (find_document_type org DocumentCode.rate_confirmation)
  document_id ← fresh_id
  create_document (
      generated_document now document_id type.id org EntityType.load load_id
        DocumentCode.rate_confirmation actor)
  updated ← update_load load_id (λ l. record l { status = LoadStatus.rate_confirmation })
  record_audit org load_id (Audit.rate_confirmation_generated document_id) (some actor)
  email ← gets (carrier_email existing.assigned_carrier_id)
  pure (record { load = updated; document_id = document_id; carrier_email = email })

unfoldable pub send_rate_confirmation : ℕ → ℕ → Bool → ℕ → ℕ → Option String → Action (Unit {0})
send_rate_confirmation org load_id false actor document_id email = pure tt
send_rate_confirmation org load_id true actor document_id none = pure tt
send_rate_confirmation org load_id true actor document_id (some email) = do
  enqueue (Job.send_email email load_id)
  with_tenant_transaction
      (record_audit org load_id (Audit.rate_confirmation_sent document_id email) (some actor))

unfoldable pub generate_rate_confirmation : ℕ → ℕ → ℕ → Bool → ℕ → Action Load
generate_rate_confirmation now org load_id send_email actor = do
  generated ← create_rate_confirmation now org load_id actor
  enqueue (Job.generate_rate_confirmation generated.document_id load_id)
  send_rate_confirmation org load_id send_email actor generated.document_id generated.carrier_email
  pure generated.load
