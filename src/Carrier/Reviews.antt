-- ===== src/Carrier/Reviews.antt =====
-- `review` of backend/src/modules/document/services/document.service.ts, by which the papers of a carrier
-- are approved or rejected.
use truckmaster.Base.{ℕ, Bool, false, not, ◌&&◌, Option, none, some, [], ◌∷◌, ◌==◌, find}
use truckmaster.Store.Statuses.{
  ReviewStatus, EntityType, NotificationType, Role, ◌is◌, review_status_enum, entity_type_enum,
}
use truckmaster.Store.Rows.{Document, DocumentType}
use truckmaster.Store.Transaction.{
  Store, Action, pure, gets, throw_if, modify, when, record_audit, with_tenant_transaction, ◌>>=◌,
  ◌>>◌, business_rule, self_review_forbidden,
}
use truckmaster.Store.Audit
use truckmaster.Store.Queries.{require}
use truckmaster.Base.{update_first}
use truckmaster.Notifying.{create_for_user_and_roles, has_notification}
use truckmaster.Carrier.Eligibility.{recalculate}

-- `ReviewDocumentDto`; the reason of a rejection is left out.
pub data Decision : Type 0 where
  approved rejected : Decision

abbrev pub is_document : ℕ → ℕ → Document → Bool
is_document org id d = d.id == id && d.organization_id == org

abbrev pub find_document_by_id : ℕ → ℕ → Store → Option Document
find_document_by_id org id s = find (is_document org id) s.documents

-- `documentType?.requiresReview`
abbrev pub needs_review : ℕ → Store → Bool
needs_review type_id s =
    elim (find (λ (t : DocumentType). t.id == type_id) s.master.document_types) [
      | none ↦ false
      | some t ↦ t.requires_review
    ]

abbrev pub review_status_of : Decision → ReviewStatus
review_status_of Decision.approved = ReviewStatus.approved
review_status_of Decision.rejected = ReviewStatus.rejected

abbrev review_action : Decision → ℕ → Audit.Action
review_action Decision.approved id = Audit.compliance_document_approved id
review_action Decision.rejected id = Audit.compliance_document_rejected id

abbrev pub reviewed : Decision → Document → Document
reviewed decision d = record d { review_status = review_status_of decision }

-- The update of the document, with its audit entry.
abbrev pub write_review : ℕ → Decision → ℕ → Document → Action (Unit {0})
write_review org decision actor document = do
  modify λ s. record s {
    documents =
        update_first (λ (d : Document). d.id == document.id) (reviewed decision) s.documents;
  }
  record_audit org document.entity_id (review_action decision document.id) (some actor)

-- `if (decision === 'REJECTED')`
abbrev pub notify_rejection : ℕ → Decision → Document → Action (Unit {0})
notify_rejection org Decision.approved document = pure tt
notify_rejection org Decision.rejected document = do
  notified ← gets (has_notification org NotificationType.compliance_document_rejected document.id)
  when (not notified) (
      create_for_user_and_roles org document.uploaded_by_user_id (Role.admin ∷ [])
        NotificationType.compliance_document_rejected document.id)

abbrev pub finish_review : ℕ → Decision → Document → Action Document
finish_review org decision document = do
  notify_rejection org decision document
  pure (reviewed decision document)

abbrev pub recalculate_only : ℕ → ℕ → ℕ → Action (Unit {0})
recalculate_only now org carrier_id = recalculate now org carrier_id >> pure tt

abbrev pub decide : ℕ → ℕ → Decision → ℕ → Document → Action Document
decide now org decision actor document = do
  write_review org decision actor document
  when (document.entity_type is EntityType.carrier) (recalculate_only now org document.entity_id)
  finish_review org decision document

abbrev pub review_pending : ℕ → ℕ → Decision → ℕ → Document → Action Document
review_pending now org decision actor document = do
  throw_if (not (document.review_status is ReviewStatus.pending_review)) business_rule
  throw_if (document.uploaded_by_user_id == actor) self_review_forbidden
  decide now org decision actor document

abbrev pub review_found : ℕ → ℕ → Decision → ℕ → Document → Action Document
review_found now org decision actor document = do
  required ← gets (needs_review document.document_type_id)
  throw_if (not required) business_rule
  review_pending now org decision actor document

unfoldable pub review : ℕ → ℕ → ℕ → Decision → ℕ → Action Document
review now org id decision actor =
    with_tenant_transaction
      (require (find_document_by_id org id) >>= review_found now org decision actor)
