-- ===== src/Closing.antt =====
-- The end of a load, and what may be changed of it at any time: `updateReferenceNumbers`,
-- `linkReturnLoad`, `closeLoad` and `cancelLoad` of
-- backend/src/modules/quote-load/services/load.service.ts.
pub mod Checklist
pub mod Pod
pub mod Milestone
pub mod Deliveries
pub mod Cancellation
use truckmaster.Base.{
  ℕ, String, Bool, true, false, not, ◌&&◌, ◌||◌, Option, none, some, List, [], ◌∷◌, ◌==◌, same_text,
  if◌then◌else◌,
}
use truckmaster.Store.Statuses.{
  LoadStatus, NotificationType, Role, ◌is◌, is_one_of, load_status_enum,
}
use truckmaster.Store.Rows.{Load, ReferenceNumbers}
use truckmaster.Store.Transaction.{
  Store, Action, pure, gets, throw_if, when, record_audit, with_tenant_transaction, ◌>>=◌, ◌>>◌,
  invalid_transition, business_rule,
}
use truckmaster.Store.Audit
use truckmaster.Store.Queries.{require, find_load, update_load}
use truckmaster.Notifying.{create_for_user_and_roles, has_notification}
use Checklist.{ChecklistItem, evaluate_closing_checklist}

-- `UpdateLoadReferenceNumbersDto`: a field that is absent is left as it is.
pub record ReferencesDto : Type 0 where
  pub customer_po_number : Option String
  pub bol_number : Option String
  pub pickup_number : Option String
  pub customer_reference_number : Option String

abbrev given_or : Option String → Option String → Option String
given_or none previous = previous
given_or (some new) previous = some new

abbrev pub updated_references : ReferencesDto → ReferenceNumbers → ReferenceNumbers
updated_references dto r = record {
  customer_po_number = given_or dto.customer_po_number r.customer_po_number;
  bol_number = given_or dto.bol_number r.bol_number;
  pickup_number = given_or dto.pickup_number r.pickup_number;
  customer_reference_number = given_or dto.customer_reference_number r.customer_reference_number;
}

abbrev differs : Option String → Option String → Bool
differs new previous = not (same_text (given_or new previous) previous)

-- `fieldChanges.length > 0`
unfoldable pub has_reference_changes : ReferencesDto → ReferenceNumbers → Bool
has_reference_changes dto r =
    differs dto.customer_po_number r.customer_po_number
    || differs dto.bol_number r.bol_number
    || differs dto.pickup_number r.pickup_number
    || differs dto.customer_reference_number r.customer_reference_number

unfoldable pub update_reference_numbers : ℕ → ℕ → ReferencesDto → ℕ → Action Load
update_reference_numbers org id dto actor = with_tenant_transaction do
  existing ← require (find_load org id)
  updated ← update_load id (λ l. record l { references = updated_references dto l.references })
  when (has_reference_changes dto existing.references)
      (record_audit org id Audit.reference_number_updated (some actor))
  pure updated

unfoldable pub link_return_load : ℕ → ℕ → ℕ → ℕ → Action Load
link_return_load org load_id return_for_load_id actor = with_tenant_transaction do
  throw_if (load_id == return_for_load_id) business_rule
  existing ← require (find_load org load_id)
  require (find_load org return_for_load_id)
  updated ← update_load load_id (λ l. record l { return_for_load_id = some return_for_load_id })
  record_audit org load_id
      (Audit.load_linked_as_return existing.return_for_load_id return_for_load_id) (some actor)
  pure updated

pub record Closed : Type 0 where
  pub load : Load
  pub checklist_snapshot : List ChecklistItem

unfoldable pub close_load : ℕ → ℕ → ℕ → ℕ → Action Closed
close_load now org load_id actor = with_tenant_transaction do
  load ← require (find_load org load_id)
  throw_if (load.status is LoadStatus.closed) invalid_transition
  checklist_snapshot ← gets (evaluate_closing_checklist org load)
  updated ← update_load load_id (λ l. record l {
    status = LoadStatus.closed;
    closed_at = some now;
    closed_by_user_id = some actor;
  })
  record_audit org load_id Audit.load_closed (some actor)
  pure (record { load = updated; checklist_snapshot = checklist_snapshot })

abbrev pub cancellable_statuses : List LoadStatus
cancellable_statuses =
    LoadStatus.booked ∷ LoadStatus.carrier_sourcing ∷ LoadStatus.carrier_assigned
    ∷ LoadStatus.rate_confirmation ∷ []

abbrev admin_visibility_roles : List Role
admin_visibility_roles = Role.admin ∷ []

-- The assigned dispatcher and the administrators hear of it once.
unfoldable pub notify_of_cancellation : ℕ → ℕ → Option ℕ → Action (Unit {0})
notify_of_cancellation org load_id none = pure tt
notify_of_cancellation org load_id (some dispatcher) = do
  exists ← gets (has_notification org NotificationType.load_cancelled load_id)
  when (not exists) (
      create_for_user_and_roles org dispatcher admin_visibility_roles
        NotificationType.load_cancelled load_id)

unfoldable pub cancel_load : ℕ → ℕ → ℕ → String → ℕ → Action Load
cancel_load now org load_id reason actor = with_tenant_transaction do
  load ← require (find_load org load_id)
  throw_if (not (is_one_of load.status cancellable_statuses)) invalid_transition
  updated ← update_load load_id (λ l. record l {
    status = LoadStatus.cancelled;
    cancelled_at = some now;
    cancelled_by_user_id = some actor;
  })
  record_audit org load_id (Audit.load_cancelled load.status reason) (some actor)
  notify_of_cancellation org load_id load.assigned_dispatcher_id
  pure updated
