-- ===== src/Store/Audit.antt =====
-- The audit log: one constructor for each action text, with the ids and values that the call of
-- `AuditService.record` (backend/src/common/audit/audit.service.ts) passes as previous and new value.
use truckmaster.Base.{ℕ, String, Bool, Option, List}
use truckmaster.Base.Int.{ℤ}
use truckmaster.Store.Statuses.{
  LoadStatus, AttemptOutcome, AdjustmentType, RiskStatus, PodStatus, ChargeSide, InvoiceStatus,
  CarrierPaymentType, Ineligibility, Role, CoverageType, CustomerStatus, ServiceAreaType,
}

pub data Action : Type 0 where
  load_entered_carrier_sourcing : Action
  sourcing_attempt_logged : (carrier_id : ℕ) (outcome : AttemptOutcome) (rate : Option ℕ) → Action
  carrier_assignment_blocked : (carrier_id : ℕ) (reasons : List Ineligibility) → Action
  carrier_assigned : (carrier_id rate : ℕ) → Action
  carrier_rejected : (carrier_id rate : Option ℕ) (reason : String) → Action
  rate_confirmation_generated : (document_id : ℕ) → Action
  rate_confirmation_sent : (document_id : ℕ) (sent_to : String) → Action
  eligibility_changed : (was now : Bool) (reasons : List Ineligibility) → Action
  load_dispatched : Action
  dispatch_information_changed : Action
  load_status_advanced : (previous next : LoadStatus) → Action
  stop_arrival_recorded : (sequence timestamp : ℕ) → Action
  stop_completed : (sequence timestamp : ℕ) → Action
  stop_rescheduled : (sequence : ℕ) (previous : Option ℕ) (new : ℕ) → Action
  stop_details_updated : (sequence : ℕ) → Action
  return_initiated : (pickup_sequence delivery_sequence : ℕ) → Action
  check_call_logged : (check_call_id : ℕ) → Action
  risk_status_changed : (previous new : RiskStatus) → Action
  dispatcher_unassigned dispatcher_reassigned dispatcher_assigned :
      (previous new : Option ℕ) → Action
  inactive_customer_booking_override : Action
  load_booked_from_quote load_booked_directly : (load_number : ℕ) → Action
  reference_number_updated : Action
  load_linked_as_return : (previous : Option ℕ) (new : ℕ) → Action
  charge_line_item_added : (side : ChargeSide) (amount : ℕ) → Action
  load_closed : Action
  load_cancelled : (previous : LoadStatus) (reason : String) → Action
  pod_milestone_updated : (previous new : PodStatus) → Action
  invoice_created_consolidated invoice_created_individual :
      (invoice_number : ℕ) (load_ids : List ℕ) (total : ℤ) → Action
  invoice_created_despite_incomplete_pod : (affected_loads : List ℕ) → Action
  invoice_sent : (recipient_email : String) (due_date : ℕ) → Action
  payment_recorded : (amount : ℕ) → Action
  invoice_adjustment_created : (type : AdjustmentType) (amount : ℕ) → Action
  invoice_voided : (previous : InvoiceStatus) (released_load_ids : List ℕ) → Action
  carrier_payment_created : (amount : ℕ) (type : CarrierPaymentType) → Action
  carrier_payment_submitted : Action
  carrier_payment_approved : (amount : ℕ) → Action
  carrier_payment_rejected : (reason : String) → Action
  carrier_payment_paid : (amount paid_at : ℕ) → Action
  settlement_document_generated : (document_id : ℕ) → Action
  quote_created : (quote_number : ℕ) → Action
  quote_marked_lost : (reason : String) → Action
  quote_won : (load_id : ℕ) → Action
  user_invited : (email : String) (roles : List Role) → Action
  invitation_resent invitation_cancelled invitation_expired : Action
  admin_account_verified user_activated user_deactivated : Action
  user_deactivation_blocked role_change_blocked : Action
  member_roles_changed : (previous new : List Role) → Action
  carrier_creation_blocked carrier_created : (mc_number dot_number : String) → Action
  carrier_contact_added : (name : String) → Action
  carrier_service_area_added : (type : ServiceAreaType) → Action
  factoring_information_updated : (uses_factoring : Bool) (company : Option String) → Action
  carrier_updated carrier_activated driver_updated : Action
  carrier_blocked carrier_deactivated carrier_reactivated : (reason : List ℕ) → Action
  carrier_insurance_added : (coverage_type : CoverageType) (expiration_date : ℕ) → Action
  fmcsa_verification_recorded : (result_status : String) (verification_date : ℕ) → Action
  driver_added truck_added trailer_added : (label : String) → Action
  driver_activity_changed : (previous new : Bool) (reason : List ℕ) → Action
  compliance_document_approved compliance_document_rejected : (document_id : ℕ) → Action
  duplicate_warning_shown : (legal_name : String) (matches : List ℕ) → Action
  duplicate_warning_acknowledged : (matches : List ℕ) → Action
  customer_created customer_contact_added : (name : String) → Action
  customer_updated : Action
  customer_status_changed : (previous new : CustomerStatus) → Action
  customer_rate_agreement_added : (origin_city destination_city : String) (rate : ℕ) → Action
  rate_changed_during_conversion : (previous new : ℕ) → Action

-- `actor_user_id` is `none` for an entry of `actorType: 'SYSTEM'`.
pub record AuditEntry : Type 0 where
  pub organization_id : ℕ
  pub entity_id : ℕ
  pub action : Action
  pub actor_user_id : Option ℕ
