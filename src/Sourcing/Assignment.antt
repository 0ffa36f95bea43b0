-- ===== src/Sourcing/Assignment.antt =====
-- Assigning a carrier to a load, and taking the assignment back: `assignCarrier` and
-- `carrierRejected` of carrier-sourcing.service.ts, with the linehaul charge that goes with them.
use truckmaster.Base.{
  ℕ, String, Bool, true, not, ◌&&◌, Option, none, some, List, [], ◌∷◌, ◌++◌, ◌==◌, filter, latest,
  update_where,
}
use truckmaster.Store.Statuses.{
  LoadStatus, AttemptOutcome, ChargeSide, ChargeSource, NotificationType, Role, ◌is◌,
  load_status_enum, attempt_outcome_enum, charge_side_enum, charge_source_enum,
  notification_type_enum, role_enum,
}
use truckmaster.Store.Rows.{Load, SourcingAttempt, ChargeLineItem}
use truckmaster.Store.Transaction.{
  Store, Action, pure, throw, gets, throw_if, modify, when, record_audit, fresh_id,
  with_tenant_transaction, ◌>>=◌, ◌>>◌, invalid_transition, eligibility,
}
use truckmaster.Store.Audit
use truckmaster.Store.Queries.{
  require, find_load, find_carrier, update_load, find_linehaul, create_charge, original_charge,
}
use truckmaster.Carrier.Eligibility.{recalculate}
use truckmaster.Notifying.{create_for_roles, has_notification}

unfoldable pub create_original_carrier_linehaul_charge : ℕ → ℕ → ℕ → ℕ → Action (Unit {0})
create_original_carrier_linehaul_charge org load_id carrier_rate actor = do
  linehaul_type ← gets (find_linehaul org)
  elim linehaul_type [
    | none ↦ pure tt
    | some t ↦ do
      id ← fresh_id
      create_charge (original_charge id org ChargeSide.carrier load_id t.id carrier_rate actor)
  ]

abbrev pub is_original_carrier_charge : ℕ → ℕ → ℕ → ChargeLineItem → Bool
is_original_carrier_charge org load_id charge_type_id c =
    c.organization_id == org
    && c.load_id == load_id
    && c.side is ChargeSide.carrier
    && c.source is ChargeSource.original
    && c.charge_type_id == charge_type_id

unfoldable pub remove_original_carrier_linehaul_charge : ℕ → ℕ → Action (Unit {0})
remove_original_carrier_linehaul_charge org load_id = do
  linehaul_type ← gets (find_linehaul org)
  elim linehaul_type [
    | none ↦ pure tt
    | some t ↦ modify λ s. record s {
      charges = filter (λ c. not (is_original_carrier_charge org load_id t.id c)) s.charges;
    }
  ]

abbrev carrier_assigned_notification_roles : List Role
carrier_assigned_notification_roles = Role.admin ∷ Role.operations_manager ∷ Role.dispatcher ∷ []

abbrev pub add_attempt : SourcingAttempt → Action (Unit {0})
add_attempt attempt =
    modify λ s. record s { sourcing_attempts = s.sourcing_attempts ++ attempt ∷ [] }

unfoldable pub assign_carrier : ℕ → ℕ → ℕ → ℕ → ℕ → ℕ → Action Load
assign_carrier now org load_id carrier_id carrier_rate actor = with_tenant_transaction do
  load ← require (find_load org load_id)
  throw_if (not (load.status is LoadStatus.carrier_sourcing)) invalid_transition
  require (find_carrier org carrier_id)
  result ← recalculate now org carrier_id
  when (not result.eligible) do
    record_audit org load_id (Audit.carrier_assignment_blocked carrier_id result.reasons) none
    throw (eligibility result.reasons)
  attempt_id ← fresh_id
  add_attempt (record {
    id = attempt_id;
    organization_id = org;
    load_id = load_id;
    carrier_id = carrier_id;
    carrier_rate = some carrier_rate;
    outcome = AttemptOutcome.assigned;
    rejection_reason = none;
    logged_by_user_id = actor;
    logged_at = now;
  })
  updated ← update_load load_id (λ l. record l {
    status = LoadStatus.carrier_assigned;
    assigned_carrier_id = some carrier_id;
    carrier_rate = some carrier_rate;
  })
  create_original_carrier_linehaul_charge org load_id carrier_rate actor
  record_audit org load_id (Audit.carrier_assigned carrier_id carrier_rate) (some actor)
  notified ← gets (has_notification org NotificationType.carrier_assigned load_id)
  when (not notified) (
      create_for_roles org carrier_assigned_notification_roles NotificationType.carrier_assigned
        load_id)
  pure updated

-- `carrierId: load.assignedCarrierId ?? undefined`: with no carrier, any carrier matches.
abbrev pub is_carrier_or_any : Option ℕ → ℕ → Bool
is_carrier_or_any none carrier_id = true
is_carrier_or_any (some wanted) carrier_id = carrier_id == wanted

abbrev pub is_assigned_attempt : ℕ → ℕ → Option ℕ → SourcingAttempt → Bool
is_assigned_attempt org load_id carrier_id a =
    a.organization_id == org
    && a.load_id == load_id
    && is_carrier_or_any carrier_id a.carrier_id
    && a.outcome is AttemptOutcome.assigned

abbrev latest_assigned_attempt : ℕ → ℕ → Option ℕ → Store → Option SourcingAttempt
latest_assigned_attempt org load_id carrier_id s =
    latest (λ (a : SourcingAttempt). a.logged_at)
      (filter (is_assigned_attempt org load_id carrier_id) s.sourcing_attempts)

abbrev reject_attempt : ℕ → String → Action (Unit {0})
reject_attempt id reason = modify λ s. record s {
  sourcing_attempts =
      update_where (λ (a : SourcingAttempt). a.id == id)
        (λ a. record a {
          outcome = AttemptOutcome.rejected_after_assignment;
          rejection_reason = some reason;
        })
        s.sourcing_attempts;
}

abbrev reject_attempt_if_any : Option SourcingAttempt → String → Action (Unit {0})
reject_attempt_if_any none reason = pure tt
reject_attempt_if_any (some a) reason = reject_attempt a.id reason

unfoldable pub carrier_rejected : ℕ → ℕ → String → ℕ → Action Load
carrier_rejected org load_id reason actor = with_tenant_transaction do
  load ← require (find_load org load_id)
  throw_if (not (load.status is LoadStatus.carrier_assigned)) invalid_transition
  attempt ← gets (latest_assigned_attempt org load_id load.assigned_carrier_id)
  reject_attempt_if_any attempt reason
  updated ← update_load load_id (λ l. record l {
    status = LoadStatus.carrier_sourcing;
    assigned_carrier_id = none;
    carrier_rate = none;
  })
  remove_original_carrier_linehaul_charge org load_id
  record_audit org load_id
      (Audit.carrier_rejected load.assigned_carrier_id load.carrier_rate reason) (some actor)
  pure updated
