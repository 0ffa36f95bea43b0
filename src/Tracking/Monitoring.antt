-- ===== src/Tracking/Monitoring.antt =====
-- `logCheckCall`, `setRiskStatus` and `assignDispatcher` of dispatch-tracking.service.ts.
use truckmaster.Base.{
  ℕ, String, Bool, not, ◌&&◌, Option, none, some, [], ◌∷◌, ◌++◌, ◌==◌, any, or_else, if◌then◌else◌,
  is_blank, same_number,
}
use truckmaster.Store.Statuses.{
  MembershipStatus, membership_status_enum, RiskStatus, ◌is◌, risk_status_enum,
}
use truckmaster.Store.Rows.{Load, CheckCall, Position, Membership}
use truckmaster.Store.Transaction.{
  Action, Job, pure, gets, throw_if, modify, record_audit, enqueue, fresh_id,
  with_tenant_transaction, ◌>>=◌, ◌>>◌, not_found, invalid_transition, business_rule,
}
use truckmaster.Store.Audit
use truckmaster.Store.Queries.{require, find_load, update_load}
use truckmaster.Tracking.{is_post_dispatch}

pub record CheckCallDto : Type 0 where
  pub occurred_at : Option ℕ
  pub location_city : Option String
  pub location_state : Option String
  pub location_zip : Option String
  pub eta : Option ℕ

-- `given ?? kept`
abbrev or_kept {ℓ} : {A : Type ℓ} → Option A → Option A → Option A
or_kept none kept = kept
or_kept (some a) kept = some a

abbrev pub moved_to : ℕ → CheckCallDto → Position → Position
moved_to now dto p = record {
  city = or_kept dto.location_city p.city;
  state = or_kept dto.location_state p.state;
  zip = or_kept dto.location_zip p.zip;
  updated_at = some now;
  eta = or_kept dto.eta p.eta;
}

pub record Logged : Type 0 where
  pub check_call : CheckCall
  pub load : Load

unfoldable pub create_check_call : ℕ → ℕ → ℕ → CheckCallDto → ℕ → Action Logged
create_check_call now org load_id dto actor = with_tenant_transaction do
  load ← require (find_load org load_id)
  throw_if (not (is_post_dispatch load.status)) business_rule
  id ← fresh_id
  let check_call : CheckCall = record {
    id = id;
    organization_id = org;
    load_id = load_id;
    logged_by_user_id = actor;
    occurred_at = or_else dto.occurred_at now;
    location_city = dto.location_city;
    location_state = dto.location_state;
    location_zip = dto.location_zip;
    eta = dto.eta;
  }
  modify (λ s. record s { check_calls = s.check_calls ++ check_call ∷ [] })
  updated ←
      update_load load_id
        (λ l. record l { current_location = moved_to now dto load.current_location })
  record_audit org load_id (Audit.check_call_logged id) (some actor)
  pure (record { check_call = check_call; load = updated })

-- Only a location that this very call gives is resolved.
unfoldable pub enqueue_check_call : CheckCall → Action (Unit {0})
enqueue_check_call call = elim call.location_city [
  | none ↦ pure tt
  | some city ↦ elim call.location_state [
    | none ↦ pure tt
    | some state ↦ enqueue (Job.resolve_check_call_location call.id city state)
  ]
]

unfoldable pub log_check_call : ℕ → ℕ → ℕ → CheckCallDto → ℕ → Action Logged
log_check_call now org load_id dto actor = do
  logged ← create_check_call now org load_id dto actor
  enqueue_check_call logged.check_call
  pure logged

abbrev pub is_normal : RiskStatus → Bool
is_normal r = r is RiskStatus.normal

unfoldable pub set_risk_status : ℕ → ℕ → RiskStatus → Option String → ℕ → Action Load
set_risk_status org load_id risk reason actor = with_tenant_transaction do
  load ← require (find_load org load_id)
  throw_if (not (is_post_dispatch load.status)) business_rule
  throw_if (not (is_normal risk) && is_blank reason) business_rule
  updated ←
      update_load load_id (λ l. record l {
        risk_status = risk;
        risk_reason = if is_normal risk then none else reason;
      })
  record_audit org load_id (Audit.risk_status_changed load.risk_status risk) (some actor)
  pure updated

abbrev pub is_active_member : ℕ → ℕ → Membership → Bool
is_active_member org user m =
    m.organization_id == org && m.user_id == user && m.status is MembershipStatus.active

-- The test that `dispatcherUserId` passes: unassigning needs a load that is not under way, and
-- assigning an active member.
unfoldable pub check_dispatcher : ℕ → Load → Option ℕ → Action (Unit {0})
check_dispatcher org load none = throw_if (is_post_dispatch load.status) invalid_transition
check_dispatcher org load (some user) = do
  memberships ← gets (λ s. s.master.memberships)
  throw_if (not (any (is_active_member org user) memberships)) not_found

abbrev pub dispatcher_action : Option ℕ → Option ℕ → Audit.Action
dispatcher_action previous none = Audit.dispatcher_unassigned previous none
dispatcher_action none (some user) = Audit.dispatcher_assigned none (some user)
dispatcher_action (some old) (some user) = Audit.dispatcher_reassigned (some old) (some user)

unfoldable pub assign_dispatcher : ℕ → ℕ → Option ℕ → ℕ → Action Load
assign_dispatcher org load_id user actor = with_tenant_transaction do
  load ← require (find_load org load_id)
  check_dispatcher org load user
  if same_number load.assigned_dispatcher_id user then pure load else do
    updated ← update_load load_id (λ l. record l { assigned_dispatcher_id = user })
    record_audit org load_id (dispatcher_action load.assigned_dispatcher_id user) (some actor)
    pure updated
