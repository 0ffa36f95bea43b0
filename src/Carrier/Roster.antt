-- ===== src/Carrier/Roster.antt =====
-- The carriers of backend/src/modules/carrier/services/carrier.service.ts: `create`, `update`, and the
-- operations that change the status.
use truckmaster.Base.{
  ℕ, String, Bool, true, false, not, ◌&&◌, ◌||◌, Option, none, some, List, [], ◌∷◌, ◌==◌, is_some,
  find, or_else, codes, trim, str_eq, same_text, if◌then◌else◌,
}
use truckmaster.Store.Statuses.{CarrierStatus, ◌is◌, is_one_of, carrier_status_enum}
use truckmaster.Store.Rows.{Carrier}
use truckmaster.Store.Transaction.{
  Store, Action, put, pure, throw, gets, or_throw, throw_if, modify, when, record_audit, fresh_id,
  with_tenant_transaction, ◌>>=◌, ◌>>◌, conflict, business_rule, database, eligibility,
}
use truckmaster.Store.Audit
use truckmaster.Store.Queries.{require, find_carrier, rows_below}
use truckmaster.Carrier.Eligibility.{Eligibility, recalculate, check_activation_readiness}
use truckmaster.Carrier.Limits.{assert_can_create_carrier, assert_carrier_slot_available}

-- `CreateCarrierDto`; the address is left out.
pub record CarrierDto : Type 0 where
  pub legal_name : String
  pub mc_number : String
  pub dot_number : String
  pub primary_contact_email : String

abbrev pub has_number : ℕ → CarrierDto → Carrier → Bool
has_number org dto c =
    c.organization_id == org
    && (str_eq c.mc_number dto.mc_number || str_eq c.dot_number dto.dot_number)

unfoldable pub find_duplicate : ℕ → CarrierDto → Store → Option Carrier
find_duplicate org dto s = find (has_number org dto) (rows_below s.next_id s.carriers)

abbrev refuse_duplicate : ℕ → CarrierDto → ℕ → Option Carrier → Action (Unit {0})
refuse_duplicate org dto actor none = pure tt
refuse_duplicate org dto actor (some duplicate) = do
  record_audit org duplicate.id (Audit.carrier_creation_blocked dto.mc_number dto.dot_number)
      (some actor)
  throw conflict

abbrev pub new_carrier : ℕ → ℕ → CarrierDto → Carrier
new_carrier id org dto = record {
  id = id;
  organization_id = org;
  legal_name = dto.legal_name;
  mc_number = dto.mc_number;
  dot_number = dto.dot_number;
  status = CarrierStatus.pending;
  primary_contact_email = some dto.primary_contact_email;
  assignment_eligible = false;
  ineligibility_reasons = [];
}

-- `tx.carrier.create({ data })`, with its audit entry.
abbrev pub insert_carrier : ℕ → CarrierDto → ℕ → Action Carrier
insert_carrier org dto actor = do
  id ← fresh_id
  let carrier = new_carrier id org dto
  modify (λ s. record s { carriers = put id carrier s.carriers })
  record_audit org id (Audit.carrier_created dto.mc_number dto.dot_number) (some actor)
  pure carrier

-- What `create` does after it has looked for a duplicate.
abbrev pub create_unless : ℕ → ℕ → CarrierDto → ℕ → Option Carrier → Action Carrier
create_unless now org dto actor duplicate = do
  refuse_duplicate org dto actor duplicate
  assert_can_create_carrier now org
  insert_carrier org dto actor

unfoldable pub create : ℕ → ℕ → CarrierDto → ℕ → Action Carrier
create now org dto actor =
    with_tenant_transaction (gets (find_duplicate org dto) >>= create_unless now org dto actor)

-- `tx.carrier.update({ where: { id }, data })`
abbrev pub update_carrier : ℕ → (Carrier → Carrier) → Action Carrier
update_carrier id change = do
  row ← gets (λ s. s.carriers id) >>= or_throw database
  modify (λ s. record s { carriers = put id (change row) s.carriers })
  pure (change row)

-- `UpdateCarrierDto`, less the address.
pub record CarrierUpdateDto : Type 0 where
  pub legal_name : Option String
  pub primary_contact_email : Option String

abbrev pub with_update : CarrierUpdateDto → Carrier → Carrier
with_update dto c = record c {
  legal_name = or_else dto.legal_name c.legal_name;
  primary_contact_email =
      if is_some dto.primary_contact_email
      then dto.primary_contact_email
      else c.primary_contact_email;
}

abbrev pub is_changed : CarrierUpdateDto → Carrier → Bool
is_changed dto c =
    not (str_eq (or_else dto.legal_name c.legal_name) c.legal_name)
    || (is_some dto.primary_contact_email
        && not (same_text dto.primary_contact_email c.primary_contact_email))

abbrev pub update_found : ℕ → ℕ → CarrierUpdateDto → ℕ → Carrier → Action Carrier
update_found org id dto actor existing = do
  updated ← update_carrier id (with_update dto)
  when (is_changed dto existing) (record_audit org id Audit.carrier_updated (some actor))
  pure updated

unfoldable pub update : ℕ → ℕ → CarrierUpdateDto → ℕ → Action Carrier
update org id dto actor =
    with_tenant_transaction (require (find_carrier org id) >>= update_found org id dto actor)

-- The change of the status when a pending carrier is activated.
abbrev pub start_carrier : ℕ → ℕ → ℕ → ℕ → Action Carrier
start_carrier now org id actor = do
  updated ← update_carrier id (λ c. record c { status = CarrierStatus.active })
  record_audit org id Audit.carrier_activated (some actor)
  recalculate now org id
  pure updated

abbrev pub activate_ready : ℕ → ℕ → ℕ → ℕ → Eligibility → Action Carrier
activate_ready now org id actor readiness = do
  throw_if (not readiness.eligible) (eligibility readiness.reasons)
  assert_carrier_slot_available org
  start_carrier now org id actor

abbrev pub activate_pending : ℕ → ℕ → ℕ → ℕ → Carrier → Action Carrier
activate_pending now org id actor carrier = do
  throw_if (not (carrier.status is CarrierStatus.pending)) business_rule
  readiness ← check_activation_readiness now org id
  activate_ready now org id actor readiness

unfoldable pub activate : ℕ → ℕ → ℕ → ℕ → Action Carrier
activate now org id actor =
    with_tenant_transaction (require (find_carrier org id) >>= activate_pending now org id actor)

-- `reason.trim().length === 0`
abbrev pub is_empty_reason : String → Bool
is_empty_reason reason = elim (trim (codes reason)) [ [] ↦ true | c ∷ cs ↦ false ]

abbrev pub set_status : ℕ → ℕ → CarrierStatus → Audit.Action → ℕ → Action Carrier
set_status org id to_status action actor = do
  updated ← update_carrier id (λ c. record c { status = to_status })
  record_audit org id action (some actor)
  pure updated

abbrev pub transition_found :
    ℕ
    → ℕ
    → List CarrierStatus
    → CarrierStatus
    → Audit.Action
    → String
    → ℕ
    → Carrier
    → Action Carrier
transition_found org id allowed_from to_status action reason actor carrier = do
  throw_if (not (is_one_of carrier.status allowed_from)) business_rule
  throw_if (is_empty_reason reason) business_rule
  set_status org id to_status action actor

-- `transitionStatus`
unfoldable pub transition_status :
    ℕ → ℕ → List CarrierStatus → CarrierStatus → Audit.Action → String → ℕ → Action Carrier
transition_status org id allowed_from to_status action reason actor =
    require (find_carrier org id)
    >>= transition_found org id allowed_from to_status action reason actor

-- The eligibility is computed again, and the carrier is returned as it was updated.
abbrev pub finish : ℕ → ℕ → ℕ → Carrier → Action Carrier
finish now org id updated = do recalculate now org id; pure updated

unfoldable pub block_carrier : ℕ → ℕ → ℕ → String → ℕ → Action Carrier
block_carrier now org id reason actor = with_tenant_transaction (
    transition_status org id (CarrierStatus.active ∷ []) CarrierStatus.blocked
      (Audit.carrier_blocked (trim (codes reason))) reason actor
    >>= finish now org id)

unfoldable pub deactivate_carrier : ℕ → ℕ → ℕ → String → ℕ → Action Carrier
deactivate_carrier now org id reason actor = with_tenant_transaction (
    transition_status org id (CarrierStatus.active ∷ []) CarrierStatus.inactive
      (Audit.carrier_deactivated (trim (codes reason))) reason actor
    >>= finish now org id)

-- The change of the status when a carrier is reactivated.
abbrev pub restart_carrier : ℕ → ℕ → ℕ → String → ℕ → Action Carrier
restart_carrier now org id reason actor =
    transition_status org id (CarrierStatus.blocked ∷ CarrierStatus.inactive ∷ [])
      CarrierStatus.active (Audit.carrier_reactivated (trim (codes reason))) reason actor
    >>= finish now org id

unfoldable pub reactivate_carrier : ℕ → ℕ → ℕ → String → ℕ → Action Carrier
reactivate_carrier now org id reason actor =
    with_tenant_transaction
      (assert_carrier_slot_available org >> restart_carrier now org id reason actor)
