-- ===== src/Billing/CarrierPay.antt =====
-- backend/src/modules/carrier-pay/services/carrier-payment.service.ts
use truckmaster.Base.{
  ℕ, ◌+◌, String, Bool, not, ◌&&◌, ◌||◌, Option, none, some, List, [], ◌∷◌, ◌==◌, filter,
  update_where, or_else, is_blank,
}
use truckmaster.Base.Int.{ℤ, pos, ◌-ℤ◌}
use truckmaster.Store.Statuses.{
  LoadStatus, CarrierPaymentStatus, CarrierPaymentType, ChargeSide, ChargeSource, DocumentCode,
  EntityType, Role, ◌is◌, is_one_of, load_status_enum, carrier_payment_status_enum,
  charge_side_enum, charge_source_enum,
}
use truckmaster.Store.Rows.{Load, CarrierPayment, ChargeLineItem}
use truckmaster.Store.Transaction.{
  Store, Action, Job, pure, gets, or_throw, throw_if, modify, record_audit, enqueue, fresh_id,
  with_tenant_transaction, ◌>>=◌, ◌>>◌, invalid_transition, business_rule, permission,
  self_review_forbidden,
}
use truckmaster.Store.Audit
use truckmaster.Store.Queries.{require, find_load, find_carrier_payment, find_document_type}
use truckmaster.Sourcing.RateConfirmation.{generated_document, create_document}
use truckmaster.Billing.Charges.{sum_amounts}
use truckmaster.Billing.Invoices.Send.{financial_view_roles, has_role_in}

abbrev pub is_carrier_accessorial : ℕ → ℕ → ChargeLineItem → Bool
is_carrier_accessorial org load_id c =
    c.organization_id == org
    && c.load_id == load_id
    && c.side is ChargeSide.carrier
    && c.source is ChargeSource.adjustment

abbrev pub is_paid_payment : ℕ → ℕ → CarrierPayment → Bool
is_paid_payment org load_id p =
    p.organization_id == org && p.load_id == load_id && p.status is CarrierPaymentStatus.paid

pub record CarrierBalance : Type 0 where
  pub carrier_accessorials_total : ℕ
  pub total_paid : ℕ
  pub remaining_carrier_balance : Option ℤ

abbrev remaining : Option ℕ → ℕ → ℕ → Option ℤ
remaining none accessorials paid = none
remaining (some rate) accessorials paid = some (pos (rate + accessorials) -ℤ pos paid)

unfoldable pub compute_carrier_balance : ℕ → Load → Store → CarrierBalance
compute_carrier_balance org load s =
    let accessorials =
      sum_amounts (λ (c : ChargeLineItem). c.amount)
        (filter (is_carrier_accessorial org load.id) s.charges) in
    let paid =
      sum_amounts (λ (p : CarrierPayment). p.amount)
        (filter (is_paid_payment org load.id) s.carrier_payments) in
    record {
      carrier_accessorials_total = accessorials;
      total_paid = paid;
      remaining_carrier_balance = remaining load.carrier_rate accessorials paid;
    }

-- `CreateCarrierPaymentDto`
pub record CarrierPaymentDto : Type 0 where
  pub amount : ℕ
  pub payment_type : CarrierPaymentType
  pub method : Option String
  pub reference_number : Option String

pub record Created : Type 0 where
  pub payment : CarrierPayment
  pub remaining_carrier_balance : Option ℤ

unfoldable pub create : ℕ → ℕ → CarrierPaymentDto → ℕ → Action Created
create org load_id dto actor = with_tenant_transaction do
  load ← require (find_load org load_id)
  throw_if (not (is_one_of load.status (LoadStatus.delivered ∷ LoadStatus.closed ∷ [])))
      business_rule
  carrier_id ← or_throw business_rule load.assigned_carrier_id
  id ← fresh_id
  let payment : CarrierPayment = record {
    id = id;
    organization_id = org;
    load_id = load_id;
    carrier_id = carrier_id;
    amount = dto.amount;
    payment_type = dto.payment_type;
    method = dto.method;
    reference_number = dto.reference_number;
    status = CarrierPaymentStatus.draft;
    prepared_by_user_id = actor;
    submitted_at = none;
    approved_by_user_id = none;
    approved_at = none;
    last_rejected_by_user_id = none;
    last_rejected_at = none;
    last_rejection_reason = none;
    paid_at = none;
  }
  modify (λ s. record s { carrier_payments = payment ∷ s.carrier_payments })
  record_audit org id (Audit.carrier_payment_created dto.amount dto.payment_type) (some actor)
  balance ← gets (compute_carrier_balance org load)
  pure (record { payment = payment; remaining_carrier_balance = balance.remaining_carrier_balance })

-- `tx.carrierPayment.update({ where: { id }, data })` on a row that was just found
abbrev pub update_payment :
    CarrierPayment → (CarrierPayment → CarrierPayment) → Action CarrierPayment
update_payment found change = do
  modify λ s. record s {
    carrier_payments =
        update_where (λ (p : CarrierPayment). p.id == found.id) change s.carrier_payments;
  }
  pure (change found)

unfoldable pub submit : ℕ → ℕ → ℕ → ℕ → Action CarrierPayment
submit now org id actor = with_tenant_transaction do
  existing ← require (find_carrier_payment org id)
  throw_if (not (existing.status is CarrierPaymentStatus.draft)) invalid_transition
  throw_if (is_blank existing.method || is_blank existing.reference_number) business_rule
  updated ←
      update_payment existing
        (λ p. record p { status = CarrierPaymentStatus.pending_approval; submitted_at = some now })
  record_audit org id Audit.carrier_payment_submitted (some actor)
  pure updated

unfoldable pub approve : ℕ → ℕ → ℕ → ℕ → Action CarrierPayment
approve now org id actor = with_tenant_transaction do
  existing ← require (find_carrier_payment org id)
  throw_if (not (existing.status is CarrierPaymentStatus.pending_approval)) invalid_transition
  throw_if (existing.prepared_by_user_id == actor) self_review_forbidden
  updated ← update_payment existing (λ p. record p {
    status = CarrierPaymentStatus.approved;
    approved_by_user_id = some actor;
    approved_at = some now;
  })
  record_audit org id (Audit.carrier_payment_approved existing.amount) (some actor)
  pure updated

unfoldable pub reject : ℕ → ℕ → ℕ → String → ℕ → Action CarrierPayment
reject now org id reason actor = with_tenant_transaction do
  existing ← require (find_carrier_payment org id)
  throw_if (not (existing.status is CarrierPaymentStatus.pending_approval)) invalid_transition
  throw_if (existing.prepared_by_user_id == actor) self_review_forbidden
  updated ← update_payment existing (λ p. record p {
    status = CarrierPaymentStatus.draft;
    last_rejected_by_user_id = some actor;
    last_rejected_at = some now;
    last_rejection_reason = some reason;
  })
  record_audit org id (Audit.carrier_payment_rejected reason) (some actor)
  pure updated

pub record Paid : Type 0 where
  pub payment : CarrierPayment
  pub document_id : ℕ

unfoldable pub settle : ℕ → ℕ → ℕ → Option ℕ → ℕ → Action Paid
settle now org id payment_date actor = with_tenant_transaction do
  existing ← require (find_carrier_payment org id)
  throw_if (not (existing.status is CarrierPaymentStatus.approved)) invalid_transition
  let paid_at = or_else payment_date now
  updated ←
      update_payment existing
        (λ p. record p { status = CarrierPaymentStatus.paid; paid_at = some paid_at })
  type ← require (find_document_type org DocumentCode.settlement)
  document_id ← fresh_id
  create_document (
      generated_document now document_id type.id org EntityType.carrier_payment id
        DocumentCode.settlement actor)
  record_audit org id (Audit.carrier_payment_paid existing.amount paid_at) (some actor)
  record_audit org id (Audit.settlement_document_generated document_id) none
  pure (record { payment = updated; document_id = document_id })

unfoldable pub mark_paid : ℕ → ℕ → ℕ → Option ℕ → ℕ → Action CarrierPayment
mark_paid now org id payment_date actor = do
  paid ← settle now org id payment_date actor
  enqueue (Job.generate_settlement paid.document_id id)
  pure paid.payment

unfoldable pub get_remaining_balance : ℕ → ℕ → List Role → Action CarrierBalance
get_remaining_balance org load_id roles = do
  throw_if (not (has_role_in roles financial_view_roles)) permission
  with_tenant_transaction
      do load ← require (find_load org load_id); gets (compute_carrier_balance org load)
