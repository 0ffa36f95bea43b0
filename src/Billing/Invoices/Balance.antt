-- ===== src/Billing/Invoices/Balance.antt =====
-- `recalculateInvoiceBalance`, `recordPayment` and `addAdjustment` of invoice.service.ts.
use truckmaster.Base.{
  ℕ, String, not, ◌&&◌, ◌||◌, Option, some, List, [], ◌∷◌, ◌==◌, ltb, filter, map, Bool, or_else,
  if◌then◌else◌,
}
use truckmaster.Base.Int.{ℤ, pos, ◌+ℤ◌, ◌-ℤ◌, leb_ℤ}
use truckmaster.Store.Statuses.{
  InvoiceStatus, AdjustmentType, ◌is◌, is_one_of, invoice_status_enum, adjustment_type_enum,
}
use truckmaster.Store.Rows.{Invoice, Payment, Adjustment}
use truckmaster.Store.Transaction.{
  Billing, Action, put, pure, gets, or_throw, throw_if, modify, record_audit,
  with_tenant_transaction, ◌>>=◌, ◌>>◌, invalid_transition, database,
}
use truckmaster.Store.Audit
use truckmaster.Store.Queries.{require, find_invoice}
use truckmaster.Billing.Charges.{sum_amounts}
use truckmaster.Billing.Doubles.{double_remaining}

abbrev pub modify_billing : (Billing → Billing) → Action (Unit {0})
modify_billing change = modify λ s. record s { billing = change s.billing }

-- `tx.invoice.update({ where: { id }, data })`
abbrev pub update_invoice : ℕ → (Invoice → Invoice) → Action Invoice
update_invoice id change = do
  row ← gets (λ s. s.billing.invoices id) >>= or_throw database
  modify_billing (λ b. record b { invoices = put id (change row) b.invoices })
  pure (change row)

unfoldable pub payments_total : ℕ → ℕ → List Payment → ℕ
payments_total org id rows =
    sum_amounts (λ (p : Payment). p.amount)
      (filter (λ p. p.organization_id == org && p.invoice_id == id) rows)

unfoldable pub adjustments_total : ℕ → ℕ → AdjustmentType → List Adjustment → ℕ
adjustments_total org id type rows =
    sum_amounts (λ (a : Adjustment). a.amount)
      (filter (λ a. a.organization_id == org && a.invoice_id == id && a.type is type) rows)

-- The remaining balance of an invoice by the rows of the store, in exact cents as `toFixed(2)` gives it.
unfoldable pub remaining_of : ℕ → ℕ → ℤ → Billing → ℤ
remaining_of org id total b =
    total
    -ℤ pos (payments_total org id b.payments)
    -ℤ pos (adjustments_total org id AdjustmentType.credit b.adjustments)
    +ℤ pos (adjustments_total org id AdjustmentType.debit b.adjustments)

abbrev pub payment_amounts : ℕ → ℕ → List Payment → List ℕ
payment_amounts org id rows =
    map (λ (p : Payment). p.amount)
      (filter (λ p. p.organization_id == org && p.invoice_id == id) rows)

abbrev pub adjustment_amounts : ℕ → ℕ → AdjustmentType → List Adjustment → List ℕ
adjustment_amounts org id type rows =
    map (λ (a : Adjustment). a.amount)
      (filter (λ a. a.organization_id == org && a.invoice_id == id && a.type is type) rows)

-- `remaining <= 0`, of the sum of JavaScript numbers before `toFixed(2)` rounds it.
unfoldable pub is_settled : ℕ → ℕ → ℤ → Billing → Bool
is_settled org id total b =
    leb_ℤ
      (double_remaining total (payment_amounts org id b.payments)
        (adjustment_amounts org id AdjustmentType.credit b.adjustments)
        (adjustment_amounts org id AdjustmentType.debit b.adjustments))
      (pos 0)

unfoldable pub status_after : InvoiceStatus → Bool → ℕ → InvoiceStatus
status_after status settled total_paid =
    if not (status is InvoiceStatus.void)
    then if settled
      then if ltb 0 total_paid then InvoiceStatus.paid else InvoiceStatus.credited
      else if ltb 0 total_paid
      then InvoiceStatus.partially_paid
      else status
    else status

unfoldable pub recalculate_invoice_balance : ℕ → ℕ → Action Invoice
recalculate_invoice_balance org id = do
  invoice ← gets (find_invoice org id) >>= or_throw database
  billing ← gets (λ s. s.billing)
  let remaining = remaining_of org id invoice.total billing
  let paid = payments_total org id billing.payments
  update_invoice id (λ i. record i {
    remaining_balance = remaining;
    status = status_after invoice.status (is_settled org id invoice.total billing) paid;
  })

-- `RecordPaymentDto`
pub record PaymentDto : Type 0 where
  pub amount : ℕ
  pub payment_date : ℕ
  pub method : String
  pub reference_number : Option String

unfoldable pub record_payment : ℕ → ℕ → PaymentDto → ℕ → Action Invoice
record_payment org id dto actor = with_tenant_transaction do
  existing ← require (find_invoice org id)
  throw_if
      (not (is_one_of existing.status (InvoiceStatus.sent ∷ InvoiceStatus.partially_paid ∷ [])))
      invalid_transition
  let payment : Payment = record {
    organization_id = org;
    invoice_id = id;
    amount = dto.amount;
    payment_date = dto.payment_date;
    method = dto.method;
    reference_number = dto.reference_number;
    recorded_by_user_id = actor;
  }
  modify_billing (λ b. record b { payments = payment ∷ b.payments })
  invoice ← recalculate_invoice_balance org id
  record_audit org id (Audit.payment_recorded dto.amount) (some actor)
  pure invoice

-- `AddAdjustmentDto`
pub record AdjustmentDto : Type 0 where
  pub type : AdjustmentType
  pub amount : ℕ
  pub reason : String
  pub adjustment_date : Option ℕ

unfoldable pub add_adjustment : ℕ → ℕ → ℕ → AdjustmentDto → ℕ → Action Invoice
add_adjustment now org id dto actor = with_tenant_transaction do
  existing ← require (find_invoice org id)
  throw_if (existing.status is InvoiceStatus.draft || existing.status is InvoiceStatus.void)
      invalid_transition
  let adjustment : Adjustment = record {
    organization_id = org;
    invoice_id = id;
    type = dto.type;
    amount = dto.amount;
    reason = dto.reason;
    adjustment_date = or_else dto.adjustment_date now;
    created_by_user_id = actor;
  }
  modify_billing (λ b. record b { adjustments = adjustment ∷ b.adjustments })
  invoice ← recalculate_invoice_balance org id
  record_audit org id (Audit.invoice_adjustment_created dto.type dto.amount) (some actor)
  pure invoice
