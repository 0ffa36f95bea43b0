-- ===== src/Billing/Invoices/Ledger.antt =====
-- The balance and the status of an invoice, by `recordPayment` and `recalculateInvoiceBalance` of
-- invoice.service.ts.
use truckmaster.Base.{ℕ, ◌+◌, ◌<◌, ◌≡◌, refl, Bool, true, some, List, [], ◌∷◌, arith, or_else}
use truckmaster.Base.Int.{ℤ, pos, ◌+ℤ◌, ◌-ℤ◌, int_laws}
use truckmaster.Store.Statuses.{InvoiceStatus, AdjustmentType, is_one_of, invoice_status_enum}
use truckmaster.Store.Rows.{Invoice, Payment, Adjustment}
use truckmaster.Store.Transaction.{Store, Billing, ok, with_tenant_transaction}
use truckmaster.Store.Queries.{find_invoice}
use truckmaster.Billing.Charges.{sum_amounts}
use truckmaster.Billing.Invoices.Balance.{
  PaymentDto, AdjustmentDto, record_payment, recalculate_invoice_balance, remaining_of,
  payments_total, adjustments_total, status_after, is_settled,
}

abbrev pub recalculated : ℕ → ℕ → Invoice → Billing → Invoice
recalculated org id i b = record i {
  remaining_balance = remaining_of org id i.total b;
  status = status_after i.status (is_settled org id i.total b) (payments_total org id b.payments);
}

pub recalculate-result :
    (org id : ℕ) (i : Invoice) (s : Store)
    → find_invoice org id s ≡ some i
    → (recalculate_invoice_balance org id s).0 ≡ ok (recalculated org id i s.billing)
unfolding recalculate_invoice_balance
recalculate-result org id i s found = ground arith

recalculate-stores :
    (org id : ℕ) (i : Invoice) (s : Store)
    → find_invoice org id s ≡ some i
    → (recalculate_invoice_balance org id s).1.billing.invoices id
      ≡ some (recalculated org id i s.billing)
unfolding recalculate_invoice_balance
recalculate-stores org id i s found = ground arith

take_payment :
    (total : ℤ) (x p c d : ℕ)
    → total -ℤ pos (x + p) -ℤ pos c +ℤ pos d ≡ (total -ℤ pos p -ℤ pos c +ℤ pos d) -ℤ pos x
take_payment total x p c d = omega int_laws

payments_total-cons :
    (org id : ℕ) (payment : Payment) (ps : List Payment)
    → payment.organization_id ≡ org
    → payment.invoice_id ≡ id
    → payments_total org id (payment ∷ ps) ≡ payment.amount + payments_total org id ps
unfolding payments_total sum_amounts
payments_total-cons org id payment ps h k = ground arith

pay_moves :
    (org id : ℕ) (total : ℤ) (payment : Payment) (b : Billing)
    → payment.organization_id ≡ org
    → payment.invoice_id ≡ id
    → remaining_of org id total (record b { payments = payment ∷ b.payments })
      ≡ remaining_of org id total b -ℤ pos payment.amount
unfolding remaining_of
pay_moves org id total payment b h k = rw (payments_total-cons org id payment b.payments h k) (
    take_payment total payment.amount (payments_total org id b.payments)
      (adjustments_total org id AdjustmentType.credit b.adjustments)
      (adjustments_total org id AdjustmentType.debit b.adjustments))

-- The payment row of a request, and the store that holds it.
abbrev pub payment_of : ℕ → ℕ → PaymentDto → ℕ → Payment
payment_of org id dto actor = record {
  organization_id = org;
  invoice_id = id;
  amount = dto.amount;
  payment_date = dto.payment_date;
  method = dto.method;
  reference_number = dto.reference_number;
  recorded_by_user_id = actor;
}

abbrev pub paid_billing : Payment → Billing → Billing
paid_billing p b = record b { payments = p ∷ b.payments }

abbrev pub adjustment_of : ℕ → ℕ → ℕ → AdjustmentDto → ℕ → Adjustment
adjustment_of now org id dto actor = record {
  organization_id = org;
  invoice_id = id;
  type = dto.type;
  amount = dto.amount;
  reason = dto.reason;
  adjustment_date = or_else dto.adjustment_date now;
  created_by_user_id = actor;
}

abbrev pub adjusted_billing : Adjustment → Billing → Billing
adjusted_billing a b = record b { adjustments = a ∷ b.adjustments }

record_payment-result :
    (org id : ℕ) (dto : PaymentDto) (actor : ℕ) (i j : Invoice) (s : Store)
    → find_invoice org id s ≡ some i
    → (record_payment org id dto actor s).0 ≡ ok j
    → (j ≡ recalculated org id i (paid_billing (payment_of org id dto actor) s.billing))
      × (is_one_of i.status (InvoiceStatus.sent ∷ InvoiceStatus.partially_paid ∷ []) ≡ true)
unfolding record_payment with_tenant_transaction
record_payment-result org id dto actor i j s found made =
    let b = paid_billing (payment_of org id dto actor) s.billing in
    ground (arith, recalculate-result org id i (record s { billing = b }) found)

record_payment-stores :
    (org id : ℕ) (dto : PaymentDto) (actor : ℕ) (i j : Invoice) (s : Store)
    → find_invoice org id s ≡ some i
    → (record_payment org id dto actor s).0 ≡ ok j
    → (record_payment org id dto actor s).1.billing.payments
      ≡ payment_of org id dto actor ∷ s.billing.payments
unfolding record_payment with_tenant_transaction recalculate_invoice_balance
record_payment-stores org id dto actor i j s found made = ground (arith, found, made)

status_after-paid :
    (status : InvoiceStatus) (settled : Bool) (paid : ℕ)
    → is_one_of status (InvoiceStatus.sent ∷ InvoiceStatus.partially_paid ∷ []) ≡ true
    → 0 < paid
    → is_one_of
        (status_after status settled paid)
        (InvoiceStatus.paid ∷ InvoiceStatus.partially_paid ∷ [])
      ≡ true
unfolding status_after
status_after-paid status settled paid h k = ground arith

-- A payment that is recorded on a balanced invoice lowers its balance by exactly the amount and stands
-- among the payments; the invoice had been Sent or Partially Paid, and is then Paid or Partially Paid.
pub record_payment-remaining :
    (org id : ℕ) (dto : PaymentDto) (actor : ℕ) (i j : Invoice) (s : Store)
    → find_invoice org id s ≡ some i
    → i.remaining_balance ≡ remaining_of org id i.total s.billing
    → 0 < dto.amount
    → (record_payment org id dto actor s).0 ≡ ok j
    → (j.remaining_balance ≡ i.remaining_balance -ℤ pos dto.amount)
      × ((record_payment org id dto actor s).1.billing.payments
          ≡ payment_of org id dto actor ∷ s.billing.payments)
      × (is_one_of i.status (InvoiceStatus.sent ∷ InvoiceStatus.partially_paid ∷ []) ≡ true)
      × (is_one_of j.status (InvoiceStatus.paid ∷ InvoiceStatus.partially_paid ∷ []) ≡ true)
record_payment-remaining org id dto actor i j s found balanced positive made =
    let p = payment_of org id dto actor in
    let settled = is_settled org id i.total (paid_billing p s.billing) in
    let (result, payable) = record_payment-result org id dto actor i j s found made in
    let lowered = pay_moves org id i.total p s.billing refl refl in
    let total = payments_total-cons org id p s.billing.payments refl refl in
    let status =
      status_after-paid i.status settled (payments_total org id (p ∷ s.billing.payments)) payable
        (omega (arith, total, positive)) in
    (
      cc (result, lowered, balanced),
      record_payment-stores org id dto actor i j s found made,
      payable,
      cc (result, status),
    )
