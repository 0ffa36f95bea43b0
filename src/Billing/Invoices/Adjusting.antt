-- ===== src/Billing/Invoices/Adjusting.antt =====
-- The balance and the status of an invoice, by `addAdjustment` and `recalculateInvoiceBalance` of
-- invoice.service.ts.
use truckmaster.Base.{
  ℕ, ◌+◌, ◌≡◌, refl, sym, ap, ◌∙◌, Bool, true, [], false, ◌||◌, ltb, some, List, ◌∷◌, arith,
  if◌then◌else◌,
}
use truckmaster.Base.Int.{ℤ, pos, ◌+ℤ◌, ◌-ℤ◌, int_laws}
use truckmaster.Store.Statuses.{
  InvoiceStatus, AdjustmentType, ◌is◌, is_one_of, invoice_status_enum, adjustment_type_enum,
}
use truckmaster.Store.Rows.{Invoice, Adjustment}
use truckmaster.Store.Transaction.{
  Store, Billing, ok, err, invalid_transition, with_tenant_transaction,
}
use truckmaster.Store.Queries.{find_invoice}
use truckmaster.Billing.Charges.{sum_amounts}
use truckmaster.Billing.Invoices.Balance.{
  PaymentDto, AdjustmentDto, record_payment, add_adjustment, recalculate_invoice_balance,
  remaining_of, payments_total, adjustments_total, status_after, is_settled,
}
use truckmaster.Billing.Invoices.Ledger.{
  recalculated, recalculate-result, adjustment_of, adjusted_billing,
}

-- A balance after a credit or a debit.
abbrev pub adjust : AdjustmentType → ℤ → ℕ → ℤ
adjust AdjustmentType.credit balance amount = balance -ℤ pos amount
adjust AdjustmentType.debit balance amount = balance +ℤ pos amount

take_credit :
    (total : ℤ) (x p c d : ℕ)
    → total -ℤ pos p -ℤ pos (x + c) +ℤ pos d ≡ (total -ℤ pos p -ℤ pos c +ℤ pos d) -ℤ pos x
take_credit total x p c d = omega int_laws

take_debit :
    (total : ℤ) (x p c d : ℕ)
    → total -ℤ pos p -ℤ pos c +ℤ pos (x + d) ≡ (total -ℤ pos p -ℤ pos c +ℤ pos d) +ℤ pos x
take_debit total x p c d = omega int_laws

adjustments_total-cons :
    (org id : ℕ) (type : AdjustmentType) (a : Adjustment) (rows : List Adjustment)
    → a.organization_id ≡ org
    → a.invoice_id ≡ id
    → adjustments_total org id type (a ∷ rows)
      ≡ (if a.type is type then a.amount else 0) + adjustments_total org id type rows
unfolding adjustments_total sum_amounts
adjustments_total-cons org id type a rows h k = ground arith

adjust_moves :
    (org id : ℕ) (total : ℤ) (a : Adjustment) (b : Billing)
    → a.organization_id ≡ org
    → a.invoice_id ≡ id
    → remaining_of org id total (adjusted_billing a b)
      ≡ adjust a.type (remaining_of org id total b) a.amount
unfolding remaining_of
adjust_moves org id total a b h k =
    let paid = payments_total org id b.payments in
    let credits = adjustments_total org id AdjustmentType.credit b.adjustments in
    let debits = adjustments_total org id AdjustmentType.debit b.adjustments in
    rw
      (
        adjustments_total-cons org id AdjustmentType.credit a b.adjustments h k,
        adjustments_total-cons org id AdjustmentType.debit a b.adjustments h k,
      )
      (ground (
        arith,
        take_credit total a.amount paid credits debits,
        take_debit total a.amount paid credits debits,
      ))

add_adjustment-result :
    (now org id : ℕ) (dto : AdjustmentDto) (actor : ℕ) (i j : Invoice) (s : Store)
    → find_invoice org id s ≡ some i
    → (add_adjustment now org id dto actor s).0 ≡ ok j
    → (j ≡ recalculated org id i (adjusted_billing (adjustment_of now org id dto actor) s.billing))
      × ((i.status is InvoiceStatus.draft || i.status is InvoiceStatus.void) ≡ false)
unfolding add_adjustment with_tenant_transaction
add_adjustment-result now org id dto actor i j s found made =
    let b = adjusted_billing (adjustment_of now org id dto actor) s.billing in
    ground (arith, recalculate-result org id i (record s { billing = b }) found)

-- The statuses that an adjusted invoice may have: Paid or Partially Paid if anything was paid, and Credited
-- or as it was if nothing was.
abbrev pub adjusted_statuses : InvoiceStatus → ℕ → List InvoiceStatus
adjusted_statuses status paid =
    if ltb 0 paid
    then InvoiceStatus.paid ∷ InvoiceStatus.partially_paid ∷ []
    else InvoiceStatus.credited ∷ status ∷ []

status_after-adjusted :
    (status : InvoiceStatus) (settled : Bool) (paid : ℕ)
    → (status is InvoiceStatus.draft || status is InvoiceStatus.void) ≡ false
    → is_one_of (status_after status settled paid) (adjusted_statuses status paid) ≡ true
unfolding status_after
status_after-adjusted status settled paid h = ground arith

-- A credit that is granted on a balanced invoice lowers its balance by exactly the amount and a debit
-- raises it so; the invoice is then Paid or Partially Paid if anything was paid, and Credited or of the status
-- that it had if nothing was.
pub add_adjustment-remaining :
    (now org id : ℕ) (dto : AdjustmentDto) (actor : ℕ) (i j : Invoice) (s : Store)
    → find_invoice org id s ≡ some i
    → i.remaining_balance ≡ remaining_of org id i.total s.billing
    → (add_adjustment now org id dto actor s).0 ≡ ok j
    → (j.remaining_balance ≡ adjust dto.type i.remaining_balance dto.amount)
      × (is_one_of j.status (adjusted_statuses i.status (payments_total org id s.billing.payments))
          ≡ true)
add_adjustment-remaining now org id dto actor i j s found balanced made =
    let a = adjustment_of now org id dto actor in
    let settled = is_settled org id i.total (adjusted_billing a s.billing) in
    let (result, granted) = add_adjustment-result now org id dto actor i j s found made in
    let moved = adjust_moves org id i.total a s.billing refl refl in
    let paid = payments_total org id s.billing.payments in
    let status = status_after-adjusted i.status settled paid granted in
    (
      ap (λ (k : Invoice). k.remaining_balance) result
          ∙ moved
          ∙ ap (λ x. adjust dto.type x dto.amount) (sym balanced),
      ap (λ (k : Invoice). is_one_of k.status (adjusted_statuses i.status paid)) result ∙ status,
    )

-- On a Credited invoice on which nothing was paid a debit is granted, raises the balance by its amount and
-- leaves the invoice Credited, and every payment is then refused.
pub debit_unpayable :
    (now org id : ℕ) (dto : AdjustmentDto) (payment : PaymentDto) (actor : ℕ) (i : Invoice)
    (s : Store)
    → find_invoice org id s ≡ some i
    → i.status ≡ InvoiceStatus.credited
    → i.remaining_balance ≡ remaining_of org id i.total s.billing
    → payments_total org id s.billing.payments ≡ 0
    → dto.type ≡ AdjustmentType.debit
    → let after = add_adjustment now org id dto actor s in
      (after.0 ≡ ok (record i { remaining_balance = i.remaining_balance +ℤ pos dto.amount }))
      × ((record_payment org id payment actor after.1).0 ≡ err invalid_transition)
unfolding add_adjustment record_payment with_tenant_transaction recalculate_invoice_balance
    status_after
debit_unpayable now org id dto payment actor i s found credited balanced unpaid debit =
    let a = adjustment_of now org id dto actor in
    let moved = adjust_moves org id i.total a s.billing refl refl in
    let result =
      recalculate-result org id i (record s { billing = adjusted_billing a s.billing }) found in
    (ground (arith), ground (arith))
