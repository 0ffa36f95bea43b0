-- ===== src/Tests/Ledger.antt =====
-- Examples of the theorems about invoices over requests, and about adjustments.
use truckmaster.Base.{
  ℕ, true, ◌≡◌, refl, false, none, some, List, [], ◌∷◌, arith, ◌==◌, if◌then◌else◌,
}
use truckmaster.Base.Int.{pos, ◌-ℤ◌, ◌+ℤ◌}
use truckmaster.Store.Statuses.{
  LoadStatus, CarrierStatus, InvoiceStatus, AdjustmentType, is_one_of, invoice_status_enum,
}
use truckmaster.Store.Rows.{Invoice, Payment}
use truckmaster.Store.Transaction.{
  Store, Billing, ok, err, invalid_transition, with_tenant_transaction,
}
use truckmaster.Billing.Doubles.{double_remaining, nearest}
use truckmaster.Billing.Charges.{sum_amounts}
use truckmaster.Billing.Invoices.Balance.{
  PaymentDto, AdjustmentDto, record_payment, add_adjustment, recalculate_invoice_balance,
  remaining_of, payments_total, adjustments_total, status_after, is_settled,
}
use truckmaster.Billing.Invoices.Adjusting.{
  add_adjustment-remaining, debit_unpayable, adjust, adjusted_statuses,
}
use truckmaster.Billing.Invoices.Ledger.{adjustment_of}
use truckmaster.Billing.Invoices.Balanced.{IsBalanced}
use truckmaster.Requests.{Operation, Request, run}
use truckmaster.Requests.BilledOnce.{IsBilledOnce, run-IsBilledOnce}
use truckmaster.Requests.Balanced.{run-IsBalanced}
use truckmaster.Tests.{office, invoice_in}

abbrev delivered : Store
delivered = office LoadStatus.delivered CarrierStatus.active

abbrev unbilled : Store
unbilled = record delivered { billing = record delivered.billing { invoice_loads = [] } }

abbrev payment : PaymentDto
payment = record { amount = 50_000; payment_date = 90; method = "ACH"; reference_number = none }

abbrev asked : Operation → List Request
asked op = record { now = 5; organization_id = 1; actor = 20; operation = op } ∷ []

run-IsBilledOnce_example :
    IsBilledOnce (run (asked (Operation.create_invoice 5 (7 ∷ []) false)) unbilled) 7
run-IsBilledOnce_example =
    run-IsBilledOnce (asked (Operation.create_invoice 5 (7 ∷ []) false)) unbilled 7
      (refl, omega arith)

balanced : IsBalanced delivered 60
unfolding remaining_of payments_total adjustments_total sum_amounts ◌-ℤ◌ ◌+ℤ◌
balanced = (refl, refl)

run-IsBalanced_example : IsBalanced (run (asked (Operation.record_payment 60 payment)) delivered) 60
run-IsBalanced_example =
    run-IsBalanced (asked (Operation.record_payment 60 payment)) delivered 60 balanced

abbrev adjustment : AdjustmentType → AdjustmentDto
adjustment type = record { type = type; amount = 50_000; reason = "Damage"; adjustment_date = none }

abbrev lowered : Invoice
lowered = record (invoice_in InvoiceStatus.sent) { remaining_balance = pos 150_000 }

adjusted : (add_adjustment 5 1 60 (adjustment AdjustmentType.credit) 20 delivered).0 ≡ ok lowered
unfolding add_adjustment with_tenant_transaction recalculate_invoice_balance remaining_of
    payments_total adjustments_total status_after is_settled double_remaining nearest sum_amounts
    ◌-ℤ◌ ◌+ℤ◌
adjusted = refl

add_adjustment-remaining_example :
    (pos 150_000 ≡ adjust AdjustmentType.credit (pos 200_000) 50_000)
    × (is_one_of InvoiceStatus.sent
          (adjusted_statuses InvoiceStatus.sent (payments_total 1 60 delivered.billing.payments))
        ≡ true)
add_adjustment-remaining_example =
    add_adjustment-remaining 5 1 60 (adjustment AdjustmentType.credit) 20
      (invoice_in InvoiceStatus.sent) lowered delivered refl balanced.1 adjusted

-- The invoice with a credit of the whole total.
abbrev credited : Store
credited = record delivered {
  billing = record delivered.billing {
    invoices = λ i.
        if i == 60
        then some (record (invoice_in InvoiceStatus.credited) { remaining_balance = pos 0 })
        else none;
    adjustments =
        record (adjustment_of 5 1 60 (adjustment AdjustmentType.credit) 20) { amount = 200_000 }
        ∷ [];
  };
}

nothing_paid : payments_total 1 60 credited.billing.payments ≡ 0
unfolding payments_total sum_amounts
nothing_paid = refl

nothing_left : pos 0 ≡ remaining_of 1 60 (pos 200_000) credited.billing
unfolding remaining_of payments_total adjustments_total sum_amounts ◌-ℤ◌ ◌+ℤ◌
nothing_left = refl

debit_unpayable_example :
    ((add_adjustment 5 1 60 (adjustment AdjustmentType.debit) 20 credited).0
      ≡ ok (record (invoice_in InvoiceStatus.credited) { remaining_balance = pos 0 +ℤ pos 50_000 }))
    × ((record_payment 1 60 payment 20
          (add_adjustment 5 1 60 (adjustment AdjustmentType.debit) 20 credited).1).0
        ≡ err invalid_transition)
debit_unpayable_example =
    debit_unpayable 5 1 60 (adjustment AdjustmentType.debit) payment 20
      (record (invoice_in InvoiceStatus.credited) { remaining_balance = pos 0 }) credited refl refl
      nothing_left nothing_paid refl

abbrev payment_row : ℕ → Payment
payment_row cents = record {
  organization_id = 1;
  invoice_id = 60;
  amount = cents;
  payment_date = 90;
  method = "ACH";
  reference_number = none;
  recorded_by_user_id = 20;
}

abbrev paid_up : Billing
paid_up = record delivered.billing { payments = payment_row 4_352 ∷ payment_row 42_339 ∷ [] }

-- 423.39 and 43.52 are paid on 466.91: nothing remains in cents, and 2^-44 remains in doubles.
residue : is_settled 1 60 (pos 46_691) paid_up ≡ false
unfolding is_settled double_remaining nearest ◌-ℤ◌ ◌+ℤ◌
residue = refl
