-- ===== src/Tests/Money.antt =====
-- Examples of the theorems about invoices and carrier payments.
use truckmaster.Base.{
  ◌<◌, ◌≡◌, ◌≢◌, refl, true, false, none, some, [], ◌∷◌, arith, All, contains, length, ◌==◌,
}
use truckmaster.Base.Int.{pos, ◌-ℤ◌, ◌+ℤ◌}
use truckmaster.Store.Statuses.{
  is_one_of, invoice_status_enum, LoadStatus, CarrierStatus, CarrierPaymentStatus, InvoiceStatus,
}
use truckmaster.Store.Rows.{Invoice, CarrierPayment}
use truckmaster.Store.Transaction.{Store, ok, with_tenant_transaction}
use truckmaster.Store.Queries.{find_carrier_payment}
use truckmaster.Booking.Entitlement.{get_next_number}
use truckmaster.Billing.Charges.{sum_amounts}
use truckmaster.Billing.CarrierPay.{approve, compute_carrier_balance}
use truckmaster.Billing.Payouts.{approve-separates, remaining_carrier_balance-agrees}
use truckmaster.Billing.Invoices.Balance.{
  PaymentDto, record_payment, recalculate_invoice_balance, remaining_of, payments_total,
  adjustments_total, status_after, is_settled,
}
use truckmaster.Billing.Invoices.Ledger.{record_payment-remaining, payment_of}
use truckmaster.Billing.Doubles.{double_remaining, nearest}
use truckmaster.Billing.Invoices.Create.{
  create, void, find_loads, find_each, selected_loads, line_items_data, customer_charges,
  load_total, loads_of_invoice,
}
use truckmaster.Billing.Invoices.Exclusive.{
  CanBeBilled, IsInvoiceOf, create-exclusive, create-marks, void-releases,
}
use truckmaster.Closing.Checklist.{remaining_carrier_balance}
use truckmaster.Tests.{office, load_at, invoice_in, pending_payment}

abbrev delivered : Store
delivered = office LoadStatus.delivered CarrierStatus.active

abbrev payment : PaymentDto
payment = record { amount = 50_000; payment_date = 90; method = "ACH"; reference_number = none }

abbrev partly_paid : Invoice
partly_paid = record (invoice_in InvoiceStatus.sent) {
  remaining_balance = pos 150_000;
  status = InvoiceStatus.partially_paid;
}

recorded : (record_payment 1 60 payment 20 delivered).0 ≡ ok partly_paid
unfolding record_payment with_tenant_transaction recalculate_invoice_balance remaining_of
    payments_total adjustments_total status_after is_settled double_remaining nearest sum_amounts
    ◌-ℤ◌ ◌+ℤ◌
recorded = refl

balanced : pos 200_000 ≡ remaining_of 1 60 (pos 200_000) delivered.billing
unfolding remaining_of payments_total adjustments_total sum_amounts ◌-ℤ◌ ◌+ℤ◌
balanced = refl

positive : 0 < 50_000
positive = omega arith

record_payment-remaining_example :
    (pos 150_000 ≡ pos 200_000 -ℤ pos 50_000)
    × ((record_payment 1 60 payment 20 delivered).1.billing.payments
        ≡ payment_of 1 60 payment 20 ∷ delivered.billing.payments)
    × (is_one_of InvoiceStatus.sent (InvoiceStatus.sent ∷ InvoiceStatus.partially_paid ∷ []) ≡ true)
    × (is_one_of InvoiceStatus.partially_paid
          (InvoiceStatus.paid ∷ InvoiceStatus.partially_paid ∷ [])
        ≡ true)
record_payment-remaining_example =
    record_payment-remaining 1 60 payment 20 (invoice_in InvoiceStatus.sent) partly_paid delivered
      refl balanced positive recorded

abbrev new_invoice : Invoice
new_invoice = record {
  id = 100;
  organization_id = 1;
  invoice_number = 1;
  customer_id = 5;
  status = InvoiceStatus.draft;
  sent_at = none;
  due_date = none;
  total = pos 0;
  remaining_balance = pos 0;
  created_by_user_id = 20;
}

invoiced : (create 1 5 (7 ∷ []) false 20 delivered).0 ≡ ok new_invoice
unfolding create with_tenant_transaction selected_loads find_loads find_each get_next_number
    line_items_data customer_charges load_total sum_amounts
invoiced = refl

create-exclusive_example :
    ((length (find_loads 1 (7 ∷ []) delivered) == 1) ≡ true)
    × All (CanBeBilled 5) (find_loads 1 (7 ∷ []) delivered)
    × IsInvoiceOf 1 5
        (find_loads 1 (7 ∷ []) delivered)
        new_invoice
        delivered
        (create 1 5 (7 ∷ []) false 20 delivered).1
create-exclusive_example = create-exclusive 1 5 (7 ∷ []) false 20 new_invoice delivered invoiced

create-marks_example :
    (create 1 5 (7 ∷ []) false 20 delivered).1.loads 7
    ≡ some (record (load_at LoadStatus.delivered) { invoiced = true })
create-marks_example =
    create-marks 1 5 (7 ∷ []) false 20 7 (load_at LoadStatus.delivered) new_invoice delivered
      invoiced refl refl

voided : (void 1 60 20 delivered).0 ≡ ok (invoice_in InvoiceStatus.void)
unfolding void with_tenant_transaction loads_of_invoice
voided = refl

on_invoice : contains 7 (loads_of_invoice 1 60 delivered) ≡ true
unfolding loads_of_invoice
on_invoice = refl

void-releases_example :
    (void 1 60 20 delivered).1.loads 7
    ≡ some (record (load_at LoadStatus.delivered) { invoiced = false })
void-releases_example =
    void-releases 1 60 20 7 (load_at LoadStatus.delivered) (invoice_in InvoiceStatus.void) delivered
      voided refl on_invoice

abbrev approved : CarrierPayment
approved = record pending_payment {
  status = CarrierPaymentStatus.approved;
  approved_by_user_id = some 21;
  approved_at = some 100;
}

approval : (approve 100 1 80 21 delivered).0 ≡ ok approved
unfolding approve with_tenant_transaction
approval = refl

approve-separates_example :
    (q : CarrierPayment) × (find_carrier_payment 1 80 delivered ≡ some q)
    × (q.status ≡ CarrierPaymentStatus.pending_approval)
    × (q.prepared_by_user_id ≢ 21)
    × (approved ≡ record q {
      status = CarrierPaymentStatus.approved;
      approved_by_user_id = some 21;
      approved_at = some 100;
    })
approve-separates_example = approve-separates 100 1 80 21 approved delivered approval

remaining_carrier_balance-agrees_example :
    remaining_carrier_balance 1 (load_at LoadStatus.delivered) delivered
    ≡ (compute_carrier_balance 1 (load_at LoadStatus.delivered) delivered).remaining_carrier_balance
remaining_carrier_balance-agrees_example =
    remaining_carrier_balance-agrees 1 (load_at LoadStatus.delivered) delivered
