-- ===== src/Closing/Checklist.antt =====
-- `evaluateClosingChecklist` and `getClosingChecklist` of load.service.ts.
use truckmaster.Base.{
  ℕ, ◌+◌, String, Bool, true, false, ◌&&◌, Option, none, some, List, [], ◌∷◌, ◌==◌, filter, any,
  is_some, if◌then◌else◌,
}
use truckmaster.Base.Int.{ℤ, pos, ◌-ℤ◌, ltb_ℤ}
use truckmaster.Store.Statuses.{
  PodStatus, ChargeSide, ChargeSource, CarrierPaymentStatus, DocumentCode, EntityType, ◌is◌,
  pod_status_enum, charge_side_enum, charge_source_enum, carrier_payment_status_enum,
}
use truckmaster.Store.Rows.{Load, CarrierPayment, ChargeLineItem, InvoiceLoad}
use truckmaster.Store.Transaction.{Store, Action, gets, with_tenant_transaction, ◌>>=◌}
use truckmaster.Store.Queries.{require, find_load, find_document}
use truckmaster.Billing.Charges.{sum_amounts}

pub data ItemStatus : Type 0 where
  clean warning : ItemStatus

pub record ChecklistItem : Type 0 where
  pub item : String
  pub status : ItemStatus
  pub detail : String
  pub remaining_carrier_balance : Option ℤ

abbrev clean_if : Bool → ItemStatus
clean_if true = ItemStatus.clean
clean_if false = ItemStatus.warning

abbrev pub pod_detail : PodStatus → String
pod_detail PodStatus.complete = "Complete"
pod_detail PodStatus.partial = "Partial"
pod_detail PodStatus.not_received = "Not Received"

abbrev pub has_invoice_load : ℕ → ℕ → List InvoiceLoad → Bool
has_invoice_load org load_id =
    any (λ (r : InvoiceLoad). r.organization_id == org && r.load_id == load_id)

abbrev pub payments_of_load : ℕ → ℕ → List CarrierPayment → List CarrierPayment
payments_of_load org load_id =
    filter (λ (p : CarrierPayment). p.organization_id == org && p.load_id == load_id)

unfoldable pub total_paid : List CarrierPayment → ℕ
total_paid payments =
    sum_amounts (λ (p : CarrierPayment). p.amount)
      (filter (λ (p : CarrierPayment). p.status is CarrierPaymentStatus.paid) payments)

unfoldable pub remaining_carrier_balance : ℕ → Load → Store → Option ℤ
remaining_carrier_balance org load s =
    let accessorials =
      sum_amounts (λ (c : ChargeLineItem). c.amount)
        (filter
          (λ (c : ChargeLineItem).
            c.organization_id == org
            && c.load_id == load.id
            && c.side is ChargeSide.carrier
            && c.source is ChargeSource.adjustment)
          s.charges) in
    elim load.carrier_rate [
      | none ↦ none
      | some rate ↦ some (
          pos (rate + accessorials)
          -ℤ pos (total_paid (payments_of_load org load.id s.carrier_payments)))
    ]

-- The balance is shown when there is a payment and something is left to pay.
abbrev shown_balance : Bool → Option ℤ → Option ℤ
shown_balance true (some b) = if ltb_ℤ (pos 0) b then some b else none
shown_balance true none = none
shown_balance false b = none

unfoldable pub evaluate_closing_checklist : ℕ → Load → Store → List ChecklistItem
evaluate_closing_checklist org load s =
    let on_file =
      is_some (find_document org EntityType.load load.id DocumentCode.rate_confirmation s) in
    let pod_clean = load.pod_status is PodStatus.complete in
    let invoiced = has_invoice_load org load.id s.billing.invoice_loads in
    let paid =
      any (λ (p : CarrierPayment). true) (payments_of_load org load.id s.carrier_payments) in
    record {
      item = "Rate Confirmation";
      status = clean_if on_file;
      detail = if on_file then "On file" else "Missing";
      remaining_carrier_balance = none;
    }
    ∷ record {
      item = "POD";
      status = clean_if pod_clean;
      detail = pod_detail load.pod_status;
      remaining_carrier_balance = none;
    }
    ∷ record {
      item = "Customer Invoice";
      status = clean_if invoiced;
      detail = if invoiced then "Exists" else "Missing";
      remaining_carrier_balance = none;
    }
    ∷ record {
      item = "Carrier Pay";
      status = clean_if paid;
      detail = if paid then "Payment recorded" else "No payment recorded";
      remaining_carrier_balance = shown_balance paid (remaining_carrier_balance org load s);
    }
    ∷ []

unfoldable pub get_closing_checklist : ℕ → ℕ → Action (List ChecklistItem)
get_closing_checklist org load_id =
    with_tenant_transaction
      do load ← require (find_load org load_id); gets (evaluate_closing_checklist org load)
