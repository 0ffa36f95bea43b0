-- ===== src/Billing/Payouts.antt =====
-- The approval of carrier payments, and the balance of a carrier by carrier-payment.service.ts and by
-- the closing checklist of load.service.ts.
use truckmaster.Base.{
  ℕ, ◌≡◌, ◌≢◌, refl, ◌&&◌, none, some, List, [], ◌∷◌, arith, filter, ◌==◌, Option-cases, inl, inr,
}
use truckmaster.Store.Statuses.{
  CarrierPaymentStatus, ◌is◌, carrier_payment_status_enum, charge_side_enum, charge_source_enum,
  load_status_enum,
}
use truckmaster.Store.Rows.{Load, CarrierPayment}
use truckmaster.Store.Transaction.{Store, ok, with_tenant_transaction}
use truckmaster.Store.Queries.{find_carrier_payment}
use truckmaster.Billing.CarrierPay.{approve, compute_carrier_balance}
use truckmaster.Closing.Checklist.{payments_of_load, remaining_carrier_balance, total_paid}

ok_of_none :
    (now org id actor : ℕ) (p : CarrierPayment) (s : Store)
    → find_carrier_payment org id s ≡ none
    → (approve now org id actor s).0 ≡ ok p
    → ⊥
unfolding approve with_tenant_transaction
ok_of_none now org id actor p s missing h = ground arith

-- A payment that is approved was awaiting approval, and the user who approves it is not the one who
-- prepared it; its amount, load, carrier and preparer stay as they were.
pub approve-separates :
    (now org id actor : ℕ) (p : CarrierPayment) (s : Store)
    → (approve now org id actor s).0 ≡ ok p
    → (q : CarrierPayment) × (find_carrier_payment org id s ≡ some q)
      × (q.status ≡ CarrierPaymentStatus.pending_approval)
      × (q.prepared_by_user_id ≢ actor)
      × (p ≡ record q {
        status = CarrierPaymentStatus.approved;
        approved_by_user_id = some actor;
        approved_at = some now;
      })
unfolding approve with_tenant_transaction
approve-separates now org id actor p s h = elim (Option-cases (find_carrier_payment org id s)) [
  | inl missing ↦ elim (ok_of_none now org id actor p s missing h) [ ]
  | inr (q, found) ↦ (q, found, ground arith, ground arith, ground arith)
]

filter_paid :
    (org id : ℕ) (ps : List CarrierPayment)
    → filter
        (λ (p : CarrierPayment). p.status is CarrierPaymentStatus.paid)
        (payments_of_load org id ps)
      ≡ filter
          (λ (p : CarrierPayment).
            p.organization_id == org && p.load_id == id && p.status is CarrierPaymentStatus.paid)
          ps
filter_paid org id [] = refl
filter_paid org id (p ∷ ps) = ground (arith, filter_paid org id ps)

-- The balance of the closing checklist is the one that the carrier payments are checked against.
pub remaining_carrier_balance-agrees :
    (org : ℕ) (load : Load) (s : Store)
    → remaining_carrier_balance org load s
      ≡ (compute_carrier_balance org load s).remaining_carrier_balance
unfolding remaining_carrier_balance compute_carrier_balance total_paid
remaining_carrier_balance-agrees org load s =
    ground (arith, filter_paid org load.id s.carrier_payments)
