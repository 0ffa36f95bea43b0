-- ===== src/Requests/Frames.antt =====
-- The operations on quotes, charges and carrier payments, and the rows of loads and invoices.
use truckmaster.Base.{ℕ, String, Option, arith, map, Option-cases, inl, inr}
use truckmaster.Lifecycle.Diagram.{Quiet}
use truckmaster.Billing.Charges.{ChargeDto, add_charge}
use truckmaster.Store.Transaction.{Store, with_tenant_transaction}
use truckmaster.Booking.Entitlement.{assert_can_create_operational_record, get_next_number}
use truckmaster.Booking.RateAgreements.{Lane}
use truckmaster.Booking.Creation.{required_lane}
use truckmaster.Booking.Quotes
use truckmaster.Booking.Quotes.{QuoteDto, create_on_lane, stop_input}
use truckmaster.Billing.CarrierPay
use truckmaster.Billing.CarrierPay.{CarrierPaymentDto}

create_on_lane-Quiet :
    (now org : ℕ) (dto : QuoteDto) (actor : ℕ) (lane : Lane) (s : Store)
    → Quiet s (create_on_lane now org dto actor lane s).1
unfolding create_on_lane with_tenant_transaction get_next_number
    assert_can_create_operational_record
create_on_lane-Quiet now org dto actor lane s = ground arith

pub create_quote-Quiet :
    (now org : ℕ) (dto : QuoteDto) (actor : ℕ) (s : Store)
    → Quiet s (Quotes.create now org dto actor s).1
unfolding Quotes.create
create_quote-Quiet now org dto actor s =
    elim (Option-cases (required_lane (map stop_input dto.stops))) [
      | inl missing ↦ ground arith
      | inr (lane, e) ↦ ground (arith, create_on_lane-Quiet now org dto actor lane s)
    ]

pub mark_lost-Quiet :
    (org id : ℕ) (reason : String) (actor : ℕ) (s : Store)
    → Quiet s (Quotes.mark_lost org id reason actor s).1
unfolding Quotes.mark_lost with_tenant_transaction
mark_lost-Quiet org id reason actor s = ground arith

pub create_payment-Quiet :
    (org id : ℕ) (dto : CarrierPaymentDto) (actor : ℕ) (s : Store)
    → Quiet s (CarrierPay.create org id dto actor s).1
unfolding CarrierPay.create with_tenant_transaction
create_payment-Quiet org id dto actor s = ground arith

pub submit-Quiet :
    (now org id actor : ℕ) (s : Store) → Quiet s (CarrierPay.submit now org id actor s).1
unfolding CarrierPay.submit with_tenant_transaction
submit-Quiet now org id actor s = ground arith

pub approve-Quiet :
    (now org id actor : ℕ) (s : Store) → Quiet s (CarrierPay.approve now org id actor s).1
unfolding CarrierPay.approve with_tenant_transaction
approve-Quiet now org id actor s = ground arith

pub reject-Quiet :
    (now org id : ℕ) (reason : String) (actor : ℕ) (s : Store)
    → Quiet s (CarrierPay.reject now org id reason actor s).1
unfolding CarrierPay.reject with_tenant_transaction
reject-Quiet now org id reason actor s = ground arith

pub mark_paid-Quiet :
    (now org id : ℕ) (date : Option ℕ) (actor : ℕ) (s : Store)
    → Quiet s (CarrierPay.mark_paid now org id date actor s).1
unfolding CarrierPay.mark_paid CarrierPay.settle with_tenant_transaction
mark_paid-Quiet now org id date actor s = ground arith

pub add_charge-Quiet :
    (org load_id : ℕ) (dto : ChargeDto) (actor : ℕ) (s : Store)
    → Quiet s (add_charge org load_id dto actor s).1
unfolding add_charge with_tenant_transaction
add_charge-Quiet org load_id dto actor s = ground arith
