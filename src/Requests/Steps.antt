-- ===== src/Requests/Steps.antt =====
-- The step that each request of Requests.antt is, by the lemmas on its operation.
use truckmaster.Base.{ℕ, ◌≡◌, arith, inl, inr, ◌⊎◌}
use truckmaster.Lifecycle.Diagram.{Evolves, Quiet, Quiet-Evolves}
use truckmaster.Lifecycle.Sourcing.{
  begin_sourcing-Evolves, log_sourcing_attempt-Evolves, assign_carrier-Evolves,
  carrier_rejected-Evolves, generate_rate_confirmation-Evolves,
}
use truckmaster.Lifecycle.Dispatching.{dispatch-Evolves, update_dispatch-Evolves}
use truckmaster.Lifecycle.Stops.{
  record_arrival-Evolves, record_departure-Evolves, initiate_return-Evolves, update_stops-Evolves,
}
use truckmaster.Lifecycle.Monitoring.{
  log_check_call-Evolves, set_risk_status-Evolves, assign_dispatcher-Evolves,
  reschedule_stop-Evolves,
}
use truckmaster.Lifecycle.Closing.{
  update_reference_numbers-Evolves, link_return_load-Evolves, close_load-Evolves,
  cancel_load-Evolves, recalculate_pod_status-Evolves,
}
use truckmaster.Lifecycle.Booking.{create_direct-Evolves, convert-Evolves}
use truckmaster.Lifecycle.Invoicing.{
  Invoices, Settles, create-Invoices, void-Invoices, send-Settles, record_payment-Settles,
  add_adjustment-Settles,
}
use truckmaster.Billing.Invoices.Balanced.{IsBalanced}
use truckmaster.Billing.Invoices.Balancing.{
  create-IsBalanced, void-IsBalanced, send-IsBalanced, record_payment-IsBalanced,
  add_adjustment-IsBalanced,
}
use truckmaster.Requests.{Operation, done, perform}
use truckmaster.Requests.Frames.{
  create_quote-Quiet, mark_lost-Quiet, add_charge-Quiet, create_payment-Quiet, submit-Quiet,
  approve-Quiet, reject-Quiet, mark_paid-Quiet,
}
use truckmaster.Sourcing
use truckmaster.Sourcing.Assignment
use truckmaster.Sourcing.RateConfirmation
use truckmaster.Tracking.Dispatch
use truckmaster.Tracking.Progress
use truckmaster.Tracking.Editing
use truckmaster.Tracking.Returns
use truckmaster.Tracking.Monitoring
use truckmaster.Booking.Creation
use truckmaster.Booking.Quotes
use truckmaster.Closing
use truckmaster.Closing.Pod
use truckmaster.Billing.Charges
use truckmaster.Billing.Invoices.Create
use truckmaster.Billing.Invoices.Balance
use truckmaster.Billing.Invoices.Send
use truckmaster.Billing.CarrierPay
use truckmaster.Store.Statuses.{load_status_enum}
use truckmaster.Store.Transaction.{Store, Action, Result-cases}

done-store : {A : Type 0} (m : Action A) (s : Store) → (done m s).1 ≡ (m s).1
done-store m s = elim (Result-cases (m s).0) [
  | inl (e, h) ↦ ground arith
  | inr (a, h) ↦ ground arith
]

-- A request changes loads and leaves the invoices alone, or it changes invoices, in balance, and no
-- more of a load than its invoiced flag.
abbrev pub Balances : Store → Store → Type 0
Balances s t = (j : ℕ) → IsBalanced s j → IsBalanced t j

abbrev pub Step : Store → Store → Type 0
Step s t = Evolves s t ⊎ (Invoices s t × Balances s t)

evolves : {A : Type 0} (m : Action A) (s : Store) → Evolves s (m s).1 → Step s (done m s).1
evolves m s h = inl (rw (done-store m s) h)

keeps : {A : Type 0} (m : Action A) (s : Store) → Quiet s (m s).1 → Step s (done m s).1
keeps m s h = evolves m s (Quiet-Evolves s (m s).1 h)

bills :
    {A : Type 0} (m : Action A) (s : Store)
    → Invoices s (m s).1
    → Balances s (m s).1
    → Step s (done m s).1
bills m s h k = inr (rw (done-store m s) (h, k))

settles :
    {A : Type 0} (m : Action A) (s : Store)
    → Settles s (m s).1
    → Balances s (m s).1
    → Step s (done m s).1
settles m s h k = bills m s (Invoices.settles h) k

pub perform-Step :
    (now org actor : ℕ) (op : Operation) (s : Store) → Step s (perform now org actor op s).1
unfolding perform
perform-Step now org actor (Operation.create_quote dto) s =
    keeps (Quotes.create now org dto actor) s (create_quote-Quiet now org dto actor s)
perform-Step now org actor (Operation.mark_quote_lost id r) s =
    keeps (Quotes.mark_lost org id r actor) s (mark_lost-Quiet org id r actor s)
perform-Step now org actor (Operation.convert_quote id rate o) s =
    evolves (Quotes.convert now org id rate o actor) s (convert-Evolves now org id rate o actor s)
perform-Step now org actor (Operation.book_load dto) s =
    evolves (Creation.create_direct now org dto actor) s (create_direct-Evolves now org dto actor s)
perform-Step now org actor (Operation.begin_sourcing id) s =
    evolves (Sourcing.begin_sourcing org id actor) s (begin_sourcing-Evolves org id actor s)
perform-Step now org actor (Operation.log_sourcing_attempt id dto) s =
    evolves (Sourcing.log_sourcing_attempt now org id dto actor) s
      (log_sourcing_attempt-Evolves now org id dto actor s)
perform-Step now org actor (Operation.assign_carrier id c rate) s =
    evolves (Assignment.assign_carrier now org id c rate actor) s
      (assign_carrier-Evolves now org id c rate actor s)
perform-Step now org actor (Operation.reject_carrier id r) s =
    evolves (Assignment.carrier_rejected org id r actor) s
      (carrier_rejected-Evolves org id r actor s)
perform-Step now org actor (Operation.generate_rate_confirmation id b) s =
    evolves (RateConfirmation.generate_rate_confirmation now org id b actor) s
      (generate_rate_confirmation-Evolves now org id b actor s)
perform-Step now org actor (Operation.dispatch id dto) s =
    evolves (Dispatch.dispatch now org id dto actor) s (dispatch-Evolves now org id dto actor s)
perform-Step now org actor (Operation.update_dispatch id dto) s =
    evolves (Dispatch.update_dispatch org id dto actor) s
      (update_dispatch-Evolves org id dto actor s)
perform-Step now org actor (Operation.record_arrival id n g) s =
    evolves (Progress.record_arrival now org id n g actor) s
      (record_arrival-Evolves now org id n g actor s)
perform-Step now org actor (Operation.record_departure id n g) s =
    evolves (Progress.record_departure now org id n g actor) s
      (record_departure-Evolves now org id n g actor s)
perform-Step now org actor (Operation.reschedule_stop id n a) s =
    evolves (Progress.reschedule_stop org id n a actor) s
      (reschedule_stop-Evolves org id n a actor s)
perform-Step now org actor (Operation.update_stops id items) s =
    evolves (Editing.update_stops org id items actor) s (update_stops-Evolves org id items actor s)
perform-Step now org actor (Operation.initiate_return id p d) s =
    evolves (Returns.initiate_return org id p d actor) s
      (initiate_return-Evolves org id p d actor s)
perform-Step now org actor (Operation.log_check_call id dto) s =
    evolves (Monitoring.log_check_call now org id dto actor) s
      (log_check_call-Evolves now org id dto actor s)
perform-Step now org actor (Operation.set_risk_status id k r) s =
    evolves (Monitoring.set_risk_status org id k r actor) s
      (set_risk_status-Evolves org id k r actor s)
perform-Step now org actor (Operation.assign_dispatcher id u) s =
    evolves (Monitoring.assign_dispatcher org id u actor) s
      (assign_dispatcher-Evolves org id u actor s)
perform-Step now org actor (Operation.recalculate_pod_status id) s =
    evolves (Pod.recalculate_pod_status org id) s (recalculate_pod_status-Evolves org id s)
perform-Step now org actor (Operation.update_reference_numbers id dto) s =
    evolves (Closing.update_reference_numbers org id dto actor) s
      (update_reference_numbers-Evolves org id dto actor s)
perform-Step now org actor (Operation.link_return_load id o) s =
    evolves (Closing.link_return_load org id o actor) s (link_return_load-Evolves org id o actor s)
perform-Step now org actor (Operation.close_load id) s =
    evolves (Closing.close_load now org id actor) s (close_load-Evolves now org id actor s)
perform-Step now org actor (Operation.cancel_load id r) s =
    evolves (Closing.cancel_load now org id r actor) s (cancel_load-Evolves now org id r actor s)
perform-Step now org actor (Operation.add_charge id dto) s =
    keeps (Charges.add_charge org id dto actor) s (add_charge-Quiet org id dto actor s)
perform-Step now org actor (Operation.create_invoice c ids b) s =
    bills (Create.create org c ids b actor) s (create-Invoices org c ids b actor s)
      (λ j. create-IsBalanced org c ids b actor j s)
perform-Step now org actor (Operation.send_invoice id r) s =
    settles (Send.send now org id r actor) s (send-Settles now org id r actor s)
      (λ j. send-IsBalanced now org id r actor j s)
perform-Step now org actor (Operation.record_payment id dto) s =
    settles (Balance.record_payment org id dto actor) s (record_payment-Settles org id dto actor s)
      (λ j. record_payment-IsBalanced org id dto actor j s)
perform-Step now org actor (Operation.add_adjustment id dto) s =
    settles (Balance.add_adjustment now org id dto actor) s
      (add_adjustment-Settles now org id dto actor s)
      (λ j. add_adjustment-IsBalanced now org id dto actor j s)
perform-Step now org actor (Operation.void_invoice id) s =
    bills (Create.void org id actor) s (void-Invoices org id actor s)
      (λ j. void-IsBalanced org id actor j s)
perform-Step now org actor (Operation.create_carrier_payment id dto) s =
    keeps (CarrierPay.create org id dto actor) s (create_payment-Quiet org id dto actor s)
perform-Step now org actor (Operation.submit_payment id) s =
    keeps (CarrierPay.submit now org id actor) s (submit-Quiet now org id actor s)
perform-Step now org actor (Operation.approve_payment id) s =
    keeps (CarrierPay.approve now org id actor) s (approve-Quiet now org id actor s)
perform-Step now org actor (Operation.reject_payment id r) s =
    keeps (CarrierPay.reject now org id r actor) s (reject-Quiet now org id r actor s)
perform-Step now org actor (Operation.mark_payment_paid id d) s =
    keeps (CarrierPay.mark_paid now org id d actor) s (mark_paid-Quiet now org id d actor s)
