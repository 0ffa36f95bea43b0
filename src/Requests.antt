-- ===== src/Requests.antt =====
-- The requests that the controllers pass to the modelled services, and a run of several of them.
pub mod Frames
pub mod Steps
pub mod Evolution
pub mod BilledOnce
pub mod Balanced
use truckmaster.Base.{ℕ, String, Bool, Option, List, [], ◌∷◌}
use truckmaster.Store.Statuses.{RiskStatus}
use truckmaster.Store.Rows.{DispatchInfo}
use truckmaster.Store.Transaction.{Store, Action, pure, ◌>>=◌, ◌>>◌}
use truckmaster.Sourcing
use truckmaster.Sourcing.{AttemptDto}
use truckmaster.Sourcing.Assignment
use truckmaster.Sourcing.RateConfirmation
use truckmaster.Tracking.Dispatch
use truckmaster.Tracking.Dispatch.{DispatchUpdate}
use truckmaster.Tracking.Progress
use truckmaster.Tracking.Editing
use truckmaster.Tracking.Editing.{StopItem}
use truckmaster.Tracking.Returns
use truckmaster.Tracking.Returns.{ReturnStop}
use truckmaster.Tracking.Monitoring
use truckmaster.Tracking.Monitoring.{CheckCallDto}
use truckmaster.Booking.Creation
use truckmaster.Booking.Creation.{LoadDto}
use truckmaster.Booking.Quotes
use truckmaster.Booking.Quotes.{QuoteDto}
use truckmaster.Closing
use truckmaster.Closing.{ReferencesDto}
use truckmaster.Closing.Pod
use truckmaster.Billing.Charges
use truckmaster.Billing.Charges.{ChargeDto}
use truckmaster.Billing.Invoices.Create
use truckmaster.Billing.Invoices.Balance
use truckmaster.Billing.Invoices.Balance.{PaymentDto, AdjustmentDto}
use truckmaster.Billing.Invoices.Send
use truckmaster.Billing.CarrierPay
use truckmaster.Billing.CarrierPay.{CarrierPaymentDto}

-- The operations that write; `id` is the load, the quote, the invoice or the payment in question.
pub data Operation : Type 0 where
  create_quote : QuoteDto → Operation
  mark_quote_lost : (id : ℕ) → String → Operation
  convert_quote : (id confirmed_rate : ℕ) → Bool → Operation
  book_load : LoadDto → Operation
  begin_sourcing : (id : ℕ) → Operation
  log_sourcing_attempt : (id : ℕ) → AttemptDto → Operation
  assign_carrier : (id carrier_id rate : ℕ) → Operation
  reject_carrier : (id : ℕ) → String → Operation
  generate_rate_confirmation : (id : ℕ) → Bool → Operation
  dispatch : (id : ℕ) → DispatchInfo → Operation
  update_dispatch : (id : ℕ) → DispatchUpdate → Operation
  record_arrival record_departure : (id sequence : ℕ) → Option ℕ → Operation
  reschedule_stop : (id sequence appointment : ℕ) → Operation
  update_stops : (id : ℕ) → List StopItem → Operation
  initiate_return : (id : ℕ) → (pickup delivery : ReturnStop) → Operation
  log_check_call : (id : ℕ) → CheckCallDto → Operation
  set_risk_status : (id : ℕ) → RiskStatus → Option String → Operation
  assign_dispatcher : (id : ℕ) → Option ℕ → Operation
  recalculate_pod_status : (id : ℕ) → Operation
  update_reference_numbers : (id : ℕ) → ReferencesDto → Operation
  link_return_load : (id original : ℕ) → Operation
  close_load : (id : ℕ) → Operation
  cancel_load : (id : ℕ) → String → Operation
  add_charge : (id : ℕ) → ChargeDto → Operation
  create_invoice : (customer_id : ℕ) → List ℕ → Bool → Operation
  send_invoice : (id : ℕ) → String → Operation
  record_payment : (id : ℕ) → PaymentDto → Operation
  add_adjustment : (id : ℕ) → AdjustmentDto → Operation
  void_invoice : (id : ℕ) → Operation
  create_carrier_payment : (id : ℕ) → CarrierPaymentDto → Operation
  submit_payment approve_payment : (id : ℕ) → Operation
  reject_payment : (id : ℕ) → String → Operation
  mark_payment_paid : (id : ℕ) → Option ℕ → Operation

-- The time, the organization and the user come from the server's clock and the session.
pub record Request : Type 0 where
  pub now : ℕ
  pub organization_id : ℕ
  pub actor : ℕ
  pub operation : Operation

-- An action of which only the success and the writes count.
abbrev pub done : {A : Type 0} → Action A → Action (Unit {0})
done m = m >> pure tt

unfoldable pub perform : ℕ → ℕ → ℕ → Operation → Action (Unit {0})
perform now org actor (Operation.create_quote dto) = done (Quotes.create now org dto actor)
perform now org actor (Operation.mark_quote_lost id reason) =
    done (Quotes.mark_lost org id reason actor)
perform now org actor (Operation.convert_quote id rate override) =
    done (Quotes.convert now org id rate override actor)
perform now org actor (Operation.book_load dto) = done (Creation.create_direct now org dto actor)
perform now org actor (Operation.begin_sourcing id) = done (Sourcing.begin_sourcing org id actor)
perform now org actor (Operation.log_sourcing_attempt id dto) =
    done (Sourcing.log_sourcing_attempt now org id dto actor)
perform now org actor (Operation.assign_carrier id carrier_id rate) =
    done (Assignment.assign_carrier now org id carrier_id rate actor)
perform now org actor (Operation.reject_carrier id reason) =
    done (Assignment.carrier_rejected org id reason actor)
perform now org actor (Operation.generate_rate_confirmation id send) =
    done (RateConfirmation.generate_rate_confirmation now org id send actor)
perform now org actor (Operation.dispatch id dto) = done (Dispatch.dispatch now org id dto actor)
perform now org actor (Operation.update_dispatch id dto) =
    done (Dispatch.update_dispatch org id dto actor)
perform now org actor (Operation.record_arrival id sequence given) =
    done (Progress.record_arrival now org id sequence given actor)
perform now org actor (Operation.record_departure id sequence given) =
    done (Progress.record_departure now org id sequence given actor)
perform now org actor (Operation.reschedule_stop id sequence appointment) =
    done (Progress.reschedule_stop org id sequence appointment actor)
perform now org actor (Operation.update_stops id items) =
    done (Editing.update_stops org id items actor)
perform now org actor (Operation.initiate_return id pickup delivery) =
    done (Returns.initiate_return org id pickup delivery actor)
perform now org actor (Operation.log_check_call id dto) =
    done (Monitoring.log_check_call now org id dto actor)
perform now org actor (Operation.set_risk_status id risk reason) =
    done (Monitoring.set_risk_status org id risk reason actor)
perform now org actor (Operation.assign_dispatcher id user) =
    done (Monitoring.assign_dispatcher org id user actor)
perform now org actor (Operation.recalculate_pod_status id) =
    done (Pod.recalculate_pod_status org id)
perform now org actor (Operation.update_reference_numbers id dto) =
    done (Closing.update_reference_numbers org id dto actor)
perform now org actor (Operation.link_return_load id original) =
    done (Closing.link_return_load org id original actor)
perform now org actor (Operation.close_load id) = done (Closing.close_load now org id actor)
perform now org actor (Operation.cancel_load id reason) =
    done (Closing.cancel_load now org id reason actor)
perform now org actor (Operation.add_charge id dto) = done (Charges.add_charge org id dto actor)
perform now org actor (Operation.create_invoice customer_id ids acknowledged) =
    done (Create.create org customer_id ids acknowledged actor)
perform now org actor (Operation.send_invoice id recipient) =
    done (Send.send now org id recipient actor)
perform now org actor (Operation.record_payment id dto) =
    done (Balance.record_payment org id dto actor)
perform now org actor (Operation.add_adjustment id dto) =
    done (Balance.add_adjustment now org id dto actor)
perform now org actor (Operation.void_invoice id) = done (Create.void org id actor)
perform now org actor (Operation.create_carrier_payment id dto) =
    done (CarrierPay.create org id dto actor)
perform now org actor (Operation.submit_payment id) = done (CarrierPay.submit now org id actor)
perform now org actor (Operation.approve_payment id) = done (CarrierPay.approve now org id actor)
perform now org actor (Operation.reject_payment id reason) =
    done (CarrierPay.reject now org id reason actor)
perform now org actor (Operation.mark_payment_paid id date) =
    done (CarrierPay.mark_paid now org id date actor)

-- The store after some requests, one after the other, those that fail included.
unfoldable pub run : List Request → Store → Store
run [] s = s
run (r ∷ rs) s = run rs (perform r.now r.organization_id r.actor r.operation s).1
