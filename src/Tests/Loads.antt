-- ===== src/Tests/Loads.antt =====
-- Examples of the theorems about loads, stops and carriers.
use truckmaster.Base.{
  ℕ, ◌≤◌, ◌<◌, ◌≡◌, refl, ◌↔◌, true, false, none, some, List, [], ◌∷◌, ◌++◌, arith, All, all, any,
  not, ◌||◌, filter, sort_by, trim, is_some, if◌then◌else◌,
}
use truckmaster.Requests.{Operation, Request, perform, run}
use truckmaster.Requests.Evolution.{
  perform-Follows, RowFollows, run-IsClosed, run_staffed, IsClosed, StaffedRow,
}
use truckmaster.Sourcing.{begin_sourcing}
use truckmaster.Sourcing.Assignment.{assign_carrier}
use truckmaster.Sourcing.Blocked.{assign_carrier-blocked}
use truckmaster.Carrier.Decision.{
  IsCompliant, eligibility_reasons-IsCompliant, recalculate-persists,
}
use truckmaster.Carrier.Eligibility.{
  recalculate, eligibility_reasons, compute_compliance_reasons, compliance_document,
  has_valid_insurance, latest_fmcsa, is_acceptable_fmcsa_result, is_empty,
}
use truckmaster.Closing.{cancel_load, close_load, cancellable_statuses}
use truckmaster.Closing.Pod.{recalculate_pod_status}
use truckmaster.Closing.Deliveries.{recalculate_pod_status-complete, is_standard_delivery, has_pod}
use truckmaster.Closing.Cancellation.{
  IsPreserved, cancel_load-IsPreserved, cancel_load-result, close_load-cancelled,
}
use truckmaster.Tracking.{progress_of, re_evaluate_load_status}
use truckmaster.Tracking.Derivation.{StopProgress, derive_load_status}
use truckmaster.Tracking.Derivation.Order.{progress, Advances}
use truckmaster.Tracking.Derivation.Monotone.{
  derive_load_status_monotone, derive_load_status-returns, rank, stage,
}
use truckmaster.Tracking.Dispatch.{dispatch, dispatch_gate, validate_source_resources}
use truckmaster.Tracking.Gate.{dispatch-requires}
use truckmaster.Tracking.Order.{IsLeft, record_departure-IsLeft}
use truckmaster.Tracking.Progress.{Tracked, record_departure, depart, trackable_stop}
use truckmaster.Tracking.Returns.{next_sequence}
use truckmaster.Tracking.Sequence.{next_sequence-above}
use truckmaster.Store.Statuses.{
  LoadStatus, StopType, StopPurpose, StopStatus, CarrierStatus, DocumentCode, EntityType, PodStatus,
  is_one_of, load_status_enum,
}
use truckmaster.Store.Rows.{Load, Stop, Carrier, DispatchInfo, Document}
use truckmaster.Store.Transaction.{
  Store, ok, err, eligibility, invalid_transition, with_tenant_transaction,
}
use truckmaster.Store.Queries.{find_load, find_carrier, find_document, is_stop_of}
use truckmaster.Tests.{office, load_at, carrier_in, arrived_stop, document_for}

abbrev sourcing : Store
sourcing = office LoadStatus.carrier_sourcing CarrierStatus.active

abbrev confirmed : Store
confirmed = office LoadStatus.rate_confirmation CarrierStatus.active

abbrev closed : Store
closed = office LoadStatus.closed CarrierStatus.active

abbrev to_source : Operation
to_source = Operation.begin_sourcing 7

perform-Follows_example :
    RowFollows (sourcing.loads 7) ((perform 5 1 20 to_source sourcing).1.loads 7)
perform-Follows_example = perform-Follows 5 1 20 to_source sourcing 7

abbrev requests : List Request
requests = record { now = 5; organization_id = 1; actor = 20; operation = to_source } ∷ []

run-IsClosed_example : IsClosed (load_at LoadStatus.closed) ((run requests closed).loads 7)
run-IsClosed_example =
    run-IsClosed requests closed 7 (load_at LoadStatus.closed) (record {
      load = load_at LoadStatus.closed;
      found = refl;
      closed = refl;
      same_booking = refl;
    })

staffed_rows : (i : ℕ) → StaffedRow (sourcing.loads i)
staffed_rows i = ground arith

run_staffed_example : StaffedRow ((run requests sourcing).loads 7)
run_staffed_example = run_staffed requests sourcing staffed_rows 7

refused : (perform 5 1 20 to_source sourcing).0 ≡ err invalid_transition
unfolding perform begin_sourcing with_tenant_transaction
refused = refl

abbrev stop_at : StopType → StopPurpose → StopStatus → ℕ → StopProgress
stop_at type purpose status sequence = record {
  stop_type = type;
  stop_purpose = purpose;
  status = status;
  sequence = sequence;
}

abbrev pickup_arrived : List StopProgress
pickup_arrived =
    stop_at StopType.pickup StopPurpose.standard StopStatus.arrived 1
    ∷ stop_at StopType.delivery StopPurpose.standard StopStatus.pending 2
    ∷ []

abbrev pickup_left : List StopProgress
pickup_left =
    stop_at StopType.pickup StopPurpose.standard StopStatus.completed 1
    ∷ stop_at StopType.delivery StopPurpose.standard StopStatus.pending 2
    ∷ []

abbrev return_stops : List StopProgress
return_stops = stop_at StopType.pickup StopPurpose.return StopStatus.pending 3 ∷ []

advanced : Advances pickup_arrived pickup_left
advanced = ground arith

reached : stage LoadStatus.dispatched ≤ rank (progress pickup_arrived)
unfolding progress
reached = ground arith

derive_load_status_monotone_example :
    let next = derive_load_status LoadStatus.dispatched pickup_arrived in
    let last = derive_load_status next pickup_left in
    (stage next ≡ rank (progress pickup_arrived))
    × (stage last ≡ rank (progress pickup_left))
    × (stage LoadStatus.dispatched ≤ stage next)
    × (stage next ≤ stage last)
derive_load_status_monotone_example =
    derive_load_status_monotone LoadStatus.dispatched pickup_arrived pickup_left refl reached
      advanced

derive_load_status-returns_example :
    derive_load_status LoadStatus.dispatched (pickup_arrived ++ return_stops)
    ≡ derive_load_status LoadStatus.dispatched pickup_arrived
derive_load_status-returns_example =
    derive_load_status-returns LoadStatus.dispatched pickup_arrived return_stops (refl, tt)

no_reason : eligibility_reasons 100 1 3 (carrier_in CarrierStatus.active) confirmed ≡ []
unfolding eligibility_reasons compute_compliance_reasons compliance_document has_valid_insurance
    latest_fmcsa is_acceptable_fmcsa_result sort_by trim
no_reason = refl

eligibility_reasons-IsCompliant_example :
    IsCompliant 100 1 3 (carrier_in CarrierStatus.active) confirmed
eligibility_reasons-IsCompliant_example =
    eligibility_reasons-IsCompliant 100 1 3 (carrier_in CarrierStatus.active) confirmed no_reason

recalculate-persists_example :
    ((recalculate 100 1 3 confirmed).0
      ≡ ok (record {
        eligible =
            is_empty (eligibility_reasons 100 1 3 (carrier_in CarrierStatus.active) confirmed);
        reasons = eligibility_reasons 100 1 3 (carrier_in CarrierStatus.active) confirmed;
      }))
    × ((recalculate 100 1 3 confirmed).1.carriers 3
        ≡ some (record (carrier_in CarrierStatus.active) {
          assignment_eligible =
              is_empty (eligibility_reasons 100 1 3 (carrier_in CarrierStatus.active) confirmed);
          ineligibility_reasons =
              eligibility_reasons 100 1 3 (carrier_in CarrierStatus.active) confirmed;
        }))
recalculate-persists_example =
    recalculate-persists 100 1 3 (carrier_in CarrierStatus.active) confirmed refl

abbrev truck_and_driver : DispatchInfo
truck_and_driver = record {
  driver_name = "Ann";
  driver_phone = "555";
  truck_number = "1";
  trailer_number = "2";
  source_driver_id = none;
  source_truck_id = none;
  source_trailer_id = none;
}

dispatched : (dispatch 100 1 7 truck_and_driver 20 confirmed).0 ≡ ok (load_at LoadStatus.dispatched)
unfolding dispatch dispatch_gate with_tenant_transaction recalculate eligibility_reasons
    compute_compliance_reasons compliance_document has_valid_insurance latest_fmcsa
    is_acceptable_fmcsa_result validate_source_resources sort_by trim
dispatched = refl

dispatch-requires_example :
    (load : Load) × (find_load 1 7 confirmed ≡ some load)
    × (load.status ≡ LoadStatus.rate_confirmation)
    × (is_some load.carrier_rate ≡ true)
    × (is_some (find_document 1 EntityType.load 7 DocumentCode.rate_confirmation confirmed) ≡ true)
    × ((id : ℕ) × (carrier : Carrier) × (load.assigned_carrier_id ≡ some id)
        × (find_carrier 1 id confirmed ≡ some carrier)
        × (is_empty (eligibility_reasons 100 1 id carrier confirmed) ≡ true))
dispatch-requires_example =
    dispatch-requires 100 1 7 truck_and_driver 20 (load_at LoadStatus.dispatched) confirmed
      dispatched

abbrev blocked : Store
blocked = office LoadStatus.carrier_sourcing CarrierStatus.blocked

has_reasons :
    is_empty (eligibility_reasons 100 1 3 (carrier_in CarrierStatus.blocked) blocked) ≡ false
unfolding eligibility_reasons
has_reasons = refl

assign_carrier-blocked_example : assign_carrier 100 1 7 3 150_000 20 blocked ≡ (
  err (eligibility (eligibility_reasons 100 1 3 (carrier_in CarrierStatus.blocked) blocked)),
  blocked,
)
assign_carrier-blocked_example =
    assign_carrier-blocked 100 1 7 3 150_000 20 (load_at LoadStatus.carrier_sourcing)
      (carrier_in CarrierStatus.blocked) blocked refl refl refl has_reasons

cancel_load-IsPreserved_example : IsPreserved sourcing (cancel_load 100 1 7 "late" 20 sourcing).1
cancel_load-IsPreserved_example = cancel_load-IsPreserved 100 1 7 "late" 20 sourcing

cancel_load-result_example : (cancel_load 100 1 7 "late" 20 sourcing).0 ≡ (
    if is_one_of LoadStatus.carrier_sourcing cancellable_statuses
    then ok (record (load_at LoadStatus.carrier_sourcing) {
      status = LoadStatus.cancelled;
      cancelled_at = some 100;
      cancelled_by_user_id = some 20;
    })
    else err invalid_transition)
cancel_load-result_example =
    cancel_load-result 100 1 7 "late" 20 (load_at LoadStatus.carrier_sourcing) sourcing refl

abbrev cancelled : Store
cancelled = office LoadStatus.cancelled CarrierStatus.active

close_load-cancelled_example :
    (close_load 100 1 7 20 cancelled).1.loads 7
    ≡ some (record (load_at LoadStatus.cancelled) {
      status = LoadStatus.closed;
      closed_at = some 100;
      closed_by_user_id = some 20;
    })
close_load-cancelled_example =
    close_load-cancelled 100 1 7 20 (load_at LoadStatus.cancelled) cancelled refl refl

next_sequence-above_example :
    All
      (λ (y : Stop). y.sequence < next_sequence 1 7 confirmed)
      (filter (is_stop_of 1 7) confirmed.stops)
next_sequence-above_example = next_sequence-above 1 7 confirmed

abbrev at_pickup : Store
at_pickup = office LoadStatus.pickup CarrierStatus.active

abbrev left : Tracked
left = record {
  stop = record arrived_stop { actual_departure = some 100; status = StopStatus.completed };
  load = load_at LoadStatus.in_transit;
}

departed : (record_departure 100 1 7 1 none 20 at_pickup).0 ≡ ok left
unfolding record_departure depart trackable_stop with_tenant_transaction re_evaluate_load_status
    progress_of derive_load_status sort_by
departed = refl

record_departure-IsLeft_example : IsLeft left.stop
record_departure-IsLeft_example = record_departure-IsLeft 100 1 7 1 none 20 left at_pickup departed

abbrev pods : List Document
pods = document_for 54 EntityType.stop 70 DocumentCode.pod ∷ []

abbrev with_pods : Store
with_pods = record (office LoadStatus.delivered CarrierStatus.active) { documents = pods }

recalculate_pod_status-complete_example :
    ((recalculate_pod_status 1 7 with_pods).0 ≡ ok PodStatus.complete) ↔ (
      (any (is_standard_delivery 1 7) with_pods.stops ≡ true)
      × (all (λ (s : Stop). not (is_standard_delivery 1 7 s) || has_pod 1 pods s.id) with_pods.stops
          ≡ true))
recalculate_pod_status-complete_example =
    recalculate_pod_status-complete 1 7 (load_at LoadStatus.delivered) with_pods refl refl
