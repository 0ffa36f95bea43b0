-- ===== src/Tracking/Progress.antt =====
-- `recordArrival`, `recordDeparture` and `rescheduleStop` of dispatch-tracking.service.ts.
use truckmaster.Base.{ℕ, Bool, false, not, ◌||◌, Option, none, some, ltb, or_else, if◌then◌else◌}
use truckmaster.Store.Statuses.{
  LoadStatus, StopStatus, StopPurpose, ◌is◌, load_status_enum, stop_status_enum, stop_purpose_enum,
}
use truckmaster.Store.Rows.{Load, Stop, DispatchRecord}
use truckmaster.Store.Transaction.{
  Action, pure, throw, gets, throw_if, record_audit, with_tenant_transaction, ◌>>=◌, ◌>>◌,
  invalid_transition, business_rule,
}
use truckmaster.Store.Audit
use truckmaster.Store.Queries.{require, find_load, find_stop, update_stop, find_dispatch_record}
use truckmaster.Tracking.{is_post_dispatch, re_evaluate_load_status}

pub record Tracked : Type 0 where
  pub stop : Stop
  pub load : Load

abbrev return_stop : Option Stop → Action Stop
return_stop none = throw invalid_transition
return_stop (some stop) =
    if stop.stop_purpose is StopPurpose.return then pure stop else throw invalid_transition

-- The stop that an arrival or a departure is for: on a load that is under way any stop, on a
-- delivered one a stop of a return leg.
unfoldable pub trackable_stop : ℕ → ℕ → ℕ → Load → Action Stop
trackable_stop org load_id sequence load =
    if is_post_dispatch load.status
    then require (find_stop org load_id sequence)
    else if load.status is LoadStatus.delivered
    then gets (find_stop org load_id sequence) >>= return_stop
    else throw invalid_transition

abbrev pub precedes_dispatch : ℕ → Option DispatchRecord → Bool
precedes_dispatch timestamp none = false
precedes_dispatch timestamp (some r) = ltb timestamp r.dispatched_at

abbrev pub precedes : ℕ → Option ℕ → Bool
precedes timestamp none = false
precedes timestamp (some earlier) = ltb timestamp earlier

-- `recordArrival` between the lookup of the load and the new derivation of its status.
unfoldable pub arrive : ℕ → ℕ → ℕ → ℕ → Option ℕ → ℕ → Load → Action Stop
arrive now org load_id sequence given actor load = do
  stop ← trackable_stop org load_id sequence load
  throw_if (not (stop.status is StopStatus.pending)) invalid_transition
  dispatch_record ← gets (find_dispatch_record org load_id)
  let timestamp = or_else given now
  throw_if (precedes_dispatch timestamp dispatch_record) business_rule
  updated ←
      update_stop stop
        (λ row. record row { actual_arrival = some timestamp; status = StopStatus.arrived })
  record_audit org stop.id (Audit.stop_arrival_recorded stop.sequence timestamp) (some actor)
  pure updated

unfoldable pub record_arrival : ℕ → ℕ → ℕ → ℕ → Option ℕ → ℕ → Action Tracked
record_arrival now org load_id sequence given actor = with_tenant_transaction do
  load ← require (find_load org load_id)
  stop ← arrive now org load_id sequence given actor load
  updated_load ← re_evaluate_load_status org load
  pure (record { stop = stop; load = updated_load })

-- `recordDeparture` between the lookup of the load and the new derivation of its status.
unfoldable pub depart : ℕ → ℕ → ℕ → ℕ → Option ℕ → ℕ → Load → Action Stop
depart now org load_id sequence given actor load = do
  stop ← trackable_stop org load_id sequence load
  throw_if (not (stop.status is StopStatus.arrived)) invalid_transition
  let timestamp = or_else given now
  throw_if (precedes timestamp stop.actual_arrival) business_rule
  updated ←
      update_stop stop
        (λ row. record row { actual_departure = some timestamp; status = StopStatus.completed })
  record_audit org stop.id (Audit.stop_completed stop.sequence timestamp) (some actor)
  pure updated

unfoldable pub record_departure : ℕ → ℕ → ℕ → ℕ → Option ℕ → ℕ → Action Tracked
record_departure now org load_id sequence given actor = with_tenant_transaction do
  load ← require (find_load org load_id)
  stop ← depart now org load_id sequence given actor load
  updated_load ← re_evaluate_load_status org load
  pure (record { stop = stop; load = updated_load })

unfoldable pub reschedule_stop : ℕ → ℕ → ℕ → ℕ → ℕ → Action Stop
reschedule_stop org load_id sequence appointment actor = with_tenant_transaction do
  load ← require (find_load org load_id)
  throw_if (load.status is LoadStatus.delivered || load.status is LoadStatus.closed)
      invalid_transition
  stop ← require (find_stop org load_id sequence)
  throw_if (not (stop.status is StopStatus.pending)) invalid_transition
  updated ← update_stop stop (λ row.
      let old = row.details in
      record row { details = record old { appointment_datetime = some appointment } })
  record_audit org stop.id
      (Audit.stop_rescheduled stop.sequence stop.details.appointment_datetime appointment)
      (some actor)
  pure updated
