-- ===== src/Tracking/Returns.antt =====
-- `initiateReturn` of dispatch-tracking.service.ts.
use truckmaster.Base.{ℕ, suc, not, ◌&&◌, Option, none, some, [], ◌∷◌, ◌++◌, filter, latest}
use truckmaster.Store.Statuses.{
  LoadStatus, StopType, StopStatus, StopPurpose, ◌is◌, load_status_enum,
}
use truckmaster.Store.Rows.{Load, Stop, StopDetails}
use truckmaster.Store.Transaction.{
  Store, Action, pure, gets, throw_if, modify, record_audit, fresh_id, with_tenant_transaction,
  ◌>>=◌, ◌>>◌, business_rule,
}
use truckmaster.Store.Audit
use truckmaster.Store.Queries.{require, find_load, is_stop_of}
use truckmaster.Tracking.{is_post_dispatch, re_evaluate_load_status}

-- A stop of `InitiateReturnDto`; the type is the one that its place in the pair gives.
pub record ReturnStop : Type 0 where
  pub customer_location_id : Option ℕ
  pub details : StopDetails

abbrev pub sequence_or_zero : Option Stop → ℕ
sequence_or_zero none = 0
sequence_or_zero (some stop) = stop.sequence

-- `(lastStop?.sequence ?? 0) + 1`
unfoldable pub next_sequence : ℕ → ℕ → Store → ℕ
next_sequence org load_id s = suc (
    sequence_or_zero
      (latest (λ (stop : Stop). stop.sequence) (filter (is_stop_of org load_id) s.stops)))

-- `buildData`, with the defaults of the columns that it leaves out.
abbrev pub build_stop : ℕ → ℕ → ℕ → ReturnStop → ℕ → StopType → Stop
build_stop id org load_id item sequence stop_type =
    let given = item.details in
    record {
      id = id;
      organization_id = org;
      load_id = load_id;
      sequence = sequence;
      stop_purpose = StopPurpose.return;
      customer_location_id = item.customer_location_id;
      details = record given { stop_type = stop_type };
      actual_arrival = none;
      actual_departure = none;
      status = StopStatus.pending;
    }

abbrev create_stop : Stop → Action (Unit {0})
create_stop stop = modify λ s. record s { stops = s.stops ++ stop ∷ [] }

pub record Return : Type 0 where
  pub pickup : Stop
  pub delivery : Stop
  pub load : Load

-- `initiateReturn` between the lookup of the load and the new derivation of its status.
unfoldable pub append_return : ℕ → ℕ → ReturnStop → ReturnStop → ℕ → Load → Action (Stop × Stop)
append_return org load_id pickup_dto delivery_dto actor load = do
  throw_if (load.status is LoadStatus.closed) business_rule
  throw_if (not (is_post_dispatch load.status) && not (load.status is LoadStatus.delivered))
      business_rule
  sequence ← gets (next_sequence org load_id)
  pickup_id ← fresh_id
  let pickup_stop = build_stop pickup_id org load_id pickup_dto sequence StopType.pickup
  create_stop pickup_stop
  delivery_id ← fresh_id
  let delivery_stop =
      build_stop delivery_id org load_id delivery_dto (suc sequence) StopType.delivery
  create_stop delivery_stop
  record_audit org load_id (Audit.return_initiated sequence (suc sequence)) (some actor)
  pure (pickup_stop, delivery_stop)

unfoldable pub initiate_return : ℕ → ℕ → ReturnStop → ReturnStop → ℕ → Action Return
initiate_return org load_id pickup_dto delivery_dto actor = with_tenant_transaction do
  load ← require (find_load org load_id)
  stops ← append_return org load_id pickup_dto delivery_dto actor load
  updated_load ← re_evaluate_load_status org load
  pure (record { pickup = stops.0; delivery = stops.1; load = updated_load })
