-- ===== src/Booking/Creation.antt =====
-- `assertCustomerAllowsBooking`, `createFromBooking` and `createDirect` of load.service.ts.
use truckmaster.Base.{
  map, ℕ, Bool, false, not, Option, none, some, List, [], ◌∷◌, ◌++◌, filter, head?, sort_by,
  sort_desc_by,
}
use truckmaster.Store.Statuses.{
  LoadStatus, StopType, StopStatus, StopPurpose, BookingSource, CustomerStatus, ChargeSide,
  EquipmentType, PodStatus, RiskStatus, SequenceType, ◌is◌, customer_status_enum, stop_type_enum,
}
use truckmaster.Store.Rows.{Booking, ReferenceNumbers, Position, Load, Stop, StopDetails, Customer}
use truckmaster.Store.Transaction.{
  Action, Job, pure, throw, gets, throw_if, modify, when, record_audit, enqueue_all, fresh_id,
  with_tenant_transaction, ◌>>=◌, ◌>>◌, business_rule,
}
use truckmaster.Store.Audit
use truckmaster.Store.Queries.{
  require, find_customer, find_linehaul, create_load, create_charge, original_charge,
}
use truckmaster.Booking.Entitlement.{assert_can_create_operational_record, get_next_number}
use truckmaster.Booking.RateAgreements.{Lane, ResolvedRate, resolve_rate}

-- The Booking column of the customer's status: an inactive customer needs an override, which is
-- audited.
unfoldable pub assert_customer_allows_booking : ℕ → Customer → Bool → ℕ → Action (Unit {0})
assert_customer_allows_booking org customer confirmed actor = do
  throw_if (customer.status is CustomerStatus.blocked) business_rule
  throw_if (customer.status is CustomerStatus.prospect) business_rule
  when (customer.status is CustomerStatus.inactive) do
    throw_if (not confirmed) business_rule
    record_audit org customer.id Audit.inactive_customer_booking_override (some actor)

-- `LoadStopCreateInput`
pub record StopInput : Type 0 where
  pub sequence : ℕ
  pub customer_location_id : Option ℕ
  pub details : StopDetails

abbrev pub booked_stop : ℕ → ℕ → ℕ → StopInput → Stop
booked_stop id org load_id i = record {
  id = id;
  organization_id = org;
  load_id = load_id;
  sequence = i.sequence;
  stop_purpose = StopPurpose.standard;
  customer_location_id = i.customer_location_id;
  details = i.details;
  actual_arrival = none;
  actual_departure = none;
  status = StopStatus.pending;
}

unfoldable pub create_stops : ℕ → ℕ → List StopInput → Action (List Stop)
create_stops org load_id [] = pure []
create_stops org load_id (i ∷ rest) = do
  id ← fresh_id
  let stop = booked_stop id org load_id i
  modify (λ s. record s { stops = s.stops ++ stop ∷ [] })
  others ← create_stops org load_id rest
  pure (stop ∷ others)

-- `CreateFromBookingParams`, with the number of the load still to be drawn.
pub record BookingParams : Type 0 where
  pub booking : Booking
  pub references : ReferenceNumbers
  pub stops : List StopInput

abbrev no_position : Position
no_position = record { city = none; state = none; zip = none; updated_at = none; eta = none }

abbrev pub booked_load : ℕ → ℕ → ℕ → BookingParams → Load
booked_load id org number p =
    let b = p.booking in
    record {
      id = id;
      organization_id = org;
      booking = record b { load_number = number };
      references = p.references;
      status = LoadStatus.booked;
      assigned_carrier_id = none;
      carrier_rate = none;
      assigned_dispatcher_id = none;
      pod_status = PodStatus.not_received;
      risk_status = RiskStatus.normal;
      risk_reason = none;
      current_location = no_position;
      invoiced = false;
      closed_at = none;
      closed_by_user_id = none;
      cancelled_at = none;
      cancelled_by_user_id = none;
      return_for_load_id = none;
    }

unfoldable pub create_original_customer_linehaul_charge : ℕ → Load → ℕ → Action (Unit {0})
create_original_customer_linehaul_charge org load actor = do
  linehaul_type ← gets (find_linehaul org)
  elim linehaul_type [
    | none ↦ pure tt
    | some t ↦ do
      id ← fresh_id
      create_charge
          (original_charge id org ChargeSide.customer load.id t.id load.booking.customer_rate actor)
  ]

pub record Booked : Type 0 where
  pub load : Load
  pub stops : List Stop

abbrev booking_action : BookingSource → ℕ → Audit.Action
booking_action BookingSource.quote number = Audit.load_booked_from_quote number
booking_action BookingSource.direct number = Audit.load_booked_directly number

-- `auditAction` is the one that the two callers give for their booking source.
unfoldable pub create_from_booking : ℕ → ℕ → BookingParams → ℕ → Action Booked
create_from_booking now org params actor = do
  assert_can_create_operational_record now org
  number ← get_next_number org SequenceType.load
  id ← fresh_id
  let load = booked_load id org number params
  create_load load
  stops ← create_stops org id params.stops
  create_original_customer_linehaul_charge org load actor
  record_audit org id (booking_action params.booking.booking_source number) (some actor)
  pure (record { load = load; stops = stops })

unfoldable pub enqueue_stop_location_resolution : List Stop → Action (Unit {0})
enqueue_stop_location_resolution stops = enqueue_all (
    map (λ (stop : Stop). Job.resolve_stop_location stop.id stop.details.city stop.details.state)
      stops)

-- `CreateLoadDto`
pub record LoadDto : Type 0 where
  pub customer_id : ℕ
  pub equipment_type : EquipmentType
  pub customer_rate : ℕ
  pub stops : List StopInput
  pub references : ReferenceNumbers
  pub confirm_inactive_customer_override : Bool

abbrev input_sequence : StopInput → ℕ
input_sequence i = i.sequence

unfoldable pub first_pickup : List StopInput → Option StopInput
first_pickup stops = head? (
    sort_by input_sequence
      (filter (λ (i : StopInput). i.details.stop_type is StopType.pickup) stops))

unfoldable pub last_delivery : List StopInput → Option StopInput
last_delivery stops = head? (
    sort_desc_by input_sequence
      (filter (λ (i : StopInput). i.details.stop_type is StopType.delivery) stops))

abbrev pub lane_between : StopInput → StopInput → Lane
lane_between from to = record {
  origin_city = from.details.city;
  origin_state = from.details.state;
  destination_city = to.details.city;
  destination_state = to.details.state;
}

-- The number is drawn by `create_from_booking`.
abbrev pub direct_params : LoadDto → ℕ → ResolvedRate → BookingParams
direct_params dto actor rate = record {
  booking = record {
    load_number = 0;
    customer_id = dto.customer_id;
    booking_source = BookingSource.direct;
    quote_id = none;
    equipment_type = dto.equipment_type;
    customer_rate = dto.customer_rate;
    rate_source = rate.rate_source;
    rate_agreement_id = rate.rate_agreement_id;
    created_by_user_id = actor;
  };
  references = dto.references;
  stops = dto.stops;
}

unfoldable pub book_direct : ℕ → ℕ → LoadDto → ℕ → Lane → Action Booked
book_direct now org dto actor lane = with_tenant_transaction do
  customer ← require (find_customer org dto.customer_id)
  assert_customer_allows_booking org customer dto.confirm_inactive_customer_override actor
  rate ← gets (resolve_rate now org dto.customer_id lane dto.equipment_type dto.customer_rate)
  create_from_booking now org (direct_params dto actor rate) actor

-- The lane of the stops, if there are a pickup and a delivery.
unfoldable pub required_lane : List StopInput → Option Lane
unfolding first_pickup last_delivery
required_lane stops = elim (first_pickup stops) [
  | none ↦ none
  | some pickup ↦ elim (last_delivery stops) [
    | none ↦ none
    | some delivery ↦ some (lane_between pickup delivery)
  ]
]

unfoldable pub create_direct : ℕ → ℕ → LoadDto → ℕ → Action Booked
create_direct now org dto actor = elim (required_lane dto.stops) [
  | none ↦ throw business_rule
  | some lane ↦ do
    booked ← book_direct now org dto actor lane
    enqueue_stop_location_resolution booked.stops
    pure booked
]
