-- ===== src/Booking/Quotes.antt =====
-- backend/src/modules/quote-load/services/quote.service.ts
use truckmaster.Base.{ℕ, ◌+◌, String, Bool, not, Option, none, some, List, ◌==◌, map, or_else}
use truckmaster.Store.Statuses.{
  QuoteStatus, CustomerStatus, BookingSource, EquipmentType, SequenceType, ◌is◌, quote_status_enum,
  customer_status_enum,
}
use truckmaster.Store.Rows.{Quote, QuoteStop, ReferenceNumbers}
use truckmaster.Store.Transaction.{
  Action, put, pure, throw, gets, or_throw, throw_if, modify, when, record_audit, fresh_id,
  with_tenant_transaction, ◌>>=◌, ◌>>◌, business_rule, invalid_transition, database,
}
use truckmaster.Store.Audit
use truckmaster.Store.Queries.{require, find_customer, find_quote}
use truckmaster.Booking.Entitlement.{assert_can_create_operational_record, get_next_number}
use truckmaster.Booking.RateAgreements.{Lane, resolve_rate}
use truckmaster.Booking.Creation.{
  StopInput, BookingParams, Booked, assert_customer_allows_booking, create_from_booking,
  enqueue_stop_location_resolution, required_lane,
}

-- A stop of a quote has a lane and no street address.
abbrev pub stop_input : QuoteStop → StopInput
stop_input q = record {
  sequence = q.sequence;
  customer_location_id = none;
  details = record {
    stop_type = q.stop_type;
    company_name = none;
    address_line1 = none;
    city = q.address_city;
    state = q.address_state;
    zip = q.address_zip;
    appointment_datetime = none;
    contact_name = none;
    contact_phone = none;
    notes = q.appointment_notes;
  };
}

-- `CreateQuoteDto`
pub record QuoteDto : Type 0 where
  pub customer_id : ℕ
  pub equipment_type : EquipmentType
  pub customer_rate : ℕ
  pub expiration_date : Option ℕ
  pub stops : List QuoteStop

-- Seven days from now.
abbrev default_expiration_date : ℕ → ℕ
default_expiration_date now = now + 604_800_000

abbrev create_quote : Quote → Action (Unit {0})
create_quote q = do
  existing ← gets (λ s. s.quotes q.id)
  elim existing [
    | none ↦ modify λ s. record s { quotes = put q.id q s.quotes }
    | some other ↦ throw database
  ]

unfoldable pub create_on_lane : ℕ → ℕ → QuoteDto → ℕ → Lane → Action Quote
create_on_lane now org dto actor lane = with_tenant_transaction do
  customer ← require (find_customer org dto.customer_id)
  throw_if (customer.status is CustomerStatus.blocked) business_rule
  rate ← gets (resolve_rate now org dto.customer_id lane dto.equipment_type dto.customer_rate)
  assert_can_create_operational_record now org
  number ← get_next_number org SequenceType.quote
  id ← fresh_id
  let quote : Quote = record {
    id = id;
    organization_id = org;
    quote_number = number;
    customer_id = dto.customer_id;
    equipment_type = dto.equipment_type;
    customer_rate = dto.customer_rate;
    rate_source = rate.rate_source;
    rate_agreement_id = rate.rate_agreement_id;
    status = QuoteStatus.opened;
    loss_reason = none;
    resulting_load_id = none;
    expiration_date = or_else dto.expiration_date (default_expiration_date now);
    created_by_user_id = actor;
    stops = dto.stops;
  }
  create_quote quote
  record_audit org id (Audit.quote_created number) (some actor)
  pure quote

unfoldable pub create : ℕ → ℕ → QuoteDto → ℕ → Action Quote
create now org dto actor = elim (required_lane (map stop_input dto.stops)) [
  | none ↦ throw business_rule
  | some lane ↦ create_on_lane now org dto actor lane
]

abbrev update_quote : ℕ → (Quote → Quote) → Action Quote
update_quote id change = do
  row ← gets (λ s. s.quotes id) >>= or_throw database
  modify (λ s. record s { quotes = put id (change row) s.quotes })
  pure (change row)

unfoldable pub mark_lost : ℕ → ℕ → String → ℕ → Action Quote
mark_lost org id reason actor = with_tenant_transaction do
  quote ← require (find_quote org id)
  throw_if (not (quote.status is QuoteStatus.opened)) invalid_transition
  updated ← update_quote id (λ q. record q { status = QuoteStatus.lost; loss_reason = some reason })
  record_audit org id (Audit.quote_marked_lost reason) (some actor)
  pure updated

abbrev no_references : ReferenceNumbers
no_references = record {
  customer_po_number = none;
  bol_number = none;
  pickup_number = none;
  customer_reference_number = none;
}

abbrev pub params_of : Quote → ℕ → ℕ → BookingParams
params_of quote confirmed_rate actor = record {
  booking = record {
    load_number = 0;
    customer_id = quote.customer_id;
    booking_source = BookingSource.quote;
    quote_id = some quote.id;
    equipment_type = quote.equipment_type;
    customer_rate = confirmed_rate;
    rate_source = quote.rate_source;
    rate_agreement_id = quote.rate_agreement_id;
    created_by_user_id = actor;
  };
  references = no_references;
  stops = map stop_input quote.stops;
}

-- The transaction of `convert`; the confirmed rate is the load's, and the quote keeps its own.
unfoldable pub win : ℕ → ℕ → ℕ → ℕ → Bool → ℕ → Action Booked
win now org id confirmed_rate override actor = with_tenant_transaction do
  quote ← require (find_quote org id)
  throw_if (not (quote.status is QuoteStatus.opened)) invalid_transition
  customer ← require (find_customer org quote.customer_id)
  assert_customer_allows_booking org customer override actor
  booked ← create_from_booking now org (params_of quote confirmed_rate actor) actor
  update_quote id
      (λ q. record q { status = QuoteStatus.won; resulting_load_id = some booked.load.id })
  record_audit org id (Audit.quote_won booked.load.id) none
  when (not (quote.customer_rate == confirmed_rate)) (
      record_audit org id (Audit.rate_changed_during_conversion quote.customer_rate confirmed_rate)
        (some actor))
  pure booked

unfoldable pub convert : ℕ → ℕ → ℕ → ℕ → Bool → ℕ → Action Booked
convert now org id confirmed_rate override actor = do
  booked ← win now org id confirmed_rate override actor
  enqueue_stop_location_resolution booked.stops
  pure booked
