-- ===== src/Lifecycle/Booking.antt =====
-- The booking operations of load.service.ts and quote.service.ts against the diagram.
use truckmaster.Base.{ℕ, suc, ◌≡◌, refl, Bool, List, [], ◌∷◌, ◌++◌, arith, Option-cases, inl, inr}
use truckmaster.Lifecycle.Diagram.{Quiet, Quiet-refl, Evolves, Quiet-Evolves, Quiet-then}
use truckmaster.Store.Statuses.{SequenceType}
use truckmaster.Store.Rows.{Customer, Load, Stop}
use truckmaster.Store.Transaction.{Store, Result-cases, fresh_id, ◌>>=◌, with_tenant_transaction}
use truckmaster.Store.Queries.{create_load, find_customer, find_quote}
use truckmaster.Booking.Entitlement.{assert_can_create_operational_record, get_next_number}
use truckmaster.Booking.RateAgreements.{Lane, resolve_rate}
use truckmaster.Booking.Creation.{
  StopInput, BookingParams, LoadDto, assert_customer_allows_booking, create_stops, booked_stop,
  booked_load, create_original_customer_linehaul_charge, create_from_booking, book_direct,
  create_direct, direct_params, enqueue_stop_location_resolution, required_lane,
}
use truckmaster.Booking.Quotes.{params_of, win, convert}

assert_can_create-keeps :
    (now org : ℕ) (s : Store) → (assert_can_create_operational_record now org s).1 ≡ s
unfolding assert_can_create_operational_record
assert_can_create-keeps now org s = ground arith

get_next_number-Quiet :
    (org : ℕ) (type : SequenceType) (s : Store) → Quiet s (get_next_number org type s).1
unfolding get_next_number
get_next_number-Quiet org type s = record { loads = refl; billing = refl }

create_stops-Quiet :
    (org load_id : ℕ) (inputs : List StopInput) (s : Store)
    → Quiet s (create_stops org load_id inputs s).1
unfolding create_stops
create_stops-Quiet org load_id [] s = Quiet-refl s
create_stops-Quiet org load_id (i ∷ rest) s = ground (
  arith,
  create_stops-Quiet org load_id rest (record s {
    next_id = suc s.next_id;
    stops = s.stops ++ booked_stop s.next_id org load_id i ∷ [];
  }),
)

charge-Quiet :
    (org : ℕ) (load : Load) (actor : ℕ) (s : Store)
    → Quiet s (create_original_customer_linehaul_charge org load actor s).1
unfolding create_original_customer_linehaul_charge
charge-Quiet org load actor s = ground arith

-- The store once the number is drawn and the load is written.
abbrev load_written : ℕ → BookingParams → Store → Store
load_written org params s =
    ((do
      number ← get_next_number org SequenceType.load
      id ← fresh_id
      create_load (booked_load id org number params))
      s).1

load_written-Evolves :
    (org : ℕ) (params : BookingParams) (s : Store) → Evolves s (load_written org params s)
unfolding get_next_number
load_written-Evolves org params s i = ground arith

pub create_from_booking-Evolves :
    (now org : ℕ) (params : BookingParams) (actor : ℕ) (s : Store)
    → Evolves s (create_from_booking now org params actor s).1
unfolding create_from_booking get_next_number assert_can_create_operational_record
create_from_booking-Evolves now org params actor s i =
    let t = load_written org params s in
    let load = booked_load s.next_id org (suc (s.sequences org SequenceType.load)) params in
    let u = (create_stops org s.next_id params.stops t).1 in
    ground (
      arith,
      Quiet-Evolves s s (Quiet-refl s) i,
      load_written-Evolves org params s i,
      create_stops-Quiet org s.next_id params.stops t,
      charge-Quiet org load actor u,
    )

assert_customer-Quiet :
    (org : ℕ) (customer : Customer) (confirmed : Bool) (actor : ℕ) (s : Store)
    → Quiet s (assert_customer_allows_booking org customer confirmed actor s).1
unfolding assert_customer_allows_booking
assert_customer-Quiet org customer confirmed actor s = ground arith

-- A booking after checks that leave the loads alone.
create_after :
    (now org : ℕ) (params : BookingParams) (actor : ℕ) (s t : Store)
    → Quiet s t
    → Evolves s (create_from_booking now org params actor t).1
create_after now org params actor s t same i =
    Quiet-then s t _ same i (create_from_booking-Evolves now org params actor t i)

book_direct-Evolves :
    (now org : ℕ) (dto : LoadDto) (actor : ℕ) (lane : Lane) (s : Store)
    → Evolves s (book_direct now org dto actor lane s).1
unfolding book_direct with_tenant_transaction
book_direct-Evolves now org dto actor lane s i =
    elim (Option-cases (find_customer org dto.customer_id s)) [
      | inl missing ↦ ground (arith, Quiet-Evolves s s (Quiet-refl s) i)
      | inr (customer, e) ↦
          let t =
            (assert_customer_allows_booking org customer dto.confirm_inactive_customer_override
              actor s).1 in
          let rate =
            resolve_rate now org dto.customer_id lane dto.equipment_type dto.customer_rate t in
          ground (
            arith,
            Quiet-Evolves s s (Quiet-refl s) i,
            create_after now org (direct_params dto actor rate) actor s t
                (assert_customer-Quiet org customer dto.confirm_inactive_customer_override actor s)
                i,
          )
    ]

resolution-Quiet :
    (stops : List Stop) (s : Store) → Quiet s (enqueue_stop_location_resolution stops s).1
unfolding enqueue_stop_location_resolution
resolution-Quiet stops s = ground arith

pub create_direct-Evolves :
    (now org : ℕ) (dto : LoadDto) (actor : ℕ) (s : Store)
    → Evolves s (create_direct now org dto actor s).1
unfolding create_direct
create_direct-Evolves now org dto actor s i = elim (Option-cases (required_lane dto.stops)) [
  | inl missing ↦ ground (arith, Quiet-Evolves s s (Quiet-refl s) i)
  | inr (lane, e) ↦ elim (Result-cases (book_direct now org dto actor lane s).0) [
    | inl (f, failed) ↦ ground (arith, book_direct-Evolves now org dto actor lane s i)
    | inr (booked, made) ↦ ground (
      arith,
      book_direct-Evolves now org dto actor lane s i,
      resolution-Quiet booked.stops (book_direct now org dto actor lane s).1,
    )
  ]
]

win-Evolves :
    (now org id confirmed_rate : ℕ) (override : Bool) (actor : ℕ) (s : Store)
    → Evolves s (win now org id confirmed_rate override actor s).1
unfolding win with_tenant_transaction
win-Evolves now org id confirmed_rate override actor s i =
    elim (Option-cases (find_quote org id s)) [
      | inl missing ↦ ground (arith, Quiet-Evolves s s (Quiet-refl s) i)
      | inr (quote, e) ↦ elim (Option-cases (find_customer org quote.customer_id s)) [
        | inl missing ↦ ground (arith, Quiet-Evolves s s (Quiet-refl s) i)
        | inr (customer, e') ↦
            let t = (assert_customer_allows_booking org customer override actor s).1 in
            ground (
              arith,
              Quiet-Evolves s s (Quiet-refl s) i,
              create_after now org (params_of quote confirmed_rate actor) actor s t
                  (assert_customer-Quiet org customer override actor s) i,
            )
      ]
    ]

pub convert-Evolves :
    (now org id confirmed_rate : ℕ) (override : Bool) (actor : ℕ) (s : Store)
    → Evolves s (convert now org id confirmed_rate override actor s).1
unfolding convert
convert-Evolves now org id confirmed_rate override actor s i =
    elim (Result-cases (win now org id confirmed_rate override actor s).0) [
      | inl (f, failed) ↦ ground (arith, win-Evolves now org id confirmed_rate override actor s i)
      | inr (booked, made) ↦ ground (
        arith,
        win-Evolves now org id confirmed_rate override actor s i,
        resolution-Quiet booked.stops (win now org id confirmed_rate override actor s).1,
      )
    ]
