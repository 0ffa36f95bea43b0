-- ===== src/Lifecycle/Stops.antt =====
-- The operations on stops of dispatch-tracking.service.ts against the diagram.
use truckmaster.Base.{ℕ, ◌≡◌, Option, List, [], ◌∷◌, arith, inl, inr}
use truckmaster.Lifecycle.Diagram.{Quiet, Quiet-refl, Evolves}
use truckmaster.Store.Rows.{Load}
use truckmaster.Store.Transaction.{Store, Result-cases}
use truckmaster.Tracking.Progress.{trackable_stop, arrive, depart, record_arrival, record_departure}
use truckmaster.Tracking.Editing.{
  StopItem, Edited, update_one_stop, update_each_stop, enqueue_resolutions, edit_stops,
  update_stops,
}
use truckmaster.Tracking.Returns.{ReturnStop, append_return, initiate_return}
use truckmaster.Lifecycle.Reevaluating.{re_evaluating-Evolves}

trackable_stop-keeps :
    (org load_id sequence : ℕ) (load : Load) (s : Store)
    → (trackable_stop org load_id sequence load s).1 ≡ s
unfolding trackable_stop
trackable_stop-keeps org load_id sequence load s = ground arith

arrive-Quiet :
    (now org load_id sequence : ℕ) (given : Option ℕ) (actor : ℕ) (load : Load) (s : Store)
    → Quiet s (arrive now org load_id sequence given actor load s).1
unfolding arrive
arrive-Quiet now org load_id sequence given actor load s =
    ground (arith, trackable_stop-keeps org load_id sequence load s)

depart-Quiet :
    (now org load_id sequence : ℕ) (given : Option ℕ) (actor : ℕ) (load : Load) (s : Store)
    → Quiet s (depart now org load_id sequence given actor load s).1
unfolding depart
depart-Quiet now org load_id sequence given actor load s =
    ground (arith, trackable_stop-keeps org load_id sequence load s)

append_return-Quiet :
    (org load_id : ℕ) (p d : ReturnStop) (actor : ℕ) (load : Load) (s : Store)
    → Quiet s (append_return org load_id p d actor load s).1
unfolding append_return
append_return-Quiet org load_id p d actor load s = ground arith

pub record_arrival-Evolves :
    (now org load_id sequence : ℕ) (given : Option ℕ) (actor : ℕ) (s : Store)
    → Evolves s (record_arrival now org load_id sequence given actor s).1
unfolding record_arrival
record_arrival-Evolves now org load_id sequence given actor =
    re_evaluating-Evolves (arrive now org load_id sequence given actor)
      (λ stop load. record { stop = stop; load = load }) org load_id
      (arrive-Quiet now org load_id sequence given actor)

pub record_departure-Evolves :
    (now org load_id sequence : ℕ) (given : Option ℕ) (actor : ℕ) (s : Store)
    → Evolves s (record_departure now org load_id sequence given actor s).1
unfolding record_departure
record_departure-Evolves now org load_id sequence given actor =
    re_evaluating-Evolves (depart now org load_id sequence given actor)
      (λ stop load. record { stop = stop; load = load }) org load_id
      (depart-Quiet now org load_id sequence given actor)

pub initiate_return-Evolves :
    (org load_id : ℕ) (p d : ReturnStop) (actor : ℕ) (s : Store)
    → Evolves s (initiate_return org load_id p d actor s).1
unfolding initiate_return
initiate_return-Evolves org load_id p d actor =
    re_evaluating-Evolves (append_return org load_id p d actor)
      (λ stops load. record { pickup = stops.0; delivery = stops.1; load = load }) org load_id
      (append_return-Quiet org load_id p d actor)

update_one_stop-Quiet :
    (org load_id actor : ℕ) (item : StopItem) (s : Store)
    → Quiet s (update_one_stop org load_id actor item s).1
unfolding update_one_stop
update_one_stop-Quiet org load_id actor item s = ground arith

update_each_stop-Quiet :
    (org load_id actor : ℕ) (items : List StopItem) (s : Store)
    → Quiet s (update_each_stop org load_id actor items s).1
unfolding update_each_stop
update_each_stop-Quiet org load_id actor [] s = Quiet-refl s
update_each_stop-Quiet org load_id actor (item ∷ items) s = ground (
  arith,
  update_one_stop-Quiet org load_id actor item s,
  update_each_stop-Quiet org load_id actor items (update_one_stop org load_id actor item s).1,
)

edit_stops-Evolves :
    (org load_id : ℕ) (items : List StopItem) (actor : ℕ) (s : Store)
    → Evolves s (edit_stops org load_id items actor s).1
unfolding edit_stops
edit_stops-Evolves org load_id items actor =
    re_evaluating-Evolves (λ load. update_each_stop org load_id actor items)
      (λ edits load. record { edits = edits; load = load }) org load_id
      (λ load. update_each_stop-Quiet org load_id actor items)

enqueue_resolutions-Quiet :
    (edits : List Edited) (s : Store) → Quiet s (enqueue_resolutions edits s).1
unfolding enqueue_resolutions
enqueue_resolutions-Quiet edits s = ground arith

pub update_stops-Evolves :
    (org load_id : ℕ) (items : List StopItem) (actor : ℕ) (s : Store)
    → Evolves s (update_stops org load_id items actor s).1
unfolding update_stops
update_stops-Evolves org load_id items actor s i =
    elim (Result-cases (edit_stops org load_id items actor s).0) [
      | inl (e, failed) ↦ ground (arith, edit_stops-Evolves org load_id items actor s i)
      | inr (r, edited) ↦ ground (
        arith,
        edit_stops-Evolves org load_id items actor s i,
        enqueue_resolutions-Quiet r.edits (edit_stops org load_id items actor s).1,
      )
    ]
