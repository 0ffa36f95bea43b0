-- ===== src/Tracking/Editing.antt =====
-- `updateStops` of dispatch-tracking.service.ts.
use truckmaster.Base.{
  map, filter, ℕ, Bool, not, ◌&&◌, some, List, [], ◌∷◌, str_eq, same_text, same_number,
}
use truckmaster.Store.Statuses.{◌is◌, stop_type_enum}
use truckmaster.Store.Rows.{Load, Stop, StopDetails}
use truckmaster.Store.Transaction.{
  Action, Job, pure, when, record_audit, enqueue_all, with_tenant_transaction, ◌>>=◌, ◌>>◌,
}
use truckmaster.Store.Audit
use truckmaster.Store.Queries.{require, find_load, find_stop, update_stop}
use truckmaster.Tracking.{re_evaluate_load_status}

-- `UpdateStopItemDto`
pub record StopItem : Type 0 where
  pub sequence : ℕ
  pub details : StopDetails

abbrev pub same_place : StopDetails → StopDetails → Bool
same_place a b = str_eq a.city b.city && str_eq a.state b.state

-- `fieldChanges.length === 0`
unfoldable pub same_details : StopDetails → StopDetails → Bool
same_details a b =
    a.stop_type is b.stop_type
    && same_text a.company_name b.company_name
    && same_text a.address_line1 b.address_line1
    && same_place a b
    && str_eq a.zip b.zip
    && same_number a.appointment_datetime b.appointment_datetime
    && same_text a.contact_name b.contact_name
    && same_text a.contact_phone b.contact_phone
    && same_text a.notes b.notes

-- A stop that has been written, and whether its place has to be resolved again.
pub record Edited : Type 0 where
  pub stop : Stop
  pub moved : Bool

unfoldable pub update_one_stop : ℕ → ℕ → ℕ → StopItem → Action Edited
update_one_stop org load_id actor item = do
  stop ← require (find_stop org load_id item.sequence)
  updated ← update_stop stop (λ row. record row { details = item.details })
  when (not (same_details stop.details item.details))
      (record_audit org stop.id (Audit.stop_details_updated stop.sequence) (some actor))
  pure (record { stop = updated; moved = not (same_place stop.details item.details) })

unfoldable pub update_each_stop : ℕ → ℕ → ℕ → List StopItem → Action (List Edited)
update_each_stop org load_id actor [] = pure []
update_each_stop org load_id actor (item ∷ items) = do
  first ← update_one_stop org load_id actor item
  rest ← update_each_stop org load_id actor items
  pure (first ∷ rest)

pub record EditedLoad : Type 0 where
  pub edits : List Edited
  pub load : Load

abbrev pub stop_resolution : Stop → Job
stop_resolution stop = Job.resolve_stop_location stop.id stop.details.city stop.details.state

unfoldable pub enqueue_resolutions : List Edited → Action (Unit {0})
enqueue_resolutions edits =
    enqueue_all
      (map (λ (e : Edited). stop_resolution e.stop) (filter (λ (e : Edited). e.moved) edits))

unfoldable pub edit_stops : ℕ → ℕ → List StopItem → ℕ → Action EditedLoad
edit_stops org load_id items actor = with_tenant_transaction do
  load ← require (find_load org load_id)
  edits ← update_each_stop org load_id actor items
  updated_load ← re_evaluate_load_status org load
  pure (record { edits = edits; load = updated_load })

unfoldable pub update_stops : ℕ → ℕ → List StopItem → ℕ → Action EditedLoad
update_stops org load_id items actor = do
  result ← edit_stops org load_id items actor
  enqueue_resolutions result.edits
  pure result
