-- ===== src/Tracking/Derivation.antt =====
-- backend/src/modules/quote-load/services/load-status-derivation.service.ts
pub mod Order
pub mod Monotone
use truckmaster.Base.{
  ℕ, Bool, true, false, not, ◌&&◌, Option, none, some, List, [], ◌∷◌, filter, all, any, last?,
  sort_by, if◌then◌else◌,
}
use truckmaster.Store.Statuses.{
  LoadStatus, StopType, StopPurpose, StopStatus, ◌is◌, is_one_of, load_status_enum, stop_type_enum,
  stop_purpose_enum, stop_status_enum,
}

-- `StopProgressInput`
pub record StopProgress : Type 0 where
  pub stop_type : StopType
  pub stop_purpose : StopPurpose
  pub status : StopStatus
  pub sequence : ℕ

abbrev pub derivable_statuses : List LoadStatus
derivable_statuses = LoadStatus.dispatched ∷ LoadStatus.pickup ∷ LoadStatus.in_transit ∷ []

abbrev pub is_standard : StopProgress → Bool
is_standard s = s.stop_purpose is StopPurpose.standard

abbrev pub is_pickup : StopProgress → Bool
is_pickup s = s.stop_type is StopType.pickup && is_standard s

abbrev pub is_delivery : StopProgress → Bool
is_delivery s = s.stop_type is StopType.delivery && is_standard s

abbrev pub is_completed : StopProgress → Bool
is_completed s = s.status is StopStatus.completed

abbrev pub has_started : StopProgress → Bool
has_started s = not (s.status is StopStatus.pending)

-- `finalDelivery && finalDelivery.status === 'COMPLETED'`
abbrev pub is_done : Option StopProgress → Bool
is_done none = false
is_done (some s) = is_completed s

unfoldable pub derive_load_status : LoadStatus → List StopProgress → LoadStatus
derive_load_status current stops =
    if not (is_one_of current derivable_statuses)
    then current
    else let pickups = filter is_pickup stops in
      let deliveries = sort_by (λ (s : StopProgress). s.sequence) (filter is_delivery stops) in
      let final_delivery = last? deliveries in
      let all_pickups_completed = all is_completed pickups in
      if is_done final_delivery && all_pickups_completed
      then LoadStatus.delivered
      else if all_pickups_completed
      then LoadStatus.in_transit
      else if any has_started pickups
      then LoadStatus.pickup
      else current
