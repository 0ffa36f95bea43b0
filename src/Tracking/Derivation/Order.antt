-- ===== src/Tracking/Derivation/Order.antt =====
-- What decides the derived status, described with no sort: how far the stops have come.
use truckmaster.Base.{
  ℕ, ◌≤◌, ◌≡◌, Bool, List, [], ◌∷◌, arith, filter, all, any, if◌then◌else◌, last_max, last-sort_by,
  Bool-cases, inl, inr,
}
use truckmaster.Store.Statuses.{LoadStatus, is_one_of, load_status_enum, stop_status_enum}
use truckmaster.Tracking.Derivation.{
  StopProgress, derivable_statuses, is_pickup, is_delivery, is_completed, has_started, is_done,
  derive_load_status,
}

abbrev pub sequence_of : StopProgress → ℕ
sequence_of s = s.sequence

pub data Progress : Type 0 where
  waiting picking_up under_way arrived : Progress

-- The final delivery is, of the standard deliveries with the greatest sequence number, the one
-- that is listed last.
unfoldable pub progress : List StopProgress → Progress
progress stops =
    if all is_completed (filter is_pickup stops)
    then if is_done (last_max sequence_of (filter is_delivery stops)) then arrived else under_way
    else if any has_started (filter is_pickup stops)
    then picking_up
    else waiting

abbrev pub is_derivable : LoadStatus → Bool
is_derivable s = is_one_of s derivable_statuses

abbrev pub status_at : LoadStatus → Progress → LoadStatus
status_at current waiting = current
status_at current picking_up = LoadStatus.pickup
status_at current under_way = LoadStatus.in_transit
status_at current arrived = LoadStatus.delivered

-- The derived status is the one that the progress of the stops names; a status outside Dispatched,
-- Pickup and In Transit is kept, and so is the present one while no standard pickup has started.
pub derive_load_status-progress :
    (current : LoadStatus) (stops : List StopProgress)
    → derive_load_status current stops
      ≡ (if is_derivable current then status_at current (progress stops) else current)
unfolding derive_load_status progress
derive_load_status-progress current stops =
    rw (last-sort_by sequence_of (filter is_delivery stops)) (ground arith)

abbrev stop_rank : StopProgress → ℕ
stop_rank s = stop_status_enum.code s.status

-- A stop that is the same but for its status, which has not gone back.
pub record Advance (a b : StopProgress) : Type 0 where
  pub same_type : a.stop_type ≡ b.stop_type
  pub same_purpose : a.stop_purpose ≡ b.stop_purpose
  pub same_sequence : a.sequence ≡ b.sequence
  pub later : stop_status_enum.code a.status ≤ stop_status_enum.code b.status

abbrev pub Advances : List StopProgress → List StopProgress → Type 0
Advances [] [] = Unit
Advances [] (b ∷ bs) = ⊥
Advances (a ∷ as') [] = ⊥
Advances (a ∷ as') (b ∷ bs) = Advance a b × Advances as' bs

module _ (p : StopProgress → Bool) (kept : (a b : StopProgress) → Advance a b → p a ≡ p b) where
  pub filter-Advances :
      (xs ys : List StopProgress) → Advances xs ys → Advances (filter p xs) (filter p ys)
  filter-Advances [] [] h = tt
  filter-Advances [] (y ∷ ys) h = absurd h
  filter-Advances (x ∷ xs) [] h = absurd h
  filter-Advances (x ∷ xs) (y ∷ ys) h = elim (Bool-cases (p x)) [
    | inl e ↦ rw (e, ← kept x y h.0, e) (h.0, filter-Advances xs ys h.1)
    | inr e ↦ rw (e, ← kept x y h.0, e) (filter-Advances xs ys h.1)
  ]
