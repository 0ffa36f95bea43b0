-- ===== src/Tracking.antt =====
-- A load on the road: what its stops say of its status, and the operations of
-- backend/src/modules/quote-load/services/dispatch-tracking.service.ts. This file holds what
-- several of them share.
pub mod Derivation
pub mod Dispatch
pub mod Gate
pub mod Progress
pub mod Editing
pub mod Returns
pub mod Sequence
pub mod Order
pub mod Monitoring
use truckmaster.Base.{ℕ, Bool, true, false, not, none, List, [], ◌∷◌, map, filter, if◌then◌else◌}
use truckmaster.Store.Statuses.{LoadStatus, ◌is◌, is_one_of, load_status_enum}
use truckmaster.Store.Rows.{Load, Stop}
use truckmaster.Store.Transaction.{Store, Action, pure, gets, when, record_audit, ◌>>=◌, ◌>>◌}
use truckmaster.Store.Audit
use truckmaster.Store.Queries.{update_load, is_stop_of}
use Derivation.{StopProgress, derive_load_status}

abbrev pub post_dispatch_statuses : List LoadStatus
post_dispatch_statuses = LoadStatus.dispatched ∷ LoadStatus.pickup ∷ LoadStatus.in_transit ∷ []

abbrev pub is_post_dispatch : LoadStatus → Bool
is_post_dispatch s = is_one_of s post_dispatch_statuses

-- The keys of `LOAD_STATUS_ADVANCED_ACTION`.
abbrev pub advanced_statuses : List LoadStatus
advanced_statuses = LoadStatus.pickup ∷ LoadStatus.in_transit ∷ LoadStatus.delivered ∷ []

abbrev pub stop_progress : Stop → StopProgress
stop_progress s = record {
  stop_type = s.details.stop_type;
  stop_purpose = s.stop_purpose;
  status = s.status;
  sequence = s.sequence;
}

unfoldable pub progress_of : ℕ → ℕ → Store → List StopProgress
progress_of org load_id s = map stop_progress (filter (is_stop_of org load_id) s.stops)

unfoldable pub re_evaluate_load_status : ℕ → Load → Action Load
re_evaluate_load_status org load = do
  stops ← gets (progress_of org load.id)
  let next_status = derive_load_status load.status stops
  if next_status is load.status then pure load else do
    updated ← update_load load.id (λ l. record l { status = next_status })
    when (is_one_of next_status advanced_statuses)
        (record_audit org load.id (Audit.load_status_advanced load.status next_status) none)
    pure updated
