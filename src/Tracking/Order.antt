-- ===== src/Tracking/Order.antt =====
-- The times of a stop, by `recordDeparture` of dispatch-tracking.service.ts.
use truckmaster.Base.{
  ℕ, ◌≤◌, ◌≡◌, refl, false, Option, none, some, arith, Option-cases, inl, inr, or_else,
}
use truckmaster.Store.Statuses.{StopStatus, stop_status_enum}
use truckmaster.Store.Rows.{Load, Stop}
use truckmaster.Store.Transaction.{Store, Failure, ok, err, Result-cases, with_tenant_transaction}
use truckmaster.Store.Queries.{find_load}
use truckmaster.Tracking.Progress.{Tracked, trackable_stop, depart, record_departure, precedes}

abbrev pub IsNotAfter : Option ℕ → ℕ → Type 0
IsNotAfter none departure = Unit
IsNotAfter (some arrival) departure = arrival ≤ departure

-- Completed, and left no earlier than it was arrived at.
pub record IsLeft (stop : Stop) : Type 0 where
  completed : stop.status ≡ StopStatus.completed
  departure : ℕ
  left : stop.actual_departure ≡ some departure
  ordered : IsNotAfter stop.actual_arrival departure

not_precedes : (t : ℕ) (given : Option ℕ) → precedes t given ≡ false → IsNotAfter given t
not_precedes t given h = ground arith

left_stop :
    (now org load_id sequence : ℕ) (given : Option ℕ) (actor : ℕ) (load : Load) (stop q : Stop)
    (s : Store)
    → (trackable_stop org load_id sequence load s).0 ≡ ok q
    → (depart now org load_id sequence given actor load s).0 ≡ ok stop
    → (stop
        ≡ record q { actual_departure = some (or_else given now); status = StopStatus.completed })
      × (precedes (or_else given now) q.actual_arrival ≡ false)
unfolding depart
left_stop now org load_id sequence given actor load stop q s found h = ground arith

no_stop :
    (now org load_id sequence : ℕ) (given : Option ℕ) (actor : ℕ) (load : Load) (stop : Stop)
    (f : Failure) (s : Store)
    → (trackable_stop org load_id sequence load s).0 ≡ err f
    → (depart now org load_id sequence given actor load s).0 ≡ ok stop
    → ⊥
unfolding depart
no_stop now org load_id sequence given actor load stop f s failed h = ground arith

no_load :
    (now org load_id sequence : ℕ) (given : Option ℕ) (actor : ℕ) (r : Tracked) (s : Store)
    → find_load org load_id s ≡ none
    → (record_departure now org load_id sequence given actor s).0 ≡ ok r
    → ⊥
unfolding record_departure with_tenant_transaction
no_load now org load_id sequence given actor r s missing h = ground arith

found_stop :
    (now org load_id sequence : ℕ) (given : Option ℕ) (actor : ℕ) (load : Load) (stop : Stop)
    (s : Store)
    → (depart now org load_id sequence given actor load s).0 ≡ ok stop
    → IsLeft stop
found_stop now org load_id sequence given actor load stop s h =
    elim (Result-cases (trackable_stop org load_id sequence load s).0) [
      | inl (f, failed) ↦
          elim (no_stop now org load_id sequence given actor load stop f s failed h) [ ]
      | inr (q, found) ↦
          let (same, ordered) =
            left_stop now org load_id sequence given actor load stop q s found h in
          record {
            completed = rw same refl;
            departure = or_else given now;
            left = rw same refl;
            ordered = rw same (not_precedes (or_else given now) q.actual_arrival ordered);
          }
    ]

departed :
    (now org load_id sequence : ℕ) (given : Option ℕ) (actor : ℕ) (r : Tracked) (s : Store)
    → (record_departure now org load_id sequence given actor s).0 ≡ ok r
    → (load : Load) × ((depart now org load_id sequence given actor load s).0 ≡ ok r.stop)
unfolding record_departure with_tenant_transaction
departed now org load_id sequence given actor r s h =
    elim (Option-cases (find_load org load_id s)) [
      | inl missing ↦ elim (no_load now org load_id sequence given actor r s missing h) [ ]
      | inr (load, e) ↦ (load, ground (arith))
    ]

-- A departure that is recorded completes the stop, and its time is not before the arrival's.
pub record_departure-IsLeft :
    (now org load_id sequence : ℕ) (given : Option ℕ) (actor : ℕ) (r : Tracked) (s : Store)
    → (record_departure now org load_id sequence given actor s).0 ≡ ok r
    → IsLeft r.stop
record_departure-IsLeft now org load_id sequence given actor r s h =
    let (load, made) = departed now org load_id sequence given actor r s h in
    found_stop now org load_id sequence given actor load r.stop s made
