-- ===== src/Tracking/Sequence.antt =====
-- The numbering of the stops of a return leg, by `initiateReturn` of dispatch-tracking.service.ts.
use truckmaster.Base.{
  ℕ, suc, ◌<◌, ◌≤◌, Option, List, [], ◌∷◌, arith, All, filter, last_max, last-sort_by, later_max,
}
use truckmaster.Store.Rows.{Stop}
use truckmaster.Store.Transaction.{Store}
use truckmaster.Store.Queries.{is_stop_of}
use truckmaster.Tracking.Returns.{next_sequence, sequence_or_zero}

abbrev number : Stop → ℕ
number stop = stop.sequence

later_bounds :
    (x : Stop) (best : Option Stop)
    → (x.sequence ≤ sequence_or_zero (later_max number x best))
      × (sequence_or_zero best ≤ sequence_or_zero (later_max number x best))
later_bounds x best = ground arith

All-weaken :
    (m n : ℕ) (xs : List Stop)
    → m ≤ n
    → All (λ (y : Stop). y.sequence ≤ m) xs
    → All (λ (y : Stop). y.sequence ≤ n) xs
All-weaken m n [] h k = tt
All-weaken m n (x ∷ xs) h k = (omega arith, All-weaken m n xs h k.1)

last_max-bounds :
    (xs : List Stop) → All (λ (y : Stop). y.sequence ≤ sequence_or_zero (last_max number xs)) xs
last_max-bounds [] = tt
last_max-bounds (x ∷ xs) =
    let (here, there) = later_bounds x (last_max number xs) in
    (here, All-weaken _ _ xs there (last_max-bounds xs))

below_next :
    (m : ℕ) (xs : List Stop)
    → All (λ (y : Stop). y.sequence ≤ m) xs
    → All (λ (y : Stop). y.sequence < suc m) xs
below_next m [] h = tt
below_next m (x ∷ xs) h = (omega arith, below_next m xs h.1)

-- The number that the next stop of a load is given is greater than that of every stop that the load
-- has.
pub next_sequence-above :
    (org load_id : ℕ) (s : Store)
    → All
        (λ (y : Stop). y.sequence < next_sequence org load_id s)
        (filter (is_stop_of org load_id) s.stops)
unfolding next_sequence
next_sequence-above org load_id s =
    let own = filter (is_stop_of org load_id) s.stops in
    rw (last-sort_by number own)
      (below_next (sequence_or_zero (last_max number own)) own (last_max-bounds own))
