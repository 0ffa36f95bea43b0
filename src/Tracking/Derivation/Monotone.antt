-- ===== src/Tracking/Derivation/Monotone.antt =====
-- How the derived status moves as the stops move.
use truckmaster.Base.{
  ◌≤◌, ◌≡◌, refl, ℕ, Bool, true, false, Option, none, some, List, [], ◌∷◌, ◌++◌, arith, filter, all,
  any, last_max, All, filter-append, append-nil, Bool-cases, inl, inr, leb, later_max,
}
use truckmaster.Store.Statuses.{LoadStatus, StopPurpose, stop_status_enum, load_status_enum}
use truckmaster.Tracking.Derivation.{
  StopProgress, is_pickup, is_delivery, is_completed, has_started, is_done, derive_load_status,
}
use truckmaster.Tracking.Derivation.Order.{
  Progress, waiting, picking_up, under_way, arrived, progress, is_derivable,
  derive_load_status-progress, Advance, Advances, filter-Advances, sequence_of,
}

abbrev pub rank : Progress → ℕ
rank waiting = 0
rank picking_up = 1
rank under_way = 2
rank arrived = 3

pickup_kept : (a b : StopProgress) → Advance a b → is_pickup a ≡ is_pickup b
pickup_kept a b h = rw (h.same_type, h.same_purpose)

delivery_kept : (a b : StopProgress) → Advance a b → is_delivery a ≡ is_delivery b
delivery_kept a b h = rw (h.same_type, h.same_purpose)

completed_kept : (a b : StopProgress) → Advance a b → is_completed a ≡ true → is_completed b ≡ true
completed_kept a b h e = ground arith

started_kept : (a b : StopProgress) → Advance a b → has_started a ≡ true → has_started b ≡ true
started_kept a b h e = ground arith

all_completed_kept :
    (xs ys : List StopProgress)
    → Advances xs ys
    → all is_completed xs ≡ true
    → all is_completed ys ≡ true
all_completed_kept [] [] h e = refl
all_completed_kept [] (y ∷ ys) h e = absurd h
all_completed_kept (x ∷ xs) [] h e = absurd h
all_completed_kept (x ∷ xs) (y ∷ ys) h e =
    ground (arith, completed_kept x y h.0, all_completed_kept xs ys h.1)

any_started_kept :
    (xs ys : List StopProgress)
    → Advances xs ys
    → any has_started xs ≡ true
    → any has_started ys ≡ true
any_started_kept [] [] h e = e
any_started_kept [] (y ∷ ys) h e = absurd h
any_started_kept (x ∷ xs) [] h e = absurd h
any_started_kept (x ∷ xs) (y ∷ ys) h e =
    ground (arith, started_kept x y h.0, any_started_kept xs ys h.1)

abbrev AdvanceOption : Option StopProgress → Option StopProgress → Type 0
AdvanceOption none none = Unit
AdvanceOption (some a) (some b) = Advance a b
AdvanceOption none (some b) = ⊥
AdvanceOption (some a) none = ⊥

later_kept :
    (x y : StopProgress) (a b : Option StopProgress)
    → Advance x y
    → AdvanceOption a b
    → AdvanceOption (later_max sequence_of x a) (later_max sequence_of y b)
later_kept x y none none h k = h
later_kept x y (some a) (some b) h k = elim (Bool-cases (leb x.sequence a.sequence)) [
  | inl e ↦
      let e' : leb y.sequence b.sequence ≡ true = rw (h.same_sequence, k.same_sequence) at e in
      rw (e, e') k
  | inr e ↦
      let e' : leb y.sequence b.sequence ≡ false = rw (h.same_sequence, k.same_sequence) at e in
      rw (e, e') h
]
later_kept x y none (some b) h k = absurd k
later_kept x y (some a) none h k = absurd k

last_max_kept :
    (xs ys : List StopProgress)
    → Advances xs ys
    → AdvanceOption (last_max sequence_of xs) (last_max sequence_of ys)
last_max_kept [] [] h = tt
last_max_kept [] (y ∷ ys) h = absurd h
last_max_kept (x ∷ xs) [] h = absurd h
last_max_kept (x ∷ xs) (y ∷ ys) h =
    later_kept x y (last_max sequence_of xs) (last_max sequence_of ys) h.0 (last_max_kept xs ys h.1)

done_kept : (a b : Option StopProgress) → AdvanceOption a b → is_done a ≡ true → is_done b ≡ true
done_kept none none h e = e
done_kept (some a) (some b) h e = completed_kept a b h e
done_kept none (some b) h e = absurd h
done_kept (some a) none h e = absurd h

-- Stops that have only gone forward have come at least as far.
progress_monotone :
    (xs ys : List StopProgress) → Advances xs ys → rank (progress xs) ≤ rank (progress ys)
unfolding progress
progress_monotone xs ys h =
    let pickups = filter-Advances is_pickup pickup_kept xs ys h in
    let deliveries = filter-Advances is_delivery delivery_kept xs ys h in
    ground (
      arith,
      all_completed_kept (filter is_pickup xs) (filter is_pickup ys) pickups,
      any_started_kept (filter is_pickup xs) (filter is_pickup ys) pickups,
      done_kept (last_max sequence_of (filter is_delivery xs))
          (last_max sequence_of (filter is_delivery ys))
          (last_max_kept (filter is_delivery xs) (filter is_delivery ys) deliveries),
    )

-- Where a status stands on the way from Dispatched to Delivered.
abbrev pub stage : LoadStatus → ℕ
stage LoadStatus.pickup = 1
stage LoadStatus.in_transit = 2
stage LoadStatus.delivered = 3
stage _ = 0

stage-derive_load_status :
    (current : LoadStatus) (stops : List StopProgress)
    → is_derivable current ≡ true
    → stage current ≤ rank (progress stops)
    → stage (derive_load_status current stops) ≡ rank (progress stops)
stage-derive_load_status current stops d reached =
    ground (arith, derive_load_status-progress current stops)

-- Once Delivered, a load stays so whatever its stops say.
delivered_kept :
    (stops : List StopProgress)
    → derive_load_status LoadStatus.delivered stops ≡ LoadStatus.delivered
delivered_kept stops = derive_load_status-progress LoadStatus.delivered stops

-- From a status that the stops have reached, and over stops that then only go forward: the derived
-- status is exactly as far as the stops are, before and after, and it never goes back.
pub derive_load_status_monotone :
    (current : LoadStatus) (xs ys : List StopProgress)
    → is_derivable current ≡ true
    → stage current ≤ rank (progress xs)
    → Advances xs ys
    → let next = derive_load_status current xs in
      let last = derive_load_status next ys in
      (stage next ≡ rank (progress xs))
      × (stage last ≡ rank (progress ys))
      × (stage current ≤ stage next)
      × (stage next ≤ stage last)
derive_load_status_monotone current xs ys d reached h = ground (
  arith,
  stage-derive_load_status current xs d reached,
  stage-derive_load_status (derive_load_status current xs) ys,
  derive_load_status-progress current xs,
  delivered_kept ys,
  progress_monotone xs ys h,
)

abbrev pub IsReturn : StopProgress → Type 0
IsReturn s = s.stop_purpose ≡ StopPurpose.return

filter-returns :
    (p : StopProgress → Bool) (xs : List StopProgress)
    → ((s : StopProgress) → IsReturn s → p s ≡ false)
    → All IsReturn xs
    → filter p xs ≡ []
filter-returns p [] none_pass h = refl
filter-returns p (x ∷ xs) none_pass h = rw (none_pass x h.0) (filter-returns p xs none_pass h.1)

progress-returns :
    (stops returns : List StopProgress)
    → All IsReturn returns
    → progress (stops ++ returns) ≡ progress stops
unfolding progress
progress-returns stops returns h = rw (
  filter-append is_pickup stops returns,
  filter-append is_delivery stops returns,
  filter-returns is_pickup returns (λ s e. ground arith) h,
  filter-returns is_delivery returns (λ s e. ground arith) h,
  append-nil,
  append-nil,
)

-- Stops of a return leg, in any state, appended after the others, do not change the derived status.
pub derive_load_status-returns :
    (current : LoadStatus) (stops returns : List StopProgress)
    → All IsReturn returns
    → derive_load_status current (stops ++ returns) ≡ derive_load_status current stops
derive_load_status-returns current stops returns h = rw (
  derive_load_status-progress current (stops ++ returns),
  derive_load_status-progress current stops,
  progress-returns stops returns h,
)
