-- ===== src/Carrier/Registry/Within.antt =====
-- The limit of an organization on its pending and active carriers.
use truckmaster.Base.{
  ℕ, suc, ◌≡◌, refl, ◌≤◌, ◌<◌, Bool, true, false, none, some, ◌==◌, arith, Option-cases, inl, inr,
  Bool-cases, [], ◌∷◌, sym,
}
use truckmaster.Store.Statuses.{CarrierStatus, is_one_of, carrier_status_enum}
use truckmaster.Store.Rows.{Carrier}
use truckmaster.Store.Transaction.{put}
use truckmaster.Carrier.Limits.{is_counted}
use truckmaster.Carrier.Roster.{CarrierDto, new_carrier}
use truckmaster.Carrier.Registry.{
  Registry, Step, draw, create, change, Reaches, here, next, AreDrawn, CarrierChange, may_become,
  is_starting, count, fits, has_slot,
}
use truckmaster.Carrier.Registry.Drawn.{found-drawn, Step-AreDrawn}
use truckmaster.Carrier.Registry.Counting.{passing-suc, passing-put, passing-put_above}

abbrev pub is_within : ℕ → Registry → Bool
is_within org r = elim (r.organizations org) [
  | none ↦ true
  | some o ↦ fits o.max_carriers (count org r)
]

-- Rows are kept under drawn ids, and the limit is respected.
pub record IsWithin (org : ℕ) (r : Registry) : Type 0 where
  pub drawn : AreDrawn r
  pub within : is_within org r ≡ true

-- A carrier that changes without becoming active is counted only if it was.
counted_before :
    (a b : CarrierStatus)
    → may_become a b ≡ true
    → is_starting a b ≡ false
    → is_one_of b (CarrierStatus.pending ∷ CarrierStatus.active ∷ []) ≡ true
    → is_one_of a (CarrierStatus.pending ∷ CarrierStatus.active ∷ []) ≡ true
counted_before CarrierStatus.pending b = λ x y z. refl
counted_before CarrierStatus.active b = λ x y z. refl
counted_before CarrierStatus.blocked CarrierStatus.pending = λ x y z. x
counted_before CarrierStatus.blocked CarrierStatus.active = λ x y z. sym y
counted_before CarrierStatus.blocked CarrierStatus.blocked = λ x y z. z
counted_before CarrierStatus.blocked CarrierStatus.inactive = λ x y z. z
counted_before CarrierStatus.inactive CarrierStatus.pending = λ x y z. x
counted_before CarrierStatus.inactive CarrierStatus.active = λ x y z. sym y
counted_before CarrierStatus.inactive CarrierStatus.blocked = λ x y z. z
counted_before CarrierStatus.inactive CarrierStatus.inactive = λ x y z. z

module _ (o : ℕ) where
  grows :
      (r t : Registry)
      → t.organizations ≡ r.organizations
      → count o t ≤ count o r
      → is_within o r ≡ true
      → is_within o t ≡ true
  grows r t same less h = elim (Option-cases (r.organizations o)) [
    | inl e ↦ ground (arith, same, e)
    | inr (org, e) ↦ elim (Option-cases org.max_carriers) [
      | inl m ↦ ground (arith, same, e, m)
      | inr (limit, m) ↦ ground (arith, same, e, m)
    ]
  ]

  slot-grows :
      (r t : Registry)
      → t.organizations ≡ r.organizations
      → has_slot o r ≡ true
      → count o t ≤ suc (count o r)
      → is_within o t ≡ true
  slot-grows r t same slot less = elim (Option-cases (r.organizations o)) [
    | inl e ↦ ground (arith, same, e)
    | inr (org, e) ↦ elim (Option-cases org.max_carriers) [
      | inl m ↦ ground (arith, same, e, m)
      | inr (limit, m) ↦ ground (arith, same, e, m)
    ]
  ]

  create-within :
      (r : Registry) (org : ℕ) (dto : CarrierDto)
      → has_slot org r ≡ true
      → is_within o r ≡ true
      → is_within o (record r {
        carriers = put r.next_id (new_carrier r.next_id org dto) r.carriers;
        next_id = suc r.next_id;
      })
        ≡ true
  create-within r org dto slot h =
      let new = new_carrier r.next_id org dto in
      let t = put r.next_id new r.carriers in
      let q = record r { carriers = t; next_id = suc r.next_id } in
      let first = passing-suc (is_counted o) r.next_id t in
      let rest = passing-put_above (is_counted o) r.next_id r.next_id new r.carriers in
      elim (Bool-cases (org == o)) [
        | inl e ↦ slot-grows r q refl (ground (arith, e, slot)) (ground (arith, first, rest, e))
        | inr e ↦ grows r q refl (ground (arith, first, rest, e)) h
      ]

  change-within :
      (r : Registry) (id : ℕ) (a b : Carrier)
      → id < r.next_id
      → r.carriers id ≡ some a
      → CarrierChange r a b
      → is_within o r ≡ true
      → is_within o (record r { carriers = put id b r.carriers }) ≡ true
  change-within r id a b less found c h =
      let q = record r { carriers = put id b r.carriers } in
      let moved = passing-put (is_counted o) r.next_id id b r.carriers less in
      let before = counted_before a.status b.status c.follows in
      elim (Bool-cases (is_starting a.status b.status)) [
        | inl starting ↦ elim (Bool-cases (a.organization_id == o)) [
          | inl e ↦ slot-grows r q refl (ground (arith, starting, e)) (ground (arith, moved, found))
          | inr e ↦ grows r q refl (ground (arith, moved, found, e)) h
        ]
        | inr other ↦ grows r q refl (ground (arith, moved, found, before other)) h
      ]

  pub Step-IsWithin : {r t : Registry} → Step r t → IsWithin o r → IsWithin o t
  Step-IsWithin (draw r) h =
      let first = passing-suc (is_counted o) r.next_id r.carriers in
      let empty = h.drawn r.next_id (omega arith) in
      record {
        drawn = Step-AreDrawn (draw r) h.drawn;
        within =
            grows r (record r { next_id = suc r.next_id }) refl (ground (arith, first, empty))
              h.within;
      }
  Step-IsWithin (create r org dto new slot) h = record {
    drawn = Step-AreDrawn (create r org dto new slot) h.drawn;
    within = create-within r org dto slot h.within;
  }
  Step-IsWithin (change r id a b found c) h = record {
    drawn = Step-AreDrawn (change r id a b found c) h.drawn;
    within = change-within r id a b (found-drawn r id a h.drawn found) found c h.within;
  }

  pub Reaches-IsWithin : {r t : Registry} → Reaches r t → IsWithin o r → IsWithin o t
  Reaches-IsWithin here h = h
  Reaches-IsWithin (next p step) h = Step-IsWithin step (Reaches-IsWithin p h)
