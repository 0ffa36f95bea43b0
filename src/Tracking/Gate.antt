-- ===== src/Tracking/Gate.antt =====
-- The checks of `dispatch` of dispatch-tracking.service.ts.
use truckmaster.Base.{ℕ, ◌≡◌, inl, inr, true, none, some, arith, Option-cases, is_some}
use truckmaster.Store.Statuses.{LoadStatus, DocumentCode, EntityType, load_status_enum}
use truckmaster.Store.Rows.{Load, Carrier, DispatchInfo}
use truckmaster.Store.Transaction.{
  Store, Failure, ok, err, database, Result-cases, with_tenant_transaction,
}
use truckmaster.Store.Queries.{find_carrier, find_load, find_document}
use truckmaster.Carrier.Eligibility.{recalculate, eligibility_reasons, is_empty}
use truckmaster.Carrier.Decision.{recalculate-persists}
use truckmaster.Tracking.Dispatch.{dispatch, dispatch_gate}

recalculate-missing :
    (now org id : ℕ) (s : Store)
    → find_carrier org id s ≡ none
    → (recalculate now org id s) ≡ (err database, s)
unfolding recalculate
recalculate-missing now org id s missing = ground arith

-- What the gate has seen when it lets a load pass.
gate_passed :
    (now org load_id : ℕ) (dto : DispatchInfo) (l : Load) (s : Store)
    → (dispatch_gate now org load_id dto s).0 ≡ ok l
    → (find_load org load_id s ≡ some l)
      × (l.status ≡ LoadStatus.rate_confirmation)
      × (is_some l.carrier_rate ≡ true)
      × (is_some l.assigned_carrier_id ≡ true)
unfolding dispatch_gate
gate_passed now org load_id dto l s h = ground arith

documents_kept :
    (now org id load_id : ℕ) (s : Store)
    → find_document org EntityType.load load_id DocumentCode.rate_confirmation
        (recalculate now org id s).1
      ≡ find_document org EntityType.load load_id DocumentCode.rate_confirmation s
unfolding recalculate
documents_kept now org id load_id s = elim (Option-cases (find_carrier org id s)) [
  | inl missing ↦ ground arith
  | inr (c, e) ↦ ground arith
]

missing_refused :
    (now org load_id carrier_id : ℕ) (dto : DispatchInfo) (l : Load) (s : Store)
    → (dispatch_gate now org load_id dto s).0 ≡ ok l
    → l.assigned_carrier_id ≡ some carrier_id
    → find_carrier org carrier_id s ≡ none
    → ⊥
unfolding dispatch_gate
missing_refused now org load_id carrier_id dto l s h e missing =
    ground (
      arith,
      gate_passed now org load_id dto l s h,
      recalculate-missing now org carrier_id s missing,
    )

gate_eligible :
    (now org load_id carrier_id : ℕ) (dto : DispatchInfo) (l : Load) (s : Store)
    → (dispatch_gate now org load_id dto s).0 ≡ ok l
    → l.assigned_carrier_id ≡ some carrier_id
    → (carrier : Carrier) × (find_carrier org carrier_id s ≡ some carrier)
      × (is_empty (eligibility_reasons now org carrier_id carrier s) ≡ true)
unfolding dispatch_gate
gate_eligible now org load_id carrier_id dto l s h e =
    let passed = gate_passed now org load_id dto l s h in
    elim (Option-cases (find_carrier org carrier_id s)) [
      | inl missing ↦ elim (missing_refused now org load_id carrier_id dto l s h e missing) [ ]
      | inr (carrier, found) ↦ (
        carrier,
        found,
        ground (arith, passed, recalculate-persists now org carrier_id carrier s found),
      )
    ]

gate_document :
    (now org load_id : ℕ) (dto : DispatchInfo) (l : Load) (s : Store)
    → (dispatch_gate now org load_id dto s).0 ≡ ok l
    → is_some (find_document org EntityType.load load_id DocumentCode.rate_confirmation s) ≡ true
unfolding dispatch_gate
gate_document now org load_id dto l s h = elim (Option-cases l.assigned_carrier_id) [
  | inl unassigned ↦ ground (arith, gate_passed now org load_id dto l s h)
  | inr (id, e) ↦
      ground (arith, gate_passed now org load_id dto l s h, documents_kept now org id load_id s)
]

unassigned_refused :
    (l : Load) → is_some l.assigned_carrier_id ≡ true → l.assigned_carrier_id ≡ none → ⊥
unassigned_refused l h e = ground arith

dispatch_refused :
    (now org load_id : ℕ) (dto : DispatchInfo) (actor : ℕ) (l : Load) (f : Failure) (s : Store)
    → (dispatch_gate now org load_id dto s).0 ≡ err f
    → (dispatch now org load_id dto actor s).0 ≡ ok l
    → ⊥
unfolding dispatch with_tenant_transaction
dispatch_refused now org load_id dto actor l f s failed h = ground arith

dispatch_gated :
    (now org load_id : ℕ) (dto : DispatchInfo) (actor : ℕ) (l : Load) (s : Store)
    → (dispatch now org load_id dto actor s).0 ≡ ok l
    → (load : Load) × ((dispatch_gate now org load_id dto s).0 ≡ ok load)
dispatch_gated now org load_id dto actor l s h =
    elim (Result-cases (dispatch_gate now org load_id dto s).0) [
      | inl (f, failed) ↦ elim (dispatch_refused now org load_id dto actor l f s failed h) [ ]
      | inr (load, passed) ↦ (load, passed)
    ]

-- A dispatch that succeeds was of a load at Rate Confirmation that has a carrier rate and a current
-- rate confirmation, and its carrier has no ineligibility reason at that time.
pub dispatch-requires :
    (now org load_id : ℕ) (dto : DispatchInfo) (actor : ℕ) (l : Load) (s : Store)
    → (dispatch now org load_id dto actor s).0 ≡ ok l
    → (load : Load) × (find_load org load_id s ≡ some load)
      × (load.status ≡ LoadStatus.rate_confirmation)
      × (is_some load.carrier_rate ≡ true)
      × (is_some (find_document org EntityType.load load_id DocumentCode.rate_confirmation s)
          ≡ true)
      × ((id : ℕ) × (carrier : Carrier) × (load.assigned_carrier_id ≡ some id)
          × (find_carrier org id s ≡ some carrier)
          × (is_empty (eligibility_reasons now org id carrier s) ≡ true))
dispatch-requires now org load_id dto actor l s h =
    let (load, passed) = dispatch_gated now org load_id dto actor l s h in
    let (found_load, confirmed, rated, staffed) = gate_passed now org load_id dto load s passed in
    let document = gate_document now org load_id dto load s passed in
    elim (Option-cases load.assigned_carrier_id) [
      | inl unassigned ↦ elim (unassigned_refused load staffed unassigned) [ ]
      | inr (id, e) ↦
          let (carrier, found, clear) = gate_eligible now org load_id id dto load s passed e in
          (load, found_load, confirmed, rated, document, (id, carrier, e, found, clear))
    ]
