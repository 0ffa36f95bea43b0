-- ===== src/Lifecycle/Dispatching.antt =====
-- `dispatch` and `updateDispatch` of dispatch-tracking.service.ts against the diagram.
use truckmaster.Base.{ℕ, ◌≡◌, true, Option, some, arith, is_some, Option-cases, inl, inr}
use truckmaster.Lifecycle.Diagram.{Quiet, Quiet-refl, Evolves, Quiet-Evolves}
use truckmaster.Lifecycle.Sourcing.{recalculate-Quiet}
use truckmaster.Store.Statuses.{LoadStatus}
use truckmaster.Store.Rows.{Load, DispatchInfo}
use truckmaster.Store.Transaction.{Store, ok, Result-cases, with_tenant_transaction}
use truckmaster.Carrier.Eligibility.{recalculate}
use truckmaster.Tracking.Dispatch.{
  dispatch, dispatch_gate, DispatchUpdate, SourceIds, source_ids, update_ids, update_dispatch,
  validate_source_resources,
}

pub validate_keeps :
    (org : ℕ) (carrier_id : Option ℕ) (ids : SourceIds) (s : Store)
    → (validate_source_resources org carrier_id ids s).1 ≡ s
unfolding validate_source_resources
validate_keeps org carrier_id ids s = ground arith

dispatch_gate-Quiet :
    (now org load_id : ℕ) (dto : DispatchInfo) (s : Store)
    → Quiet s (dispatch_gate now org load_id dto s).1
unfolding dispatch_gate
dispatch_gate-Quiet now org load_id dto s = elim (Option-cases (s.loads load_id)) [
  | inl missing ↦ ground arith
  | inr (l, e) ↦ elim (Option-cases l.assigned_carrier_id) [
    | inl unassigned ↦ ground arith
    | inr (c, e') ↦ ground (
      arith,
      recalculate-Quiet now org c s,
      validate_keeps org (some c) (source_ids dto) (recalculate now org c s).1,
    )
  ]
]

-- A load that has passed the gate has a carrier and a carrier rate, and waits for its dispatch.
dispatch_gate_passed :
    (now org load_id : ℕ) (dto : DispatchInfo) (l : Load) (s : Store)
    → (dispatch_gate now org load_id dto s).0 ≡ ok l
    → (s.loads load_id ≡ some l)
      × (l.status ≡ LoadStatus.rate_confirmation)
      × (is_some l.assigned_carrier_id ≡ true)
      × (is_some l.carrier_rate ≡ true)
unfolding dispatch_gate
dispatch_gate_passed now org load_id dto l s h = ground arith

pub dispatch-Evolves :
    (now org load_id : ℕ) (dto : DispatchInfo) (actor : ℕ) (s : Store)
    → Evolves s (dispatch now org load_id dto actor s).1
unfolding dispatch with_tenant_transaction
dispatch-Evolves now org load_id dto actor s i =
    elim (Result-cases (dispatch_gate now org load_id dto s).0) [
      | inl (e, refused) ↦ ground (arith, Quiet-Evolves s s (Quiet-refl s) i)
      | inr (l, passed) ↦
          let facts = dispatch_gate_passed now org load_id dto l s passed in
          ground (arith, facts, dispatch_gate-Quiet now org load_id dto s)
    ]

update_dispatch-Quiet :
    (org load_id : ℕ) (dto : DispatchUpdate) (actor : ℕ) (s : Store)
    → Quiet s (update_dispatch org load_id dto actor s).1
unfolding update_dispatch with_tenant_transaction
update_dispatch-Quiet org load_id dto actor s = elim (Option-cases (s.loads load_id)) [
  | inl missing ↦ ground arith
  | inr (l, e) ↦ ground (arith, validate_keeps org l.assigned_carrier_id (update_ids dto) s)
]

pub update_dispatch-Evolves :
    (org load_id : ℕ) (dto : DispatchUpdate) (actor : ℕ) (s : Store)
    → Evolves s (update_dispatch org load_id dto actor s).1
update_dispatch-Evolves org load_id dto actor s =
    Quiet-Evolves s (update_dispatch org load_id dto actor s).1
      (update_dispatch-Quiet org load_id dto actor s)
