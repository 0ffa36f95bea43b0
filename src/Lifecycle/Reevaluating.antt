-- ===== src/Lifecycle/Reevaluating.antt =====
-- `reEvaluateLoadStatus` of dispatch-tracking.service.ts, and the operations that end with it, against
-- the diagram.
use truckmaster.Base.{ℕ, ◌≡◌, true, some, List, arith, Option-cases, inl, inr}
use truckmaster.Lifecycle.Diagram.{
  Quiet, Quiet-refl, Evolves, may_become, needs_carrier, Quiet-Evolves, Quiet-then,
}
use truckmaster.Store.Statuses.{LoadStatus}
use truckmaster.Store.Rows.{Load}
use truckmaster.Store.Transaction.{Store, Action, pure, with_tenant_transaction, ◌>>=◌}
use truckmaster.Store.Queries.{find_load, require}
use truckmaster.Tracking.{progress_of, re_evaluate_load_status}
use truckmaster.Tracking.Derivation.{StopProgress, derive_load_status}
use truckmaster.Tracking.Derivation.Order.{derive_load_status-progress}

-- A derived status follows the present one, and needs a carrier only where that did.
derive_load_status_follows :
    (current : LoadStatus) (stops : List StopProgress)
    → (may_become current (derive_load_status current stops) ≡ true)
      × (needs_carrier (derive_load_status current stops) ≡ needs_carrier current)
derive_load_status_follows current stops = ground (arith, derive_load_status-progress current stops)

re_evaluate-Evolves :
    (org : ℕ) (load : Load) (s : Store)
    → s.loads load.id ≡ some load
    → Evolves s (re_evaluate_load_status org load s).1
unfolding re_evaluate_load_status
re_evaluate-Evolves org load s h i =
    ground (arith, derive_load_status_follows load.status (progress_of org load.id s))

pub find_load_found :
    (org id : ℕ) (l : Load) (s : Store)
    → find_load org id s ≡ some l
    → (s.loads id ≡ some l) × (l.id ≡ id)
find_load_found org id l s h = ground arith

-- The re-evaluation of a load after an action that leaves the loads alone.
re_evaluate_after :
    (org : ℕ) (load_id : ℕ) (load : Load) (s t : Store)
    → find_load org load_id s ≡ some load
    → Quiet s t
    → Evolves s (re_evaluate_load_status org load t).1
re_evaluate_after org load_id load s t h same i =
    let facts = find_load_found org load_id load s h in
    let known : t.loads load.id ≡ some load = cc (facts.0, facts.1, same.loads) in
    Quiet-then s t _ same i (re_evaluate-Evolves org load t known i)

-- The shape of the operations that change stops and then derive the status of the load anew.
module _ {A R : Type 0} (body : Load → Action A) (finish : A → Load → R) (org load_id : ℕ) where
  pub re_evaluating-Evolves :
      ((load : Load) (s : Store) → Quiet s (body load s).1)
      → (s : Store)
      → Evolves s
          (with_tenant_transaction
            (do
              load ← require (find_load org load_id)
              a ← body load
              updated_load ← re_evaluate_load_status org load
              pure (finish a updated_load))
            s).1
  unfolding with_tenant_transaction
  re_evaluating-Evolves keeps s i = elim (Option-cases (find_load org load_id s)) [
    | inl missing ↦ ground (arith, Quiet-Evolves s s (Quiet-refl s) i)
    | inr (load, e) ↦ ground (
      arith,
      Quiet-Evolves s s (Quiet-refl s) i,
      re_evaluate_after org load_id load s (body load s).1 e (keeps load s) i,
    )
  ]
