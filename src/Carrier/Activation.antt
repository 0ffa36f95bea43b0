-- ===== src/Carrier/Activation.antt =====
-- `activate` of backend/src/modules/carrier/services/carrier.service.ts against the limit on carriers.
use truckmaster.Base.{ℕ, ◌≡◌, ◌≤◌, Bool, true, false, not, some, [], ◌∷◌, refl, arith, inl, inr}
use truckmaster.Store.Statuses.{CarrierStatus, ◌is◌, is_one_of, carrier_status_enum}
use truckmaster.Store.Rows.{Carrier, Organization}
use truckmaster.Store.Transaction.{
  Store, Action, Result-cases, with_tenant_transaction, not_found, business_rule, eligibility,
  ◌>>=◌, ◌>>◌,
}
use truckmaster.Store.Queries.{require, find_carrier}
use truckmaster.Carrier.Roster.{activate, activate_pending, activate_ready, start_carrier}
use truckmaster.Carrier.Limits.{carrier_count, is_counted, assert_carrier_slot_available}
use truckmaster.Carrier.Eligibility.{
  check_activation_readiness, compute_compliance_reasons, is_empty,
}
use truckmaster.Carrier.Registry.{registry, AreDrawn, has_slot}
use truckmaster.Carrier.Registry.Drawn.{found-drawn}
use truckmaster.Carrier.Registry.Counting.{passing-present}
use truckmaster.Carrier.Requests.Rules.{found-row, Returns-slot}
use truckmaster.Store.Outcomes.{has_returned, After, Returns, Returns-found, Returns-unless}
use mathlib.Core.Path.{subst}

is_pending-counted :
    (a : CarrierStatus)
    → (a is CarrierStatus.pending) ≡ true
    → is_one_of a (CarrierStatus.pending ∷ CarrierStatus.active ∷ []) ≡ true
is_pending-counted CarrierStatus.pending h = refl
is_pending-counted CarrierStatus.active h = refl
is_pending-counted CarrierStatus.blocked h = h
is_pending-counted CarrierStatus.inactive h = h

-- A pending carrier occupies a slot.
pending-count :
    (org id : ℕ) (c : Carrier) (s : Store)
    → AreDrawn (registry s)
    → find_carrier org id s ≡ some c
    → (c.status is CarrierStatus.pending) ≡ true
    → 1 ≤ carrier_count org s
unfolding carrier_count
pending-count org id c s drawn found pending =
    let (row, keyed) = found-row org id s c found in
    let counted = is_pending-counted c.status pending in
    let less = found-drawn (registry s) id c drawn row in
    passing-present (is_counted org) s.next_id id s.carriers c less row
      (ground (arith, keyed, counted))

refused :
    {A : Type 0} (m : Action A) (s : Store)
    → Returns (λ a t. ⊥) m s
    → has_returned (with_tenant_transaction m s).0 ≡ false
unfolding with_tenant_transaction
refused m s never = elim (Result-cases (m s).0) [
  | inl (e, failed) ↦ rw failed refl
  | inr (a, made) ↦ absurd (subst (λ r. After (λ a t. ⊥) (r, (m s).1)) made never)
]

no_slot :
    (org : ℕ) (o : Organization) (s : Store)
    → s.master.organizations org ≡ some o
    → o.max_carriers ≡ some 1
    → 1 ≤ carrier_count org s
    → has_slot org (registry s) ≡ false
unfolding carrier_count
no_slot org o s e one filled = ground (arith, e, one, filled)

impossible : {b : Bool} → b ≡ true → b ≡ false → ⊥
impossible h k = cc

-- If the rows of the carriers stand under drawn ids and an organization may have one carrier, as a demo
-- organization, then `activate` refuses every carrier of it, whatever the carrier's papers: the pending
-- carrier itself takes the only slot.
pub activate-limit_one :
    (now org id actor : ℕ) (o : Organization) (s : Store)
    → AreDrawn (registry s)
    → s.master.organizations org ≡ some o
    → o.max_carriers ≡ some 1
    → has_returned (activate now org id actor s).0 ≡ false
unfolding activate check_activation_readiness
activate-limit_one now org id actor o s drawn e one =
    let never = λ (u : Carrier) (t : Store). ⊥ in
    let ready = is_empty (compute_compliance_reasons now org id s) in
    let body = activate_pending now org id actor in
    refused (require (find_carrier org id) >>= body) s (
      Returns-found never not_found (find_carrier org id s) body s (λ c found.
        Returns-unless never (not (c.status is CarrierStatus.pending)) business_rule
          (check_activation_readiness now org id >>= activate_ready now org id actor) s
          (λ pending.
            Returns-unless never (not ready) (eligibility (compute_compliance_reasons now org id s))
              (assert_carrier_slot_available org >> start_carrier now org id actor) s
              (λ compliant. Returns-slot never org (start_carrier now org id actor) s (λ slot.
                let filled = pending-count org id c s drawn found (ground (arith, pending)) in
                let none_left = no_slot org o s e one filled in
                absurd (impossible slot none_left))))))
