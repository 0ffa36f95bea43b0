-- ===== src/Carrier/Requests/RosterSteps.antt =====
-- The operations of carrier.service.ts on the carriers' own rows, as steps of the registry.
use truckmaster.Base.{
  codes, trim, ℕ, ◌≡◌, refl, Bool, true, false, not, ◌||◌, some, List, [], ◌∷◌, String, arith,
  Option-cases, inl, inr, Bool-cases,
}
use truckmaster.Store.Statuses.{CarrierStatus, ◌is◌, is_one_of, carrier_status_enum}
use truckmaster.Store.Rows.{Carrier}
use truckmaster.Store.Transaction.{
  Store, pure, gets, throw_if, when, record_audit, ◌>>=◌, ◌>>◌, not_found, business_rule,
  eligibility,
}
use truckmaster.Store.Audit
use truckmaster.Store.Outcomes.{
  Returns, Returns-bind, Returns-found, Returns-unless, transaction-keeps,
}
use truckmaster.Store.Queries.{require, find_carrier}
use truckmaster.Carrier.Eligibility.{
  is_empty, compute_compliance_reasons, check_activation_readiness,
}
use truckmaster.Carrier.Limits.{assert_carrier_slot_available}
use truckmaster.Carrier.Roster.{
  CarrierDto, CarrierUpdateDto, create, update, activate, block_carrier, deactivate_carrier,
  reactivate_carrier, is_empty_reason, transition_status, with_update, find_duplicate, update_found,
  activate_pending, activate_ready, start_carrier, finish, restart_carrier, transition_found,
  set_status, is_changed, insert_carrier, create_unless,
}
use truckmaster.Carrier.Registry.{
  registry, create as create_step, here, next, has_slot, may_become, is_starting,
}
use truckmaster.Carrier.Requests.Rules.{
  Follows, Returns-slot, Returns-can_create, Returns-update, same_status, change_status,
  from_pending, any_if, Returns-then_recalculate,
}

pub update-Follows :
    (org id : ℕ) (dto : CarrierUpdateDto) (actor : ℕ) (s : Store)
    → Follows s (update org id dto actor s).1
unfolding update
update-Follows org id dto actor s =
    let done = λ (u : Carrier) (t : Store). Follows s t in
    let f = with_update dto in
    transaction-keeps (Follows s) (require (find_carrier org id) >>= update_found org id dto actor)
      s here
      (Returns-found done not_found (find_carrier org id s) (update_found org id dto actor) s
        (λ c found.
          let audit =
            when (is_changed dto c) (record_audit org id Audit.carrier_updated (some actor)) in
          Returns-update done s id f (λ u. audit >> pure u) s here
            (λ row e. same_status (registry s) row (f row) refl refl refl refl refl)
            (λ u t after. elim (Bool-cases (is_changed dto c)) [
              | inl e ↦ rw e after
              | inr e ↦ rw e after
            ])))

pub activate-Follows :
    (now org id actor : ℕ) (s : Store) → Follows s (activate now org id actor s).1
unfolding activate check_activation_readiness
activate-Follows now org id actor s =
    let done = λ (u : Carrier) (t : Store). Follows s t in
    let ready = is_empty (compute_compliance_reasons now org id s) in
    let start = λ (c : Carrier). record c { status = CarrierStatus.active } in
    let body = activate_pending now org id actor in
    transaction-keeps (Follows s) (require (find_carrier org id) >>= body) s here (
      Returns-found done not_found (find_carrier org id s) body s (λ c found.
        Returns-unless done (not (c.status is CarrierStatus.pending)) business_rule
          (check_activation_readiness now org id >>= activate_ready now org id actor) s
          (λ pending.
            Returns-unless done (not ready) (eligibility (compute_compliance_reasons now org id s))
              (assert_carrier_slot_available org >> start_carrier now org id actor) s
              (λ compliant. Returns-slot done org (start_carrier now org id actor) s (λ slot.
                Returns-update done s id start
                  (λ u.
                    record_audit org id Audit.carrier_activated (some actor) >> finish now org id u)
                  s here
                  (λ row e.
                    change_status org id s c row CarrierStatus.active found e
                      (from_pending c.status pending)
                      (any_if (not (is_starting c.status CarrierStatus.active))
                        (has_slot org (registry s)) slot))
                  (λ u t after.
                    Returns-then_recalculate s now org id u
                      (record_audit org id Audit.carrier_activated (some actor) t).1 after))))))

-- A transition of the status, from a store that may already be a later one.
transition-Follows :
    (now org id : ℕ) (s : Store) (from : List CarrierStatus) (b : CarrierStatus)
    (action : Audit.Action) (reason : String) (actor : ℕ)
    → ((a : CarrierStatus)
        → not (is_one_of a from) ≡ false
        → (may_become a b ≡ true) × ((not (is_starting a b) || has_slot org (registry s)) ≡ true))
    → Returns
        (λ u t. Follows s t)
        (transition_status org id from b action reason actor >>= finish now org id)
        s
unfolding transition_status
transition-Follows now org id s from b action reason actor allowed =
    let done = λ (u : Carrier) (t : Store). Follows s t in
    let body = transition_found org id from b action reason actor in
    let after = λ (u : Carrier) (t : Store). Returns done (finish now org id u) t in
    let set = set_status org id b action actor in
    Returns-bind done (require (find_carrier org id) >>= body) (finish now org id) s (
      Returns-found after not_found (find_carrier org id s) body s (λ c found.
        Returns-unless after (not (is_one_of c.status from)) business_rule
          (throw_if (is_empty_reason reason) business_rule >> set) s
          (λ listed.
            let (follows, slot) = allowed c.status listed in
            Returns-unless after (is_empty_reason reason) business_rule set s (λ given.
              Returns-update after s id (λ c. record c { status = b })
                (λ u. record_audit org id action (some actor) >> pure u) s here
                (λ row e. change_status org id s c row b found e follows slot)
                (λ u t now_after.
                  Returns-then_recalculate s now org id u
                    (record_audit org id action (some actor) t).1 now_after)))))

-- An active carrier may leave its status, and needs no slot for it.
leaving_active :
    (slot : Bool) (b : CarrierStatus)
    → may_become CarrierStatus.active b ≡ true
    → (a : CarrierStatus) → not (is_one_of a (CarrierStatus.active ∷ [])) ≡ false
    → (may_become a b ≡ true) × ((not (is_starting a b) || slot) ≡ true)
leaving_active slot b follows CarrierStatus.active h = (follows, refl)
leaving_active slot b follows CarrierStatus.pending h = ground arith
leaving_active slot b follows CarrierStatus.blocked h = ground arith
leaving_active slot b follows CarrierStatus.inactive h = ground arith

from_stopped :
    (a : CarrierStatus)
    → not (is_one_of a (CarrierStatus.blocked ∷ CarrierStatus.inactive ∷ [])) ≡ false
    → may_become a CarrierStatus.active ≡ true
from_stopped CarrierStatus.pending h = refl
from_stopped CarrierStatus.active h = refl
from_stopped CarrierStatus.blocked h = refl
from_stopped CarrierStatus.inactive h = refl

pub block-Follows :
    (now org id : ℕ) (reason : String) (actor : ℕ) (s : Store)
    → Follows s (block_carrier now org id reason actor s).1
unfolding block_carrier
block-Follows now org id reason actor s =
    let action = Audit.carrier_blocked (trim (codes reason)) in
    let from = CarrierStatus.active ∷ [] in
    transaction-keeps (Follows s)
      (transition_status org id from CarrierStatus.blocked action reason actor
        >>= finish now org id)
      s here
      (transition-Follows now org id s from CarrierStatus.blocked action reason actor
        (leaving_active (has_slot org (registry s)) CarrierStatus.blocked refl))

pub deactivate-Follows :
    (now org id : ℕ) (reason : String) (actor : ℕ) (s : Store)
    → Follows s (deactivate_carrier now org id reason actor s).1
unfolding deactivate_carrier
deactivate-Follows now org id reason actor s =
    let action = Audit.carrier_deactivated (trim (codes reason)) in
    let from = CarrierStatus.active ∷ [] in
    transaction-keeps (Follows s)
      (transition_status org id from CarrierStatus.inactive action reason actor
        >>= finish now org id)
      s here
      (transition-Follows now org id s from CarrierStatus.inactive action reason actor
        (leaving_active (has_slot org (registry s)) CarrierStatus.inactive refl))

pub reactivate-Follows :
    (now org id : ℕ) (reason : String) (actor : ℕ) (s : Store)
    → Follows s (reactivate_carrier now org id reason actor s).1
unfolding reactivate_carrier
reactivate-Follows now org id reason actor s =
    let action = Audit.carrier_reactivated (trim (codes reason)) in
    let from = CarrierStatus.blocked ∷ CarrierStatus.inactive ∷ [] in
    transaction-keeps (Follows s)
      (assert_carrier_slot_available org >> restart_carrier now org id reason actor) s here
      (Returns-slot (λ u t. Follows s t) org (restart_carrier now org id reason actor) s
        (λ slot.
          transition-Follows now org id s from CarrierStatus.active action reason actor (λ a listed.
            (
              from_stopped a listed,
              any_if (not (is_starting a CarrierStatus.active)) (has_slot org (registry s)) slot,
            ))))

pub create-Follows :
    (now org : ℕ) (dto : CarrierDto) (actor : ℕ) (s : Store)
    → Follows s (create now org dto actor s).1
unfolding create find_duplicate
create-Follows now org dto actor s =
    let done = λ (u : Carrier) (t : Store). Follows s t in
    let body = create_unless now org dto actor in
    transaction-keeps (Follows s) (gets (find_duplicate org dto) >>= body) s here
      (elim (Option-cases (find_duplicate org dto s)) [
        | inl absent ↦ rw absent (
            Returns-can_create done now org (insert_carrier org dto actor) s
              (λ slot. next here (create_step (registry s) org dto absent slot)))
        | inr (c, present) ↦ rw present tt
      ])
