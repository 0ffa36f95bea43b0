-- ===== src/Carrier/Requests/Rules.antt =====
-- The writes and checks that the operations of carrier.service.ts share, as steps of the registry.
use truckmaster.Base.{ℕ, ◌≡◌, refl, Bool, true, false, not, ◌||◌, some, arith, inl, inr, Bool-cases}
use truckmaster.Store.Statuses.{
  CarrierStatus, SubscriptionStatus, subscription_status_enum, ◌is◌, carrier_status_enum,
}
use truckmaster.Store.Rows.{Carrier, Organization}
use truckmaster.Store.Transaction.{
  Store, Action, pure, gets, throw_if, modify, put, ◌>>=◌, ◌>>◌, business_rule, database,
}
use truckmaster.Store.Outcomes.{
  Returns, Returns-bind, Returns-found, Returns-unless, Returns-passed,
}
use truckmaster.Store.Queries.{find_carrier}
use truckmaster.Carrier.Eligibility.{
  recalculate, write_eligibility, eligibility_reasons, is_empty, same_bool,
}
use truckmaster.Booking.Entitlement.{resolve_effective_status}
use truckmaster.Carrier.Limits.{
  assert_carrier_slot_available, assert_can_create_carrier, is_full, carrier_count,
  assert_not_expired,
}
use truckmaster.Carrier.Roster.{update_carrier}
use truckmaster.Carrier.Registry.{
  Registry, registry, change, Reaches, next, CarrierChange, has_slot, may_become, is_starting,
}

-- The registry of `s` has come to that of `t`.
abbrev pub Follows : Store → Store → Type 0
Follows s t = Reaches (registry s) (registry t)

pub found-row :
    (org id : ℕ) (s : Store) (c : Carrier)
    → find_carrier org id s ≡ some c
    → (s.carriers id ≡ some c) × ((c.id ≡ id) × (c.organization_id ≡ org))
found-row org id s c found = ground arith

-- Asserting a slot writes nothing.
Returns-slot_only :
    (Q : Unit {0} → Store → Type 0) (org : ℕ) (s : Store)
    → (has_slot org (registry s) ≡ true → Q tt s)
    → Returns Q (assert_carrier_slot_available org) s
unfolding assert_carrier_slot_available carrier_count
Returns-slot_only Q org s h =
    let full = λ (o : Organization). is_full o.max_carriers (carrier_count org s) in
    Returns-found Q database (s.master.organizations org)
      (λ o. gets (carrier_count org) >>= λ n. throw_if (is_full o.max_carriers n) business_rule) s
      (λ o e. Returns-passed Q (full o) business_rule s (λ room. h (ground (arith, e, room))))

-- What is done after a slot was asserted may use that there is one.
pub Returns-slot :
    {B : Type 0} (Q : B → Store → Type 0) (org : ℕ) (m : Action B) (s : Store)
    → (has_slot org (registry s) ≡ true → Returns Q m s)
    → Returns Q (assert_carrier_slot_available org >> m) s
Returns-slot Q org m s h =
    Returns-bind Q (assert_carrier_slot_available org) (λ u. m) s
      (Returns-slot_only (λ u t. Returns Q m t) org s h)

may-stay : (a : CarrierStatus) → may_become a a ≡ true
may-stay CarrierStatus.pending = refl
may-stay CarrierStatus.active = refl
may-stay CarrierStatus.blocked = refl
may-stay CarrierStatus.inactive = refl

not-starting : (a : CarrierStatus) (b : Bool) → (not (is_starting a a) || b) ≡ true
not-starting CarrierStatus.pending b = refl
not-starting CarrierStatus.active b = refl
not-starting CarrierStatus.blocked b = refl
not-starting CarrierStatus.inactive b = refl

-- An update of a carrier's row, and what is done after it.
pub Returns-update :
    {B : Type 0} (Q : B → Store → Type 0) (s0 : Store) (id : ℕ) (f : Carrier → Carrier)
    (k : Carrier → Action B) (s : Store)
    → Follows s0 s
    → ((c : Carrier) → s.carriers id ≡ some c → CarrierChange (registry s) c (f c))
    → ((u : Carrier) (t : Store) → Follows s0 t → Returns Q (k u) t)
    → Returns Q (update_carrier id f >>= k) s
Returns-update Q s0 id f k s before changes done =
    let write = λ (row : Carrier).
      modify (λ (s : Store). record s { carriers = put id (f row) s.carriers }) >> pure (f row) in
    let then = λ (u : Carrier) (t : Store). Returns Q (k u) t in
    Returns-bind Q (update_carrier id f) k s (
      Returns-found then database (s.carriers id) write s (λ row e.
        done (f row) (write row s).1
          (next before (change (registry s) id row (f row) e (changes row e)))))

-- A change that keeps the status and the numbers.
pub same_status :
    (r : Registry) (a b : Carrier)
    → b.id ≡ a.id
    → b.organization_id ≡ a.organization_id
    → b.mc_number ≡ a.mc_number
    → b.dot_number ≡ a.dot_number
    → b.status ≡ a.status
    → CarrierChange r a b
same_status r a b i o m d e = record {
  same_id = i;
  same_organization = o;
  same_mc_number = m;
  same_dot_number = d;
  follows = rw e (may-stay a.status);
  slot = rw e (not-starting a.status (has_slot a.organization_id r));
}

-- A change of the status of the row that was found.
pub change_status :
    (org id : ℕ) (s : Store) (c row : Carrier) (b : CarrierStatus)
    → find_carrier org id s ≡ some c
    → s.carriers id ≡ some row
    → may_become c.status b ≡ true
    → (not (is_starting c.status b) || has_slot org (registry s)) ≡ true
    → CarrierChange (registry s) row (record row { status = b })
change_status org id s c row b found e follows slot =
    let (row_of, keyed) = found-row org id s c found in
    let same : row ≡ c = ground (arith, row_of, e) in
    record {
      same_id = refl;
      same_organization = refl;
      same_mc_number = refl;
      same_dot_number = refl;
      follows = rw same follows;
      slot = rw (same, keyed.1) slot;
    }

pub from_pending :
    (a : CarrierStatus)
    → not (a is CarrierStatus.pending) ≡ false
    → may_become a CarrierStatus.active ≡ true
from_pending CarrierStatus.pending h = refl
from_pending CarrierStatus.active h = refl
from_pending CarrierStatus.blocked h = refl
from_pending CarrierStatus.inactive h = refl

pub any_if : (b c : Bool) → c ≡ true → (b || c) ≡ true
any_if true c h = refl
any_if false c h = h

pub Returns-recalculate :
    (s0 : Store) (now org id : ℕ) (s : Store)
    → Follows s0 s
    → Returns (λ u t. Follows s0 t) (recalculate now org id) s
unfolding recalculate
Returns-recalculate s0 now org id s before =
    Returns-found (λ u t. Follows s0 t) database (find_carrier org id s)
      (λ carrier.
        gets (eligibility_reasons now org id carrier) >>= write_eligibility org id carrier)
      s
      (λ c found.
        let reasons = eligibility_reasons now org id c s in
        let eligible = is_empty reasons in
        let new = record c { assignment_eligible = eligible; ineligibility_reasons = reasons } in
        let kept = same_status (registry s) c new refl refl refl refl refl in
        let after =
          next before (change (registry s) id c new (found-row org id s c found).0 kept) in
        elim (Bool-cases (not (same_bool eligible c.assignment_eligible))) [
          | inl e ↦ rw e after
          | inr e ↦ rw e after
        ])

-- An operation that ends by computing the eligibility again.
pub Returns-then_recalculate :
    {A : Type 0} (s0 : Store) (now org id : ℕ) (a : A) (s : Store)
    → Follows s0 s
    → Returns (λ u t. Follows s0 t) (recalculate now org id >> pure a) s
Returns-then_recalculate s0 now org id a s before =
    Returns-bind (λ u t. Follows s0 t) (recalculate now org id) (λ x. pure a) s
      (Returns-recalculate s0 now org id s before)

-- What is asserted before a carrier is made, with the organization's row locked.
pub Returns-can_create :
    {B : Type 0} (Q : B → Store → Type 0) (now org : ℕ) (m : Action B) (s : Store)
    → (has_slot org (registry s) ≡ true → Returns Q m s)
    → Returns Q (assert_can_create_carrier now org >> m) s
unfolding assert_can_create_carrier
Returns-can_create Q now org m s h =
    let later = λ (u : Unit {0}) (t : Store). Returns Q m t in
    let body =
      λ (o : Organization). assert_not_expired now o >> assert_carrier_slot_available org in
    Returns-bind Q (assert_can_create_carrier now org) (λ u. m) s
      (Returns-found later database (s.master.organizations org) body s (λ o e.
        Returns-unless later (resolve_effective_status o now is SubscriptionStatus.expired)
          business_rule (assert_carrier_slot_available org) s
          (λ current. Returns-slot_only later org s h)))
