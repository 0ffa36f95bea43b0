-- ===== src/Carrier/Requests.antt =====
-- The requests that change the carriers, their records and the review of their papers, one
-- after another.
pub mod Rules
pub mod RosterSteps
pub mod FleetSteps
pub mod ReviewSteps
use truckmaster.Base.{ℕ, ◌≡◌, sym, String, Option, some, List, [], ◌∷◌}
use mathlib.Core.Path.{subst}
use truckmaster.Store.Rows.{Carrier}
use truckmaster.Store.Transaction.{Store}
use truckmaster.Carrier.Roster
use truckmaster.Carrier.Roster.{CarrierDto, CarrierUpdateDto}
use truckmaster.Carrier.Fleet
use truckmaster.Carrier.Fleet.{InsuranceDto, DriverUpdateDto}
use truckmaster.Carrier.Profile
use truckmaster.Carrier.Profile.{ContactDto, ServiceAreaDto, FactoringDto}
use truckmaster.Carrier.Reviews
use truckmaster.Carrier.Reviews.{Decision}
use truckmaster.Carrier.Requests.ReviewSteps.{review-Follows}
use truckmaster.Carrier.Registry.{registry, Reaches, here, Reaches-join, AreDrawn}
use truckmaster.Carrier.Registry.Within.{IsWithin, Reaches-IsWithin}
use truckmaster.Carrier.Registry.Distinct.{AreDistinct, Reaches-AreDistinct}
use truckmaster.Carrier.Registry.Histories.{Continues, IsLater-refl, Reaches-Continues}
use truckmaster.Carrier.Requests.Rules.{Follows}
use truckmaster.Carrier.Requests.RosterSteps.{
  create-Follows, update-Follows, activate-Follows, block-Follows, deactivate-Follows,
  reactivate-Follows,
}
use truckmaster.Carrier.Requests.FleetSteps.{
  Same-Follows, add_driver-Same, update_driver-Same, deactivate_driver-Same, reactivate_driver-Same,
  add_contact-Same, add_service_area-Same, upsert_factoring_info-Same, add_truck-Same,
  add_trailer-Same, add_insurance-Follows, add_fmcsa_verification-Follows,
}

pub data Operation : Type 0 where
  create : CarrierDto → Operation
  update : (id : ℕ) → CarrierUpdateDto → Operation
  activate : (id : ℕ) → Operation
  block deactivate reactivate : (id : ℕ) → (reason : String) → Operation
  add_insurance : (id : ℕ) → InsuranceDto → Operation
  add_fmcsa_verification : (id date : ℕ) → (result_status : String) → Operation
  add_driver : (id : ℕ) → (name : String) → (license : Option String) → Operation
  update_driver : (id driver : ℕ) → DriverUpdateDto → Operation
  deactivate_driver reactivate_driver : (id driver : ℕ) → (reason : String) → Operation
  add_contact : (id : ℕ) → ContactDto → Operation
  add_service_area : (id : ℕ) → ServiceAreaDto → Operation
  upsert_factoring_info : (id : ℕ) → FactoringDto → Operation
  review_document : (document : ℕ) → Decision → Operation
  add_truck add_trailer : (id : ℕ) → (unit : String) → Operation

pub record Request : Type 0 where
  pub now : ℕ
  pub organization_id : ℕ
  pub actor : ℕ
  pub operation : Operation

unfoldable pub serve : ℕ → ℕ → ℕ → Operation → Store → Store
serve now org actor (Operation.create dto) s = (Roster.create now org dto actor s).1
serve now org actor (Operation.update id dto) s = (Roster.update org id dto actor s).1
serve now org actor (Operation.activate id) s = (Roster.activate now org id actor s).1
serve now org actor (Operation.block id reason) s =
    (Roster.block_carrier now org id reason actor s).1
serve now org actor (Operation.deactivate id reason) s =
    (Roster.deactivate_carrier now org id reason actor s).1
serve now org actor (Operation.reactivate id reason) s =
    (Roster.reactivate_carrier now org id reason actor s).1
serve now org actor (Operation.add_insurance id dto) s =
    (Fleet.add_insurance now org id dto actor s).1
serve now org actor (Operation.add_fmcsa_verification id date result_status) s =
    (Fleet.add_fmcsa_verification now org id date result_status actor s).1
serve now org actor (Operation.add_driver id name license) s =
    (Fleet.add_driver now org id name license actor s).1
serve now org actor (Operation.update_driver id driver dto) s =
    (Fleet.update_driver org id driver dto actor s).1
serve now org actor (Operation.deactivate_driver id driver reason) s =
    (Fleet.deactivate_driver org id driver reason actor s).1
serve now org actor (Operation.reactivate_driver id driver reason) s =
    (Fleet.reactivate_driver org id driver reason actor s).1
serve now org actor (Operation.add_truck id unit) s = (Fleet.add_truck org id unit actor s).1
serve now org actor (Operation.add_trailer id unit) s = (Fleet.add_trailer org id unit actor s).1
serve now org actor (Operation.add_contact id dto) s = (Profile.add_contact org id dto actor s).1
serve now org actor (Operation.add_service_area id dto) s =
    (Profile.add_service_area org id dto actor s).1
serve now org actor (Operation.upsert_factoring_info id dto) s =
    (Profile.upsert_factoring_info org id dto actor s).1
serve now org actor (Operation.review_document document decision) s =
    (Reviews.review now org document decision actor s).1

serve-Follows :
    (now org actor : ℕ) (op : Operation) (s : Store) → Follows s (serve now org actor op s)
unfolding serve
serve-Follows now org actor (Operation.create dto) s = create-Follows now org dto actor s
serve-Follows now org actor (Operation.update id dto) s = update-Follows org id dto actor s
serve-Follows now org actor (Operation.activate id) s = activate-Follows now org id actor s
serve-Follows now org actor (Operation.block id reason) s = block-Follows now org id reason actor s
serve-Follows now org actor (Operation.deactivate id reason) s =
    deactivate-Follows now org id reason actor s
serve-Follows now org actor (Operation.reactivate id reason) s =
    reactivate-Follows now org id reason actor s
serve-Follows now org actor (Operation.add_insurance id dto) s =
    add_insurance-Follows now org id dto actor s
serve-Follows now org actor (Operation.add_fmcsa_verification id date result_status) s =
    add_fmcsa_verification-Follows now org id date result_status actor s
serve-Follows now org actor (Operation.add_driver id name license) s =
    Same-Follows s (Fleet.add_driver now org id name license actor s).1
      (add_driver-Same now org id name license actor s)
serve-Follows now org actor (Operation.update_driver id driver dto) s =
    Same-Follows s (Fleet.update_driver org id driver dto actor s).1
      (update_driver-Same org id driver dto actor s)
serve-Follows now org actor (Operation.deactivate_driver id driver reason) s =
    Same-Follows s (Fleet.deactivate_driver org id driver reason actor s).1
      (deactivate_driver-Same org id driver reason actor s)
serve-Follows now org actor (Operation.reactivate_driver id driver reason) s =
    Same-Follows s (Fleet.reactivate_driver org id driver reason actor s).1
      (reactivate_driver-Same org id driver reason actor s)
serve-Follows now org actor (Operation.add_contact id dto) s =
    Same-Follows s (Profile.add_contact org id dto actor s).1 (add_contact-Same org id dto actor s)
serve-Follows now org actor (Operation.add_service_area id dto) s =
    Same-Follows s (Profile.add_service_area org id dto actor s).1
      (add_service_area-Same org id dto actor s)
serve-Follows now org actor (Operation.upsert_factoring_info id dto) s =
    Same-Follows s (Profile.upsert_factoring_info org id dto actor s).1
      (upsert_factoring_info-Same org id dto actor s)
serve-Follows now org actor (Operation.review_document document decision) s =
    review-Follows now org document decision actor s
serve-Follows now org actor (Operation.add_truck id unit) s =
    Same-Follows s (Fleet.add_truck org id unit actor s).1 (add_truck-Same org id unit actor s)
serve-Follows now org actor (Operation.add_trailer id unit) s =
    Same-Follows s (Fleet.add_trailer org id unit actor s).1 (add_trailer-Same org id unit actor s)

unfoldable pub run : List Request → Store → Store
run [] s = s
run (r ∷ rs) s = run rs (serve r.now r.organization_id r.actor r.operation s)

-- After any requests the carriers have come from those before by steps of the registry: drawing an id,
-- making a pending carrier where there is a slot and none has its numbers, or changing a carrier as
-- the diagram of its status allows, with a slot when it becomes active.
pub run-Reaches : (rs : List Request) (s : Store) → Reaches (registry s) (registry (run rs s))
unfolding run
run-Reaches [] s = here
run-Reaches (r ∷ rs) s =
    let t = serve r.now r.organization_id r.actor r.operation s in
    Reaches-join (serve-Follows r.now r.organization_id r.actor r.operation s) (run-Reaches rs t)

-- If the rows of the carriers stand under drawn ids and an organization's pending and active carriers are
-- within its limit, both still hold after any requests, in one organization or another.
pub run-IsWithin :
    (o : ℕ) (rs : List Request) (s : Store)
    → IsWithin o (registry s)
    → IsWithin o (registry (run rs s))
run-IsWithin o rs s h = Reaches-IsWithin o (run-Reaches rs s) h

-- If the rows of the carriers stand under drawn ids and no two carriers of an organization share an MC or a
-- DOT number, both still hold after any requests.
pub run-AreDistinct :
    (rs : List Request) (s : Store) → AreDistinct (registry s) → AreDistinct (registry (run rs s))
run-AreDistinct rs s h = Reaches-AreDistinct (run-Reaches rs s) h

-- If the rows of the carriers stand under drawn ids, a carrier is still there after any requests, in the same
-- organization and with the same numbers, and it is not pending again if it was activated.
pub run-Continues :
    (k : ℕ) (c : Carrier) (rs : List Request) (s : Store)
    → AreDrawn (registry s)
    → s.carriers k ≡ some c
    → Continues c ((run rs s).carriers k)
run-Continues k c rs s drawn found =
    Reaches-Continues k (run-Reaches rs s) drawn c
      (subst (Continues c) (sym found) (IsLater-refl c))
