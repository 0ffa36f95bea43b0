-- ===== src/Carrier/Requests/FleetSteps.antt =====
-- The operations of carrier.service.ts on what a carrier has, as steps of the registry.
use truckmaster.Base.{ℕ, ◌≡◌, Option, inl, inr, suc, ◌⊎◌, String, arith, find, leb}
use truckmaster.Store.Rows.{FmcsaVerification, Insurance}
use truckmaster.Store.Transaction.{Store, with_tenant_transaction, ◌>>=◌, not_found, business_rule}
use truckmaster.Store.Outcomes.{Returns-found, Returns-unless, transaction-keeps}
use truckmaster.Store.Queries.{require, find_carrier}
use truckmaster.Carrier.Fleet.{
  InsuranceDto, DriverUpdateDto, assert_no_duplicate_license, transition_driver_active,
  add_insurance_found, insert_insurance, write_insurance, write_verification, new_insurance,
  add_verification_found, new_verification, is_coi_of, add_insurance, add_fmcsa_verification,
  add_driver, add_truck, add_trailer, update_driver, deactivate_driver, reactivate_driver,
}
use truckmaster.Carrier.Profile.{
  ContactDto, ServiceAreaDto, FactoringDto, add_contact, add_service_area, upsert_factoring_info,
}
use truckmaster.Carrier.Limits.{assert_can_create_driver, assert_driver_slot_available}
use truckmaster.Carrier.Registry.{registry, draw, here, next}
use truckmaster.Carrier.Requests.Rules.{Follows, Returns-then_recalculate}

-- The registry is as it was, but for an id that may have been drawn.
abbrev pub Same : Store → Store → Type 0
Same s t =
    (t.carriers ≡ s.carriers)
    × ((t.master.organizations ≡ s.master.organizations)
        × ((t.next_id ≡ s.next_id) ⊎ (t.next_id ≡ suc s.next_id)))

pub Same-Follows : (s t : Store) → Same s t → Follows s t
Same-Follows s t (c, (o, inl n)) = rw (c, o, n) here
Same-Follows s t (c, (o, inr n)) = rw (c, o, n) (next here (draw (registry s)))

pub update_driver-Same :
    (org id driver : ℕ) (dto : DriverUpdateDto) (actor : ℕ) (s : Store)
    → Same s (update_driver org id driver dto actor s).1
unfolding update_driver with_tenant_transaction assert_no_duplicate_license
update_driver-Same org id driver dto actor s = ground arith

pub deactivate_driver-Same :
    (org id driver : ℕ) (reason : String) (actor : ℕ) (s : Store)
    → Same s (deactivate_driver org id driver reason actor s).1
unfolding deactivate_driver with_tenant_transaction transition_driver_active
    assert_no_duplicate_license
deactivate_driver-Same org id driver reason actor s = ground arith

pub reactivate_driver-Same :
    (org id driver : ℕ) (reason : String) (actor : ℕ) (s : Store)
    → Same s (reactivate_driver org id driver reason actor s).1
unfolding reactivate_driver with_tenant_transaction transition_driver_active
    assert_no_duplicate_license assert_driver_slot_available
reactivate_driver-Same org id driver reason actor s = ground arith

pub add_driver-Same :
    (now org id : ℕ) (name : String) (license : Option String) (actor : ℕ) (s : Store)
    → Same s (add_driver now org id name license actor s).1
unfolding add_driver with_tenant_transaction assert_no_duplicate_license assert_can_create_driver
    assert_driver_slot_available
add_driver-Same now org id name license actor s = ground arith

pub add_truck-Same :
    (org id : ℕ) (unit : String) (actor : ℕ) (s : Store) → Same s (add_truck org id unit actor s).1
unfolding add_truck with_tenant_transaction
add_truck-Same org id unit actor s = ground arith

pub add_trailer-Same :
    (org id : ℕ) (unit : String) (actor : ℕ) (s : Store)
    → Same s (add_trailer org id unit actor s).1
unfolding add_trailer with_tenant_transaction
add_trailer-Same org id unit actor s = ground arith

pub add_insurance-Follows :
    (now org id : ℕ) (dto : InsuranceDto) (actor : ℕ) (s : Store)
    → Follows s (add_insurance now org id dto actor s).1
unfolding add_insurance
add_insurance-Follows now org id dto actor s =
    let done = λ (u : Insurance) (t : Store). Follows s t in
    let body = add_insurance_found now org id dto actor in
    let document = λ (s : Store). find (is_coi_of org id dto.coi_document_id) s.documents in
    let insert = insert_insurance now org id dto actor in
    transaction-keeps (Follows s) (require (find_carrier org id) >>= body) s here (
      Returns-found done not_found (find_carrier org id s) body s (λ c found.
        Returns-unless done (leb dto.expiration_date dto.effective_date) business_rule
          (require document >>= insert) s
          (λ valid. Returns-found done not_found (document s) insert s (λ d coi.
            Returns-then_recalculate s now org id (new_insurance org id dto)
              (write_insurance org id dto actor s).1 here))))

pub add_fmcsa_verification-Follows :
    (now org id date : ℕ) (result_status : String) (actor : ℕ) (s : Store)
    → Follows s (add_fmcsa_verification now org id date result_status actor s).1
unfolding add_fmcsa_verification
add_fmcsa_verification-Follows now org id date result_status actor s =
    let done = λ (u : FmcsaVerification) (t : Store). Follows s t in
    let body = add_verification_found now org id date result_status actor in
    transaction-keeps (Follows s) (require (find_carrier org id) >>= body) s here (
      Returns-found done not_found (find_carrier org id s) body s (λ c found.
        Returns-then_recalculate s now org id (new_verification org id date result_status)
          (write_verification org id date result_status actor s).1 here))

pub add_contact-Same :
    (org id : ℕ) (dto : ContactDto) (actor : ℕ) (s : Store)
    → Same s (add_contact org id dto actor s).1
unfolding add_contact with_tenant_transaction
add_contact-Same org id dto actor s = ground arith

pub add_service_area-Same :
    (org id : ℕ) (dto : ServiceAreaDto) (actor : ℕ) (s : Store)
    → Same s (add_service_area org id dto actor s).1
unfolding add_service_area with_tenant_transaction
add_service_area-Same org id dto actor s = ground arith

pub upsert_factoring_info-Same :
    (org id : ℕ) (dto : FactoringDto) (actor : ℕ) (s : Store)
    → Same s (upsert_factoring_info org id dto actor s).1
unfolding upsert_factoring_info with_tenant_transaction
upsert_factoring_info-Same org id dto actor s = ground arith
