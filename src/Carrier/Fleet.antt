-- ===== src/Carrier/Fleet.antt =====
-- The records of a carrier in backend/src/modules/carrier/services/carrier.service.ts: insurance, FMCSA
-- verifications, drivers, trucks and trailers.
use truckmaster.Base.{
  ℕ, String, Bool, true, false, not, ◌&&◌, ◌||◌, Option, none, some, List, [], ◌∷◌, ◌++◌, ◌==◌,
  is_some, find, any, leb, or_else, codes, trim, same_codes, str_eq, same_text, update_first,
  if◌then◌else◌,
}
use truckmaster.Store.Statuses.{CoverageType, EntityType, ◌is◌, entity_type_enum}
use truckmaster.Store.Rows.{Carrier, Resource, Insurance, FmcsaVerification, Document}
use truckmaster.Store.Transaction.{
  Store, Master, Action, pure, gets, throw_if, modify, when, record_audit, fresh_id,
  with_tenant_transaction, ◌>>=◌, ◌>>◌, conflict, business_rule,
}
use truckmaster.Store.Audit
use truckmaster.Store.Queries.{require, find_carrier}
use truckmaster.Carrier.Eligibility.{recalculate}
use truckmaster.Carrier.Limits.{assert_can_create_driver, assert_driver_slot_available}
use truckmaster.Carrier.Roster.{is_empty_reason}

abbrev pub modify_master : (Master → Master) → Action (Unit {0})
modify_master change = modify λ s. record s { master = change s.master }

-- `AddCarrierInsuranceDto`, less the company and the agent.
pub record InsuranceDto : Type 0 where
  pub coverage_type : CoverageType
  pub effective_date : ℕ
  pub expiration_date : ℕ
  pub coi_document_id : ℕ

abbrev pub is_coi_of : ℕ → ℕ → ℕ → Document → Bool
is_coi_of org carrier_id id d =
    d.id == id
    && d.organization_id == org
    && d.entity_type is EntityType.carrier
    && d.entity_id == carrier_id

abbrev pub new_insurance : ℕ → ℕ → InsuranceDto → Insurance
new_insurance org carrier_id dto = record {
  organization_id = org;
  carrier_id = carrier_id;
  coverage_type = dto.coverage_type;
  expiration_date = dto.expiration_date;
  coi_document_id = dto.coi_document_id;
}

abbrev pub write_insurance : ℕ → ℕ → InsuranceDto → ℕ → Action (Unit {0})
write_insurance org carrier_id dto actor = do
  let insurance = new_insurance org carrier_id dto
  modify_master (λ m. record m { insurance = m.insurance ++ insurance ∷ [] })
  record_audit org carrier_id (Audit.carrier_insurance_added dto.coverage_type dto.expiration_date)
      (some actor)

abbrev pub insert_insurance : ℕ → ℕ → ℕ → InsuranceDto → ℕ → Document → Action Insurance
insert_insurance now org carrier_id dto actor document = do
  write_insurance org carrier_id dto actor
  recalculate now org carrier_id
  pure (new_insurance org carrier_id dto)

abbrev pub add_insurance_found : ℕ → ℕ → ℕ → InsuranceDto → ℕ → Carrier → Action Insurance
add_insurance_found now org carrier_id dto actor carrier =
    throw_if (leb dto.expiration_date dto.effective_date) business_rule
    >> (require (λ s. find (is_coi_of org carrier_id dto.coi_document_id) s.documents)
        >>= insert_insurance now org carrier_id dto actor)

unfoldable pub add_insurance : ℕ → ℕ → ℕ → InsuranceDto → ℕ → Action Insurance
add_insurance now org carrier_id dto actor =
    with_tenant_transaction
      (require (find_carrier org carrier_id) >>= add_insurance_found now org carrier_id dto actor)

abbrev pub new_verification : ℕ → ℕ → ℕ → String → FmcsaVerification
new_verification org carrier_id date result_status = record {
  organization_id = org;
  carrier_id = carrier_id;
  verification_date = date;
  result_status = result_status;
}

abbrev pub write_verification : ℕ → ℕ → ℕ → String → ℕ → Action (Unit {0})
write_verification org carrier_id date result_status actor = do
  let verification = new_verification org carrier_id date result_status
  modify_master (λ m. record m { fmcsa = m.fmcsa ++ verification ∷ [] })
  record_audit org carrier_id (Audit.fmcsa_verification_recorded result_status date) (some actor)

abbrev pub add_verification_found : ℕ → ℕ → ℕ → ℕ → String → ℕ → Carrier → Action FmcsaVerification
add_verification_found now org carrier_id date result_status actor carrier = do
  write_verification org carrier_id date result_status actor
  recalculate now org carrier_id
  pure (new_verification org carrier_id date result_status)

unfoldable pub add_fmcsa_verification : ℕ → ℕ → ℕ → ℕ → String → ℕ → Action FmcsaVerification
add_fmcsa_verification now org carrier_id date result_status actor = with_tenant_transaction (
    require (find_carrier org carrier_id)
    >>= add_verification_found now org carrier_id date result_status actor)

-- An active driver of the carrier with the trimmed license, other than the one excluded.
abbrev pub has_license : ℕ → ℕ → List ℕ → Option ℕ → Resource → Bool
has_license org carrier_id license excluded d =
    d.organization_id == org
    && d.carrier_id == carrier_id
    && elim d.license_number [ none ↦ false | some l ↦ same_codes (codes l) license ]
    && d.active
    && elim excluded [ none ↦ true | some id ↦ not (d.id == id) ]

abbrev pub check_license : ℕ → ℕ → Option ℕ → List ℕ → Action (Unit {0})
check_license org carrier_id excluded [] = pure tt
check_license org carrier_id excluded (c ∷ cs) = do
  drivers ← gets (λ s. s.master.drivers)
  throw_if (any (has_license org carrier_id (c ∷ cs) excluded) drivers) conflict

-- `if (licenseNumber) assertNoDuplicateLicense(…)`
unfoldable pub assert_no_duplicate_license : ℕ → ℕ → Option String → Option ℕ → Action (Unit {0})
assert_no_duplicate_license org carrier_id none excluded = pure tt
assert_no_duplicate_license org carrier_id (some license) excluded =
    check_license org carrier_id excluded (trim (codes license))

abbrev pub new_resource : ℕ → ℕ → ℕ → String → Option String → Resource
new_resource id org carrier_id label license = record {
  id = id;
  organization_id = org;
  carrier_id = carrier_id;
  label = label;
  license_number = license;
  active = true;
}

unfoldable pub add_driver : ℕ → ℕ → ℕ → String → Option String → ℕ → Action Resource
add_driver now org carrier_id name license actor = with_tenant_transaction do
  require (find_carrier org carrier_id)
  assert_no_duplicate_license org carrier_id license none
  assert_can_create_driver now org
  id ← fresh_id
  let driver = new_resource id org carrier_id name license
  modify_master (λ m. record m { drivers = m.drivers ++ driver ∷ [] })
  record_audit org carrier_id (Audit.driver_added name) (some actor)
  pure driver

unfoldable pub add_truck : ℕ → ℕ → String → ℕ → Action Resource
add_truck org carrier_id unit actor = with_tenant_transaction do
  require (find_carrier org carrier_id)
  id ← fresh_id
  let truck = new_resource id org carrier_id unit none
  modify_master (λ m. record m { trucks = m.trucks ++ truck ∷ [] })
  record_audit org carrier_id (Audit.truck_added unit) (some actor)
  pure truck

unfoldable pub add_trailer : ℕ → ℕ → String → ℕ → Action Resource
add_trailer org carrier_id unit actor = with_tenant_transaction do
  require (find_carrier org carrier_id)
  id ← fresh_id
  let trailer = new_resource id org carrier_id unit none
  modify_master (λ m. record m { trailers = m.trailers ++ trailer ∷ [] })
  record_audit org carrier_id (Audit.trailer_added unit) (some actor)
  pure trailer

abbrev pub is_driver : ℕ → ℕ → ℕ → Resource → Bool
is_driver org carrier_id id d = d.id == id && d.organization_id == org && d.carrier_id == carrier_id

abbrev pub find_driver : ℕ → ℕ → ℕ → Store → Option Resource
find_driver org carrier_id id s = find (is_driver org carrier_id id) s.master.drivers

-- `tx.driver.update({ where: { id }, data })`
abbrev pub update_drivers : ℕ → (Resource → Resource) → Action (Unit {0})
update_drivers id change =
    modify_master
      λ m. record m { drivers = update_first (λ (d : Resource). d.id == id) change m.drivers }

-- `UpdateDriverDto`, less the phone, the email and the notes.
pub record DriverUpdateDto : Type 0 where
  pub name : Option String
  pub license_number : Option String

abbrev pub with_driver_update : DriverUpdateDto → Resource → Resource
with_driver_update dto d = record d {
  label = or_else dto.name d.label;
  license_number = if is_some dto.license_number then dto.license_number else d.license_number;
}

abbrev is_driver_changed : DriverUpdateDto → Resource → Bool
is_driver_changed dto d =
    not (str_eq (or_else dto.name d.label) d.label)
    || (is_some dto.license_number && not (same_text dto.license_number d.license_number))

unfoldable pub update_driver : ℕ → ℕ → ℕ → DriverUpdateDto → ℕ → Action Resource
update_driver org carrier_id id dto actor = with_tenant_transaction do
  existing ← require (find_driver org carrier_id id)
  assert_no_duplicate_license org carrier_id dto.license_number (some id)
  update_drivers id (with_driver_update dto)
  when (is_driver_changed dto existing) (record_audit org id Audit.driver_updated (some actor))
  pure (with_driver_update dto existing)

abbrev same_flag : Bool → Bool → Bool
same_flag true b = b
same_flag false b = not b

abbrev pub license_to_check : Bool → Resource → Option String
license_to_check to_active d = if to_active then d.license_number else none

-- `transitionDriverActive`
unfoldable pub transition_driver_active : ℕ → ℕ → ℕ → Bool → Bool → String → ℕ → Action Resource
transition_driver_active org carrier_id id from_active to_active reason actor = do
  driver ← require (find_driver org carrier_id id)
  throw_if (not (same_flag driver.active from_active)) business_rule
  throw_if (is_empty_reason reason) business_rule
  assert_no_duplicate_license org carrier_id (license_to_check to_active driver) (some id)
  update_drivers id (λ d. record d { active = to_active })
  record_audit org id (Audit.driver_activity_changed driver.active to_active (trim (codes reason)))
      (some actor)
  pure (record driver { active = to_active })

unfoldable pub deactivate_driver : ℕ → ℕ → ℕ → String → ℕ → Action Resource
deactivate_driver org carrier_id id reason actor =
    with_tenant_transaction (transition_driver_active org carrier_id id true false reason actor)

unfoldable pub reactivate_driver : ℕ → ℕ → ℕ → String → ℕ → Action Resource
reactivate_driver org carrier_id id reason actor = with_tenant_transaction do
  assert_driver_slot_available org
  transition_driver_active org carrier_id id false true reason actor
