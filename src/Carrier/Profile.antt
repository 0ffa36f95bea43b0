-- ===== src/Carrier/Profile.antt =====
-- The contacts, service areas and factoring data of backend/src/modules/carrier/services/carrier.service.ts.
use truckmaster.Base.{
  ℕ, String, Bool, false, Option, none, some, [], ◌∷◌, ◌++◌, is_some, or_else, if◌then◌else◌,
}
use truckmaster.Store.Statuses.{ServiceAreaType}
use truckmaster.Store.Rows.{CarrierContact, ServiceArea, FactoringInfo}
use truckmaster.Store.Transaction.{
  Action, put, pure, gets, record_audit, with_tenant_transaction, ◌>>=◌, ◌>>◌,
}
use truckmaster.Store.Audit
use truckmaster.Store.Queries.{require, find_carrier}
use truckmaster.Carrier.Fleet.{modify_master}

-- `AddCarrierContactDto`, less the phone and the role.
pub record ContactDto : Type 0 where
  pub name : String
  pub email : Option String
  pub is_primary : Option Bool

unfoldable pub add_contact : ℕ → ℕ → ContactDto → ℕ → Action CarrierContact
add_contact org carrier_id dto actor = with_tenant_transaction do
  require (find_carrier org carrier_id)
  let contact : CarrierContact = record {
    organization_id = org;
    carrier_id = carrier_id;
    name = dto.name;
    email = dto.email;
    is_primary = or_else dto.is_primary false;
  }
  modify_master (λ m. record m { carrier_contacts = m.carrier_contacts ++ contact ∷ [] })
  record_audit org carrier_id (Audit.carrier_contact_added dto.name) (some actor)
  pure contact

-- `AddServiceAreaDto`, less the cities and the notes.
pub record ServiceAreaDto : Type 0 where
  pub type : ServiceAreaType
  pub origin_state : Option String
  pub destination_state : Option String
  pub region_label : Option String

unfoldable pub add_service_area : ℕ → ℕ → ServiceAreaDto → ℕ → Action ServiceArea
add_service_area org carrier_id dto actor = with_tenant_transaction do
  require (find_carrier org carrier_id)
  let area : ServiceArea = record {
    organization_id = org;
    carrier_id = carrier_id;
    type = dto.type;
    origin_state = dto.origin_state;
    destination_state = dto.destination_state;
    region_label = dto.region_label;
  }
  modify_master (λ m. record m { service_areas = m.service_areas ++ area ∷ [] })
  record_audit org carrier_id (Audit.carrier_service_area_added dto.type) (some actor)
  pure area

-- `UpdateFactoringInfoDto`, less the remittance and the notice of assignment.
pub record FactoringDto : Type 0 where
  pub uses_factoring : Bool
  pub factoring_company : Option String

-- The row of an upsert: a new one, or the old one with the fields that are given.
abbrev pub upserted : ℕ → ℕ → FactoringDto → Option FactoringInfo → FactoringInfo
upserted org carrier_id dto none = record {
  carrier_id = carrier_id;
  organization_id = org;
  uses_factoring = dto.uses_factoring;
  factoring_company = dto.factoring_company;
}
upserted org carrier_id dto (some old) = record old {
  uses_factoring = dto.uses_factoring;
  factoring_company =
      if is_some dto.factoring_company then dto.factoring_company else old.factoring_company;
}

unfoldable pub upsert_factoring_info : ℕ → ℕ → FactoringDto → ℕ → Action FactoringInfo
upsert_factoring_info org carrier_id dto actor = with_tenant_transaction do
  require (find_carrier org carrier_id)
  old ← gets (λ s. s.master.factoring carrier_id)
  let info = upserted org carrier_id dto old
  modify_master (λ m. record m { factoring = put carrier_id info m.factoring })
  record_audit org carrier_id
      (Audit.factoring_information_updated info.uses_factoring info.factoring_company) (some actor)
  pure info
