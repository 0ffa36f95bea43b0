-- ===== src/Tracking/Dispatch.antt =====
-- `dispatch`, `updateDispatch` and `validateSourceResources` of dispatch-tracking.service.ts.
use truckmaster.Base.{
  ℕ, String, Bool, true, false, not, ◌&&◌, ◌||◌, Option, none, some, List, ◌==◌, any, is_some,
  or_else, str_eq, same_number,
}
use truckmaster.Store.Statuses.{LoadStatus, DocumentCode, EntityType, ◌is◌, load_status_enum}
use truckmaster.Store.Rows.{Load, Resource, DispatchInfo, DispatchRecord}
use truckmaster.Store.Transaction.{
  Action, put, pure, gets, or_throw, throw_if, modify, when, record_audit, with_tenant_transaction,
  ◌>>=◌, ◌>>◌, not_found, invalid_transition, business_rule, eligibility, database,
}
use truckmaster.Store.Audit
use truckmaster.Store.Queries.{require, find_load, update_load, find_document, find_dispatch_record}
use truckmaster.Carrier.Eligibility.{recalculate}
use truckmaster.Tracking.{is_post_dispatch}

-- `carrierId: carrierId ?? undefined`: with no carrier on the load, any carrier matches.
abbrev pub is_usable : ℕ → Option ℕ → ℕ → Resource → Bool
is_usable org carrier_id id r =
    r.id == id
    && r.organization_id == org
    && elim carrier_id [ none ↦ true | some c ↦ r.carrier_id == c ]
    && r.active

abbrev pub is_absent_or_usable : ℕ → Option ℕ → List Resource → Option ℕ → Bool
is_absent_or_usable org carrier_id resources none = true
is_absent_or_usable org carrier_id resources (some id) = any (is_usable org carrier_id id) resources

-- The ids of `DispatchLoadDto` and `UpdateDispatchDto`.
pub record SourceIds : Type 0 where
  pub driver : Option ℕ
  pub truck : Option ℕ
  pub trailer : Option ℕ

unfoldable pub validate_source_resources : ℕ → Option ℕ → SourceIds → Action (Unit {0})
validate_source_resources org carrier_id ids = do
  drivers ← gets (λ s. s.master.drivers)
  throw_if (not (is_absent_or_usable org carrier_id drivers ids.driver)) not_found
  trucks ← gets (λ s. s.master.trucks)
  throw_if (not (is_absent_or_usable org carrier_id trucks ids.truck)) not_found
  trailers ← gets (λ s. s.master.trailers)
  throw_if (not (is_absent_or_usable org carrier_id trailers ids.trailer)) not_found

abbrev pub source_ids : DispatchInfo → SourceIds
source_ids i = record {
  driver = i.source_driver_id;
  truck = i.source_truck_id;
  trailer = i.source_trailer_id;
}

-- `loadId` is the primary key of the table: a second record for a load is refused.
abbrev pub create_dispatch_record : DispatchRecord → Action (Unit {0})
create_dispatch_record r = do
  existing ← gets (λ s. s.dispatch_records r.load_id)
  throw_if (is_some existing) database
  modify (λ s. record s { dispatch_records = put r.load_id r s.dispatch_records })

-- The gate of `dispatch`: every check that stands before its first write.
unfoldable pub dispatch_gate : ℕ → ℕ → ℕ → DispatchInfo → Action Load
dispatch_gate now org load_id dto = do
  load ← require (find_load org load_id)
  throw_if (not (load.status is LoadStatus.rate_confirmation)) invalid_transition
  throw_if (not (is_some load.carrier_rate)) business_rule
  carrier_id ← or_throw business_rule load.assigned_carrier_id
  result ← recalculate now org carrier_id
  throw_if (not result.eligible) (eligibility result.reasons)
  document ← gets (find_document org EntityType.load load_id DocumentCode.rate_confirmation)
  throw_if (not (is_some document)) invalid_transition
  validate_source_resources org load.assigned_carrier_id (source_ids dto)
  pure load

unfoldable pub dispatch : ℕ → ℕ → ℕ → DispatchInfo → ℕ → Action Load
dispatch now org load_id dto actor = with_tenant_transaction do
  dispatch_gate now org load_id dto
  create_dispatch_record (record {
    load_id = load_id;
    organization_id = org;
    info = dto;
    dispatched_by_user_id = actor;
    dispatched_at = now;
  })
  updated ← update_load load_id (λ l. record l { status = LoadStatus.dispatched })
  record_audit org load_id Audit.load_dispatched (some actor)
  pure updated

-- `UpdateDispatchDto`: a field that is absent is left as it is.
pub record DispatchUpdate : Type 0 where
  pub driver_name : Option String
  pub driver_phone : Option String
  pub truck_number : Option String
  pub trailer_number : Option String
  pub source_driver_id : Option ℕ
  pub source_truck_id : Option ℕ
  pub source_trailer_id : Option ℕ

abbrev or_keep : Option ℕ → Option ℕ → Option ℕ
or_keep none kept = kept
or_keep (some id) kept = some id

unfoldable pub apply_update : DispatchUpdate → DispatchInfo → DispatchInfo
apply_update u i = record {
  driver_name = or_else u.driver_name i.driver_name;
  driver_phone = or_else u.driver_phone i.driver_phone;
  truck_number = or_else u.truck_number i.truck_number;
  trailer_number = or_else u.trailer_number i.trailer_number;
  source_driver_id = or_keep u.source_driver_id i.source_driver_id;
  source_truck_id = or_keep u.source_truck_id i.source_truck_id;
  source_trailer_id = or_keep u.source_trailer_id i.source_trailer_id;
}

abbrev changes_text : Option String → String → Bool
changes_text none old = false
changes_text (some new) old = not (str_eq old new)

abbrev changes_id : Option ℕ → Option ℕ → Bool
changes_id none old = false
changes_id (some new) old = not (same_number old (some new))

-- `fieldChanges.length > 0`
unfoldable pub has_changes : DispatchUpdate → DispatchInfo → Bool
has_changes u i =
    changes_text u.driver_name i.driver_name
    || changes_text u.driver_phone i.driver_phone
    || changes_text u.truck_number i.truck_number
    || changes_text u.trailer_number i.trailer_number
    || changes_id u.source_driver_id i.source_driver_id
    || changes_id u.source_truck_id i.source_truck_id
    || changes_id u.source_trailer_id i.source_trailer_id

abbrev pub update_ids : DispatchUpdate → SourceIds
update_ids u = record {
  driver = u.source_driver_id;
  truck = u.source_truck_id;
  trailer = u.source_trailer_id;
}

unfoldable pub update_dispatch : ℕ → ℕ → DispatchUpdate → ℕ → Action DispatchRecord
update_dispatch org load_id dto actor = with_tenant_transaction do
  load ← require (find_load org load_id)
  throw_if (not (is_post_dispatch load.status)) invalid_transition
  existing ← require (find_dispatch_record org load_id)
  validate_source_resources org load.assigned_carrier_id (update_ids dto)
  let updated = record existing { info = apply_update dto existing.info }
  modify (λ s. record s { dispatch_records = put load_id updated s.dispatch_records })
  when (has_changes dto existing.info)
      (record_audit org load_id Audit.dispatch_information_changed (some actor))
  pure updated
