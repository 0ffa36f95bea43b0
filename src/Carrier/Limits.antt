-- ===== src/Carrier/Limits.antt =====
-- The carrier and driver limits of backend/src/common/entitlement/entitlement.service.ts. The lock on the
-- organization's row lets one request at a time count and write.
use truckmaster.Base.{ℕ, Bool, false, ◌&&◌, Option, none, some, [], ◌∷◌, ◌==◌, leb, length, filter}
use truckmaster.Store.Statuses.{
  CarrierStatus, SubscriptionStatus, ◌is◌, is_one_of, carrier_status_enum, subscription_status_enum,
}
use truckmaster.Store.Rows.{Carrier, Organization, Resource}
use truckmaster.Store.Transaction.{
  Store, Action, gets, or_throw, throw_if, ◌>>=◌, ◌>>◌, database, business_rule,
}
use truckmaster.Store.Queries.{rows_below}
use truckmaster.Booking.Entitlement.{resolve_effective_status}

-- `{ organizationId, status: { in: ['PENDING', 'ACTIVE'] } }`
abbrev pub is_counted : ℕ → Carrier → Bool
is_counted org c =
    c.organization_id == org
    && is_one_of c.status (CarrierStatus.pending ∷ CarrierStatus.active ∷ [])

unfoldable pub carrier_count : ℕ → Store → ℕ
carrier_count org s = length (filter (is_counted org) (rows_below s.next_id s.carriers))

abbrev pub is_counted_driver : ℕ → Resource → Bool
is_counted_driver org d = d.organization_id == org && d.active

unfoldable pub driver_count : ℕ → Store → ℕ
driver_count org s = length (filter (is_counted_driver org) s.master.drivers)

-- `if (count >= limit) throw`, where no limit is unlimited.
abbrev pub is_full : Option ℕ → ℕ → Bool
is_full none count = false
is_full (some limit) count = leb limit count

abbrev pub read_organization : ℕ → Action Organization
read_organization org = gets (λ s. s.master.organizations org) >>= or_throw database

-- `assertNotExpired`
abbrev pub assert_not_expired : ℕ → Organization → Action (Unit {0})
assert_not_expired now o =
    throw_if (resolve_effective_status o now is SubscriptionStatus.expired) business_rule

unfoldable pub assert_carrier_slot_available : ℕ → Action (Unit {0})
assert_carrier_slot_available org = do
  o ← read_organization org
  count ← gets (carrier_count org)
  throw_if (is_full o.max_carriers count) business_rule

unfoldable pub assert_can_create_carrier : ℕ → ℕ → Action (Unit {0})
assert_can_create_carrier now org = do
  o ← read_organization org
  assert_not_expired now o
  assert_carrier_slot_available org

unfoldable pub assert_driver_slot_available : ℕ → Action (Unit {0})
assert_driver_slot_available org = do
  o ← read_organization org
  count ← gets (driver_count org)
  throw_if (is_full o.max_drivers count) business_rule

unfoldable pub assert_can_create_driver : ℕ → ℕ → Action (Unit {0})
assert_can_create_driver now org = do
  o ← read_organization org
  assert_not_expired now o
  assert_driver_slot_available org
