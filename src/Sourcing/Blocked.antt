-- ===== src/Sourcing/Blocked.antt =====
-- `assignCarrier` of carrier-sourcing.service.ts with a carrier that is not eligible.
use truckmaster.Base.{ℕ, ◌≡◌, false, some, arith}
use truckmaster.Store.Statuses.{LoadStatus, load_status_enum}
use truckmaster.Store.Rows.{Load, Carrier}
use truckmaster.Store.Transaction.{Store, err, eligibility, with_tenant_transaction}
use truckmaster.Store.Queries.{find_load, find_carrier}
use truckmaster.Carrier.Eligibility.{eligibility_reasons, is_empty}
use truckmaster.Carrier.Decision.{recalculate-persists}
use truckmaster.Sourcing.Assignment.{assign_carrier}

-- Assigning a carrier that has an ineligibility reason to a load in Carrier Sourcing fails with the
-- reasons, and the store is as before: neither the new eligibility nor an audit entry is kept.
pub assign_carrier-blocked :
    (now org load_id carrier_id rate actor : ℕ) (l : Load) (c : Carrier) (s : Store)
    → find_load org load_id s ≡ some l
    → l.status ≡ LoadStatus.carrier_sourcing
    → find_carrier org carrier_id s ≡ some c
    → is_empty (eligibility_reasons now org carrier_id c s) ≡ false
    → assign_carrier now org load_id carrier_id rate actor s
      ≡ (err (eligibility (eligibility_reasons now org carrier_id c s)), s)
unfolding assign_carrier with_tenant_transaction
assign_carrier-blocked now org load_id carrier_id rate actor l c s found sourcing known reasons =
    ground (arith, recalculate-persists now org carrier_id c s known)
