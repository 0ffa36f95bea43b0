-- ===== src/Billing/Charges.antt =====
-- `addCharge` of backend/src/modules/quote-load/services/load.service.ts, and sums of amounts.
-- Amounts are exact cents: `Number` and `toFixed(2)` are read as exact decimal arithmetic.
use truckmaster.Base.{
  ℕ, ◌+◌, ◌*◌, ◌/◌, String, ◌&&◌, Option, some, List, [], ◌∷◌, ◌==◌, find, or_else,
}
use truckmaster.Store.Statuses.{ChargeSide, ChargeSource, charge_side_enum, charge_source_enum}
use truckmaster.Store.Rows.{ChargeLineItem, ChargeType}
use truckmaster.Store.Transaction.{
  Store, Action, pure, record_audit, fresh_id, with_tenant_transaction, ◌>>=◌, ◌>>◌,
}
use truckmaster.Store.Audit
use truckmaster.Store.Queries.{require, find_load, create_charge, is_available_to}

-- `rows.reduce((sum, r) => sum + Number(r.amount), 0)`
module _ {A : Type 0} (amount : A → ℕ) where
  unfoldable pub sum_amounts : List A → ℕ
  sum_amounts [] = 0
  sum_amounts (x ∷ xs) = amount x + sum_amounts xs

-- `AddChargeDto`; the quantity is in hundredths.
pub record ChargeDto : Type 0 where
  pub side : ChargeSide
  pub charge_type_id : ℕ
  pub description : Option String
  pub quantity : Option ℕ
  pub unit_rate : ℕ

-- `(Number(quantity) * Number(unitRate)).toFixed(2)`, the nearest cent, the upper one at a tie.
abbrev pub charge_amount : ℕ → ℕ → ℕ
charge_amount quantity unit_rate = (quantity * unit_rate + 50) / 100

abbrev pub find_charge_type : ℕ → ℕ → Store → Option ChargeType
find_charge_type org id s =
    find (λ (t : ChargeType). t.id == id && is_available_to org t.organization_id)
      s.master.charge_types

unfoldable pub add_charge : ℕ → ℕ → ChargeDto → ℕ → Action ChargeLineItem
add_charge org load_id dto actor = with_tenant_transaction do
  require (find_load org load_id)
  require (find_charge_type org dto.charge_type_id)
  id ← fresh_id
  let amount = charge_amount (or_else dto.quantity 100) dto.unit_rate
  let charge : ChargeLineItem = record {
    id = id;
    organization_id = org;
    load_id = load_id;
    side = dto.side;
    charge_type_id = dto.charge_type_id;
    description = dto.description;
    quantity = or_else dto.quantity 100;
    unit_rate = dto.unit_rate;
    amount = amount;
    source = ChargeSource.adjustment;
    created_by_user_id = actor;
  }
  create_charge charge
  record_audit org load_id (Audit.charge_line_item_added dto.side amount) (some actor)
  pure charge
