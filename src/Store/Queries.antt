-- ===== src/Store/Queries.antt =====
-- The Prisma calls that the services share: `findFirst`, `findMany`, `create` and `update` on the
-- tables, each scoped to an organization as the `where` clauses are.
use truckmaster.Base.{
  ℕ, zero, suc, Bool, true, ◌&&◌, Option, none, some, List, [], ◌∷◌, ◌++◌, ◌==◌, if◌then◌else◌,
  find, update_where,
}
use truckmaster.Store.Statuses.{
  ChargeSide, ChargeSource, DocumentCode, EntityType, ◌is◌, document_code_enum, entity_type_enum,
}
use truckmaster.Store.Rows.{
  Load, Stop, Carrier, Customer, Invoice, CarrierPayment, Quote, DispatchRecord, Document,
  DocumentType, ChargeType, ChargeLineItem,
}
use truckmaster.Store.Transaction.{
  put, Table, Store, Action, pure, throw, gets, or_throw, modify, ◌>>=◌, ◌>>◌, not_found, database,
}

-- `findFirst({ where: { id, organizationId } })`
abbrev pub find_row : {A : Type 0} → (A → ℕ) → (A → ℕ) → ℕ → ℕ → Option A → Option A
find_row row_id row_organization org id none = none
find_row row_id row_organization org id (some row) =
    if row_id row == id && row_organization row == org then some row else none

abbrev pub find_load : ℕ → ℕ → Store → Option Load
find_load org id s =
    find_row (λ (l : Load). l.id) (λ (l : Load). l.organization_id) org id (s.loads id)

abbrev pub find_carrier : ℕ → ℕ → Store → Option Carrier
find_carrier org id s =
    find_row (λ (c : Carrier). c.id) (λ (c : Carrier). c.organization_id) org id (s.carriers id)

abbrev pub find_customer : ℕ → ℕ → Store → Option Customer
find_customer org id s =
    find_row (λ (c : Customer). c.id) (λ (c : Customer). c.organization_id) org id
      (s.master.customers id)

abbrev pub find_invoice : ℕ → ℕ → Store → Option Invoice
find_invoice org id s =
    find_row (λ (i : Invoice). i.id) (λ (i : Invoice). i.organization_id) org id
      (s.billing.invoices id)

abbrev pub find_carrier_payment : ℕ → ℕ → Store → Option CarrierPayment
find_carrier_payment org id s =
    find (λ (p : CarrierPayment). p.id == id && p.organization_id == org) s.carrier_payments

abbrev pub find_quote : ℕ → ℕ → Store → Option Quote
find_quote org id s =
    find_row (λ (q : Quote). q.id) (λ (q : Quote). q.organization_id) org id (s.quotes id)

abbrev pub find_dispatch_record : ℕ → ℕ → Store → Option DispatchRecord
find_dispatch_record org load_id s =
    find_row (λ (r : DispatchRecord). r.load_id) (λ (r : DispatchRecord). r.organization_id) org
      load_id (s.dispatch_records load_id)

-- `const x = await tx.….findFirst(…); if (!x) throw new NotFoundError(…)`
abbrev pub require : {A : Type 0} → (Store → Option A) → Action A
require f = gets f >>= or_throw not_found

-- `tx.load.update({ where: { id }, data })`
abbrev pub update_load : ℕ → (Load → Load) → Action Load
update_load id change = do
  row ← gets (λ s. s.loads id) >>= or_throw database
  modify (λ s. record s { loads = put id (change row) s.loads })
  pure (change row)

abbrev pub is_stop_of : ℕ → ℕ → Stop → Bool
is_stop_of org load_id stop = stop.load_id == load_id && stop.organization_id == org

abbrev pub find_stop : ℕ → ℕ → ℕ → Store → Option Stop
find_stop org load_id sequence s =
    find (λ (stop : Stop). is_stop_of org load_id stop && stop.sequence == sequence) s.stops

-- `tx.stop.update({ where: { id: stop.id }, data })` on a row that was just found
abbrev pub update_stop : Stop → (Stop → Stop) → Action Stop
update_stop stop change = do
  modify λ s. record s { stops = update_where (λ (row : Stop). row.id == stop.id) change s.stops }
  pure (change stop)

abbrev pub is_document_of : ℕ → EntityType → ℕ → DocumentCode → Document → Bool
is_document_of org entity_type entity_id code d =
    d.organization_id == org
    && d.entity_type is entity_type
    && d.entity_id == entity_id
    && d.is_current_version
    && d.code is code

abbrev pub find_document : ℕ → EntityType → ℕ → DocumentCode → Store → Option Document
find_document org entity_type entity_id code s =
    find (is_document_of org entity_type entity_id code) s.documents

-- `OR: [{ organizationId }, { organizationId: null }]`
abbrev pub is_available_to : ℕ → Option ℕ → Bool
is_available_to org none = true
is_available_to org (some owner) = owner == org

abbrev pub find_document_type : ℕ → DocumentCode → Store → Option DocumentType
find_document_type org code s =
    find (λ (t : DocumentType). t.code is code && is_available_to org t.organization_id)
      s.master.document_types

abbrev pub find_linehaul : ℕ → Store → Option ChargeType
find_linehaul org s =
    find (λ (t : ChargeType). t.is_linehaul && is_available_to org t.organization_id)
      s.master.charge_types

-- `create` of a row whose primary key must be new
abbrev pub create_load : Load → Action (Unit {0})
create_load l = do
  existing ← gets (λ s. s.loads l.id)
  elim existing [
    | none ↦ modify λ s. record s { loads = put l.id l s.loads }
    | some other ↦ throw database
  ]

abbrev pub create_charge : ChargeLineItem → Action (Unit {0})
create_charge c = modify λ s. record s { charges = s.charges ++ c ∷ [] }

-- The linehaul charge that the system makes, of quantity 1.00.
abbrev pub original_charge : ℕ → ℕ → ChargeSide → ℕ → ℕ → ℕ → ℕ → ChargeLineItem
original_charge id org side load_id charge_type_id rate actor = record {
  id = id;
  organization_id = org;
  load_id = load_id;
  side = side;
  charge_type_id = charge_type_id;
  description = none;
  quantity = 100;
  unit_rate = rate;
  amount = rate;
  source = ChargeSource.original;
  created_by_user_id = actor;
}

-- The rows of a table: every key was drawn from the ids below `next_id`.
unfoldable pub rows_below : {A : Type 0} → ℕ → Table A → List A
rows_below zero t = []
rows_below (suc n) t = let rest = rows_below n t in elim (t n) [ none ↦ rest | some a ↦ a ∷ rest ]
