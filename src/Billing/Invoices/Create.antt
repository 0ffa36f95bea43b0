-- ===== src/Billing/Invoices/Create.antt =====
-- `create` and `void` of invoice.service.ts.
use truckmaster.Base.{
  ℕ, String, Bool, true, false, not, ◌&&◌, Option, none, some, List, [], ◌∷◌, ◌++◌, ◌==◌, map,
  filter, any, contains, length, ltb, or_else, if◌then◌else◌,
}
use truckmaster.Base.Int.{ℤ, pos}
use truckmaster.Store.Statuses.{
  LoadStatus, InvoiceStatus, PodStatus, ChargeSide, SequenceType, ◌is◌, is_one_of, load_status_enum,
  invoice_status_enum, pod_status_enum, charge_side_enum,
}
use truckmaster.Store.Rows.{Load, Invoice, InvoiceLoad, InvoiceLineItem, ChargeLineItem, ChargeType}
use truckmaster.Store.Transaction.{
  Store, Table, Action, put, pure, throw, gets, throw_if, modify, when, record_audit, fresh_id,
  with_tenant_transaction, ◌>>=◌, ◌>>◌, not_found, invalid_transition, business_rule, database,
  pod_incomplete_warning,
}
use truckmaster.Store.Audit
use truckmaster.Store.Queries.{require, find_load, find_invoice}
use truckmaster.Notifying.{distinct}
use truckmaster.Booking.Entitlement.{get_next_number}
use truckmaster.Billing.Charges.{sum_amounts}
use truckmaster.Billing.Invoices.Balance.{modify_billing, update_invoice}

-- `load.findMany({ where: { id: { in: ids }, organizationId } })`
abbrev pub found : Option Load → List Load → List Load
found none ls = ls
found (some l) ls = l ∷ ls

unfoldable pub find_each : ℕ → Store → List ℕ → List Load
find_each org s [] = []
find_each org s (id ∷ ids) = found (find_load org id s) (find_each org s ids)

unfoldable pub find_loads : ℕ → List ℕ → Store → List Load
find_loads org ids s = find_each org s (distinct ids)

abbrev pub is_customer_charge : ℕ → ℕ → ChargeLineItem → Bool
is_customer_charge org load_id c = c.load_id == load_id && c.side is ChargeSide.customer

unfoldable pub customer_charges : ℕ → ℕ → Store → List ChargeLineItem
customer_charges org load_id s = filter (is_customer_charge org load_id) s.charges

-- `loadTotal`
unfoldable pub load_total : ℕ → Store → ℕ → ℕ
load_total org s load_id =
    sum_amounts (λ (c : ChargeLineItem). c.amount) (customer_charges org load_id s)

abbrev type_label : ℕ → List ChargeType → String
type_label id [] = ""
type_label id (t ∷ ts) = if t.id == id then t.label else type_label id ts

abbrev pub consolidated_line : ℕ → ℕ → Store → Load → InvoiceLineItem
consolidated_line org invoice_id s l = record {
  organization_id = org;
  invoice_id = invoice_id;
  description = "Load";
  amount = load_total org s l.id;
  source_load_id = l.id;
  source_charge_line_item_id = none;
}

abbrev pub individual_line : ℕ → ℕ → ℕ → Store → ChargeLineItem → InvoiceLineItem
individual_line org invoice_id load_id s c = record {
  organization_id = org;
  invoice_id = invoice_id;
  description = or_else c.description (type_label c.charge_type_id s.master.charge_types);
  amount = c.amount;
  source_load_id = load_id;
  source_charge_line_item_id = some c.id;
}

-- One line for each load of several, or one for each customer charge of a single load; it is not reached
-- without a load.
unfoldable pub line_items_data : ℕ → ℕ → Store → List Load → List InvoiceLineItem
line_items_data org invoice_id s [] = []
line_items_data org invoice_id s (l ∷ []) =
    map (individual_line org invoice_id l.id s) (customer_charges org l.id s)
line_items_data org invoice_id s (l ∷ k ∷ ls) =
    map (consolidated_line org invoice_id s) (l ∷ k ∷ ls)

abbrev pub is_invoiceable : Load → Bool
is_invoiceable l =
    is_one_of l.status (LoadStatus.delivered ∷ LoadStatus.closed ∷ []) && not l.invoiced

abbrev pub has_incomplete_pod : Load → Bool
has_incomplete_pod l = not (l.pod_status is PodStatus.complete)

-- `load.updateMany({ where: { id: { in: ids } }, data: { invoiced } })`
abbrev pub mark_invoiced : List ℕ → Bool → Table Load → Table Load
mark_invoiced ids flag loads i = elim (loads i) [
  | none ↦ none
  | some l ↦ if contains l.id ids then some (record l { invoiced = flag }) else some l
]

abbrev create_invoice : Invoice → Action (Unit {0})
create_invoice invoice = do
  existing ← gets (λ s. s.billing.invoices invoice.id)
  elim existing [
    | none ↦ modify_billing λ b. record b { invoices = put invoice.id invoice b.invoices }
    | some other ↦ throw database
  ]

abbrev creation_action : Bool → ℕ → List ℕ → ℤ → Audit.Action
creation_action consolidated number ids total =
    if consolidated
    then Audit.invoice_created_consolidated number ids total
    else Audit.invoice_created_individual number ids total

abbrev is_consolidated : List Load → Bool
is_consolidated loads = ltb 1 (length loads)

abbrev load_ids : List Load → List ℕ
load_ids = map (λ (l : Load). l.id)

-- The checks on the selected loads.
unfoldable pub selected_loads : ℕ → ℕ → List ℕ → Bool → Action (List Load)
selected_loads org customer_id ids acknowledged = do
  loads ← gets (find_loads org ids)
  throw_if (not (length loads == length ids)) not_found
  throw_if (any (λ (l : Load). not (l.booking.customer_id == customer_id)) loads) business_rule
  throw_if (any (λ (l : Load). not (is_invoiceable l)) loads) business_rule
  throw_if (ltb 0 (length (filter has_incomplete_pod loads)) && not acknowledged)
      (pod_incomplete_warning (load_ids (filter has_incomplete_pod loads)))
  pure loads

abbrev pub invoice_load : ℕ → ℕ → Store → Load → InvoiceLoad
invoice_load org invoice_id s l = record {
  organization_id = org;
  invoice_id = invoice_id;
  load_id = l.id;
  load_total_at_invoice = load_total org s l.id;
}

-- The writes, once the loads are selected; without a load, `loads[0]` fails.
abbrev pub write_invoice : ℕ → ℕ → List ℕ → Bool → ℕ → List Load → Action Invoice
write_invoice org customer_id ids acknowledged actor loads = do
  number ← get_next_number org SequenceType.invoice
  id ← fresh_id
  throw_if (length loads == 0) database
  lines ← gets (λ s. line_items_data org id s loads)
  let total = pos (sum_amounts (λ (i : InvoiceLineItem). i.amount) lines)
  let invoice : Invoice = record {
    id = id;
    organization_id = org;
    invoice_number = number;
    customer_id = customer_id;
    status = InvoiceStatus.draft;
    sent_at = none;
    due_date = none;
    total = total;
    remaining_balance = total;
    created_by_user_id = actor;
  }
  create_invoice invoice
  rows ← gets (λ s. map (invoice_load org id s) loads)
  modify_billing (λ b. record b {
    invoice_loads = rows ++ b.invoice_loads;
    line_items = lines ++ b.line_items;
  })
  modify (λ s. record s { loads = mark_invoiced ids true s.loads })
  record_audit org id (creation_action (is_consolidated loads) number ids total) (some actor)
  when (ltb 0 (length (filter has_incomplete_pod loads)) && acknowledged) (
      record_audit org id
        (Audit.invoice_created_despite_incomplete_pod (load_ids (filter has_incomplete_pod loads)))
        (some actor))
  pure invoice

unfoldable pub create : ℕ → ℕ → List ℕ → Bool → ℕ → Action Invoice
create org customer_id ids acknowledged actor = with_tenant_transaction (
    selected_loads org customer_id ids acknowledged
    >>= write_invoice org customer_id ids acknowledged actor)

unfoldable pub loads_of_invoice : ℕ → ℕ → Store → List ℕ
loads_of_invoice org id s =
    map (λ (r : InvoiceLoad). r.load_id)
      (filter (λ (r : InvoiceLoad). r.organization_id == org && r.invoice_id == id)
        s.billing.invoice_loads)

unfoldable pub void : ℕ → ℕ → ℕ → Action Invoice
void org id actor = with_tenant_transaction do
  existing ← require (find_invoice org id)
  throw_if (existing.status is InvoiceStatus.void) invalid_transition
  ids ← gets (loads_of_invoice org id)
  updated ← update_invoice id (λ i. record i { status = InvoiceStatus.void })
  modify (λ s. record s { loads = mark_invoiced ids false s.loads })
  record_audit org id (Audit.invoice_voided existing.status ids) (some actor)
  pure updated
