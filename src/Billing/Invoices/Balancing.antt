-- ===== src/Billing/Invoices/Balancing.antt =====
-- The operations of invoice.service.ts one by one, against the balance of every invoice.
use truckmaster.Base.{
  ℕ, ◌≡◌, sym, Bool, false, none, some, List, arith, String, ◌==◌, ==_iff, Option-cases, Bool-cases,
  inl, inr,
}
use mathlib.Core.Path.{subst}
use truckmaster.Base.Int.{pos}
use truckmaster.Store.Statuses.{SequenceType}
use truckmaster.Store.Rows.{Load, Invoice, InvoiceLineItem}
use truckmaster.Store.Transaction.{Store, commit, with_tenant_transaction, fresh_id, ◌>>◌}
use truckmaster.Store.Queries.{find_invoice}
use truckmaster.Booking.Entitlement.{get_next_number}
use truckmaster.Billing.Charges.{sum_amounts}
use truckmaster.Billing.Invoices.Create.{create, void, find_loads, write_invoice, line_items_data}
use truckmaster.Billing.Invoices.Exclusive.{create-by}
use truckmaster.Billing.Invoices.Balance.{
  PaymentDto, AdjustmentDto, record_payment, add_adjustment, recalculate_invoice_balance,
  remaining_of,
}
use truckmaster.Billing.Invoices.Ledger.{payment_of, paid_billing, adjustment_of, adjusted_billing}
use truckmaster.Billing.Invoices.Send.{send, mark_sent}
use truckmaster.Billing.Invoices.Balanced.{
  BalancedRow, IsBalanced, remaining_of-none, paid_other, adjusted_other, SameAmounts,
  SameAmounts-refl, balanced_same,
}

find_invoice_found :
    (org id : ℕ) (i : Invoice) (s : Store)
    → find_invoice org id s ≡ some i
    → (s.billing.invoices id ≡ some i) × (i.id ≡ id) × (i.organization_id ≡ org)
find_invoice_found org id i s h = ground arith

recalculate-IsBalanced :
    (org id : ℕ) (i : Invoice) (s : Store)
    → find_invoice org id s ≡ some i
    → IsBalanced (recalculate_invoice_balance org id s).1 id
unfolding recalculate_invoice_balance remaining_of
recalculate-IsBalanced org id i s found =
    let (there, key, owner) = find_invoice_found org id i s found in
    ground (arith, found, there, key, owner)

recalculate-rows :
    (org id j : ℕ) (s : Store)
    → (id == j) ≡ false
    → ((recalculate_invoice_balance org id s).1.billing.invoices j ≡ s.billing.invoices j)
      × ((recalculate_invoice_balance org id s).1.billing.payments ≡ s.billing.payments)
      × ((recalculate_invoice_balance org id s).1.billing.adjustments ≡ s.billing.adjustments)
unfolding recalculate_invoice_balance
recalculate-rows org id j s other = (ground arith, ground arith, ground arith)

recalculate_others :
    (org id j : ℕ) (s : Store)
    → (id == j) ≡ false
    → IsBalanced s j
    → IsBalanced (recalculate_invoice_balance org id s).1 j
recalculate_others org id j s other h =
    let t = (recalculate_invoice_balance org id s).1 in
    let (rows, payments, adjustments) = recalculate-rows org id j s other in
    let same =
      subst (λ row. SameAmounts (s.billing.invoices j) row) (sym rows)
        (SameAmounts-refl (s.billing.invoices j)) in
    balanced_same j (s.billing.invoices j) (t.billing.invoices j) s.billing t.billing same payments
      adjustments h

-- A recalculation after rows that are new, and nothing to other invoices.
recalculated_after :
    (org id j : ℕ) (i : Invoice) (t : Store)
    → find_invoice org id t ≡ some i
    → ((id == j) ≡ false → IsBalanced t j)
    → IsBalanced (recalculate_invoice_balance org id t).1 j
recalculated_after org id j i t found h = elim (Bool-cases (id == j)) [
  | inl e ↦
      subst (λ k. IsBalanced (recalculate_invoice_balance org id t).1 k) ((==_iff id j).0 e)
        (recalculate-IsBalanced org id i t found)
  | inr e ↦ recalculate_others org id j t e (h e)
]

pub record_payment-IsBalanced :
    (org id : ℕ) (dto : PaymentDto) (actor j : ℕ) (s : Store)
    → IsBalanced s j
    → IsBalanced (record_payment org id dto actor s).1 j
unfolding record_payment with_tenant_transaction
record_payment-IsBalanced org id dto actor j s h = elim (Option-cases (find_invoice org id s)) [
  | inl missing ↦ ground (arith, missing, h)
  | inr (i, e) ↦
      let p = payment_of org id dto actor in
      let t = record s { billing = paid_billing p s.billing } in
      let after =
        recalculated_after org id j i t e
          (λ other. paid_other j (s.billing.invoices j) p s.billing other h) in
      ground (arith, e, h, after)
]

pub add_adjustment-IsBalanced :
    (now org id : ℕ) (dto : AdjustmentDto) (actor j : ℕ) (s : Store)
    → IsBalanced s j
    → IsBalanced (add_adjustment now org id dto actor s).1 j
unfolding add_adjustment with_tenant_transaction
add_adjustment-IsBalanced now org id dto actor j s h = elim (Option-cases (find_invoice org id s)) [
  | inl missing ↦ ground (arith, missing, h)
  | inr (i, e) ↦
      let a = adjustment_of now org id dto actor in
      let t = record s { billing = adjusted_billing a s.billing } in
      let after =
        recalculated_after org id j i t e
          (λ other. adjusted_other j (s.billing.invoices j) a s.billing other h) in
      ground (arith, e, h, after)
]

-- Only the invoices have changed, and none in its amounts.
module _ (j : ℕ) (s t : Store) where
  kept :
      SameAmounts (s.billing.invoices j) (t.billing.invoices j)
      → t.billing.payments ≡ s.billing.payments
      → t.billing.adjustments ≡ s.billing.adjustments
      → IsBalanced s j
      → IsBalanced t j
  kept = balanced_same j (s.billing.invoices j) (t.billing.invoices j) s.billing t.billing

pub send-IsBalanced :
    (now org id : ℕ) (recipient : String) (actor j : ℕ) (s : Store)
    → IsBalanced s j
    → IsBalanced (send now org id recipient actor s).1 j
unfolding send mark_sent with_tenant_transaction
send-IsBalanced now org id recipient actor j s =
    kept j s (send now org id recipient actor s).1
      (ground (arith, SameAmounts-refl (s.billing.invoices j), (==_iff j id).0)) (ground arith)
      (ground arith)

pub void-IsBalanced :
    (org id actor j : ℕ) (s : Store) → IsBalanced s j → IsBalanced (void org id actor s).1 j
unfolding void with_tenant_transaction
void-IsBalanced org id actor j s =
    kept j s (void org id actor s).1
      (ground (arith, SameAmounts-refl (s.billing.invoices j), (==_iff j id).0)) (ground arith)
      (ground arith)

module _ (org customer_id : ℕ) (ids : List ℕ) (acknowledged : Bool) (actor : ℕ)
    (ls : List Load) where
  -- The store after the writes of a new invoice.
  abbrev written : Store → Store
  written s = (commit s (write_invoice org customer_id ids acknowledged actor ls s)).1

  written-new :
      (s : Store)
      → s.billing.invoices s.next_id ≡ none
      → IsBalanced s s.next_id
      → IsBalanced (written s) s.next_id
  unfolding get_next_number remaining_of
  written-new s free h =
      let none_yet = subst (λ row. BalancedRow s.next_id row s.billing) free h in
      let numbered = ((get_next_number org SequenceType.invoice >> fresh_id) s).1 in
      let lines = line_items_data org s.next_id numbered ls in
      let total = pos (sum_amounts (λ (i : InvoiceLineItem). i.amount) lines) in
      ground (arith, free, remaining_of-none org s.next_id total s.billing none_yet)

  written-IsBalanced : (j : ℕ) (s : Store) → IsBalanced s j → IsBalanced (written s) j
  unfolding get_next_number
  written-IsBalanced j s h = elim (Option-cases (s.billing.invoices s.next_id)) [
    | inr (other, taken) ↦ ground (arith, h, taken)
    | inl free ↦ elim (Bool-cases (j == s.next_id)) [
      | inl new ↦
          let e = (==_iff j s.next_id).0 new in
          subst (IsBalanced (written s)) (sym e) (written-new s free (subst (IsBalanced s) e h))
      | inr other ↦
          kept j s (written s)
            (ground (arith, SameAmounts-refl (s.billing.invoices j), other, free)) (ground arith)
            (ground arith) h
    ]
  ]

pub create-IsBalanced :
    (org customer_id : ℕ) (ids : List ℕ) (acknowledged : Bool) (actor j : ℕ) (s : Store)
    → IsBalanced s j
    → IsBalanced (create org customer_id ids acknowledged actor s).1 j
create-IsBalanced org customer_id ids acknowledged actor j s h =
    create-by org customer_id ids acknowledged actor s (λ t. IsBalanced t j) h
      (λ ready.
        written-IsBalanced org customer_id ids acknowledged actor (find_loads org ids s) j s h)
