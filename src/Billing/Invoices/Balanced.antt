-- ===== src/Billing/Invoices/Balanced.antt =====
-- The balance of every invoice by its rows, under the operations of invoice.service.ts.
use truckmaster.Base.{
  ℕ, ◌≡◌, refl, ◌∙◌, Bool, false, Option, none, some, List, [], ◌∷◌, arith, any, ◌==◌,
}
use truckmaster.Base.Int.{ℤ, pos, ◌+ℤ◌, ◌-ℤ◌, int_laws}
use truckmaster.Store.Statuses.{AdjustmentType, invoice_status_enum, adjustment_type_enum}
use truckmaster.Store.Rows.{Invoice, Payment, Adjustment}
use truckmaster.Store.Transaction.{Store, Billing}
use truckmaster.Billing.Charges.{sum_amounts}
use truckmaster.Billing.Invoices.Balance.{remaining_of, payments_total, adjustments_total}
use truckmaster.Billing.Invoices.Ledger.{paid_billing, adjusted_billing}

abbrev pub has_payments : ℕ → List Payment → Bool
has_payments id = any (λ (p : Payment). p.invoice_id == id)

abbrev pub has_adjustments : ℕ → List Adjustment → Bool
has_adjustments id = any (λ (a : Adjustment). a.invoice_id == id)

-- An invoice that is there stands under its id and has the balance that its rows give; one that is
-- not has no rows.
abbrev pub BalancedRow : ℕ → Option Invoice → Billing → Type 0
BalancedRow id none b =
    (has_payments id b.payments ≡ false) × (has_adjustments id b.adjustments ≡ false)
BalancedRow id (some i) b =
    (i.id ≡ id) × (i.remaining_balance ≡ remaining_of i.organization_id id i.total b)

abbrev pub IsBalanced : Store → ℕ → Type 0
IsBalanced s id = BalancedRow id (s.billing.invoices id) s.billing

payments_total-none :
    (org id : ℕ) (ps : List Payment) → has_payments id ps ≡ false → payments_total org id ps ≡ 0
unfolding payments_total sum_amounts
payments_total-none org id [] h = refl
payments_total-none org id (p ∷ ps) h = ground (arith, h, payments_total-none org id ps)

adjustments_total-none :
    (org id : ℕ) (type : AdjustmentType) (rows : List Adjustment)
    → has_adjustments id rows ≡ false
    → adjustments_total org id type rows ≡ 0
unfolding adjustments_total sum_amounts
adjustments_total-none org id type [] h = refl
adjustments_total-none org id type (a ∷ rows) h =
    ground (arith, h, adjustments_total-none org id type rows)

nothing_taken : (total : ℤ) → total ≡ total -ℤ pos 0 -ℤ pos 0 +ℤ pos 0
nothing_taken total = omega int_laws

pub remaining_of-none :
    (org id : ℕ) (total : ℤ) (b : Billing)
    → BalancedRow id none b
    → total ≡ remaining_of org id total b
unfolding remaining_of
remaining_of-none org id total b (no_payments, no_adjustments) =
    rw
      (
        payments_total-none org id b.payments no_payments,
        adjustments_total-none org id AdjustmentType.credit b.adjustments no_adjustments,
        adjustments_total-none org id AdjustmentType.debit b.adjustments no_adjustments,
      )
      (nothing_taken total)

-- A row of one invoice is nothing to another.
payments_total-other :
    (org id : ℕ) (p : Payment) (ps : List Payment)
    → (p.invoice_id == id) ≡ false
    → payments_total org id (p ∷ ps) ≡ payments_total org id ps
unfolding payments_total
payments_total-other org id p ps h = ground (arith, h)

adjustments_total-other :
    (org id : ℕ) (type : AdjustmentType) (a : Adjustment) (rows : List Adjustment)
    → (a.invoice_id == id) ≡ false
    → adjustments_total org id type (a ∷ rows) ≡ adjustments_total org id type rows
unfolding adjustments_total
adjustments_total-other org id type a rows h = ground (arith, h)

pub paid_other :
    (id : ℕ) (row : Option Invoice) (p : Payment) (b : Billing)
    → (p.invoice_id == id) ≡ false
    → BalancedRow id row b
    → BalancedRow id row (paid_billing p b)
unfolding remaining_of
paid_other id none p b other h = ground (arith, h.0, h.1, other)
paid_other id (some i) p b other (key, h) =
    (key, rw (payments_total-other i.organization_id id p b.payments other) h)

pub adjusted_other :
    (id : ℕ) (row : Option Invoice) (a : Adjustment) (b : Billing)
    → (a.invoice_id == id) ≡ false
    → BalancedRow id row b
    → BalancedRow id row (adjusted_billing a b)
unfolding remaining_of
adjusted_other id none a b other h = ground (arith, h.0, h.1, other)
adjusted_other id (some i) a b other (key, h) = (
  key,
  rw
      (
        adjustments_total-other i.organization_id id AdjustmentType.credit a b.adjustments other,
        adjustments_total-other i.organization_id id AdjustmentType.debit a b.adjustments other,
      )
      h,
)

-- The same rows of payments and adjustments, and an invoice with the same amounts.
abbrev pub SameAmounts : Option Invoice → Option Invoice → Type 0
SameAmounts none none = Unit
SameAmounts (some i) (some j) =
    (j.id ≡ i.id)
    × (j.organization_id ≡ i.organization_id)
    × (j.total ≡ i.total)
    × (j.remaining_balance ≡ i.remaining_balance)
SameAmounts none (some j) = ⊥
SameAmounts (some i) none = ⊥

pub SameAmounts-refl : (row : Option Invoice) → SameAmounts row row
SameAmounts-refl none = tt
SameAmounts-refl (some i) = (refl, refl, refl, refl)

pub balanced_same :
    (id : ℕ) (row next : Option Invoice) (b c : Billing)
    → SameAmounts row next
    → c.payments ≡ b.payments
    → c.adjustments ≡ b.adjustments
    → BalancedRow id row b
    → BalancedRow id next c
unfolding remaining_of
balanced_same id none none b c same payments adjustments h = rw (payments, adjustments) h
balanced_same id none (some j) b c same payments adjustments h = elim same [ ]
balanced_same id (some i) none b c same payments adjustments h = elim same [ ]
balanced_same id (some i) (some j) b c (key, owner, total, left) payments adjustments h =
    (key ∙ h.0, rw (payments, adjustments, owner, total, left) h.1)
