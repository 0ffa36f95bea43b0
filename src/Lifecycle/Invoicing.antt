-- ===== src/Lifecycle/Invoicing.antt =====
-- What the operations of invoice.service.ts do to the invoices and to the invoiced flags of the loads.
use truckmaster.Base.{
  length, ℕ, ◌≡◌, refl, ap, ◌∙◌, Bool, true, false, not, Option, none, some, List, ◌++◌, arith, any,
  map, String, ◌==◌, Option-cases, inl, inr, Bool-cases,
}
use truckmaster.Store.Statuses.{InvoiceStatus, ◌is◌, invoice_status_enum}
use truckmaster.Store.Rows.{Load, Invoice}
use truckmaster.Store.Transaction.{Store, Table, commit, with_tenant_transaction}
use truckmaster.Store.Queries.{find_invoice}
use truckmaster.Billing.Invoices.Create.{
  create, void, mark_invoiced, find_loads, is_invoiceable, invoice_load, loads_of_invoice,
  write_invoice, load_total, customer_charges,
}
use truckmaster.Billing.Invoices.Exclusive.{create-by}
use truckmaster.Billing.Invoices.Balance
use truckmaster.Billing.Invoices.Balance.{
  PaymentDto, AdjustmentDto, recalculate_invoice_balance, remaining_of, payments_total,
  status_after, is_settled,
}
use truckmaster.Billing.Invoices.Ledger.{payment_of, paid_billing, adjustment_of, adjusted_billing}
use truckmaster.Billing.Invoices.Send
use truckmaster.Booking.Entitlement.{get_next_number}

-- The same load but for its invoiced flag.
abbrev pub RowBilled : Option Load → Option Load → Type 0
RowBilled none none = Unit
RowBilled (some a) (some b) = b ≡ record a { invoiced = b.invoiced }
RowBilled none (some b) = ⊥
RowBilled (some a) none = ⊥

RowBilled-refl : (row : Option Load) → RowBilled row row
RowBilled-refl none = tt
RowBilled-refl (some a) = refl

mark_invoiced-RowBilled :
    (ids : List ℕ) (flag : Bool) (loads : Table Load) (i : ℕ)
    → RowBilled (loads i) (mark_invoiced ids flag loads i)
mark_invoiced-RowBilled ids flag loads i = ground arith

-- A row of an invoice that is not Void holds its load; so does one whose invoice is not there.
abbrev pub is_live : Option Invoice → Bool
is_live none = true
is_live (some i) = not (i.status is InvoiceStatus.void)

-- Payments, adjustments and sending: no load and no row of an invoice changes, and no invoice becomes
-- Void or ceases to be.
pub record Settles (s t : Store) : Type 0 where
  pub loads : t.loads ≡ s.loads
  pub rows : t.billing.invoice_loads ≡ s.billing.invoice_loads
  pub live : (j : ℕ) → is_live (t.billing.invoices j) ≡ is_live (s.billing.invoices j)

-- A new invoice for the loads that were found.
pub record Bills (org id : ℕ) (ids : List ℕ) (s t : Store) : Type 0 where
  pub ready : any (λ (l : Load). not (is_invoiceable l)) (find_loads org ids s) ≡ false
  pub loads : t.loads ≡ mark_invoiced ids true s.loads
  pub rows :
      t.billing.invoice_loads
      ≡ map (invoice_load org id s) (find_loads org ids s) ++ s.billing.invoice_loads
  pub live : (j : ℕ) → is_live (t.billing.invoices j) ≡ is_live (s.billing.invoices j)

-- An invoice becomes Void, and its loads are released.
pub record Voids (org id : ℕ) (s t : Store) : Type 0 where
  pub was_live : is_live (s.billing.invoices id) ≡ true
  pub loads : t.loads ≡ mark_invoiced (loads_of_invoice org id s) false s.loads
  pub rows : t.billing.invoice_loads ≡ s.billing.invoice_loads
  pub void : is_live (t.billing.invoices id) ≡ false
  pub others :
      (j : ℕ) → (j == id) ≡ false → is_live (t.billing.invoices j) ≡ is_live (s.billing.invoices j)

pub data Invoices (s t : Store) : Type 0 where
  settles : Settles s t → Invoices s t
  bills : (org id : ℕ) (ids : List ℕ) → Bills org id ids s t → Invoices s t
  voids : (org id : ℕ) → Voids org id s t → Invoices s t

Settles-refl : (s : Store) → Settles s s
Settles-refl s = record { loads = refl; rows = refl; live = λ j. refl }

pub Invoices-RowBilled : (s t : Store) → Invoices s t → (i : ℕ) → RowBilled (s.loads i) (t.loads i)
Invoices-RowBilled s t (Invoices.settles h) i = rw h.loads (RowBilled-refl (s.loads i))
Invoices-RowBilled s t (Invoices.bills org id ids h) i =
    rw h.loads (mark_invoiced-RowBilled ids true s.loads i)
Invoices-RowBilled s t (Invoices.voids org id h) i =
    rw h.loads (mark_invoiced-RowBilled (loads_of_invoice org id s) false s.loads i)

-- A status that is not Void does not become Void by a recalculation, nor the other way round.
status_after-void :
    (status : InvoiceStatus) (settled : Bool) (paid : ℕ)
    → (status_after status settled paid is InvoiceStatus.void) ≡ (status is InvoiceStatus.void)
unfolding status_after
status_after-void status settled paid = ground arith

pub send-Settles :
    (now org id : ℕ) (recipient : String) (actor : ℕ) (s : Store)
    → Settles s (Send.send now org id recipient actor s).1
unfolding Send.send Send.mark_sent with_tenant_transaction
send-Settles now org id recipient actor s = record {
  loads = ground arith;
  rows = ground arith;
  live = λ j. ground arith;
}

recalculate-Settles : (org id : ℕ) (s : Store) → Settles s (recalculate_invoice_balance org id s).1
unfolding recalculate_invoice_balance
recalculate-Settles org id s = elim (Option-cases (find_invoice org id s)) [
  | inl missing ↦ ground (arith, Settles-refl s)
  | inr (i, e) ↦
      let void =
        status_after-void i.status (is_settled org id i.total s.billing)
          (payments_total org id s.billing.payments) in
      record { loads = ground arith; rows = ground arith; live = λ j. ground (arith, void) }
]

-- A recalculation after a row that is neither an invoice's nor a load's.
recalculated_after :
    (org id : ℕ) (s t : Store)
    → t.loads ≡ s.loads
    → t.billing.invoice_loads ≡ s.billing.invoice_loads
    → t.billing.invoices ≡ s.billing.invoices
    → Settles s (recalculate_invoice_balance org id t).1
recalculated_after org id s t loads rows invoices =
    let h = recalculate-Settles org id t in
    record {
      loads = h.loads ∙ loads;
      rows = h.rows ∙ rows;
      live = λ j. h.live j ∙ ap (λ f. is_live (f j)) invoices;
    }

pub record_payment-Settles :
    (org id : ℕ) (dto : PaymentDto) (actor : ℕ) (s : Store)
    → Settles s (Balance.record_payment org id dto actor s).1
unfolding Balance.record_payment with_tenant_transaction
record_payment-Settles org id dto actor s =
    let b = paid_billing (payment_of org id dto actor) s.billing in
    ground
      (arith, Settles-refl s, recalculated_after org id s (record s { billing = b }) refl refl refl)

pub add_adjustment-Settles :
    (now org id : ℕ) (dto : AdjustmentDto) (actor : ℕ) (s : Store)
    → Settles s (Balance.add_adjustment now org id dto actor s).1
unfolding Balance.add_adjustment with_tenant_transaction
add_adjustment-Settles now org id dto actor s =
    let b = adjusted_billing (adjustment_of now org id dto actor) s.billing in
    ground
      (arith, Settles-refl s, recalculated_after org id s (record s { billing = b }) refl refl refl)

pub void-Invoices : (org id actor : ℕ) (s : Store) → Invoices s (void org id actor s).1
unfolding void with_tenant_transaction
void-Invoices org id actor s = elim (Option-cases (find_invoice org id s)) [
  | inl missing ↦ Invoices.settles (ground (arith, Settles-refl s))
  | inr (i, e) ↦ elim (Bool-cases (i.status is InvoiceStatus.void)) [
    | inl was_void ↦ Invoices.settles (ground (arith, Settles-refl s))
    | inr not_void ↦ Invoices.voids org id (record {
      was_live = ground arith;
      loads = ground arith;
      rows = ground arith;
      void = ground arith;
      others = λ j other. ground arith;
    })
  ]
]

-- The writes of an invoice for the loads that were found.
write_invoice-Invoices :
    (org customer_id : ℕ) (ids : List ℕ) (acknowledged : Bool) (actor : ℕ) (s : Store)
    → any (λ (l : Load). not (is_invoiceable l)) (find_loads org ids s) ≡ false
    → Invoices s
        (commit s (write_invoice org customer_id ids acknowledged actor (find_loads org ids s) s)).1
unfolding get_next_number load_total customer_charges
write_invoice-Invoices org customer_id ids acknowledged actor s ready =
    elim (Bool-cases (length (find_loads org ids s) == 0)) [
      | inl empty ↦ Invoices.settles (ground (arith, empty, Settles-refl s))
      | inr full ↦ elim (Option-cases (s.billing.invoices s.next_id)) [
        | inl free ↦ Invoices.bills org s.next_id ids (record {
          ready = ready;
          loads = ground (arith, full);
          rows = ground (arith, full);
          live = λ j. ground (arith, full);
        })
        | inr (other, taken) ↦ Invoices.settles (ground (arith, full, Settles-refl s))
      ]
    ]

pub create-Invoices :
    (org customer_id : ℕ) (ids : List ℕ) (acknowledged : Bool) (actor : ℕ) (s : Store)
    → Invoices s (create org customer_id ids acknowledged actor s).1
create-Invoices org customer_id ids acknowledged actor s =
    create-by org customer_id ids acknowledged actor s (Invoices s)
      (Invoices.settles (Settles-refl s))
      (write_invoice-Invoices org customer_id ids acknowledged actor s)
