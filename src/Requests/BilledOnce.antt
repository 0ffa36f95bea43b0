-- ===== src/Requests/BilledOnce.antt =====
-- The loads on the invoices of invoice.service.ts, over any requests.
mod Counting
use truckmaster.Base.{
  ℕ, zero, suc, ◌+◌, ◌≤◌, ◌≡◌, refl, ap, ◌∙◌, Bool, true, false, not, ◌&&◌, ◌||◌, Option, none,
  some, List, [], ◌∷◌, ◌++◌, map, arith, any, filter, contains, ◌==◌, ==_iff, if◌then◌else◌,
  Option-cases, Bool-cases, inl, inr,
}
use truckmaster.Store.Rows.{Load, Invoice, InvoiceLoad}
use truckmaster.Store.Transaction.{Store, Table}
use truckmaster.Store.Queries.{find_load}
use truckmaster.Notifying.{distinct}
use truckmaster.Billing.Invoices.Create.{
  is_invoiceable, find_each, find_loads, loads_of_invoice, mark_invoiced, invoice_load,
}
use truckmaster.Lifecycle.Diagram.{RowChange, Evolves}
use truckmaster.Lifecycle.Reevaluating.{find_load_found}
use truckmaster.Lifecycle.Invoicing.{is_live, Invoices, Settles, Bills, Voids}
use truckmaster.Requests.{Request, perform, run}
use truckmaster.Requests.Steps.{Step, perform-Step}
use truckmaster.Requests.BilledOnce.Counting.{
  live_rows, billable_once, has_key, live_rows_in, released, occurrences, live_rows-same,
  live_rows-append, live_rows-new, occurrences-find_each, occurrences-missing, occurrences-billed,
  count-distinct, count-distinct_absent, live_rows-fewer, live_rows-released,
}

-- The load is kept under its own id, and is on at most one row of invoices that are not Void, and on
-- none unless it is marked as invoiced.
abbrev pub IsBilledOnce : Store → ℕ → Type 0
IsBilledOnce s i = (has_key i (s.loads i) ≡ true) × (live_rows_in s i ≤ billable_once (s.loads i))

IsBilledOnce-row :
    (i n : ℕ) (row next : Option Load)
    → RowChange i row next
    → (has_key i row ≡ true) × (n ≤ billable_once row)
    → (has_key i next ≡ true) × (n ≤ billable_once next)
IsBilledOnce-row i n none none change h = h
IsBilledOnce-row i n (some a) (some b) change h =
    ground (arith, change.same_id, change.same_invoiced, h.0, h.1)
IsBilledOnce-row i n none (some b) change h =
    ground (arith, change.keyed, change.not_invoiced, h.1, (==_iff b.id i).1 change.keyed)
IsBilledOnce-row i n (some a) none change h = elim change [ ]

IsBilledOnce-Evolves : (s t : Store) (i : ℕ) → Evolves s t → IsBilledOnce s i → IsBilledOnce t i
IsBilledOnce-Evolves s t i h once =
    let (key, few) = IsBilledOnce-row i (live_rows_in s i) (s.loads i) (t.loads i) (h i).row once in
    (key, rw (h i).billing few)

IsBilledOnce-Settles : (s t : Store) (i : ℕ) → Settles s t → IsBilledOnce s i → IsBilledOnce t i
IsBilledOnce-Settles s t i h once =
    let same =
      live_rows-same s.billing.invoices t.billing.invoices i s.billing.invoice_loads h.live in
    rw (h.loads, h.rows, same) once

-- The new rows of a load: none if it is missing, invoiced, or not asked for, and at most one.
new_rows :
    (org id i : ℕ) (ids : List ℕ) (s : Store)
    → any (λ (l : Load). not (is_invoiceable l)) (find_loads org ids s) ≡ false
    → (has_key i (s.loads i) ≡ true)
    → occurrences i (find_loads org ids s) + billable_once (s.loads i)
      ≤ billable_once (mark_invoiced ids true s.loads i)
unfolding find_loads
new_rows org id i ids s ready key = elim (Option-cases (s.loads i)) [
  | inl missing ↦ ground (arith, occurrences-missing org i s (distinct ids) missing)
  | inr (l, e) ↦ elim (Bool-cases l.invoiced) [
    | inl billed ↦ ground (arith, occurrences-billed org i s (distinct ids) l e billed ready)
    | inr not_billed ↦ elim (Bool-cases (contains i ids)) [
      | inl asked ↦ ground (
        arith,
        occurrences-find_each org i s (distinct ids),
        count-distinct i ids,
        (==_iff l.id i).0,
      )
      | inr not_asked ↦ ground (
        arith,
        occurrences-find_each org i s (distinct ids),
        count-distinct_absent i ids not_asked,
        (==_iff l.id i).0,
      )
    ]
  ]
]

IsBilledOnce-Bills :
    (org id i : ℕ) (ids : List ℕ) (s t : Store)
    → Bills org id ids s t
    → IsBilledOnce s i
    → IsBilledOnce t i
IsBilledOnce-Bills org id i ids s t h (key, few) =
    let found = find_loads org ids s in
    let rows = map (invoice_load org id s) found in
    let same =
      live_rows-same s.billing.invoices t.billing.invoices i (rows ++ s.billing.invoice_loads)
        h.live in
    let split = live_rows-append s.billing.invoices i rows s.billing.invoice_loads in
    let new = live_rows-new s.billing.invoices i org id s found in
    let room = new_rows org id i ids s h.ready key in
    rw (h.loads, h.rows, same, split) (ground (arith, key, few, new, room))

IsBilledOnce-Voids :
    (org id i : ℕ) (s t : Store) → Voids org id s t → IsBilledOnce s i → IsBilledOnce t i
unfolding loads_of_invoice
IsBilledOnce-Voids org id i s t h (key, few) =
    let rows = s.billing.invoice_loads in
    let fewer = live_rows-fewer s.billing.invoices t.billing.invoices id i rows h.void h.others in
    let ids = released org id rows in
    rw (h.loads, h.rows)
      (elim (Bool-cases (contains i ids)) [
        | inl stands ↦ ground (
          arith,
          key,
          few,
          (==_iff i i).0,
          live_rows-released s.billing.invoices t.billing.invoices org id i rows h.was_live h.void
              h.others stands,
        )
        | inr stays ↦ ground (arith, key, few, fewer)
      ])

IsBilledOnce-Step : (s t : Store) (i : ℕ) → Step s t → IsBilledOnce s i → IsBilledOnce t i
IsBilledOnce-Step s t i (inl h) once = IsBilledOnce-Evolves s t i h once
IsBilledOnce-Step s t i (inr (Invoices.settles h, k)) once = IsBilledOnce-Settles s t i h once
IsBilledOnce-Step s t i (inr (Invoices.bills org id ids h, k)) once =
    IsBilledOnce-Bills org id i ids s t h once
IsBilledOnce-Step s t i (inr (Invoices.voids org id h, k)) once =
    IsBilledOnce-Voids org id i s t h once

-- If a load is kept under its own id and is on at most one row of invoices that are not Void, and on
-- none unless it is marked as invoiced, then this is so after any requests. A row whose invoice is not
-- there counts as one of an invoice that is not Void.
pub run-IsBilledOnce :
    (rs : List Request) (s : Store) (i : ℕ) → IsBilledOnce s i → IsBilledOnce (run rs s) i
unfolding run
run-IsBilledOnce [] s i h = h
run-IsBilledOnce (r ∷ rs) s i h =
    let t = (perform r.now r.organization_id r.actor r.operation s).1 in
    run-IsBilledOnce rs t i
      (IsBilledOnce-Step s t i (perform-Step r.now r.organization_id r.actor r.operation s) h)
