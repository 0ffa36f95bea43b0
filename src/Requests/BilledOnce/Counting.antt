-- ===== src/Requests/BilledOnce/Counting.antt =====
-- How often a load stands on the invoices of invoice.service.ts and among the loads of a request.
use truckmaster.Base.{
  ℕ, suc, ◌+◌, ◌≤◌, ◌≡◌, refl, ap, Bool, true, false, not, ◌&&◌, Option, none, some, List, [], ◌∷◌,
  ◌++◌, map, arith, any, filter, contains, ◌==◌, ==_iff, if◌then◌else◌, Option-cases, Bool-cases,
  inl, inr,
}
use truckmaster.Store.Rows.{Load, Invoice, InvoiceLoad}
use truckmaster.Store.Transaction.{Store, Table}
use truckmaster.Store.Queries.{find_load}
use truckmaster.Notifying.{distinct}
use truckmaster.Billing.Invoices.Create.{is_invoiceable, find_each, invoice_load}
use truckmaster.Lifecycle.Reevaluating.{find_load_found}
use truckmaster.Lifecycle.Invoicing.{is_live}

-- The rows of a load on invoices that are not Void.
abbrev pub live_rows : Table Invoice → ℕ → List InvoiceLoad → ℕ
live_rows invoices i [] = 0
live_rows invoices i (r ∷ rs) =
    let rest = live_rows invoices i rs in
    if r.load_id == i && is_live (invoices r.invoice_id) then suc rest else rest

-- 1 for a load that is marked as invoiced, and 0 otherwise.
abbrev pub billable_once : Option Load → ℕ
billable_once none = 0
billable_once (some l) = if l.invoiced then 1 else 0

abbrev pub has_key : ℕ → Option Load → Bool
has_key i none = true
has_key i (some l) = l.id == i

abbrev pub live_rows_in : Store → ℕ → ℕ
live_rows_in s i = live_rows s.billing.invoices i s.billing.invoice_loads

pub live_rows-same :
    (f g : Table Invoice) (i : ℕ) (rs : List InvoiceLoad)
    → ((j : ℕ) → is_live (g j) ≡ is_live (f j))
    → live_rows g i rs ≡ live_rows f i rs
live_rows-same f g i [] h = refl
live_rows-same f g i (r ∷ rs) h = ground (arith, h r.invoice_id, live_rows-same f g i rs h)

pub live_rows-append :
    (f : Table Invoice) (i : ℕ) (rs qs : List InvoiceLoad)
    → live_rows f i (rs ++ qs) ≡ live_rows f i rs + live_rows f i qs
live_rows-append f i [] qs = omega arith
live_rows-append f i (r ∷ rs) qs = ground (arith, live_rows-append f i rs qs)

-- How often a load stands in a list of loads, and a number in a list of numbers.
abbrev pub occurrences : ℕ → List Load → ℕ
occurrences i [] = 0
occurrences i (l ∷ ls) = let rest = occurrences i ls in if l.id == i then suc rest else rest

abbrev pub count : ℕ → List ℕ → ℕ
count i [] = 0
count i (x ∷ xs) = let rest = count i xs in if x == i then suc rest else rest

pub live_rows-new :
    (f : Table Invoice) (i org id : ℕ) (s : Store) (ls : List Load)
    → live_rows f i (map (invoice_load org id s) ls) ≤ occurrences i ls
live_rows-new f i org id s [] = omega arith
live_rows-new f i org id s (l ∷ ls) = ground (arith, live_rows-new f i org id s ls)

pub occurrences-find_each :
    (org i : ℕ) (s : Store) (ids : List ℕ) → occurrences i (find_each org s ids) ≤ count i ids
unfolding find_each
occurrences-find_each org i s [] = omega arith
occurrences-find_each org i s (x ∷ xs) = elim (Option-cases (find_load org x s)) [
  | inl missing ↦ ground (arith, occurrences-find_each org i s xs)
  | inr (l, e) ↦ ground (arith, occurrences-find_each org i s xs, find_load_found org x l s e)
]

-- Only a load that is there and not invoiced is found for an invoice.
pub occurrences-missing :
    (org i : ℕ) (s : Store) (ids : List ℕ)
    → s.loads i ≡ none
    → occurrences i (find_each org s ids) ≡ 0
unfolding find_each
occurrences-missing org i s [] h = refl
occurrences-missing org i s (x ∷ xs) h = elim (Option-cases (find_load org x s)) [
  | inl missing ↦ ground (arith, occurrences-missing org i s xs h)
  | inr (l, e) ↦
      let facts = find_load_found org x l s e in
      elim (Bool-cases (x == i)) [
        | inl same ↦ ground (arith, h, facts.0, (==_iff x i).0 same)
        | inr other ↦ ground (arith, occurrences-missing org i s xs h, facts.1)
      ]
]

pub occurrences-billed :
    (org i : ℕ) (s : Store) (ids : List ℕ) (k : Load)
    → s.loads i ≡ some k
    → k.invoiced ≡ true
    → any (λ (l : Load). not (is_invoiceable l)) (find_each org s ids) ≡ false
    → occurrences i (find_each org s ids) ≡ 0
unfolding find_each
occurrences-billed org i s [] k h billed ready = refl
occurrences-billed org i s (x ∷ xs) k h billed ready = elim (Option-cases (find_load org x s)) [
  | inl missing ↦ ground (arith, occurrences-billed org i s xs k h billed)
  | inr (l, e) ↦
      let facts = find_load_found org x l s e in
      elim (Bool-cases (x == i)) [
        | inl same ↦ ground (arith, h, facts.0, (==_iff x i).0 same, ready, billed)
        | inr other ↦ ground (arith, occurrences-billed org i s xs k h billed, facts.1, ready)
      ]
]

count-filter_other :
    (x i : ℕ) (xs : List ℕ) → (x == i) ≡ true → count i (filter (λ y. not (y == x)) xs) ≡ 0
count-filter_other x i [] h = refl
count-filter_other x i (y ∷ ys) h = ground (arith, count-filter_other x i ys h, (==_iff x i).0 h)

count-filter : (x i : ℕ) (xs : List ℕ) → count i (filter (λ y. not (y == x)) xs) ≤ count i xs
count-filter x i [] = omega arith
count-filter x i (y ∷ ys) = ground (arith, count-filter x i ys)

pub count-distinct : (i : ℕ) (xs : List ℕ) → count i (distinct xs) ≤ 1
count-distinct i [] = omega arith
count-distinct i (x ∷ xs) = elim (Bool-cases (x == i)) [
  | inl e ↦ ground (arith, count-filter_other x i (distinct xs) e)
  | inr e ↦ ground (arith, count-filter x i (distinct xs), count-distinct i xs)
]

pub count-distinct_absent :
    (i : ℕ) (xs : List ℕ) → contains i xs ≡ false → count i (distinct xs) ≡ 0
count-distinct_absent i [] h = refl
count-distinct_absent i (x ∷ xs) h =
    ground (arith, count-filter x i (distinct xs), count-distinct_absent i xs)

-- Without the rows of an invoice that becomes Void.
pub live_rows-fewer :
    (f g : Table Invoice) (id i : ℕ) (rs : List InvoiceLoad)
    → is_live (g id) ≡ false
    → ((j : ℕ) → (j == id) ≡ false → is_live (g j) ≡ is_live (f j))
    → live_rows g i rs ≤ live_rows f i rs
live_rows-fewer f g id i [] void others = omega arith
live_rows-fewer f g id i (r ∷ rs) void others = elim (Bool-cases (r.invoice_id == id)) [
  | inl e ↦
      ground
        (arith, live_rows-fewer f g id i rs void others, ap g ((==_iff r.invoice_id id).0 e), void)
  | inr e ↦ ground (arith, live_rows-fewer f g id i rs void others, others r.invoice_id e)
]

abbrev pub released : ℕ → ℕ → List InvoiceLoad → List ℕ
released org id rs =
    map (λ (r : InvoiceLoad). r.load_id)
      (filter (λ (r : InvoiceLoad). r.organization_id == org && r.invoice_id == id) rs)

pub live_rows-released :
    (f g : Table Invoice) (org id i : ℕ) (rs : List InvoiceLoad)
    → is_live (f id) ≡ true
    → is_live (g id) ≡ false
    → ((j : ℕ) → (j == id) ≡ false → is_live (g j) ≡ is_live (f j))
    → contains i (released org id rs) ≡ true
    → suc (live_rows g i rs) ≤ live_rows f i rs
live_rows-released f g org id i [] live void others stands = cc
live_rows-released f g org id i (r ∷ rs) live void others stands =
    elim (Bool-cases (r.invoice_id == id)) [
      | inl e ↦ ground (
        arith,
        live_rows-fewer f g id i rs void others,
        live_rows-released f g org id i rs live void others,
        ap g ((==_iff r.invoice_id id).0 e),
        ap f ((==_iff r.invoice_id id).0 e),
        stands,
      )
      | inr e ↦ ground (
        arith,
        live_rows-released f g org id i rs live void others,
        others r.invoice_id e,
        stands,
      )
    ]
