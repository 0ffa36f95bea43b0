-- ===== src/Billing/Invoices/Exclusive.antt =====
-- The loads of an invoice, by `create` and `void` of invoice.service.ts.
use truckmaster.Base.{
  ℕ, ◌≡◌, refl, ◌∙◌, ◌⊎◌, ◌++◌, map, Bool-cases, sym, ap, Bool, true, false, not, ◌||◌, some, List,
  [], ◌∷◌, arith, All, any, length, contains, ◌==◌, ==_iff, inl, inr,
}
use mathlib.Core.Path.{subst}
use truckmaster.Store.Statuses.{LoadStatus, ◌is◌, load_status_enum}
use truckmaster.Store.Rows.{Load, Invoice}
use truckmaster.Store.Transaction.{
  Store, Failure, Result, ok, err, commit, ◌>>=◌, Action, with_tenant_transaction, Result-cases,
}
use truckmaster.Booking.Entitlement.{get_next_number}
use truckmaster.Billing.Invoices.Create.{
  create, write_invoice, void, find_loads, selected_loads, is_invoiceable, loads_of_invoice,
  invoice_load, load_total, customer_charges,
}

-- What holds of a load that is put on an invoice.
abbrev pub CanBeBilled : ℕ → Load → Type 0
CanBeBilled customer_id l =
    ((l.status ≡ LoadStatus.delivered) ⊎ (l.status ≡ LoadStatus.closed))
    × (l.invoiced ≡ false)
    × (l.booking.customer_id ≡ customer_id)

is_invoiceable-status :
    (l : Load)
    → is_invoiceable l ≡ true
    → (l.status ≡ LoadStatus.delivered) ⊎ (l.status ≡ LoadStatus.closed)
is_invoiceable-status l h = elim (Bool-cases (l.status is LoadStatus.delivered)) [
  | inl e ↦ inl (ground (arith, e))
  | inr e ↦ inr (ground (arith, e, h))
]

or_false : (a b : Bool) → (a || b) ≡ false → (a ≡ false) × (b ≡ false)
or_false a b h = ground arith

not-false : (a : Bool) → not a ≡ false → a ≡ true
not-false a h = ground arith

checked :
    (customer_id : ℕ) (ls : List Load)
    → any (λ (l : Load). not (l.booking.customer_id == customer_id)) ls ≡ false
    → any (λ (l : Load). not (is_invoiceable l)) ls ≡ false
    → All (CanBeBilled customer_id) ls
checked customer_id [] h k = tt
checked customer_id (l ∷ ls) h k =
    let (mine, others) = or_false (not (l.booking.customer_id == customer_id)) _ h in
    let (ready, rest) = or_false (not (is_invoiceable l)) _ k in
    (
      (
        is_invoiceable-status l (not-false (is_invoiceable l) ready),
        ground (arith, ready),
        (==_iff l.booking.customer_id customer_id).0 (not-false _ mine),
      ),
      checked customer_id ls others rest,
    )

selected_loads-result :
    (org customer_id : ℕ) (ids : List ℕ) (acknowledged : Bool) (ls : List Load) (s : Store)
    → (selected_loads org customer_id ids acknowledged s).0 ≡ ok ls
    → ((length (find_loads org ids s) == length ids) ≡ true)
      × (any (λ (l : Load). not (l.booking.customer_id == customer_id)) (find_loads org ids s)
          ≡ false)
      × (any (λ (l : Load). not (is_invoiceable l)) (find_loads org ids s) ≡ false)
unfolding selected_loads
selected_loads-result org customer_id ids acknowledged ls s h = ground arith

selected_loads-selects :
    (org customer_id : ℕ) (ids : List ℕ) (acknowledged : Bool) (ls : List Load) (s : Store)
    → (selected_loads org customer_id ids acknowledged s).0 ≡ ok ls
    → selected_loads org customer_id ids acknowledged s ≡ (ok (find_loads org ids s), s)
unfolding selected_loads
selected_loads-selects org customer_id ids acknowledged ls s h = ground arith

pub selected_loads-keeps :
    (org customer_id : ℕ) (ids : List ℕ) (acknowledged : Bool) (s : Store)
    → (selected_loads org customer_id ids acknowledged s).1 ≡ s
unfolding selected_loads
selected_loads-keeps org customer_id ids acknowledged s = ground arith

bind-of :
    {A B : Type 0} (m : Action A) (f : A → Action B) (a : A) (s : Store)
    → m s ≡ (ok a, s)
    → (m >>= f) s ≡ f a s
bind-of m f a s h = ap (λ p. elim p.0 [ ok x ↦ f x p.1 | err e ↦ (err e, p.1) ]) h

-- What holds of the store, and of it after the writes for the loads found, holds after a creation.
pub create-by :
    (org customer_id : ℕ) (ids : List ℕ) (acknowledged : Bool) (actor : ℕ) (s : Store)
    (P : Store → Type 0)
    → P s
    → (any (λ (l : Load). not (is_invoiceable l)) (find_loads org ids s) ≡ false
        → P
            (commit s
              (write_invoice org customer_id ids acknowledged actor (find_loads org ids s) s)).1)
    → P (create org customer_id ids acknowledged actor s).1
unfolding create with_tenant_transaction
create-by org customer_id ids acknowledged actor s P before after =
    elim (Result-cases (selected_loads org customer_id ids acknowledged s).0) [
      | inl (f, failed) ↦ subst P (ground (arith, failed)) before
      | inr (ls, passed) ↦
          let facts = selected_loads-result org customer_id ids acknowledged ls s passed in
          let selection = selected_loads-selects org customer_id ids acknowledged ls s passed in
          subst (λ p. P (commit s p).1)
            (sym (
              bind-of (selected_loads org customer_id ids acknowledged)
                (write_invoice org customer_id ids acknowledged actor) _ s selection))
            (after facts.2)
    ]

create_refused :
    (org customer_id : ℕ) (ids : List ℕ) (acknowledged : Bool) (actor : ℕ) (j : Invoice)
    (f : Failure) (s : Store)
    → (selected_loads org customer_id ids acknowledged s).0 ≡ err f
    → (create org customer_id ids acknowledged actor s).0 ≡ ok j
    → ⊥
unfolding create with_tenant_transaction
create_refused org customer_id ids acknowledged actor j f s failed h = ground arith

create-selected :
    (org customer_id : ℕ) (ids : List ℕ) (acknowledged : Bool) (actor : ℕ) (j : Invoice) (s : Store)
    → (create org customer_id ids acknowledged actor s).0 ≡ ok j
    → (ls : List Load) × ((selected_loads org customer_id ids acknowledged s).0 ≡ ok ls)
create-selected org customer_id ids acknowledged actor j s h =
    elim (Result-cases (selected_loads org customer_id ids acknowledged s).0) [
      | inl (f, failed) ↦
          elim (create_refused org customer_id ids acknowledged actor j f s failed h) [ ]
      | inr (ls, passed) ↦ (ls, passed)
    ]

-- When an invoice is created, every load of the request is marked as invoiced, and differs in
-- nothing else.
pub create-marks :
    (org customer_id : ℕ) (ids : List ℕ) (acknowledged : Bool) (actor i : ℕ) (l : Load)
    (j : Invoice) (s : Store)
    → (create org customer_id ids acknowledged actor s).0 ≡ ok j
    → s.loads i ≡ some l
    → contains l.id ids ≡ true
    → (create org customer_id ids acknowledged actor s).1.loads i
      ≡ some (record l { invoiced = true })
unfolding create with_tenant_transaction get_next_number
create-marks org customer_id ids acknowledged actor i l j s h e k =
    ground (arith, selected_loads-keeps org customer_id ids acknowledged s)

-- What a creation wrote for these loads.
pub record IsInvoiceOf (org customer_id : ℕ) (ls : List Load) (j : Invoice) (s t : Store)
    : Type 0 where
  customer : j.customer_id ≡ customer_id
  row : t.billing.invoices j.id ≡ some j
  loads : t.billing.invoice_loads ≡ map (invoice_load org j.id s) ls ++ s.billing.invoice_loads

write_invoice-IsInvoiceOf :
    (org customer_id : ℕ) (ids : List ℕ) (acknowledged : Bool) (actor : ℕ) (ls : List Load)
    (j : Invoice) (s : Store)
    → (write_invoice org customer_id ids acknowledged actor ls s).0 ≡ ok j
    → IsInvoiceOf org customer_id ls j s
        (write_invoice org customer_id ids acknowledged actor ls s).1
unfolding get_next_number load_total customer_charges
write_invoice-IsInvoiceOf org customer_id ids acknowledged actor ls j s h = record {
  customer = ground (arith, h);
  row = ground (arith, h);
  loads = ground (arith, h);
}

commit-ok :
    (j : Invoice) (s : Store) (p : Result Invoice × Store) → (commit s p).0 ≡ ok j → commit s p ≡ p
commit-ok j s (ok a, t) h = refl
commit-ok j s (err e, t) h = cc

committed-IsInvoiceOf :
    (org customer_id : ℕ) (ids : List ℕ) (acknowledged : Bool) (actor : ℕ) (ls : List Load)
    (j : Invoice) (s : Store)
    → let written = write_invoice org customer_id ids acknowledged actor ls s in
      (commit s written).0 ≡ ok j → IsInvoiceOf org customer_id ls j s (commit s written).1
committed-IsInvoiceOf org customer_id ids acknowledged actor ls j s h =
    let written = write_invoice org customer_id ids acknowledged actor ls s in
    let same = commit-ok j s written h in
    subst (λ p. IsInvoiceOf org customer_id ls j s p.1) (sym same)
      (write_invoice-IsInvoiceOf org customer_id ids acknowledged actor ls j s
        (ap (λ p. p.0) (sym same) ∙ h))

create-written :
    (org customer_id : ℕ) (ids : List ℕ) (acknowledged : Bool) (actor : ℕ) (ls : List Load)
    (s : Store)
    → (selected_loads org customer_id ids acknowledged s).0 ≡ ok ls
    → create org customer_id ids acknowledged actor s
      ≡ commit s (write_invoice org customer_id ids acknowledged actor (find_loads org ids s) s)
unfolding create with_tenant_transaction
create-written org customer_id ids acknowledged actor ls s passed = ap (commit s) (
    bind-of (selected_loads org customer_id ids acknowledged)
      (write_invoice org customer_id ids acknowledged actor) _ s
      (selected_loads-selects org customer_id ids acknowledged ls s passed))

-- An invoice that is created is the customer's and stands in its table, with one row more for each load
-- of the request: all of these loads were found, are the customer's, were Delivered or Closed, and were not
-- invoiced.
pub create-exclusive :
    (org customer_id : ℕ) (ids : List ℕ) (acknowledged : Bool) (actor : ℕ) (j : Invoice) (s : Store)
    → (create org customer_id ids acknowledged actor s).0 ≡ ok j
    → let ls = find_loads org ids s in
      ((length ls == length ids) ≡ true)
      × All (CanBeBilled customer_id) ls
      × IsInvoiceOf org customer_id ls j s (create org customer_id ids acknowledged actor s).1
create-exclusive org customer_id ids acknowledged actor j s h =
    let (ls, passed) = create-selected org customer_id ids acknowledged actor j s h in
    let (counted, mine, ready) =
      selected_loads-result org customer_id ids acknowledged ls s passed in
    let same = create-written org customer_id ids acknowledged actor ls s passed in
    (
      counted,
      checked customer_id (find_loads org ids s) mine ready,
      subst (λ p. IsInvoiceOf org customer_id (find_loads org ids s) j s p.1) (sym same)
          (committed-IsInvoiceOf org customer_id ids acknowledged actor (find_loads org ids s) j s
            (ap (λ p. p.0) (sym same) ∙ h)),
    )

-- Voiding an invoice takes the invoiced mark off every load that stands on it.
pub void-releases :
    (org id actor i : ℕ) (l : Load) (j : Invoice) (s : Store)
    → (void org id actor s).0 ≡ ok j
    → s.loads i ≡ some l
    → contains l.id (loads_of_invoice org id s) ≡ true
    → (void org id actor s).1.loads i ≡ some (record l { invoiced = false })
unfolding void with_tenant_transaction
void-releases org id actor i l j s h e k = ground arith
