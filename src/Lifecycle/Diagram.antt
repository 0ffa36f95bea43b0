-- ===== src/Lifecycle/Diagram.antt =====
-- The diagram of `LoadStatus`, and the change of one load that an operation may make.
use truckmaster.Base.{
  ℕ, ◌≡◌, ◌∙◌, Bool, true, ◌||◌, Option, none, some, List, [], ◌∷◌, arith, is_some, refl, false,
}
use mathlib.Core.Path.{subst}
use truckmaster.Store.Statuses.{LoadStatus, ◌is◌, is_one_of, load_status_enum}
use truckmaster.Store.Rows.{Load}
use truckmaster.Store.Transaction.{Store}

-- The statuses that may follow each status.
abbrev pub next_statuses : LoadStatus → List LoadStatus
next_statuses LoadStatus.booked =
    LoadStatus.carrier_sourcing ∷ LoadStatus.cancelled ∷ LoadStatus.closed ∷ []
next_statuses LoadStatus.carrier_sourcing =
    LoadStatus.carrier_assigned ∷ LoadStatus.cancelled ∷ LoadStatus.closed ∷ []
next_statuses LoadStatus.carrier_assigned =
    LoadStatus.carrier_sourcing ∷ LoadStatus.rate_confirmation ∷ LoadStatus.cancelled
    ∷ LoadStatus.closed ∷ []
next_statuses LoadStatus.rate_confirmation =
    LoadStatus.dispatched ∷ LoadStatus.cancelled ∷ LoadStatus.closed ∷ []
next_statuses LoadStatus.dispatched =
    LoadStatus.pickup ∷ LoadStatus.in_transit ∷ LoadStatus.delivered ∷ LoadStatus.closed ∷ []
next_statuses LoadStatus.pickup =
    LoadStatus.in_transit ∷ LoadStatus.delivered ∷ LoadStatus.closed ∷ []
next_statuses LoadStatus.in_transit =
    LoadStatus.pickup ∷ LoadStatus.delivered ∷ LoadStatus.closed ∷ []
next_statuses LoadStatus.delivered = LoadStatus.closed ∷ []
next_statuses LoadStatus.closed = []
next_statuses LoadStatus.cancelled = LoadStatus.closed ∷ []

abbrev pub may_become : LoadStatus → LoadStatus → Bool
may_become a b = a is b || is_one_of b (next_statuses a)

-- From Carrier Assigned to Delivered a load has a carrier and a carrier rate.
abbrev pub needs_carrier : LoadStatus → Bool
needs_carrier s = is_one_of s (
    LoadStatus.carrier_assigned ∷ LoadStatus.rate_confirmation ∷ LoadStatus.dispatched
    ∷ LoadStatus.pickup ∷ LoadStatus.in_transit ∷ LoadStatus.delivered ∷ [])

pub record IsStaffed (l : Load) : Type 0 where
  pub carrier : needs_carrier l.status ≡ true → is_some l.assigned_carrier_id ≡ true
  pub rate : needs_carrier l.status ≡ true → is_some l.carrier_rate ≡ true

-- What an operation on a load may change of it.
pub record LoadChange (a b : Load) : Type 0 where
  pub same_id : b.id ≡ a.id
  pub same_organization : b.organization_id ≡ a.organization_id
  pub same_booking : b.booking ≡ a.booking
  pub same_invoiced : b.invoiced ≡ a.invoiced
  pub follows : may_become a.status b.status ≡ true
  pub staffed : IsStaffed a → IsStaffed b

-- A load that has just been booked under the key `i`.
pub record IsNew (i : ℕ) (b : Load) : Type 0 where
  pub booked : b.status ≡ LoadStatus.booked
  pub keyed : b.id ≡ i
  pub not_invoiced : b.invoiced ≡ false

abbrev pub RowChange : ℕ → Option Load → Option Load → Type 0
RowChange i none none = Unit
RowChange i (some a) (some b) = LoadChange a b
RowChange i none (some b) = IsNew i b
RowChange i (some a) none = ⊥

pub record Change (i : ℕ) (s t : Store) : Type 0 where
  pub row : RowChange i (s.loads i) (t.loads i)
  pub billing : t.billing ≡ s.billing

-- No load is removed, a new one is Booked, the others have changed as the diagram allows, and the
-- invoices are untouched.
abbrev pub Evolves : Store → Store → Type 0
Evolves s t = (i : ℕ) → Change i s t

-- Neither the loads nor the invoices have changed.
pub record Quiet (s t : Store) : Type 0 where
  pub loads : t.loads ≡ s.loads
  pub billing : t.billing ≡ s.billing

pub Quiet-refl : (s : Store) → Quiet s s
Quiet-refl s = record { loads = refl; billing = refl }

RowChange-refl : (i : ℕ) (row : Option Load) → RowChange i row row
RowChange-refl i none = tt
RowChange-refl i (some a) = ground arith

pub Quiet-Evolves : (s t : Store) → Quiet s t → Evolves s t
Quiet-Evolves s t q i = record {
  row = rw q.loads (RowChange-refl i (s.loads i));
  billing = q.billing;
}

-- A quiet step before one that evolves.
pub Quiet-then : (s t u : Store) → Quiet s t → (i : ℕ) → Change i t u → Change i s u
Quiet-then s t u q i change = record {
  row = subst (λ loads. RowChange i (loads i) (u.loads i)) q.loads change.row;
  billing = change.billing ∙ q.billing;
}
