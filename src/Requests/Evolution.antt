-- ===== src/Requests/Evolution.antt =====
-- What the requests of Requests.antt may change of a load, one by one and in sequence.
use truckmaster.Base.{
  ℕ, ◌≡◌, ◌∙◌, refl, sym, ap, Bool, true, not, ◌&&◌, ◌||◌, is_some, Option, none, some, List, [],
  ◌∷◌, arith, Bool-cases, inl, inr,
}
use mathlib.Core.Path.{subst}
use truckmaster.Lifecycle.Diagram.{RowChange, IsStaffed, may_become, needs_carrier}
use truckmaster.Lifecycle.Invoicing.{RowBilled, Invoices-RowBilled}
use truckmaster.Requests.{Operation, Request, perform, run}
use truckmaster.Requests.Steps.{Step, perform-Step}
use truckmaster.Store.Statuses.{LoadStatus, load_status_enum}
use truckmaster.Store.Rows.{Load}
use truckmaster.Store.Transaction.{Store}

-- What a request may change of a load: not its id, its organization or its booking, and its status as
-- the diagram allows.
pub record Follows (a b : Load) : Type 0 where
  pub same_id : b.id ≡ a.id
  pub same_organization : b.organization_id ≡ a.organization_id
  pub same_booking : b.booking ≡ a.booking
  pub allowed : may_become a.status b.status ≡ true

abbrev pub RowFollows : Option Load → Option Load → Type 0
RowFollows none none = Unit
RowFollows (some a) (some b) = Follows a b
RowFollows none (some b) = b.status ≡ LoadStatus.booked
RowFollows (some a) none = ⊥

-- With the fields that a load needs from Carrier Assigned on.
record Advances (a b : Load) : Type 0 where
  follows : Follows a b
  staffed : IsStaffed a → IsStaffed b

abbrev RowAdvances : Option Load → Option Load → Type 0
RowAdvances none none = Unit
RowAdvances (some a) (some b) = Advances a b
RowAdvances none (some b) = b.status ≡ LoadStatus.booked
RowAdvances (some a) none = ⊥

changed : (i : ℕ) (row next : Option Load) → RowChange i row next → RowAdvances row next
changed i none none h = tt
changed i (some a) (some b) h = record {
  follows = record {
    same_id = h.same_id;
    same_organization = h.same_organization;
    same_booking = h.same_booking;
    allowed = h.follows;
  };
  staffed = h.staffed;
}
changed i none (some b) h = h.booked
changed i (some a) none h = h

billed : (row next : Option Load) → RowBilled row next → RowAdvances row next
billed none none h = tt
billed (some a) (some b) h = record {
  follows = record {
    same_id = ap (λ (l : Load). l.id) h;
    same_organization = ap (λ (l : Load). l.organization_id) h;
    same_booking = ap (λ (l : Load). l.booking) h;
    allowed = ground (arith, h);
  };
  staffed = λ k. subst IsStaffed (sym h) (record { carrier = k.carrier; rate = k.rate });
}
billed none (some b) h = elim h [ ]
billed (some a) none h = h

advanced : (s t : Store) → Step s t → (i : ℕ) → RowAdvances (s.loads i) (t.loads i)
advanced s t (inl h) i = changed i (s.loads i) (t.loads i) (h i).row
advanced s t (inr h) i = billed (s.loads i) (t.loads i) (Invoices-RowBilled s t h.0 i)

perform-advances :
    (r : Request) (s : Store) (i : ℕ)
    → RowAdvances (s.loads i) ((perform r.now r.organization_id r.actor r.operation s).1.loads i)
perform-advances r s i = advanced s _ (perform-Step r.now r.organization_id r.actor r.operation s) i

row_follows : (row next : Option Load) → RowAdvances row next → RowFollows row next
row_follows none none h = tt
row_follows (some a) (some b) h = h.follows
row_follows none (some b) h = h
row_follows (some a) none h = h

-- Whatever request is served, by whomever and when: no load disappears, every load that it makes is
-- Booked, and every other load keeps its id, its organization and its booking, and has the status
-- that it had or one that the diagram lets follow.
pub perform-Follows :
    (now org actor : ℕ) (op : Operation) (s : Store) (i : ℕ)
    → RowFollows (s.loads i) ((perform now org actor op s).1.loads i)
perform-Follows now org actor op s i =
    row_follows (s.loads i) _ (advanced s _ (perform-Step now org actor op s) i)

-- The row holds a load that is Closed and was booked as the given one.
pub record IsClosed (a : Load) (row : Option Load) : Type 0 where
  pub load : Load
  pub found : row ≡ some load
  pub closed : load.status ≡ LoadStatus.closed
  pub same_booking : load.booking ≡ a.booking

closed-Follows :
    (k l : Load) → k.status ≡ LoadStatus.closed → Follows k l → l.status ≡ LoadStatus.closed
closed-Follows k l closed change = ground (arith, change.allowed)

IsClosed-step :
    (a : Load) (row next : Option Load) → IsClosed a row → RowAdvances row next → IsClosed a next
IsClosed-step a row none h change = ground (arith, h.found)
IsClosed-step a row (some b) h change =
    let c : Follows h.load b = (subst (λ x. RowAdvances x (some b)) h.found change).follows in
    record {
      load = b;
      found = refl;
      closed = closed-Follows h.load b h.closed c;
      same_booking = c.same_booking ∙ h.same_booking;
    }

-- A load that is Closed is Closed after any requests, with the booking that it had.
pub run-IsClosed :
    (rs : List Request) (s : Store) (id : ℕ) (a : Load)
    → IsClosed a (s.loads id)
    → IsClosed a ((run rs s).loads id)
unfolding run
run-IsClosed [] s id a h = h
run-IsClosed (r ∷ rs) s id a h =
    let t = (perform r.now r.organization_id r.actor r.operation s).1 in
    run-IsClosed rs t id a (IsClosed-step a (s.loads id) (t.loads id) h (perform-advances r s id))

-- Off the statuses from Carrier Assigned to Delivered, or with a carrier and a carrier rate.
abbrev pub is_staffed : Load → Bool
is_staffed l =
    not (needs_carrier l.status) || (is_some l.assigned_carrier_id && is_some l.carrier_rate)

abbrev pub StaffedRow : Option Load → Type 0
StaffedRow none = Unit
StaffedRow (some l) = is_staffed l ≡ true

booked_staffed : (l : Load) → l.status ≡ LoadStatus.booked → is_staffed l ≡ true
booked_staffed l h = ground arith

to_IsStaffed : (l : Load) → is_staffed l ≡ true → IsStaffed l
to_IsStaffed l h = record { carrier = λ k. ground (arith, h, k); rate = λ k. ground (arith, h, k) }

from_IsStaffed : (l : Load) → IsStaffed l → is_staffed l ≡ true
from_IsStaffed l h = elim (Bool-cases (needs_carrier l.status)) [
  | inl e ↦ ground (arith, h.carrier e, h.rate e)
  | inr e ↦ ground arith
]

staffed_step : (row next : Option Load) → StaffedRow row → RowAdvances row next → StaffedRow next
staffed_step none none h change = tt
staffed_step none (some b) h change = booked_staffed b change
staffed_step (some a) none h change = tt
staffed_step (some a) (some b) h change = from_IsStaffed b (change.staffed (to_IsStaffed a h))

-- If every load that is from Carrier Assigned to Delivered has a carrier and a carrier rate, then this is so
-- after any requests.
pub run_staffed :
    (rs : List Request) (s : Store)
    → ((i : ℕ) → StaffedRow (s.loads i))
    → (i : ℕ) → StaffedRow ((run rs s).loads i)
unfolding run
run_staffed [] s h = h
run_staffed (r ∷ rs) s h =
    let t = (perform r.now r.organization_id r.actor r.operation s).1 in
    run_staffed rs t λ i. staffed_step (s.loads i) (t.loads i) (h i) (perform-advances r s i)
