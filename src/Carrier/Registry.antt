-- ===== src/Carrier/Registry.antt =====
-- The carriers of the organizations, without the rest of the store, and how the operations of
-- backend/src/modules/carrier/services/carrier.service.ts may change them.
pub mod Counting
pub mod Drawn
pub mod Within
pub mod Distinct
pub mod Histories
use truckmaster.Base.{
  ℕ, suc, ◌≡◌, Bool, true, false, not, ◌&&◌, ◌||◌, Option, none, some, List, [], ◌∷◌, find, filter,
  length, leb, ◌≤◌,
}
use truckmaster.Store.Statuses.{CarrierStatus, ◌is◌, is_one_of, carrier_status_enum}
use truckmaster.Store.Rows.{Carrier, Organization}
use truckmaster.Store.Transaction.{Store, Table, put}
use truckmaster.Store.Queries.{rows_below}
use truckmaster.Carrier.Limits.{is_counted, is_full}
use truckmaster.Carrier.Roster.{CarrierDto, has_number, new_carrier}

pub record Registry : Type 0 where
  pub organizations : Table Organization
  pub carriers : Table Carrier
  pub next_id : ℕ

abbrev pub registry : Store → Registry
registry s = record {
  organizations = s.master.organizations;
  carriers = s.carriers;
  next_id = s.next_id;
}

-- The pending and active carriers of an organization.
abbrev pub count : ℕ → Registry → ℕ
count org r = length (filter (is_counted org) (rows_below r.next_id r.carriers))

abbrev pub fits : Option ℕ → ℕ → Bool
fits none n = true
fits (some limit) n = leb n limit

-- An organization that is known has a slot left.
abbrev pub has_slot : ℕ → Registry → Bool
has_slot org r = elim (r.organizations org) [
  | none ↦ false
  | some o ↦ not (is_full o.max_carriers (count org r))
]

-- The statuses that may follow each status.
abbrev pub next_statuses : CarrierStatus → List CarrierStatus
next_statuses CarrierStatus.pending = CarrierStatus.active ∷ []
next_statuses CarrierStatus.active = CarrierStatus.blocked ∷ CarrierStatus.inactive ∷ []
next_statuses CarrierStatus.blocked = CarrierStatus.active ∷ []
next_statuses CarrierStatus.inactive = CarrierStatus.active ∷ []

abbrev pub may_become : CarrierStatus → CarrierStatus → Bool
may_become a b = a is b || is_one_of b (next_statuses a)

-- A carrier becomes active.
abbrev pub is_starting : CarrierStatus → CarrierStatus → Bool
is_starting a b = not (a is CarrierStatus.active) && b is CarrierStatus.active

-- What an operation on a carrier may change of it; one that becomes active needs a slot.
pub record CarrierChange (r : Registry) (a b : Carrier) : Type 0 where
  pub same_id : b.id ≡ a.id
  pub same_organization : b.organization_id ≡ a.organization_id
  pub same_mc_number : b.mc_number ≡ a.mc_number
  pub same_dot_number : b.dot_number ≡ a.dot_number
  pub follows : may_become a.status b.status ≡ true
  pub slot : (not (is_starting a.status b.status) || has_slot a.organization_id r) ≡ true

-- One step: an id is drawn for another row, a carrier is made, or a carrier is changed.
pub data Step : Registry → Registry → Type 0 where
  draw : (r : Registry) → Step r (record r { next_id = suc r.next_id })
  create :
      (r : Registry) (org : ℕ) (dto : CarrierDto)
      → find (has_number org dto) (rows_below r.next_id r.carriers) ≡ none
      → has_slot org r ≡ true
      → Step r (record r {
        carriers = put r.next_id (new_carrier r.next_id org dto) r.carriers;
        next_id = suc r.next_id;
      })
  change :
      (r : Registry) (id : ℕ) (a b : Carrier)
      → r.carriers id ≡ some a
      → CarrierChange r a b
      → Step r (record r { carriers = put id b r.carriers })

-- Any number of steps.
pub data Reaches (r : Registry) : Registry → Type 0 where
  here : Reaches r r
  next : {t u : Registry} → Reaches r t → Step t u → Reaches r u

pub Reaches-join : {r t u : Registry} → Reaches r t → Reaches t u → Reaches r u
Reaches-join p here = p
Reaches-join p (next q step) = next (Reaches-join p q) step

-- Rows are kept under ids that have been drawn.
abbrev pub AreDrawn : Registry → Type 0
AreDrawn r = (k : ℕ) → r.next_id ≤ k → r.carriers k ≡ none
