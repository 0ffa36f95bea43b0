-- ===== src/Carrier/Registry/Distinct.antt =====
-- The MC and DOT numbers of the carriers of an organization.
use truckmaster.Base.{
  ℕ, ◌≡◌, refl, ◌<◌, Bool, false, ◌&&◌, ◌||◌, Option, none, some, find, ◌==◌, arith, str_eq,
  Option-cases, inl, inr,
}
use truckmaster.Store.Rows.{Carrier}
use truckmaster.Store.Transaction.{put}
use truckmaster.Store.Queries.{rows_below}
use truckmaster.Carrier.Roster.{CarrierDto, has_number, new_carrier}
use truckmaster.Carrier.Registry.{
  Registry, Step, draw, create, change, Reaches, here, next, AreDrawn, CarrierChange,
}
use truckmaster.Carrier.Registry.Counting.{find-rows_below}
use truckmaster.Carrier.Registry.Drawn.{Step-AreDrawn}

-- Two carriers of one organization have an MC number or a DOT number in common.
abbrev pub shares_number : Option Carrier → Option Carrier → Bool
shares_number (some a) (some b) =
    b.organization_id == a.organization_id
    && (str_eq b.mc_number a.mc_number || str_eq b.dot_number a.dot_number)
shares_number none b = false
shares_number (some a) none = false

-- Rows are kept under drawn ids, and no two carriers of an organization share a number.
pub record AreDistinct (r : Registry) : Type 0 where
  pub drawn : AreDrawn r
  pub apart : (i j : ℕ) → i < j → shares_number (r.carriers j) (r.carriers i) ≡ false

create-apart :
    (r : Registry) (org : ℕ) (dto : CarrierDto)
    → find (has_number org dto) (rows_below r.next_id r.carriers) ≡ none
    → AreDistinct r
    → (i j : ℕ) → i < j
    → let t = put r.next_id (new_carrier r.next_id org dto) r.carriers in
      shares_number (t j) (t i) ≡ false
create-apart r org dto absent h i j less = elim (Option-cases (r.carriers i)) [
  | inl e ↦ ground (arith, e, h.drawn j)
  | inr (c, e) ↦ ground (
    arith,
    e,
    h.drawn j,
    h.apart i j less,
    find-rows_below (has_number org dto) r.next_id i r.carriers c absent,
  )
]

module _ (r : Registry) (id : ℕ) (a b : Carrier) (found : r.carriers id ≡ some a)
    (c : CarrierChange r a b) where
  same-left : (x : Option Carrier) → shares_number (some b) x ≡ shares_number (some a) x
  same-left none = refl
  same-left (some d) = rw (c.same_organization, c.same_mc_number, c.same_dot_number) refl

  same-right : (x : Option Carrier) → shares_number x (some b) ≡ shares_number x (some a)
  same-right none = refl
  same-right (some d) = rw (c.same_organization, c.same_mc_number, c.same_dot_number) refl

  put-left :
      (j : ℕ) (x : Option Carrier)
      → shares_number (put id b r.carriers j) x ≡ shares_number (r.carriers j) x
  put-left j x = ground (arith, found, same-left x)

  put-right :
      (j : ℕ) (x : Option Carrier)
      → shares_number x (put id b r.carriers j) ≡ shares_number x (r.carriers j)
  put-right j x = ground (arith, found, same-right x)

change-apart :
    (r : Registry) (id : ℕ) (a b : Carrier)
    → r.carriers id ≡ some a
    → CarrierChange r a b
    → ((i j : ℕ) → i < j → shares_number (r.carriers j) (r.carriers i) ≡ false)
    → (i j : ℕ) → i < j
    → shares_number (put id b r.carriers j) (put id b r.carriers i) ≡ false
change-apart r id a b found c h i j less =
    rw
      (
        put-left r id a b found c j (put id b r.carriers i),
        put-right r id a b found c i (r.carriers j),
      )
      (h i j less)

pub Step-AreDistinct : {r t : Registry} → Step r t → AreDistinct r → AreDistinct t
Step-AreDistinct (draw r) h = record { drawn = Step-AreDrawn (draw r) h.drawn; apart = h.apart }
Step-AreDistinct (create r org dto new slot) h = record {
  drawn = Step-AreDrawn (create r org dto new slot) h.drawn;
  apart = create-apart r org dto new h;
}
Step-AreDistinct (change r id a b found c) h = record {
  drawn = Step-AreDrawn (change r id a b found c) h.drawn;
  apart = change-apart r id a b found c h.apart;
}

pub Reaches-AreDistinct : {r t : Registry} → Reaches r t → AreDistinct r → AreDistinct t
Reaches-AreDistinct here h = h
Reaches-AreDistinct (next p step) h = Step-AreDistinct step (Reaches-AreDistinct p h)
