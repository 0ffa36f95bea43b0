-- ===== src/Carrier/Registry/Histories.antt =====
-- What a carrier keeps over its life.
use truckmaster.Base.{
  ℕ, ◌≡◌, refl, ◌∙◌, Bool, true, false, Option, none, some, ◌==◌, arith, Bool-cases, inl, inr,
}
use mathlib.Core.Path.{subst}
use truckmaster.Store.Statuses.{CarrierStatus, carrier_status_enum}
use truckmaster.Store.Rows.{Carrier}
use truckmaster.Store.Transaction.{put}
use truckmaster.Carrier.Roster.{new_carrier}
use truckmaster.Carrier.Registry.{
  Registry, Step, draw, create, change, Reaches, here, next, AreDrawn, CarrierChange, may_become,
}
use truckmaster.Carrier.Registry.Drawn.{Reaches-AreDrawn}

-- A carrier has been approved once it is no longer pending.
abbrev pub was_activated : CarrierStatus → Bool
was_activated CarrierStatus.pending = false
was_activated CarrierStatus.active = true
was_activated CarrierStatus.blocked = true
was_activated CarrierStatus.inactive = true

-- `b` is a later version of the row `a`.
pub record IsLater (a b : Carrier) : Type 0 where
  pub same_id : b.id ≡ a.id
  pub same_organization : b.organization_id ≡ a.organization_id
  pub same_mc_number : b.mc_number ≡ a.mc_number
  pub same_dot_number : b.dot_number ≡ a.dot_number
  pub stays_activated : was_activated a.status ≡ true → was_activated b.status ≡ true

stays :
    (a b : CarrierStatus) → may_become a b ≡ true → was_activated a ≡ true → was_activated b ≡ true
stays CarrierStatus.pending b = λ x y. ground arith
stays a CarrierStatus.pending = λ x y. x
stays a CarrierStatus.active = λ x y. refl
stays a CarrierStatus.blocked = λ x y. refl
stays a CarrierStatus.inactive = λ x y. refl

pub IsLater-refl : (a : Carrier) → IsLater a a
IsLater-refl a = record {
  same_id = refl;
  same_organization = refl;
  same_mc_number = refl;
  same_dot_number = refl;
  stays_activated = λ h. h;
}

IsLater-trans : (a b c : Carrier) → IsLater a b → IsLater b c → IsLater a c
IsLater-trans a b c h k = record {
  same_id = k.same_id ∙ h.same_id;
  same_organization = k.same_organization ∙ h.same_organization;
  same_mc_number = k.same_mc_number ∙ h.same_mc_number;
  same_dot_number = k.same_dot_number ∙ h.same_dot_number;
  stays_activated = λ x. k.stays_activated (h.stays_activated x);
}

IsLater-change : (r : Registry) (a b : Carrier) → CarrierChange r a b → IsLater a b
IsLater-change r a b c = record {
  same_id = c.same_id;
  same_organization = c.same_organization;
  same_mc_number = c.same_mc_number;
  same_dot_number = c.same_dot_number;
  stays_activated = stays a.status b.status c.follows;
}

-- The row under a key is a later version of `a`.
abbrev pub Continues : Carrier → Option Carrier → Type 0
Continues a none = ⊥
Continues a (some b) = IsLater a b

Step-Continues :
    {r t : Registry} (k : ℕ)
    → Step r t
    → AreDrawn r
    → (a : Carrier) → Continues a (r.carriers k)
    → Continues a (t.carriers k)
Step-Continues k (draw r) drawn a h = h
Step-Continues k (create r org dto new slot) drawn a h =
    let t = put r.next_id (new_carrier r.next_id org dto) r.carriers in
    elim (Bool-cases (k == r.next_id)) [
      | inl e ↦
          let empty : r.carriers k ≡ none = drawn k (ground (arith, e)) in
          absurd (subst (Continues a) empty h)
      | inr e ↦ let same : r.carriers k ≡ t k = ground (arith, e) in subst (Continues a) same h
    ]
Step-Continues k (change r id b d found c) drawn a h =
    let t = put id d r.carriers in
    elim (Bool-cases (k == id)) [
      | inl e ↦
          let before : r.carriers k ≡ some b = ground (arith, e, found) in
          let after : some d ≡ t k = ground (arith, e) in
          subst (Continues a) after
            (IsLater-trans a b d (subst (Continues a) before h) (IsLater-change r b d c))
      | inr e ↦ let same : r.carriers k ≡ t k = ground (arith, e) in subst (Continues a) same h
    ]

pub Reaches-Continues :
    {r t : Registry} (k : ℕ)
    → Reaches r t
    → AreDrawn r
    → (a : Carrier) → Continues a (r.carriers k)
    → Continues a (t.carriers k)
Reaches-Continues k here drawn a h = h
Reaches-Continues k (next p step) drawn a h =
    Step-Continues k step (Reaches-AreDrawn p drawn) a (Reaches-Continues k p drawn a h)
