-- ===== src/Identity/Admins/Keeping.antt =====
-- What a change of one membership does to the active admins of an organization.
use truckmaster.Base.{
  update_first, ℕ, ◌≡◌, ap, ◌∙◌, Bool, true, false, Option, some, List, [], ◌∷◌, ◌++◌, ◌==◌, find,
  find_passes, any, length, filter, arith, Option-cases, Bool-cases, inl, inr,
}
use truckmaster.Store.Statuses.{MembershipStatus, Role, ◌is◌, membership_status_enum, role_enum}
use truckmaster.Store.Rows.{Membership}
use truckmaster.Store.Transaction.{
  Store, Master, Action, Result-cases, with_tenant_transaction, throw_if, business_rule, ◌>>=◌,
  ◌>>◌, ok,
}
use truckmaster.Store.Queries.{require}
use truckmaster.Identity.{
  is_membership, find_membership, update_membership, assert_has_role, expire_if_needed,
}
use truckmaster.Identity.Members.{is_active_admin}

abbrev pub has_active_admin : ℕ → Store → Bool
has_active_admin org s = any (is_active_admin org) s.master.memberships

module _ {ℓ} {A : Type ℓ} (p q : A → Bool) (f : A → A) where
  pub any-update_other :
      (xs : List A) (x : A)
      → find p xs ≡ some x
      → q x ≡ false
      → any q xs ≡ true
      → any q (update_first p f xs) ≡ true
  any-update_other [] x found failed h = h
  any-update_other (y ∷ ys) x found failed h = ground (arith, any-update_other ys x)

  pub any-update_kept :
      (xs : List A) (x : A)
      → find p xs ≡ some x
      → q (f x) ≡ true
      → any q (update_first p f xs) ≡ true
  any-update_kept [] x found holds = cc
  any-update_kept (y ∷ ys) x found holds = ground (arith, any-update_kept ys x)

  pub any-update_grows :
      (xs : List A)
      → ((x : A) → q x ≡ true → q (f x) ≡ true)
      → any q xs ≡ true
      → any q (update_first p f xs) ≡ true
  any-update_grows [] grows h = h
  any-update_grows (y ∷ ys) grows h = ground (arith, any-update_grows ys grows, grows y)

  pub find-update :
      (xs : List A) (x : A)
      → find p xs ≡ some x
      → p (f x) ≡ true
      → find p (update_first p f xs) ≡ some (f x)
  find-update [] x found still = cc
  find-update (y ∷ ys) x found still = ground (arith, find-update ys x)

  pub any-weaker :
      (r : A → Bool) (xs : List A)
      → ((x : A) → r x ≡ true → (q x ≡ true) × (p x ≡ false))
      → any r xs ≡ true
      → any q xs ≡ true
  any-weaker r [] spared h = cc
  any-weaker r (y ∷ ys) spared h = ground (arith, any-weaker r ys spared, spared y)

  pub any-update_spared :
      (r : A → Bool) (xs : List A)
      → ((x : A) → r x ≡ true → (q x ≡ true) × (p x ≡ false))
      → any r xs ≡ true
      → any q (update_first p f xs) ≡ true
  any-update_spared r [] spared h = cc
  any-update_spared r (y ∷ ys) spared h =
      ground (arith, any-update_spared r ys spared, spared y, any-weaker r ys spared)

pub any-filter :
    {A : Type 0} (r : A → Bool) (xs : List A)
    → (length (filter r xs) == 0) ≡ false
    → any r xs ≡ true
any-filter r [] h = cc
any-filter r (x ∷ xs) h = ground (arith, any-filter r xs)

pub any-append_left :
    {A : Type 0} (q : A → Bool) (xs ys : List A) → any q xs ≡ true → any q (xs ++ ys) ≡ true
any-append_left q [] ys h = cc
any-append_left q (x ∷ xs) ys h = ground (arith, any-append_left q xs ys)

-- The operations keep an active admin in every organization `o`.
module _ (o : ℕ) where
  pub update-keeps :
      (org id : ℕ) (change : Membership → Membership) (m : Membership) (s : Store)
      → find_membership org id s ≡ some m
      → is_active_admin o m ≡ false
      → has_active_admin o s ≡ true
      → has_active_admin o (update_membership org id change s).1 ≡ true
  update-keeps org id change m s found other h = ground (
    arith,
    found,
    any-update_other (is_membership org id) (is_active_admin o) change s.master.memberships m found
        other h,
  )

  pub update-found :
      (org id : ℕ) (change : Membership → Membership) (m : Membership) (s : Store)
      → find_membership org id s ≡ some m
      → is_membership org id (change m) ≡ true
      → (find_membership org id (update_membership org id change s).1 ≡ some (change m))
        × ((update_membership org id change s).0 ≡ ok (change m))
  update-found org id change m s found still = ground (
    arith,
    found,
    find-update (is_membership org id) (is_active_admin o) change s.master.memberships m found
        still,
  )

  abbrev pub expired : Membership → Membership
  expired m = record m { status = MembershipStatus.expired }

  -- A change of a row that is not an active member's, after its expiry was looked at.
  pub after_expiry :
      (now org id : ℕ) (change : Membership → Membership) (m : Membership) (s : Store)
      → find_membership org id s ≡ some m
      → (m.status is MembershipStatus.active) ≡ false
      → has_active_admin o s ≡ true
      → (has_active_admin o (expire_if_needed now org m s).1 ≡ true)
        × (has_active_admin o (update_membership org id change (expire_if_needed now org m s).1).1
            ≡ true)
  unfolding expire_if_needed
  after_expiry now org id change m s found inactive h =
      let key = find_passes (is_membership org id) s.master.memberships found in
      let m_id : m.id ≡ id = ground (arith, key) in
      let not_admin : is_active_admin o m ≡ false = ground (arith, inactive) in
      let t = (update_membership org id expired s).1 in
      let moved = update-found org id expired m s found (ground (arith, key)) in
      let kept = update-keeps org id expired m s found not_admin h in
      ground (
        arith,
        m_id,
        h,
        kept,
        moved,
        update-keeps org id change m s found not_admin h,
        update-keeps org id change (expired m) t moved.0 (ground arith) kept,
      )

  module _ {A B : Type 0} where
    pub bind-keeps :
        (m : Action A) (f : A → Action B) (s : Store)
        → has_active_admin o (m s).1 ≡ true
        → ((a : A) → has_active_admin o (f a (m s).1).1 ≡ true)
        → has_active_admin o ((m >>= f) s).1 ≡ true
    bind-keeps m f s h k = elim (Result-cases (m s).0) [
      | inl (e, failed) ↦ ground (arith, failed, h)
      | inr (a, made) ↦ ground (arith, made, k a)
    ]

    pub require-keeps :
        (find : Store → Option A) (f : A → Action B) (s : Store)
        → has_active_admin o s ≡ true
        → ((a : A) → find s ≡ some a → has_active_admin o (f a s).1 ≡ true)
        → has_active_admin o ((require find >>= f) s).1 ≡ true
    require-keeps find f s h k = elim (Option-cases (find s)) [
      | inl missing ↦ ground (arith, missing, h)
      | inr (a, found) ↦ ground (arith, found, k a found)
    ]

  pub transaction-keeps :
      {A : Type 0} (body : Action A) (s : Store)
      → has_active_admin o s ≡ true
      → has_active_admin o (body s).1 ≡ true
      → has_active_admin o (with_tenant_transaction body s).1 ≡ true
  unfolding with_tenant_transaction
  transaction-keeps body s h k = elim (Result-cases (body s).0) [
    | inl (e, failed) ↦ ground (arith, failed, h)
    | inr (a, made) ↦ ground (arith, made, k)
  ]

  pub as_admin-keeps :
      {A : Type 0} (org actor : ℕ) (body : Action A) (s : Store)
      → has_active_admin o s ≡ true
      → has_active_admin o (body s).1 ≡ true
      → has_active_admin o ((assert_has_role org actor Role.admin >> body) s).1 ≡ true
  unfolding assert_has_role
  as_admin-keeps org actor body s h k = ground (arith, h, k)

  -- What follows the look at the expiry: a test, and a change with its audit entry.
  pub tail-keeps :
      {A : Type 0} (refused : Bool) (org id : ℕ) (change : Membership → Membership)
      (finish : Membership → Action A) (t : Store)
      → has_active_admin o t ≡ true
      → has_active_admin o (update_membership org id change t).1 ≡ true
      → ((u : Membership) (t : Store) → (finish u t).1.master ≡ t.master)
      → has_active_admin o
          ((throw_if refused business_rule >> (update_membership org id change >>= finish)) t).1
        ≡ true
  tail-keeps refused org id change finish t h k same = elim (Bool-cases refused) [
    | inl e ↦ ground (arith, e, h)
    | inr e ↦
        let u = update_membership org id change in
        let all =
          bind-keeps u finish t k (λ m.
            ap (λ (d : Master). any (is_active_admin o) d.memberships) (same m (u t).1) ∙ k) in
        ground (arith, e, all)
  ]
