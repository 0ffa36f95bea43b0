-- ===== src/Identity/Admins/Removed.antt =====
-- `deactivate` and `updateRoles` of membership.service.ts, against the active admins.
use truckmaster.Base.{
  ℕ, ◌≡◌, refl, sym, ap, ◌∙◌, Bool, true, false, not, some, List, ◌==◌, ==_iff, find_passes, any,
  arith, Bool-cases, inl, inr,
}
use mathlib.Core.Path.{subst}
use truckmaster.Store.Statuses.{MembershipStatus, Role, ◌is◌, membership_status_enum, role_enum}
use truckmaster.Store.Rows.{Membership}
use truckmaster.Store.Transaction.{
  Store, Master, Action, with_tenant_transaction, throw_if, business_rule, database, ◌>>=◌, ◌>>◌,
}
use truckmaster.Store.Queries.{require}
use truckmaster.Store.Audit
use truckmaster.Identity.{is_membership, find_membership, update_membership, has_twice}
use truckmaster.Identity.Members.{
  is_admin, is_active_admin, is_other_admin, other_active_admin_count, block_last_admin, deactivate,
  update_roles, change_member, deactivated, audit_deactivation, revoke_sessions, loses_admin,
  with_roles, audit_roles,
}
use truckmaster.Identity.Admins.Keeping.{
  has_active_admin, any-update_kept, any-update_spared, any-filter, update-keeps, bind-keeps,
  require-keeps, transaction-keeps, as_admin-keeps,
}

-- In the organization `o`.
module _ (o : ℕ) where
  -- The last active admin is neither deactivated nor stripped of the role.
  pub spared :
      (id : ℕ) (change : Membership → Membership) (m : Membership) (s : Store)
      → find_membership o id s ≡ some m
      → (other_active_admin_count o id s == 0) ≡ false
      → has_active_admin o (update_membership o id change s).1 ≡ true
  unfolding other_active_admin_count
  spared id change m s found others =
      let elsewhere = any-filter (is_other_admin o id) s.master.memberships others in
      ground (
        arith,
        found,
        any-update_spared (is_membership o id) (is_active_admin o) change (is_other_admin o id)
            s.master.memberships (λ x h. ground (arith, h)) elsewhere,
      )

  pub another :
      (org id : ℕ) (change : Membership → Membership) (m : Membership) (s : Store)
      → find_membership org id s ≡ some m
      → has_active_admin o s ≡ true
      → (other_active_admin_count org id s == 0) ≡ false
      → has_active_admin o (update_membership org id change s).1 ≡ true
  another org id change m s found h others = elim (Bool-cases (org == o)) [
    | inl e ↦
        let same = sym ((==_iff org o).0 e) in
        subst (λ k. has_active_admin o (update_membership k id change s).1 ≡ true) same
          (spared id change m s (subst (λ k. find_membership k id s ≡ some m) (sym same) found)
            (subst (λ k. (other_active_admin_count k id s == 0) ≡ false) (sym same) others))
    | inr e ↦
        let key = find_passes (is_membership org id) s.master.memberships found in
        let elsewhere : is_active_admin o m ≡ false = ground (arith, key, e) in
        update-keeps o org id change m s found elsewhere h
  ]

  pub guarded-keeps :
      {A : Type 0} (refused loses : Bool) (org id : ℕ) (blocked : Audit.Action)
      (change : Membership → Membership) (finish : Membership → Action A) (m : Membership)
      (s : Store)
      → find_membership org id s ≡ some m
      → has_active_admin o s ≡ true
      → (loses ≡ false → has_active_admin o (update_membership org id change s).1 ≡ true)
      → ((u : Membership) (t : Store) → (finish u t).1.master ≡ t.master)
      → has_active_admin o
          ((throw_if refused business_rule
              >> (block_last_admin org id blocked loses
                  >> (update_membership org id change >>= finish)))
            s).1
        ≡ true
  unfolding block_last_admin
  guarded-keeps refused loses org id blocked change finish m s found h safe same =
      let u = update_membership org id change in
      let all = λ (k : has_active_admin o (u s).1 ≡ true).
        bind-keeps o u finish s k
          (λ m. ap (λ (d : Master). any (is_active_admin o) d.memberships) (same m (u s).1) ∙ k) in
      elim (Bool-cases refused) [
        | inl e ↦ ground (arith, e, h)
        | inr e ↦ elim (Bool-cases loses) [
          | inr harmless ↦ ground (arith, e, harmless, all (safe harmless))
          | inl losing ↦ elim (Bool-cases (other_active_admin_count org id s == 0)) [
            | inl last ↦ ground (arith, e, losing, last, h)
            | inr others ↦
                ground (arith, e, losing, others, all (another org id change m s found h others))
          ]
        ]
      ]

  -- A change of a member inside its transaction, for the members that may lose the role.
  pub change_member-keeps :
      (org id : ℕ) (blocked : Audit.Action) (loses : Membership → Bool)
      (change : Membership → Membership) (finish : Membership → Membership → Action Membership)
      (s : Store)
      → has_active_admin o s ≡ true
      → ((m : Membership)
          → find_membership org id s ≡ some m
          → loses m ≡ false
          → has_active_admin o (update_membership org id change s).1 ≡ true)
      → ((m u : Membership) (t : Store) → (finish m u t).1.master ≡ t.master)
      → has_active_admin o
          (with_tenant_transaction
            (require (find_membership org id) >>= change_member org id blocked loses change finish)
            s).1
        ≡ true
  change_member-keeps org id blocked loses change finish s h safe same =
      let found = change_member org id blocked loses change finish in
      let body = require (find_membership org id) >>= found in
      transaction-keeps o body s h (
        require-keeps o (find_membership org id) found s h (λ m e.
          guarded-keeps (not (m.status is MembershipStatus.active)) (loses m) org id blocked change
            (finish m) m s e h (safe m e) (same m)))

  pub deactivate-keeps :
      (now org id actor : ℕ) (s : Store)
      → has_active_admin o s ≡ true
      → has_active_admin o (deactivate now org id actor s).1 ≡ true
  unfolding deactivate
  deactivate-keeps now org id actor s h =
      let change = deactivated now actor in
      let changing = with_tenant_transaction (
        require (find_membership org id)
        >>= change_member org id Audit.user_deactivation_blocked is_admin change
            (audit_deactivation org id actor)) in
      let kept =
        change_member-keeps org id Audit.user_deactivation_blocked is_admin change
          (audit_deactivation org id actor) s h
          (λ m e harmless. update-keeps o org id change m s e (ground (arith, harmless)) h)
          (λ m u t. refl) in
      as_admin-keeps o org actor (changing >>= revoke_sessions org) s h
        (bind-keeps o changing (revoke_sessions org) s kept (λ m. ground (arith, kept)))

  pub update_roles-keeps :
      (org id : ℕ) (roles : List Role) (actor : ℕ) (s : Store)
      → has_active_admin o s ≡ true
      → has_active_admin o (update_roles org id roles actor s).1 ≡ true
  unfolding update_roles
  update_roles-keeps org id roles actor s h =
      let change = with_roles roles in
      let finish = λ (target updated : Membership).
        throw_if (has_twice roles) database >> audit_roles org id roles actor target updated in
      as_admin-keeps o org actor
        (with_tenant_transaction (
          require (find_membership org id)
          >>= change_member org id Audit.role_change_blocked (loses_admin roles) change finish))
        s h
        (change_member-keeps org id Audit.role_change_blocked (loses_admin roles) change finish s h
          (λ m e harmless. elim (Bool-cases (is_active_admin o m)) [
            | inl admin ↦
                let stays : is_active_admin o (change m) ≡ true = ground (arith, admin, harmless) in
                ground (
                  arith,
                  e,
                  any-update_kept (is_membership org id) (is_active_admin o) change
                      s.master.memberships m e stays,
                )
            | inr other ↦ update-keeps o org id change m s e other h
          ])
          (λ m u t. ground arith))
