-- ===== src/Identity/Members.antt =====
-- `deactivate` and `updateRoles` of membership.service.ts.
use truckmaster.Base.{ℕ, Bool, not, ◌&&◌, none, some, List, ◌==◌, length, filter}
use truckmaster.Store.Statuses.{
  MembershipStatus, Role, ◌is◌, is_one_of, membership_status_enum, role_enum,
}
use truckmaster.Store.Rows.{Membership}
use truckmaster.Store.Transaction.{
  Store, Action, Job, pure, throw, gets, throw_if, when, record_audit, enqueue,
  with_tenant_transaction, ◌>>=◌, ◌>>◌, business_rule, database,
}
use truckmaster.Store.Audit
use truckmaster.Store.Queries.{require}
use truckmaster.Identity.{find_membership, update_membership, assert_has_role, has_twice}

abbrev pub is_admin : Membership → Bool
is_admin m = is_one_of Role.admin m.roles

abbrev pub is_active_admin : ℕ → Membership → Bool
is_active_admin org m =
    m.organization_id == org && m.status is MembershipStatus.active && is_admin m

abbrev pub is_other_admin : ℕ → ℕ → Membership → Bool
is_other_admin org id m = is_active_admin org m && not (m.id == id)

-- `otherActiveAdminCount`
unfoldable pub other_active_admin_count : ℕ → ℕ → Store → ℕ
other_active_admin_count org id s = length (filter (is_other_admin org id) s.master.memberships)

-- The guard on the last active admin.
unfoldable pub block_last_admin : ℕ → ℕ → Audit.Action → Bool → Action (Unit {0})
block_last_admin org id blocked loses_admin = when loses_admin do
  others ← gets (other_active_admin_count org id)
  when (others == 0) (record_audit org id blocked none >> throw business_rule)

-- An active member is changed, if an admin stays.
abbrev pub change_member :
    ℕ
    → ℕ
    → Audit.Action
    → (Membership → Bool)
    → (Membership → Membership)
    → (Membership → Membership → Action Membership)
    → Membership
    → Action Membership
change_member org id blocked loses_admin change finish target = do
  throw_if (not (target.status is MembershipStatus.active)) business_rule
  block_last_admin org id blocked (loses_admin target)
  updated ← update_membership org id change
  finish target updated

abbrev pub deactivated : ℕ → ℕ → Membership → Membership
deactivated now actor m = record m {
  status = MembershipStatus.inactive;
  deactivated_at = some now;
  deactivated_by_user_id = some actor;
}

abbrev pub audit_deactivation : ℕ → ℕ → ℕ → Membership → Membership → Action Membership
audit_deactivation org id actor target updated =
    record_audit org id Audit.user_deactivated (some actor) >> pure updated

abbrev pub revoke_sessions : ℕ → Membership → Action Membership
revoke_sessions org m = enqueue (Job.revoke_all_for_organization m.user_id org) >> pure m

unfoldable pub deactivate : ℕ → ℕ → ℕ → ℕ → Action Membership
deactivate now org id actor = do
  assert_has_role org actor Role.admin
  updated ← with_tenant_transaction (
      require (find_membership org id)
      >>= change_member org id Audit.user_deactivation_blocked is_admin (deactivated now actor)
          (audit_deactivation org id actor))
  revoke_sessions org updated

abbrev pub loses_admin : List Role → Membership → Bool
loses_admin roles target = is_admin target && not (is_one_of Role.admin roles)

abbrev pub with_roles : List Role → Membership → Membership
with_roles roles m = record m { roles = roles }

abbrev pub audit_roles : ℕ → ℕ → List Role → ℕ → Membership → Membership → Action Membership
audit_roles org id roles actor target updated =
    record_audit org id (Audit.member_roles_changed target.roles roles) (some actor) >> pure updated

unfoldable pub update_roles : ℕ → ℕ → List Role → ℕ → Action Membership
update_roles org id roles actor = do
  assert_has_role org actor Role.admin
  with_tenant_transaction (
      require (find_membership org id)
      >>= change_member org id Audit.role_change_blocked (loses_admin roles) (with_roles roles)
          (λ target updated.
            throw_if (has_twice roles) database >> audit_roles org id roles actor target updated))
