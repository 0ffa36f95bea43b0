-- ===== src/Identity/Expiry.antt =====
-- backend/src/modules/background-jobs/services/invitation-expiration-sweep.service.ts
use truckmaster.Base.{ℕ, not, ◌&&◌, Option, none, some, List, [], ◌∷◌, ◌==◌, filter}
use truckmaster.Store.Statuses.{MembershipStatus, NotificationType, Role, membership_status_enum}
use truckmaster.Store.Rows.{Membership}
use truckmaster.Store.Transaction.{
  Store, Action, pure, gets, when, record_audit, with_tenant_transaction, ◌>>=◌, ◌>>◌,
}
use truckmaster.Store.Audit
use truckmaster.Notifying.{has_notification, create_for_user_and_roles}
use truckmaster.Identity.{has_expired, update_membership}

-- `loadStaleMemberships`
unfoldable pub load_stale_memberships : ℕ → ℕ → Store → List Membership
load_stale_memberships now org s =
    filter (λ (m : Membership). m.organization_id == org && has_expired now m) s.master.memberships

abbrev notify_inviter : ℕ → ℕ → Option ℕ → Action (Unit {0})
notify_inviter org id none = pure tt
notify_inviter org id (some inviter) = do
  notified ← gets (has_notification org NotificationType.invitation_expired id)
  when (not notified) (
      create_for_user_and_roles org inviter (Role.admin ∷ []) NotificationType.invitation_expired
        id)

unfoldable pub expire : ℕ → Membership → Action (Unit {0})
expire org m = with_tenant_transaction do
  update_membership org m.id (λ x. record x { status = MembershipStatus.expired })
  record_audit org m.id Audit.invitation_expired none
  notify_inviter org m.id m.invited_by_user_id

-- `try { … } catch` around each member: a failure is logged, and the sweep goes on.
abbrev pub each : List Membership → ℕ → Store → Store
each [] org s = s
each (m ∷ ms) org s = each ms org (expire org m s).1

unfoldable pub sweep : ℕ → List ℕ → Store → Store
sweep now [] s = s
sweep now (org ∷ orgs) s = sweep now orgs (each (load_stale_memberships now org s) org s)
