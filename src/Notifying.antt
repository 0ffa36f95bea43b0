-- ===== src/Notifying.antt =====
-- backend/src/modules/notification/services/notification.service.ts: the rows that the services
-- create for a user and for the members of some roles.
use truckmaster.Base.{ℕ, Bool, not, ◌&&◌, List, [], ◌∷◌, ◌++◌, map, ◌==◌, filter, any}
use truckmaster.Store.Statuses.{
  NotificationType, Role, ◌is◌, is_one_of, notification_type_enum, role_enum, MembershipStatus,
  membership_status_enum,
}
use truckmaster.Store.Rows.{Membership, Notification}
use truckmaster.Store.Transaction.{Store, Action, modify, gets, ◌>>=◌}

-- `memberships.findMany({ where: { organizationId, status: 'ACTIVE', roles: { some: … } } })`
abbrev pub is_member_with : ℕ → List Role → Membership → Bool
is_member_with org roles m =
    m.organization_id == org
    && m.status is MembershipStatus.active
    && any (λ r. is_one_of r roles) m.roles

unfoldable pub members_with : ℕ → List Role → Store → List ℕ
members_with org roles s =
    map (λ (m : Membership). m.user_id) (filter (is_member_with org roles) s.master.memberships)

abbrev notification_for : ℕ → NotificationType → ℕ → ℕ → Notification
notification_for org type load_id user = record {
  organization_id = org;
  recipient_user_id = user;
  type = type;
  related_load_id = load_id;
}

abbrev create_all : ℕ → NotificationType → ℕ → List ℕ → Action (Unit {0})
create_all org type load_id users = modify λ s. record s {
  notifications = s.notifications ++ map (notification_for org type load_id) users;
}

unfoldable pub create_for_roles : ℕ → List Role → NotificationType → ℕ → Action (Unit {0})
create_for_roles org roles type load_id = do
  users ← gets (members_with org roles)
  create_all org type load_id users

-- `new Set([primaryUserId, …])`, in the order of insertion
abbrev pub distinct : List ℕ → List ℕ
distinct [] = []
distinct (x ∷ xs) = x ∷ filter (λ y. not (y == x)) (distinct xs)

unfoldable pub create_for_user_and_roles :
    ℕ → ℕ → List Role → NotificationType → ℕ → Action (Unit {0})
create_for_user_and_roles org user roles type load_id = do
  users ← gets (members_with org roles)
  create_all org type load_id (distinct (user ∷ users))

-- `tx.notification.findFirst({ where: { organizationId, type, relatedEntityType: 'Load', … } })`
unfoldable pub has_notification : ℕ → NotificationType → ℕ → Store → Bool
has_notification org type load_id s =
    any
      (λ (n : Notification).
        n.organization_id == org && n.type is type && n.related_load_id == load_id)
      s.notifications
