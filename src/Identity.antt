-- ===== src/Identity.antt =====
-- backend/src/modules/identity/services/membership.service.ts, and the operations of user.service.ts that
-- it calls. Tokens and password hashes are numbers; the hash functions are arguments.
pub mod Invitations
pub mod Members
pub mod Expiry
pub mod Admins
use truckmaster.Base.{
  update_first, ℕ, String, Bool, true, false, not, ◌&&◌, ◌||◌, Option, none, some, List, [], ◌∷◌,
  ◌++◌, ◌==◌, find, any, ltb, if◌then◌else◌, str_eq,
}
use truckmaster.Store.Statuses.{
  MembershipStatus, UserStatus, Role, ◌is◌, is_one_of, membership_status_enum, user_status_enum,
  role_enum,
}
use truckmaster.Store.Rows.{Membership, User}
use truckmaster.Store.Transaction.{
  Store, Action, pure, throw, gets, modify, throw_if, record_audit, ◌>>=◌, ◌>>◌, permission,
  database, or_throw,
}
use truckmaster.Store.Audit
use truckmaster.Store.Queries.{require}

abbrev pub modify_memberships : (List Membership → List Membership) → Action (Unit {0})
modify_memberships f =
    modify λ s. record s { master = record s.master { memberships = f s.master.memberships } }

abbrev pub modify_users : (List User → List User) → Action (Unit {0})
modify_users f = modify λ s. record s { master = record s.master { users = f s.master.users } }

-- The rows of a tenant are those of its organization.
abbrev pub is_membership : ℕ → ℕ → Membership → Bool
is_membership org id m = m.id == id && m.organization_id == org

abbrev pub find_membership : ℕ → ℕ → Store → Option Membership
find_membership org id s = find (is_membership org id) s.master.memberships

-- `tx.organizationMembership.update({ where: { id }, data })`
abbrev pub update_membership : ℕ → ℕ → (Membership → Membership) → Action Membership
update_membership org id change = do
  row ← gets (find_membership org id) >>= or_throw database
  modify_memberships (update_first (is_membership org id) change)
  pure (change row)

-- `getRoles`
unfoldable pub get_roles : ℕ → ℕ → Store → List Role
get_roles org user s =
    elim (find
      (λ (m : Membership).
        m.organization_id == org && m.user_id == user && m.status is MembershipStatus.active)
      s.master.memberships) [ none ↦ [] | some m ↦ m.roles ]

unfoldable pub assert_has_role : ℕ → ℕ → Role → Action (Unit {0})
assert_has_role org user role = do
  roles ← gets (get_roles org user)
  throw_if (not (is_one_of role roles)) permission

-- `userService.findByEmail` and `findById`
abbrev pub find_by_email : String → Store → Option User
find_by_email email s = find (λ (u : User). str_eq u.email email) s.master.users

abbrev pub find_by_id : ℕ → Store → Option User
find_by_id id s = find (λ (u : User). u.id == id) s.master.users

-- `expireIfNeeded`
abbrev pub has_expired : ℕ → Membership → Bool
has_expired now m =
    m.status is MembershipStatus.invited
    && elim m.invitation_expires_at [ none ↦ false | some at ↦ ltb at now ]

unfoldable pub expire_if_needed : ℕ → ℕ → Membership → Action Membership
expire_if_needed now org m =
    if has_expired now m
    then (do
      updated ← update_membership org m.id (λ x. record x { status = MembershipStatus.expired })
      record_audit org m.id Audit.invitation_expired none
      pure updated)
    else pure m

-- `[new row of each role]`, where (membership, role) is unique.
abbrev pub has_twice : List Role → Bool
has_twice [] = false
has_twice (r ∷ rs) = is_one_of r rs || has_twice rs
