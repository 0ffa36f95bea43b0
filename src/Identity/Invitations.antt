-- ===== src/Identity/Invitations.antt =====
-- `invite`, `resend`, `cancel` and `activate` of membership.service.ts.
use truckmaster.Base.{
  update_first, ℕ, ◌+◌, String, Bool, true, false, not, ◌&&◌, ◌||◌, Option, none, some, List, [],
  ◌∷◌, ◌++◌, ◌==◌, find, any, is_some, if◌then◌else◌,
}
use truckmaster.Store.Statuses.{
  MembershipStatus, UserStatus, Role, ◌is◌, is_one_of, membership_status_enum, user_status_enum,
  role_enum,
}
use truckmaster.Store.Rows.{Membership, User}
use truckmaster.Store.Transaction.{
  Action, Job, pure, throw, gets, throw_if, record_audit, enqueue, fresh_id,
  with_tenant_transaction, ◌>>=◌, ◌>>◌, conflict, business_rule, database,
}
use truckmaster.Store.Audit
use truckmaster.Store.Queries.{require}
use truckmaster.Identity.{
  modify_memberships, modify_users, find_membership, update_membership, assert_has_role,
  find_by_email, find_by_id, expire_if_needed, has_twice,
}

-- `InviteMemberDto`
pub record InviteDto : Type 0 where
  pub email : String
  pub roles : List Role

-- `INVITATION_EXPIRY_DAYS` from now, on a clock with no change of its offset.
abbrev pub invitation_expiry : ℕ → ℕ
invitation_expiry now = now + 604_800_000

abbrev pub is_member_of : ℕ → ℕ → Membership → Bool
is_member_of org user m = m.organization_id == org && m.user_id == user

-- The user with the email, or a new one.
abbrev pub create_user : Option User → String → Action User
create_user (some user) email = pure user
create_user none email = do
  id ← fresh_id
  let user : User = record {
    id = id;
    email = email;
    password_hash = none;
    status = UserStatus.pending_verification;
    email_verified_at = none;
  }
  modify_users (λ us. us ++ user ∷ [])
  pure user

abbrev check_existing : ℕ → Option User → Action (Unit {0})
check_existing org none = pure tt
check_existing org (some user) = do
  existing ← gets (λ s. find (is_member_of org user.id) s.master.memberships)
  elim existing [
    | none ↦ pure tt
    | some m ↦
        throw_if
          (is_one_of m.status (
            MembershipStatus.active ∷ MembershipStatus.invited
            ∷ MembershipStatus.pending_verification ∷ []))
          conflict
  ]

abbrev pub invited : ℕ → ℕ → ℕ → InviteDto → ℕ → ℕ → ℕ → Membership
invited now token_hash org dto actor user_id id = record {
  id = id;
  organization_id = org;
  user_id = user_id;
  status = MembershipStatus.invited;
  invited_by_user_id = some actor;
  invited_at = some now;
  invitation_token_hash = some token_hash;
  invitation_expires_at = some (invitation_expiry now);
  activated_at = none;
  deactivated_at = none;
  deactivated_by_user_id = none;
  roles = dto.roles;
}

abbrev pub create_membership : ℕ → ℕ → ℕ → InviteDto → ℕ → Option User → Action Membership
create_membership now token_hash org dto actor found = do
  check_existing org found
  user ← create_user found dto.email
  taken ← gets (λ s. any (is_member_of org user.id) s.master.memberships)
  throw_if (taken || has_twice dto.roles) database
  id ← fresh_id
  let created = invited now token_hash org dto actor user.id id
  modify_memberships (λ ms. ms ++ created ∷ [])
  record_audit org id (Audit.user_invited dto.email dto.roles) (some actor)
  pure created

unfoldable pub invite : ℕ → ℕ → ℕ → InviteDto → ℕ → Action Membership
invite now token_hash org dto actor = do
  assert_has_role org actor Role.admin
  found ← gets (find_by_email dto.email)
  membership ← with_tenant_transaction (create_membership now token_hash org dto actor found)
  enqueue (Job.send_email dto.email membership.id)
  pure membership

abbrev pub is_pending_or_expired : Membership → Bool
is_pending_or_expired m =
    is_one_of m.status (MembershipStatus.invited ∷ MembershipStatus.expired ∷ [])

abbrev pub email_of : Option User → Option String
email_of none = none
email_of (some u) = some u.email

abbrev pub send_again : Option String → ℕ → Action (Unit {0})
send_again none id = pure tt
send_again (some email) id = enqueue (Job.send_email email id)

-- The part that resending and cancelling share.
abbrev pub change_invitation :
    ℕ → ℕ → ℕ → (Membership → Membership) → Audit.Action → ℕ → Membership → Action Membership
change_invitation now org id change action actor found = do
  membership ← expire_if_needed now org found
  throw_if (not (is_pending_or_expired membership)) business_rule
  updated ← update_membership org id change
  record_audit org id action (some actor)
  pure updated

abbrev pub renewed : ℕ → ℕ → Membership → Membership
renewed now token_hash m = record m {
  status = MembershipStatus.invited;
  invitation_token_hash = some token_hash;
  invitation_expires_at = some (invitation_expiry now);
}

abbrev pub withdrawn : Membership → Membership
withdrawn m = record m { status = MembershipStatus.cancelled; invitation_token_hash = none }

abbrev pub resend_found : ℕ → ℕ → ℕ → ℕ → ℕ → Membership → Action (Membership × Option String)
resend_found now token_hash org id actor found = do
  updated ←
      change_invitation now org id (renewed now token_hash) Audit.invitation_resent actor found
  user ← gets (find_by_id found.user_id)
  pure (updated, email_of user)

unfoldable pub resend : ℕ → ℕ → ℕ → ℕ → ℕ → Action Membership
resend now token_hash org id actor = do
  assert_has_role org actor Role.admin
  sent ←
      with_tenant_transaction
        (require (find_membership org id) >>= resend_found now token_hash org id actor)
  send_again sent.1 id
  pure sent.0

unfoldable pub cancel : ℕ → ℕ → ℕ → ℕ → Action Membership
cancel now org id actor = do
  assert_has_role org actor Role.admin
  with_tenant_transaction (
      require (find_membership org id)
      >>= change_invitation now org id withdrawn Audit.invitation_cancelled actor)

abbrev pub has_token : ℕ → Membership → Bool
has_token hash m = elim m.invitation_token_hash [ none ↦ false | some h ↦ h == hash ]

-- `setPasswordAndActivate`
abbrev set_password_and_activate : ℕ → ℕ → ℕ → Action (Unit {0})
set_password_and_activate now user_id password_hash = modify_users (
    update_first (λ (u : User). u.id == user_id)
      (λ u. record u {
        password_hash = some password_hash;
        status = UserStatus.active;
        email_verified_at = some now;
      }))

-- The first password of a user, when one is needed.
abbrev first_password : (ℕ → ℕ) → ℕ → User → Bool → Option ℕ → Action (Unit {0})
first_password hash now user false given = pure tt
first_password hash now user true none = throw business_rule
first_password hash now user true (some password) =
    set_password_and_activate now user.id (hash password)

abbrev needs_password : User → Bool
needs_password u = u.status is UserStatus.pending_verification && not (is_some u.password_hash)

abbrev pub activated : ℕ → Membership → Membership
activated now m = record m {
  status = MembershipStatus.active;
  activated_at = some now;
  invitation_token_hash = none;
}

abbrev pub activation_action : User → Audit.Action
activation_action u =
    if needs_password u then Audit.admin_account_verified else Audit.user_activated

abbrev pub activate_found : (ℕ → ℕ) → ℕ → Option ℕ → Membership → Action Membership
activate_found hash_password now password found = do
  membership ← expire_if_needed now found.organization_id found
  throw_if
      (not (
        is_one_of membership.status
          (MembershipStatus.invited ∷ MembershipStatus.pending_verification ∷ [])))
      business_rule
  user ← require (find_by_id membership.user_id)
  first_password hash_password now user (needs_password user) password
  updated ← update_membership found.organization_id membership.id (activated now)
  record_audit membership.organization_id membership.id (activation_action user) (some user.id)
  pure updated

unfoldable pub activate : (ℕ → ℕ) → (ℕ → ℕ) → ℕ → ℕ → Option ℕ → Action Membership
activate hash_token hash_password now token password = do
  found ← require (λ s. find (has_token (hash_token token)) s.master.memberships)
  with_tenant_transaction (activate_found hash_password now password found)
