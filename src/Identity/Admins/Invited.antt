-- ===== src/Identity/Admins/Invited.antt =====
-- The operations on invitations in membership.service.ts, against the active admins.
use truckmaster.Base.{
  ℕ, suc, String, ◌≡◌, refl, true, false, not, Option, none, some, [], ◌∷◌, find, arith,
  Option-cases, Bool-cases, inl, inr,
}
use truckmaster.Store.Statuses.{MembershipStatus, ◌is◌, membership_status_enum, role_enum}
use truckmaster.Store.Rows.{Membership, User}
use truckmaster.Store.Transaction.{
  Store, with_tenant_transaction, throw_if, business_rule, record_audit, pure, gets, enqueue, Job,
  ◌>>=◌, ◌>>◌,
}
use truckmaster.Store.Queries.{require}
use truckmaster.Store.Audit
use truckmaster.Identity.{
  find_by_id, find_by_email, is_membership, find_membership, update_membership, expire_if_needed,
  has_expired,
}
use truckmaster.Identity.Members.{is_active_admin}
use truckmaster.Identity.Invitations.{
  InviteDto, invite, resend, cancel, activate, change_invitation, withdrawn, renewed,
  is_pending_or_expired, resend_found, email_of, send_again, activated, activate_found, has_token,
  create_membership, invited, is_member_of,
}
use truckmaster.Identity.Admins.Keeping.{
  has_active_admin, any-update_grows, any-append_left, after_expiry, bind-keeps, require-keeps,
  transaction-keeps, as_admin-keeps, tail-keeps,
}

-- In the organization `o`.
module _ (o : ℕ) where
  pub change_invitation-keeps :
      (now org id : ℕ) (change : Membership → Membership) (action : Audit.Action) (actor : ℕ)
      (m : Membership) (s : Store)
      → find_membership org id s ≡ some m
      → has_active_admin o s ≡ true
      → has_active_admin o (change_invitation now org id change action actor m s).1 ≡ true
  unfolding expire_if_needed
  change_invitation-keeps now org id change action actor m s found h =
      elim (Bool-cases (m.status is MembershipStatus.active)) [
        | inl active ↦ ground (arith, active, h)
        | inr inactive ↦
            let t = (expire_if_needed now org m s).1 in
            let (kept, then) = after_expiry o now org id change m s found inactive h in
            let finish = λ (u : Membership). record_audit org id action (some actor) >> pure u in
            bind-keeps o (expire_if_needed now org m)
              (λ x.
                throw_if (not (is_pending_or_expired x)) business_rule
                >> (update_membership org id change >>= finish))
              s kept
              (λ x.
                tail-keeps o (not (is_pending_or_expired x)) org id change finish t kept then
                  (λ u v. refl))
      ]

  pub cancel-keeps :
      (now org id actor : ℕ) (s : Store)
      → has_active_admin o s ≡ true
      → has_active_admin o (cancel now org id actor s).1 ≡ true
  unfolding cancel
  cancel-keeps now org id actor s h =
      let found = change_invitation now org id withdrawn Audit.invitation_cancelled actor in
      let body = require (find_membership org id) >>= found in
      as_admin-keeps o org actor (with_tenant_transaction body) s h (
        transaction-keeps o body s h (
          require-keeps o (find_membership org id) found s h (λ m e.
            change_invitation-keeps now org id withdrawn Audit.invitation_cancelled actor m s e h)))

  pub resend-keeps :
      (now token org id actor : ℕ) (s : Store)
      → has_active_admin o s ≡ true
      → has_active_admin o (resend now token org id actor s).1 ≡ true
  unfolding resend
  resend-keeps now token org id actor s h =
      let found = resend_found now token org id actor in
      let body = require (find_membership org id) >>= found in
      let inner = with_tenant_transaction body in
      let sending = λ (x : Membership × Option String). send_again x.1 id >> pure x.0 in
      as_admin-keeps o org actor (inner >>= sending) s h (
        let done = transaction-keeps o body s h (
          require-keeps o (find_membership org id) found s h (λ m e.
            let change =
              change_invitation now org id (renewed now token) Audit.invitation_resent actor m in
            bind-keeps o change
              (λ (u : Membership). gets (find_by_id m.user_id) >>= λ x. pure (u, email_of x)) s
              (change_invitation-keeps now org id (renewed now token) Audit.invitation_resent actor
                m s e h)
              (λ u.
                change_invitation-keeps now org id (renewed now token) Audit.invitation_resent actor
                  m s e h))) in
        bind-keeps o inner sending s done (λ x. ground (arith, done)))

  pub activate-expired :
      (hash_password : ℕ → ℕ) (now : ℕ) (password : Option ℕ) (m : Membership) (s : Store)
      → has_expired now m ≡ true
      → (with_tenant_transaction (activate_found hash_password now password m) s).1 ≡ s
  unfolding expire_if_needed with_tenant_transaction
  activate-expired hash_password now password m s e =
      elim (Option-cases (find_membership m.organization_id m.id s)) [
        | inl missing ↦ ground (arith, e, missing)
        | inr (row, found) ↦ ground (arith, e, found)
      ]

  pub activate_found-keeps :
      (hash_password : ℕ → ℕ) (now : ℕ) (password : Option ℕ) (m : Membership) (s : Store)
      → has_expired now m ≡ false
      → has_active_admin o s ≡ true
      → has_active_admin o (activate_found hash_password now password m s).1 ≡ true
  unfolding expire_if_needed
  activate_found-keeps hash_password now password m s e h =
      let grown =
        any-update_grows (is_membership m.organization_id m.id) (is_active_admin o) (activated now)
          s.master.memberships (λ x k. ground (arith, k)) h in
      ground (arith, e, h, grown)

  pub activate-keeps :
      (hash_token hash_password : ℕ → ℕ) (now token : ℕ) (password : Option ℕ) (s : Store)
      → has_active_admin o s ≡ true
      → has_active_admin o (activate hash_token hash_password now token password s).1 ≡ true
  unfolding activate
  activate-keeps hash_token hash_password now token password s h =
      require-keeps o (λ s. find (has_token (hash_token token)) s.master.memberships)
        (λ m. with_tenant_transaction (activate_found hash_password now password m)) s h
        (λ m found. elim (Bool-cases (has_expired now m)) [
          | inl e ↦ rw (activate-expired hash_password now password m s e) h
          | inr e ↦
              transaction-keeps o (activate_found hash_password now password m) s h
                (activate_found-keeps hash_password now password m s e h)
        ])

  pub create_membership-keeps :
      (now token org : ℕ) (dto : InviteDto) (actor : ℕ) (found : Option User) (s : Store)
      → has_active_admin o s ≡ true
      → has_active_admin o (create_membership now token org dto actor found s).1 ≡ true
  create_membership-keeps now token org dto actor none s h =
      let row = invited now token org dto actor s.next_id (suc s.next_id) in
      ground (arith, h, any-append_left (is_active_admin o) s.master.memberships (row ∷ []) h)
  create_membership-keeps now token org dto actor (some user) s h =
      let row = invited now token org dto actor user.id s.next_id in
      elim (Option-cases (find (is_member_of org user.id) s.master.memberships)) [
        | inl nobody ↦ ground (
          arith,
          h,
          nobody,
          any-append_left (is_active_admin o) s.master.memberships (row ∷ []) h,
        )
        | inr (m, e) ↦
            ground
              (arith, h, e, any-append_left (is_active_admin o) s.master.memberships (row ∷ []) h)
      ]

  pub invite-keeps :
      (now token org : ℕ) (dto : InviteDto) (actor : ℕ) (s : Store)
      → has_active_admin o s ≡ true
      → has_active_admin o (invite now token org dto actor s).1 ≡ true
  unfolding invite
  invite-keeps now token org dto actor s h =
      let found = find_by_email dto.email s in
      let inner = with_tenant_transaction (create_membership now token org dto actor found) in
      let created =
        transaction-keeps o (create_membership now token org dto actor found) s h
          (create_membership-keeps now token org dto actor found s h) in
      let sending = λ (m : Membership). enqueue (Job.send_email dto.email m.id) >> pure m in
      as_admin-keeps o org actor
        (gets (find_by_email dto.email) >>= λ user.
          with_tenant_transaction (create_membership now token org dto actor user) >>= sending)
        s h (bind-keeps o inner sending s created (λ m. ground (arith, created)))
