-- ===== src/Identity/Admins.antt =====
-- The active admins of an organization, over any sequence of the operations of membership.service.ts.
pub mod Keeping
pub mod Invited
pub mod Removed
use truckmaster.Base.{ℕ, ◌≡◌, Bool, true, Option, List, [], ◌∷◌}
use truckmaster.Store.Statuses.{Role}
use truckmaster.Store.Transaction.{Store}
use truckmaster.Identity.Members
use truckmaster.Identity.Invitations
use truckmaster.Identity.Invitations.{InviteDto}
use truckmaster.Identity.Admins.Keeping.{has_active_admin}
use truckmaster.Identity.Admins.Invited.{invite-keeps, resend-keeps, cancel-keeps, activate-keeps}
use truckmaster.Identity.Admins.Removed.{deactivate-keeps, update_roles-keeps}

-- The calls of membership.controller.ts and of the page that accepts an invitation.
pub data Operation : Type 0 where
  invite : InviteDto → Operation
  resend cancel deactivate : (id : ℕ) → Operation
  update_roles : (id : ℕ) → List Role → Operation
  activate : (token : ℕ) → Option ℕ → Operation

-- The token hash is the one that the server generates.
pub record Request : Type 0 where
  pub now : ℕ
  pub organization_id : ℕ
  pub actor : ℕ
  pub token_hash : ℕ
  pub operation : Operation

module _ (hash_token hash_password : ℕ → ℕ) where
  unfoldable pub serve : Request → Operation → Store → Store
  serve r (Operation.invite dto) s =
      (Invitations.invite r.now r.token_hash r.organization_id dto r.actor s).1
  serve r (Operation.resend id) s =
      (Invitations.resend r.now r.token_hash r.organization_id id r.actor s).1
  serve r (Operation.cancel id) s = (Invitations.cancel r.now r.organization_id id r.actor s).1
  serve r (Operation.deactivate id) s = (Members.deactivate r.now r.organization_id id r.actor s).1
  serve r (Operation.update_roles id roles) s =
      (Members.update_roles r.organization_id id roles r.actor s).1
  serve r (Operation.activate token password) s =
      (Invitations.activate hash_token hash_password r.now token password s).1

  unfoldable pub run : List Request → Store → Store
  run [] s = s
  run (r ∷ rs) s = run rs (serve r r.operation s)

  serve-keeps :
      (o : ℕ) (r : Request) (op : Operation) (s : Store)
      → has_active_admin o s ≡ true
      → has_active_admin o (serve r op s) ≡ true
  unfolding serve
  serve-keeps o r (Operation.invite dto) s h =
      invite-keeps o r.now r.token_hash r.organization_id dto r.actor s h
  serve-keeps o r (Operation.resend id) s h =
      resend-keeps o r.now r.token_hash r.organization_id id r.actor s h
  serve-keeps o r (Operation.cancel id) s h = cancel-keeps o r.now r.organization_id id r.actor s h
  serve-keeps o r (Operation.deactivate id) s h =
      deactivate-keeps o r.now r.organization_id id r.actor s h
  serve-keeps o r (Operation.update_roles id roles) s h =
      update_roles-keeps o r.organization_id id roles r.actor s h
  serve-keeps o r (Operation.activate token password) s h =
      activate-keeps o hash_token hash_password r.now token password s h

  -- An organization that has an active admin has one after any requests, in one organization or
  -- another, whoever sends them.
  pub run-has_active_admin :
      (o : ℕ) (rs : List Request) (s : Store)
      → has_active_admin o s ≡ true
      → has_active_admin o (run rs s) ≡ true
  unfolding run
  run-has_active_admin o [] s h = h
  run-has_active_admin o (r ∷ rs) s h =
      run-has_active_admin o rs (serve r r.operation s) (serve-keeps o r r.operation s h)
