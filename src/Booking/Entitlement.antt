-- ===== src/Booking/Entitlement.antt =====
-- backend/src/common/entitlement/entitlement.service.ts, the gate on new operational records, and
-- backend/src/modules/identity/services/organization-sequence.service.ts.
use truckmaster.Base.{ℕ, suc, Bool, false, ◌&&◌, Option, none, some, leb, ◌==◌, if◌then◌else◌}
use truckmaster.Store.Statuses.{
  SubscriptionStatus, SequenceType, ◌is◌, subscription_status_enum, sequence_type_enum,
}
use truckmaster.Store.Rows.{Organization}
use truckmaster.Store.Transaction.{
  Action, pure, gets, or_throw, throw_if, modify, ◌>>=◌, ◌>>◌, database, business_rule,
}

abbrev has_ended : ℕ → Option ℕ → Bool
has_ended now none = false
has_ended now (some trial_ends_at) = leb trial_ends_at now

unfoldable pub resolve_effective_status : Organization → ℕ → SubscriptionStatus
resolve_effective_status org now =
    if org.subscription_status is SubscriptionStatus.cancelled
    then SubscriptionStatus.cancelled
    else if org.subscription_status is SubscriptionStatus.expired
    then SubscriptionStatus.expired
    else if org.subscription_status is SubscriptionStatus.trial
    then if has_ended now org.trial_ends_at
      then SubscriptionStatus.expired
      else SubscriptionStatus.trial
    else SubscriptionStatus.active

unfoldable pub assert_can_create_operational_record : ℕ → ℕ → Action (Unit {0})
unfolding resolve_effective_status
assert_can_create_operational_record now org = do
  organization ← gets (λ s. s.master.organizations org) >>= or_throw database
  throw_if (resolve_effective_status organization now is SubscriptionStatus.expired) business_rule

-- The row of a sequence that has not been used yet holds 0, as the upsert makes it.
unfoldable pub get_next_number : ℕ → SequenceType → Action ℕ
get_next_number org type = do
  current ← gets (λ s. s.sequences org type)
  let next = suc current
  modify
      λ s. record s { sequences = λ o t. if o == org && t is type then next else s.sequences o t }
  pure next
