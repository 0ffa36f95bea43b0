-- ===== src/Tests/Carriers.antt =====
-- The theorems on carriers and customers, at concrete values.
use truckmaster.Base.{
  String, ℕ, ◌≡◌, refl, Bool, true, false, some, none, List, [], ◌∷◌, ◌==◌, if◌then◌else◌, arith,
  trim, sort_by,
}
use truckmaster.Store.Statuses.{
  LoadStatus, CarrierStatus, CustomerStatus, SubscriptionStatus, PaymentTerms, PaymentTermsSource,
}
use truckmaster.Store.Rows.{Customer, Organization}
use truckmaster.Store.Transaction.{Store, with_tenant_transaction}
use truckmaster.Carrier.Roster.{CarrierDto, activate}
use truckmaster.Store.Queries.{rows_below}
use truckmaster.Carrier.Limits.{assert_carrier_slot_available, carrier_count}
use truckmaster.Carrier.Eligibility.{
  check_activation_readiness, recalculate, compute_compliance_reasons, compliance_document,
  has_valid_insurance, latest_fmcsa, is_acceptable_fmcsa_result, eligibility_reasons,
}
use truckmaster.Carrier.Registry.{registry, AreDrawn, Reaches}
use truckmaster.Carrier.Registry.Within.{IsWithin}
use truckmaster.Carrier.Registry.Distinct.{AreDistinct}
use truckmaster.Carrier.Requests.{
  Operation, Request, run, run-Reaches, run-IsWithin, run-AreDistinct,
}
use truckmaster.Carrier.Activation.{activate-limit_one}
use truckmaster.Store.Outcomes.{has_returned}
use truckmaster.Customers.Duplicates
use truckmaster.Customers.Duplicates.{CustomerDto}
use truckmaster.Customers.Accounts
use truckmaster.Booking.RateAgreements.{normalize}
use truckmaster.Customers.Unique.{IsApart, create-IsApart}
use truckmaster.Tests.{office}

abbrev demo : ℕ → Organization
demo limit = record {
  default_payment_terms = PaymentTerms.net_30;
  subscription_status = SubscriptionStatus.trial;
  trial_ends_at = some 9_999;
  max_carriers = some limit;
  max_drivers = some limit;
}

-- Carrier 3 is pending, with its papers approved.
abbrev with_limit : ℕ → Store
with_limit limit =
    let base = office LoadStatus.booked CarrierStatus.pending in
    record base {
      master = record base.master {
        organizations = λ i. if i == 1 then some (demo limit) else none;
      };
    }

abbrev dto : CarrierDto
dto = record {
  legal_name = "Bolt";
  mc_number = "8";
  dot_number = "9";
  primary_contact_email = "b@bolt.com";
}

abbrev asked : Operation → List Request → List Request
asked operation rest =
    record { now = 100; organization_id = 1; actor = 20; operation = operation } ∷ rest

-- A second carrier is made, the first is activated and blocked, and a third is refused.
abbrev requests : List Request
requests = asked (Operation.create dto) (
    asked (Operation.activate 3)
      (asked (Operation.block 3 "late") (asked (Operation.create dto) [])))

with_limit-AreDrawn : (limit : ℕ) → AreDrawn (registry (with_limit limit))
with_limit-AreDrawn limit k less = ground (arith, less)

run-Reaches_example : Reaches (registry (with_limit 3)) (registry (run requests (with_limit 3)))
run-Reaches_example = run-Reaches requests (with_limit 3)

run-IsWithin_example : IsWithin 1 (registry (run requests (with_limit 3)))
unfolding rows_below
run-IsWithin_example =
    run-IsWithin 1 requests (with_limit 3) (record { drawn = with_limit-AreDrawn 3; within = refl })

run-AreDistinct_example : AreDistinct (registry (run requests (with_limit 3)))
run-AreDistinct_example =
    run-AreDistinct requests (with_limit 3)
      (record { drawn = with_limit-AreDrawn 3; apart = λ i j less. ground (arith, less) })

activate-limit_one_example : has_returned (activate 100 1 3 20 (with_limit 1)).0 ≡ false
activate-limit_one_example =
    activate-limit_one 100 1 3 20 (demo 1) (with_limit 1) (with_limit-AreDrawn 1) refl refl

abbrev status_of_3 : Store → List CarrierStatus
status_of_3 s = elim (s.carriers 3) [ none ↦ [] | some c ↦ c.status ∷ [] ]

-- With two slots the same carrier is activated.
activated_with_two : status_of_3 (activate 100 1 3 20 (with_limit 2)).1 ≡ CarrierStatus.active ∷ []
unfolding activate with_tenant_transaction check_activation_readiness assert_carrier_slot_available
    carrier_count rows_below recalculate compute_compliance_reasons compliance_document
    has_valid_insurance latest_fmcsa is_acceptable_fmcsa_result trim sort_by eligibility_reasons
activated_with_two = refl

abbrev acme : Customer
acme = record {
  id = 5;
  organization_id = 1;
  legal_name = "Acme, Inc.";
  billing = record { line1 = "1 Main St."; city = "Reno"; state = "NV"; zip = "89501" };
  primary_contact_email = "a@acme.com";
  status = CustomerStatus.active;
  payment_terms = PaymentTerms.net_30;
  payment_terms_source = PaymentTermsSource.inherited;
  account_owner_user_id = none;
  created_by_user_id = 20;
}

abbrev with_acme : Store
with_acme =
    let base = with_limit 3 in
    record base {
      master = record base.master { customers = λ i. if i == 5 then some acme else none };
    }

abbrev asked_for : String → CustomerDto
asked_for name = record {
  legal_name = name;
  billing = record { line1 = "9 Elm"; city = "Reno"; state = "NV"; zip = "89502" };
  primary_contact_email = "b@bolt.com";
  account_owner_user_id = none;
  payment_terms_override = none;
  acknowledge_duplicates = false;
}

abbrev has_made : CustomerDto → Bool
has_made d = has_returned (Accounts.create 1 d 20 none with_acme).0

another_made : has_made (asked_for "Bolt") ≡ true
unfolding Accounts.create with_tenant_transaction Duplicates.match_duplicates
    Duplicates.fetch_duplicate_candidates rows_below Duplicates.matched_on normalize
another_made = refl

same_refused : has_made (asked_for "ACME  inc") ≡ false
unfolding Accounts.create with_tenant_transaction Duplicates.match_duplicates
    Duplicates.fetch_duplicate_candidates rows_below Duplicates.matched_on normalize
same_refused = refl

create-IsApart_example : IsApart (asked_for "Bolt") acme
create-IsApart_example =
    create-IsApart 1 (asked_for "Bolt") 20 5 acme with_acme refl another_made (omega arith) refl
      refl

-- Names without a letter A to Z or a digit all have no words, and match each other.
foreign_names_match :
    Duplicates.has_name (asked_for "東京運輸") (record acme { legal_name = "北京物流" }) ≡ true
unfolding normalize
foreign_names_match = refl
