-- ===== src/Customers/Duplicates.antt =====
-- The duplicate check of backend/src/modules/customer/services/customer.service.ts, whose `normalize` is
-- the one of rate-agreement-matching.service.ts.
use truckmaster.Base.{
  ℕ, String, Bool, true, false, Option, none, some, List, [], ◌∷◌, ◌++◌, ◌==◌, map, filter, any,
  codes, lower, same_codes, if◌then◌else◌,
}
use truckmaster.Store.Rows.{BillingAddress, Customer, CustomerContact}
use truckmaster.Store.Transaction.{Store}
use truckmaster.Store.Queries.{rows_below}
use truckmaster.Store.Statuses.{PaymentTerms}
use truckmaster.Booking.RateAgreements.{normalize, normalize_codes}

-- `CreateCustomerDto`, less the country, the name and the phone of the contact.
pub record CustomerDto : Type 0 where
  pub legal_name : String
  pub billing : BillingAddress
  pub primary_contact_email : String
  pub account_owner_user_id : Option ℕ
  pub payment_terms_override : Option PaymentTerms
  pub acknowledge_duplicates : Bool

-- `CustomerDuplicateCandidate`: a customer and the email addresses of its contacts.
pub record Candidate : Type 0 where
  pub customer : Customer
  pub emails : List (Option String)

pub data MatchedOn : Type 0 where
  legal_name billing_address primary_contact_email : MatchedOn

-- `DuplicateMatch`
pub record DuplicateMatch : Type 0 where
  pub customer_id : ℕ
  pub legal_name : String
  pub matched_on : List MatchedOn

abbrev is_contact_of : ℕ → CustomerContact → Bool
is_contact_of id c = c.customer_id == id

abbrev pub candidate : Store → Customer → Candidate
candidate s c = record {
  customer = c;
  emails =
      map (λ (k : CustomerContact). k.email)
        (filter (is_contact_of c.id) s.master.customer_contacts);
}

abbrev pub is_customer_of : ℕ → Customer → Bool
is_customer_of org c = c.organization_id == org

unfoldable pub fetch_duplicate_candidates : ℕ → Store → List Candidate
fetch_duplicate_candidates org s =
    map (candidate s) (filter (is_customer_of org) (rows_below s.next_id s.master.customers))

-- The line that is compared, its parts joined by blanks.
abbrev pub address_line : BillingAddress → List ℕ
address_line a =
    codes a.line1 ++ b' ' ∷ (codes a.city ++ b' ' ∷ (codes a.state ++ b' ' ∷ codes a.zip))

abbrev pub to_lower : String → List ℕ
to_lower text = map lower (codes text)

abbrev pub is_empty_text : List ℕ → Bool
is_empty_text [] = true
is_empty_text (c ∷ cs) = false

-- `.map((c) => c.email?.toLowerCase()).filter(Boolean)`
abbrev pub contact_emails : List (Option String) → List (List ℕ)
contact_emails [] = []
contact_emails (none ∷ es) = contact_emails es
contact_emails (some e ∷ es) =
    let rest = contact_emails es in if is_empty_text (to_lower e) then rest else to_lower e ∷ rest

abbrev pub has_name : CustomerDto → Customer → Bool
has_name dto c = same_codes (normalize c.legal_name) (normalize dto.legal_name)

abbrev pub has_address : CustomerDto → Customer → Bool
has_address dto c =
    same_codes (normalize_codes (address_line c.billing))
      (normalize_codes (address_line dto.billing))

abbrev pub has_email : CustomerDto → Candidate → Bool
has_email dto c =
    any (λ (email : List ℕ). same_codes email (to_lower dto.primary_contact_email))
      (to_lower c.customer.primary_contact_email ∷ contact_emails c.emails)

-- `if (same) matchedOn.push(field)`
abbrev pub on : Bool → MatchedOn → List MatchedOn
on same field = if same then field ∷ [] else []

unfoldable pub matched_on : CustomerDto → Candidate → List MatchedOn
matched_on dto c =
    on (has_name dto c.customer) MatchedOn.legal_name
    ++ (on (has_address dto c.customer) MatchedOn.billing_address
        ++ on (has_email dto c) MatchedOn.primary_contact_email)

abbrev pub matching : Customer → List MatchedOn → List DuplicateMatch → List DuplicateMatch
matching c [] rest = rest
matching c (field ∷ fields) rest =
    record { customer_id = c.id; legal_name = c.legal_name; matched_on = field ∷ fields } ∷ rest

unfoldable pub match_duplicates : CustomerDto → List Candidate → List DuplicateMatch
match_duplicates dto [] = []
match_duplicates dto (c ∷ cs) = matching c.customer (matched_on dto c) (match_duplicates dto cs)
