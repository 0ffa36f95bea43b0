-- ===== src/Customers/Accounts.antt =====
-- The operations of backend/src/modules/customer/services/customer.service.ts.
use truckmaster.Base.{
  ℕ, String, Bool, true, false, not, ◌&&◌, ◌||◌, Option, none, some, List, [], ◌∷◌, ◌++◌, ◌==◌, map,
  is_some, or_else, leb, codes, str_eq, same_number, if◌then◌else◌,
}
use truckmaster.Store.Statuses.{
  CustomerStatus, PaymentTerms, PaymentTermsSource, EquipmentType, ◌is◌, payment_terms_enum,
}
use truckmaster.Store.Rows.{Customer, CustomerContact, Organization, RateAgreement}
use truckmaster.Store.Transaction.{
  Store, Master, Action, put, pure, gets, or_throw, throw_if, modify, when, record_audit, fresh_id,
  with_tenant_transaction, ◌>>=◌, ◌>>◌, business_rule, conflict, database,
}
use truckmaster.Store.Audit
use truckmaster.Store.Queries.{require, find_customer}
use truckmaster.Customers.Duplicates.{
  CustomerDto, Candidate, DuplicateMatch, fetch_duplicate_candidates, match_duplicates,
}

abbrev pub modify_master : (Master → Master) → Action (Unit {0})
modify_master change = modify λ s. record s { master = change s.master }

-- A batch import hands over the candidates that it has fetched before.
abbrev pub duplicates_of : ℕ → CustomerDto → Option (List Candidate) → Store → List DuplicateMatch
duplicates_of org dto none s = match_duplicates dto (fetch_duplicate_candidates org s)
duplicates_of org dto (some precomputed) s = match_duplicates dto precomputed

abbrev matched_ids : List DuplicateMatch → List ℕ
matched_ids = map (λ (d : DuplicateMatch). d.customer_id)

-- `if (duplicates.length > 0)`
abbrev pub warn : ℕ → CustomerDto → ℕ → List DuplicateMatch → Action (Unit {0})
warn org dto actor [] = pure tt
warn org dto actor (d ∷ ds) = do
  record_audit org org (Audit.duplicate_warning_shown dto.legal_name (matched_ids (d ∷ ds))) none
  throw_if (not dto.acknowledge_duplicates) conflict
  record_audit org org (Audit.duplicate_warning_acknowledged (matched_ids (d ∷ ds))) (some actor)

abbrev pub terms_of : CustomerDto → Organization → PaymentTerms
terms_of dto o = or_else dto.payment_terms_override o.default_payment_terms

abbrev pub new_customer : ℕ → ℕ → CustomerDto → ℕ → Organization → Customer
new_customer id org dto actor o = record {
  id = id;
  organization_id = org;
  legal_name = dto.legal_name;
  billing = dto.billing;
  primary_contact_email = dto.primary_contact_email;
  status = CustomerStatus.prospect;
  payment_terms = terms_of dto o;
  payment_terms_source =
      if is_some dto.payment_terms_override
      then PaymentTermsSource.override
      else PaymentTermsSource.inherited;
  account_owner_user_id = dto.account_owner_user_id;
  created_by_user_id = actor;
}

-- `tx.customer.create({ data })`, with its audit entry.
abbrev pub insert_customer : ℕ → CustomerDto → ℕ → Organization → Action Customer
insert_customer org dto actor o = do
  id ← fresh_id
  let customer = new_customer id org dto actor o
  modify_master (λ m. record m { customers = put id customer m.customers })
  record_audit org id (Audit.customer_created dto.legal_name) (some actor)
  pure customer

abbrev pub create_for :
    ℕ → CustomerDto → ℕ → Option (List Candidate) → Organization → Action Customer
create_for org dto actor precomputed o = do
  duplicates ← gets (duplicates_of org dto precomputed)
  warn org dto actor duplicates
  insert_customer org dto actor o

-- `defaultPaymentTerms` is a column that is never null, so the test that it is missing is left out.
unfoldable pub create : ℕ → CustomerDto → ℕ → Option (List Candidate) → Action Customer
create org dto actor precomputed = with_tenant_transaction (
    gets (λ s. s.master.organizations org)
    >>= or_throw database
    >>= create_for org dto actor precomputed)

-- `UpdateCustomerDto`, less the country, the name and the phone of the contact.
pub record CustomerUpdateDto : Type 0 where
  pub legal_name : Option String
  pub line1 : Option String
  pub city : Option String
  pub state : Option String
  pub zip : Option String
  pub primary_contact_email : Option String
  pub account_owner_user_id : Option ℕ
  pub payment_terms : Option PaymentTerms

abbrev pub with_update : CustomerUpdateDto → Customer → Customer
with_update dto c = record c {
  legal_name = or_else dto.legal_name c.legal_name;
  billing = record {
    line1 = or_else dto.line1 c.billing.line1;
    city = or_else dto.city c.billing.city;
    state = or_else dto.state c.billing.state;
    zip = or_else dto.zip c.billing.zip;
  };
  primary_contact_email = or_else dto.primary_contact_email c.primary_contact_email;
  account_owner_user_id =
      if is_some dto.account_owner_user_id
      then dto.account_owner_user_id
      else c.account_owner_user_id;
  payment_terms = or_else dto.payment_terms c.payment_terms;
  payment_terms_source =
      if is_some dto.payment_terms then PaymentTermsSource.override else c.payment_terms_source;
}

-- A field of the DTO that is given and differs.
abbrev differs : Option String → String → Bool
differs none old = false
differs (some new) old = not (str_eq old new)

abbrev terms_differ : Option PaymentTerms → PaymentTerms → Bool
terms_differ none old = false
terms_differ (some new) old = not (old is new)

abbrev pub is_changed : CustomerUpdateDto → Customer → Bool
is_changed dto c =
    differs dto.legal_name c.legal_name
    || differs dto.line1 c.billing.line1
    || differs dto.city c.billing.city
    || differs dto.state c.billing.state
    || differs dto.zip c.billing.zip
    || differs dto.primary_contact_email c.primary_contact_email
    || (is_some dto.account_owner_user_id
        && not (same_number dto.account_owner_user_id c.account_owner_user_id))
    || terms_differ dto.payment_terms c.payment_terms

-- `tx.customer.update({ where: { id }, data })`
abbrev pub update_customer : ℕ → (Customer → Customer) → Action Customer
update_customer id change = do
  row ← gets (λ s. s.master.customers id) >>= or_throw database
  modify_master (λ m. record m { customers = put id (change row) m.customers })
  pure (change row)

unfoldable pub update : ℕ → ℕ → CustomerUpdateDto → ℕ → Action Customer
update org id dto actor = with_tenant_transaction do
  existing ← require (find_customer org id)
  updated ← update_customer id (with_update dto)
  when (is_changed dto existing) (record_audit org id Audit.customer_updated (some actor))
  pure updated

unfoldable pub change_status : ℕ → ℕ → CustomerStatus → ℕ → Action Customer
change_status org id status actor = with_tenant_transaction do
  existing ← require (find_customer org id)
  updated ← update_customer id (λ c. record c { status = status })
  record_audit org id (Audit.customer_status_changed existing.status updated.status) (some actor)
  pure updated

unfoldable pub add_contact : ℕ → ℕ → String → Option String → ℕ → Action CustomerContact
add_contact org customer_id name email actor = with_tenant_transaction do
  require (find_customer org customer_id)
  let contact : CustomerContact = record {
    organization_id = org;
    customer_id = customer_id;
    name = name;
    email = email;
  }
  modify_master (λ m. record m { customer_contacts = m.customer_contacts ++ contact ∷ [] })
  record_audit org customer_id (Audit.customer_contact_added name) (some actor)
  pure contact

-- `AddCustomerRateAgreementDto`, less the type of the rate, the surcharge rules and the notes.
pub record RateAgreementDto : Type 0 where
  pub origin_city : String
  pub origin_state : String
  pub destination_city : String
  pub destination_state : String
  pub equipment_type : EquipmentType
  pub rate : ℕ
  pub effective_date : String
  pub expiration_date : Option String

-- `a <= b` on texts.
abbrev pub leb_codes : List ℕ → List ℕ → Bool
leb_codes [] ys = true
leb_codes (x ∷ xs) [] = false
leb_codes (x ∷ xs) (y ∷ ys) = if x == y then leb_codes xs ys else leb x y

-- An empty text counts as none.
abbrev pub is_expired_at_once : RateAgreementDto → Option String → Bool
is_expired_at_once dto none = false
is_expired_at_once dto (some date) =
    not (str_eq date "") && leb_codes (codes date) (codes dto.effective_date)

-- `date_of` is `new Date(text)`.
abbrev pub expiration_of : (String → ℕ) → Option String → Option ℕ
expiration_of date_of none = none
expiration_of date_of (some date) = if str_eq date "" then none else some (date_of date)

unfoldable pub add_rate_agreement :
    (String → ℕ) → ℕ → ℕ → RateAgreementDto → ℕ → Action RateAgreement
add_rate_agreement date_of org customer_id dto actor = with_tenant_transaction do
  require (find_customer org customer_id)
  throw_if (is_expired_at_once dto dto.expiration_date) business_rule
  id ← fresh_id
  let agreement : RateAgreement = record {
    id = id;
    organization_id = org;
    customer_id = customer_id;
    origin_city = dto.origin_city;
    origin_state = dto.origin_state;
    destination_city = dto.destination_city;
    destination_state = dto.destination_state;
    equipment_type = dto.equipment_type;
    rate = dto.rate;
    effective_date = date_of dto.effective_date;
    expiration_date = expiration_of date_of dto.expiration_date;
  }
  modify_master (λ m. record m { rate_agreements = m.rate_agreements ++ agreement ∷ [] })
  record_audit org customer_id
      (Audit.customer_rate_agreement_added dto.origin_city dto.destination_city dto.rate)
      (some actor)
  pure agreement
