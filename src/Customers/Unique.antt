-- ===== src/Customers/Unique.antt =====
-- `create` of backend/src/modules/customer/services/customer.service.ts refuses a likely duplicate.
use truckmaster.Base.{
  ℕ, zero, suc, ◌≡◌, refl, ◌<◌, ◌≢◌, Bool, true, false, none, some, List, [], ◌∷◌, ◌++◌, map,
  filter, codes, same_codes, arith, Option-cases, Bool-cases, inl, inr,
}
use truckmaster.Store.Rows.{Customer}
use truckmaster.Store.Transaction.{Store, Table, with_tenant_transaction}
use truckmaster.Store.Queries.{rows_below}
use truckmaster.Booking.RateAgreements.{normalize, normalize_codes}
use truckmaster.Customers.Duplicates.{
  CustomerDto, Candidate, DuplicateMatch, MatchedOn, candidate, is_customer_of,
  fetch_duplicate_candidates, address_line, to_lower, has_name, has_address, has_email, on,
  matched_on, matching, match_duplicates,
}
use truckmaster.Customers.Accounts.{create, duplicates_of}
use truckmaster.Customers.Words.{words, join, normalize_codes-join}
use truckmaster.Store.Outcomes.{has_returned}

-- `c` is no likely duplicate of the customer that is asked for: neither the words of the name, nor those
-- of the billing address, nor the email address of the primary contact are the same up to case.
pub record IsApart (dto : CustomerDto) (c : Customer) : Type 0 where
  pub name : words (codes c.legal_name) ≢ words (codes dto.legal_name)
  pub address : words (address_line c.billing) ≢ words (address_line dto.billing)
  pub email : to_lower c.primary_contact_email ≢ to_lower dto.primary_contact_email

same_codes_refl : (xs : List ℕ) → same_codes xs xs ≡ true
same_codes_refl [] = refl
same_codes_refl (x ∷ xs) = ground (arith, same_codes_refl xs)

-- Texts with the same words are the same when normalized.
same_words :
    (a b : List ℕ) → words a ≡ words b → same_codes (normalize_codes a) (normalize_codes b) ≡ true
same_words a b e =
    rw (normalize_codes-join a, e, normalize_codes-join b) (same_codes_refl (join (words b)))

none_on :
    (x y z : Bool) (f g h : MatchedOn)
    → on x f ++ (on y g ++ on z h) ≡ []
    → (x ≡ false) × ((y ≡ false) × (z ≡ false))
none_on x y z f g h e = ground arith

unmatched :
    (dto : CustomerDto) (c : Candidate)
    → matched_on dto c ≡ []
    → (has_name dto c.customer ≡ false)
      × ((has_address dto c.customer ≡ false) × (has_email dto c ≡ false))
unfolding matched_on
unmatched dto c h =
    none_on (has_name dto c.customer) (has_address dto c.customer) (has_email dto c)
      MatchedOn.legal_name MatchedOn.billing_address MatchedOn.primary_contact_email h

none_matching :
    (c : Customer) (fields : List MatchedOn) (rest : List DuplicateMatch)
    → matching c fields rest ≡ []
    → (fields ≡ []) × (rest ≡ [])
none_matching c [] rest e = (refl, e)
none_matching c (f ∷ fs) rest e = cc

match_duplicates-rows :
    (dto : CustomerDto) (f : Customer → Candidate) (p : Customer → Bool) (n k : ℕ)
    (t : Table Customer) (c : Customer)
    → match_duplicates dto (map f (filter p (rows_below n t))) ≡ []
    → k < n
    → t k ≡ some c
    → p c ≡ true
    → matched_on dto (f c) ≡ []
unfolding match_duplicates rows_below
match_duplicates-rows dto f p zero k t c h less e q = ground arith
match_duplicates-rows dto f p (suc n) k t c h less e q =
    let later = match_duplicates-rows dto f p n k t c in
    elim (Option-cases (t n)) [
      | inl x ↦ ground (arith, x, later)
      | inr (b, x) ↦ elim (Bool-cases (p b)) [
        | inl y ↦
            let both =
              none_matching (f b).customer (matched_on dto (f b))
                (match_duplicates dto (map f (filter p (rows_below n t)))) in
            ground (arith, x, y, both, later)
        | inr y ↦ ground (arith, x, y, later)
      ]
    ]

create-unmatched :
    (org : ℕ) (dto : CustomerDto) (actor : ℕ) (s : Store)
    → dto.acknowledge_duplicates ≡ false
    → has_returned (create org dto actor none s).0 ≡ true
    → duplicates_of org dto none s ≡ []
unfolding create with_tenant_transaction
create-unmatched org dto actor s given returned = ground (arith, given, returned)

contradict : {b : Bool} → b ≡ false → b ≡ true → ⊥
contradict h k = cc

-- If `create` returns a customer for a request that does not acknowledge duplicates and hands over no
-- candidates, then every customer that the organization had, under an id that was drawn, is apart from it: it
-- has other words in its name, other words in its billing address and another primary email address.
pub create-IsApart :
    (org : ℕ) (dto : CustomerDto) (actor k : ℕ) (c : Customer) (s : Store)
    → dto.acknowledge_duplicates ≡ false
    → has_returned (create org dto actor none s).0 ≡ true
    → k < s.next_id
    → s.master.customers k ≡ some c
    → c.organization_id ≡ org
    → IsApart dto c
unfolding fetch_duplicate_candidates normalize
create-IsApart org dto actor k c s given returned less found own =
    let none_found = create-unmatched org dto actor s given returned in
    let nothing =
      match_duplicates-rows dto (candidate s) (is_customer_of org) s.next_id k s.master.customers c
        none_found less found (ground (arith, own)) in
    let (name, (address, email)) = unmatched dto (candidate s c) nothing in
    record {
      name = λ e. contradict name (same_words (codes c.legal_name) (codes dto.legal_name) e);
      address = λ e.
          contradict address (same_words (address_line c.billing) (address_line dto.billing) e);
      email = λ e.
          contradict email
            (rw e (ground (arith, same_codes_refl (to_lower dto.primary_contact_email))));
    }
