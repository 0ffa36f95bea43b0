-- ===== src/Carrier/Decision.antt =====
-- The decision of carrier-eligibility.service.ts and the row that it writes.
use truckmaster.Base.{
  ℕ, ◌≤◌, ◌≡◌, sym, ap, ◌∙◌, true, some, List, [], ◌∷◌, ◌&&◌, ◌==◌, ==_iff, arith, All, map, filter,
  find, last_max, last-sort_by, codes, trim, lower, same_codes, Option-cases, inl, inr,
}
use mathlib.Core.Path.{subst}
use truckmaster.Store.Statuses.{
  CarrierStatus, DocumentCode, CoverageType, EntityType, ReviewStatus, ◌is◌, carrier_status_enum,
  document_code_enum, coverage_type_enum, entity_type_enum, review_status_enum,
}
use truckmaster.Store.Rows.{Carrier, Document, Insurance, FmcsaVerification}
use truckmaster.Store.Transaction.{Store, ok}
use truckmaster.Store.Queries.{find_carrier, is_document_of}
use truckmaster.Carrier.Eligibility.{
  recalculate, eligibility_reasons, compute_compliance_reasons, compliance_document,
  has_valid_insurance, latest_fmcsa, is_approved_document, is_acceptable_verification,
  is_acceptable_fmcsa_result, is_empty,
}
use truckmaster.Carrier.Newest.{Any, Any-map, any-Any, find-Any, last_max-IsNewest}

-- The current version of a document of the carrier.
pub record IsCurrent (org carrier_id : ℕ) (code : DocumentCode) (d : Document) : Type 0 where
  organization : d.organization_id ≡ org
  of_carrier : d.entity_type ≡ EntityType.carrier
  carrier : d.entity_id ≡ carrier_id
  current : d.is_current_version ≡ true
  type : (d.code is code) ≡ true

-- A current document that is approved, and as new as any other.
pub record IsApproved (org carrier_id : ℕ) (code : DocumentCode) (documents : List Document)
    (d : Document) : Type 0 where
  current : IsCurrent org carrier_id code d
  approved : d.review_status ≡ ReviewStatus.approved
  newest : All (λ e. IsCurrent org carrier_id code e → e.uploaded_at ≤ d.uploaded_at) documents

-- A policy of the carrier that has not expired, with an approved certificate.
pub record IsInForce (now org carrier_id : ℕ) (coverage : CoverageType) (documents : List Document)
    (i : Insurance) : Type 0 where
  organization : i.organization_id ≡ org
  carrier : i.carrier_id ≡ carrier_id
  type : (i.coverage_type is coverage) ≡ true
  unexpired : now ≤ i.expiration_date
  certificate :
      Any (λ d. (d.id ≡ i.coi_document_id) × (d.review_status ≡ ReviewStatus.approved)) documents

-- The newest verification of the carrier, with an authorized result.
pub record IsAuthorized (org carrier_id : ℕ) (rows : List FmcsaVerification) (v : FmcsaVerification)
    : Type 0 where
  organization : v.organization_id ≡ org
  carrier : v.carrier_id ≡ carrier_id
  authorized : same_codes (map lower (trim (codes v.result_status))) (codes "authorized") ≡ true
  newest :
      All
        (λ w.
          w.organization_id ≡ org
          → w.carrier_id ≡ carrier_id
          → w.verification_date ≤ v.verification_date)
        rows

-- An active carrier with three approved documents, both coverages in force and an authorized
-- verification.
pub record IsCompliant (now org carrier_id : ℕ) (carrier : Carrier) (s : Store) : Type 0 where
  active : carrier.status ≡ CarrierStatus.active
  agreement : Any (IsApproved org carrier_id DocumentCode.carrier_agreement s.documents) s.documents
  w9 : Any (IsApproved org carrier_id DocumentCode.w9 s.documents) s.documents
  authority : Any (IsApproved org carrier_id DocumentCode.mc_authority s.documents) s.documents
  liability :
      Any (IsInForce now org carrier_id CoverageType.auto_liability s.documents) s.master.insurance
  cargo : Any (IsInForce now org carrier_id CoverageType.cargo s.documents) s.master.insurance
  fmcsa : Any (IsAuthorized org carrier_id s.master.fmcsa) s.master.fmcsa

is_document-IsCurrent :
    (org carrier_id : ℕ) (code : DocumentCode) (d : Document)
    → is_document_of org EntityType.carrier carrier_id code d ≡ true
    → IsCurrent org carrier_id code d
is_document-IsCurrent org carrier_id code d h = record {
  organization = (==_iff d.organization_id org).0 (ground (arith, h));
  of_carrier = ground (arith, h);
  carrier = (==_iff d.entity_id carrier_id).0 (ground (arith, h));
  current = ground (arith, h);
  type = ground (arith, h);
}

IsCurrent-is_document :
    (org carrier_id : ℕ) (code : DocumentCode) (d : Document)
    → IsCurrent org carrier_id code d
    → is_document_of org EntityType.carrier carrier_id code d ≡ true
IsCurrent-is_document org carrier_id code d h = ground (
  arith,
  h.type,
  h.current,
  h.of_carrier,
  (==_iff d.organization_id org).1 h.organization,
  (==_iff d.entity_id carrier_id).1 h.carrier,
)

All-weaken :
    {A : Type 0} (P Q : A → Type 0) (xs : List A) → ((x : A) → P x → Q x) → All P xs → All Q xs
All-weaken P Q [] f h = tt
All-weaken P Q (x ∷ xs) f h = (f x h.0, All-weaken P Q xs f h.1)

document-IsApproved :
    (org carrier_id : ℕ) (code : DocumentCode) (s : Store)
    → is_approved_document (compliance_document org carrier_id s code) ≡ true
    → Any (IsApproved org carrier_id code s.documents) s.documents
unfolding compliance_document
document-IsApproved org carrier_id code s h =
    let p = is_document_of org EntityType.carrier carrier_id code in
    let key = λ (d : Document). d.uploaded_at in
    let last = last-sort_by key (filter p s.documents) in
    elim (Option-cases (last_max key (filter p s.documents))) [
      | inl e ↦ ground (arith, h, last, e)
      | inr (d, e) ↦
          let approved : d.review_status ≡ ReviewStatus.approved = ground (arith, h, last, e) in
          let (found, newest) = last_max-IsNewest key p s.documents d e in
          Any-map _ (IsApproved org carrier_id code s.documents) s.documents
            (λ x (same, matches). record {
              current = is_document-IsCurrent org carrier_id code x matches;
              approved = ap (λ (y : Document). y.review_status) same ∙ approved;
              newest =
                  All-weaken _ _ s.documents
                    (λ y below current.
                      subst (λ (z : Document). y.uploaded_at ≤ z.uploaded_at) (sym same)
                        (below (IsCurrent-is_document org carrier_id code y current)))
                    newest;
            })
            found
    ]

coi-approved :
    (id : ℕ) (documents : List Document)
    → is_approved_document (find (λ (d : Document). d.id == id) documents) ≡ true
    → Any (λ d. (d.id ≡ id) × (d.review_status ≡ ReviewStatus.approved)) documents
coi-approved id documents h =
    let p = λ (d : Document). d.id == id in
    elim (Option-cases (find p documents)) [
      | inl e ↦ ground (arith, h, e)
      | inr (d, e) ↦
          let approved : d.review_status ≡ ReviewStatus.approved = ground (arith, h, e) in
          Any-map _ (λ d. (d.id ≡ id) × (d.review_status ≡ ReviewStatus.approved)) documents
            (λ x (same, matches).
              ((==_iff x.id id).0 matches, ap (λ (y : Document). y.review_status) same ∙ approved))
            (find-Any p documents d e)
    ]

insurance-IsInForce :
    (now org carrier_id : ℕ) (coverage : CoverageType) (s : Store)
    → has_valid_insurance now org carrier_id s coverage ≡ true
    → Any (IsInForce now org carrier_id coverage s.documents) s.master.insurance
unfolding has_valid_insurance
insurance-IsInForce now org carrier_id coverage s h =
    Any-map _ (IsInForce now org carrier_id coverage s.documents) s.master.insurance
      (λ i valid. record {
        organization = (==_iff i.organization_id org).0 (ground (arith, valid));
        carrier = (==_iff i.carrier_id carrier_id).0 (ground (arith, valid));
        type = ground (arith, valid);
        unexpired = ground (arith, valid);
        certificate = coi-approved i.coi_document_id s.documents (ground (arith, valid));
      })
      (any-Any _ s.master.insurance h)

fmcsa-IsAuthorized :
    (org carrier_id : ℕ) (s : Store)
    → is_acceptable_verification (latest_fmcsa org carrier_id s) ≡ true
    → Any (IsAuthorized org carrier_id s.master.fmcsa) s.master.fmcsa
unfolding latest_fmcsa is_acceptable_fmcsa_result
fmcsa-IsAuthorized org carrier_id s h =
    let p = λ (v : FmcsaVerification). v.organization_id == org && v.carrier_id == carrier_id in
    let key = λ (v : FmcsaVerification). v.verification_date in
    let last = last-sort_by key (filter p s.master.fmcsa) in
    elim (Option-cases (last_max key (filter p s.master.fmcsa))) [
      | inl e ↦ ground (arith, h, last, e)
      | inr (v, e) ↦
          let accepted = ap is_acceptable_verification (sym (last ∙ e)) ∙ h in
          let (found, newest) = last_max-IsNewest key p s.master.fmcsa v e in
          Any-map _ (IsAuthorized org carrier_id s.master.fmcsa) s.master.fmcsa
            (λ x (same, matches). record {
              organization = (==_iff x.organization_id org).0 (ground (arith, matches));
              carrier = (==_iff x.carrier_id carrier_id).0 (ground (arith, matches));
              authorized = ap (λ y. is_acceptable_verification (some y)) same ∙ accepted;
              newest =
                  All-weaken _ _ s.master.fmcsa
                    (λ y below o c.
                      subst (λ (z : FmcsaVerification). y.verification_date ≤ z.verification_date)
                        (sym same)
                        (below (
                          ground (
                            arith,
                            (==_iff y.organization_id org).1 o,
                            (==_iff y.carrier_id carrier_id).1 c,
                          ))))
                    newest;
            })
            found
    ]

-- A carrier without an ineligibility reason is active; for its agreement, its W-9 and its authority there is a
-- newest current document, and it is approved; for each of the two coverages it has a policy that has not
-- expired and whose certificate is approved; and its newest FMCSA verification reads authorized.
pub eligibility_reasons-IsCompliant :
    (now org carrier_id : ℕ) (carrier : Carrier) (s : Store)
    → eligibility_reasons now org carrier_id carrier s ≡ []
    → IsCompliant now org carrier_id carrier s
unfolding eligibility_reasons compute_compliance_reasons
eligibility_reasons-IsCompliant now org carrier_id carrier s h = record {
  active = ground (arith, h);
  agreement =
      document-IsApproved org carrier_id DocumentCode.carrier_agreement s (ground (arith, h));
  w9 = document-IsApproved org carrier_id DocumentCode.w9 s (ground (arith, h));
  authority = document-IsApproved org carrier_id DocumentCode.mc_authority s (ground (arith, h));
  liability =
      insurance-IsInForce now org carrier_id CoverageType.auto_liability s (ground (arith, h));
  cargo = insurance-IsInForce now org carrier_id CoverageType.cargo s (ground (arith, h));
  fmcsa = fmcsa-IsAuthorized org carrier_id s (ground (arith, h));
}

-- For a carrier that is found, the recalculation succeeds, answers its present reasons, is positive
-- exactly when there is none, and the carrier's row then holds the answer.
pub recalculate-persists :
    (now org carrier_id : ℕ) (carrier : Carrier) (s : Store)
    → find_carrier org carrier_id s ≡ some carrier
    → ((recalculate now org carrier_id s).0
        ≡ ok (record {
          eligible = is_empty (eligibility_reasons now org carrier_id carrier s);
          reasons = eligibility_reasons now org carrier_id carrier s;
        }))
      × ((recalculate now org carrier_id s).1.carriers carrier_id
          ≡ some (record carrier {
            assignment_eligible = is_empty (eligibility_reasons now org carrier_id carrier s);
            ineligibility_reasons = eligibility_reasons now org carrier_id carrier s;
          }))
unfolding recalculate
recalculate-persists now org carrier_id carrier s h = ground arith
