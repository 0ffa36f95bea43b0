-- ===== src/Carrier/Eligibility.antt =====
-- backend/src/modules/carrier/services/carrier-eligibility.service.ts
use truckmaster.Base.{
  ℕ, String, Bool, true, false, not, ◌&&◌, Option, none, some, List, [], ◌∷◌, ◌++◌, map, ◌==◌, leb,
  filter, find, any, latest, if◌then◌else◌, codes, trim, lower, same_codes,
}
use truckmaster.Store.Statuses.{
  CarrierStatus, DocumentCode, CoverageType, ReviewStatus, EntityType, Ineligibility, ◌is◌,
  carrier_status_enum, coverage_type_enum, review_status_enum,
}
use truckmaster.Store.Rows.{Carrier, Document, Insurance, FmcsaVerification}
use truckmaster.Store.Transaction.{
  Store, Action, put, pure, gets, or_throw, modify, when, record_audit, ◌>>=◌, ◌>>◌, database,
}
use truckmaster.Store.Audit
use truckmaster.Store.Queries.{find_carrier, is_document_of}

-- `EligibilityResult`
pub record Eligibility : Type 0 where
  pub eligible : Bool
  pub reasons : List Ineligibility

-- `isAcceptableFmcsaResult`
unfoldable pub is_acceptable_fmcsa_result : String → Bool
unfolding trim
is_acceptable_fmcsa_result result_status =
    same_codes (map lower (trim (codes result_status))) (codes "authorized")

abbrev pub required_compliance_codes : List DocumentCode
required_compliance_codes =
    DocumentCode.carrier_agreement ∷ DocumentCode.w9 ∷ DocumentCode.mc_authority ∷ []

abbrev pub is_approved_document : Option Document → Bool
is_approved_document none = false
is_approved_document (some d) = d.review_status is ReviewStatus.approved

-- The current document of a type that was uploaded last.
unfoldable pub compliance_document : ℕ → ℕ → Store → DocumentCode → Option Document
compliance_document org carrier_id s code =
    latest (λ (d : Document). d.uploaded_at)
      (filter (is_document_of org EntityType.carrier carrier_id code) s.documents)

-- `record.coiDocument.reviewStatus`
abbrev pub is_approved_coi : Store → ℕ → Bool
is_approved_coi s id = is_approved_document (find (λ (d : Document). d.id == id) s.documents)

abbrev pub is_valid_insurance : ℕ → ℕ → ℕ → Store → CoverageType → Insurance → Bool
is_valid_insurance now org carrier_id s coverage i =
    i.organization_id == org
    && i.carrier_id == carrier_id
    && i.coverage_type is coverage
    && leb now i.expiration_date
    && is_approved_coi s i.coi_document_id

unfoldable pub has_valid_insurance : ℕ → ℕ → ℕ → Store → CoverageType → Bool
has_valid_insurance now org carrier_id s coverage =
    any (is_valid_insurance now org carrier_id s coverage) s.master.insurance

abbrev is_verification_of : ℕ → ℕ → FmcsaVerification → Bool
is_verification_of org carrier_id v = v.organization_id == org && v.carrier_id == carrier_id

unfoldable pub latest_fmcsa : ℕ → ℕ → Store → Option FmcsaVerification
latest_fmcsa org carrier_id s =
    latest (λ (v : FmcsaVerification). v.verification_date)
      (filter (is_verification_of org carrier_id) s.master.fmcsa)

abbrev pub is_acceptable_verification : Option FmcsaVerification → Bool
is_acceptable_verification none = false
is_acceptable_verification (some v) = is_acceptable_fmcsa_result v.result_status

-- `if (!valid) reasons.push(reason)`
abbrev pub unless : Bool → Ineligibility → List Ineligibility
unless valid reason = if valid then [] else reason ∷ []

unfoldable pub compute_compliance_reasons : ℕ → ℕ → ℕ → Store → List Ineligibility
compute_compliance_reasons now org carrier_id s =
    let document = λ (code : DocumentCode).
      unless (is_approved_document (compliance_document org carrier_id s code))
        (Ineligibility.document_not_approved code) in
    let insurance = λ (coverage : CoverageType).
      unless (has_valid_insurance now org carrier_id s coverage)
        (Ineligibility.insurance_not_valid coverage) in
    document DocumentCode.carrier_agreement
    ++ (document DocumentCode.w9
        ++ (document DocumentCode.mc_authority
            ++ (insurance CoverageType.auto_liability
                ++ (insurance CoverageType.cargo
                    ++ unless (is_acceptable_verification (latest_fmcsa org carrier_id s))
                        Ineligibility.fmcsa_not_acceptable))))

abbrev pub is_empty : List Ineligibility → Bool
is_empty [] = true
is_empty (r ∷ rs) = false

unfoldable pub eligibility_reasons : ℕ → ℕ → ℕ → Carrier → Store → List Ineligibility
eligibility_reasons now org carrier_id carrier s =
    unless (not (carrier.status is CarrierStatus.blocked)) Ineligibility.carrier_blocked
    ++ (unless (carrier.status is CarrierStatus.active) Ineligibility.carrier_not_active
        ++ compute_compliance_reasons now org carrier_id s)

abbrev pub same_bool : Bool → Bool → Bool
same_bool true b = b
same_bool false b = not b

-- What `recalculate` writes, with the reasons that it computed.
abbrev pub write_eligibility : ℕ → ℕ → Carrier → List Ineligibility → Action Eligibility
write_eligibility org carrier_id carrier reasons = do
  let eligible = is_empty reasons
  let updated = record carrier { assignment_eligible = eligible; ineligibility_reasons = reasons }
  modify (λ s. record s { carriers = put carrier_id updated s.carriers })
  when (not (same_bool eligible carrier.assignment_eligible)) (
      record_audit org carrier_id
        (Audit.eligibility_changed carrier.assignment_eligible eligible reasons) none)
  pure (record { eligible = eligible; reasons = reasons })

unfoldable pub recalculate : ℕ → ℕ → ℕ → Action Eligibility
recalculate now org carrier_id = do
  carrier ← gets (find_carrier org carrier_id) >>= or_throw database
  reasons ← gets (eligibility_reasons now org carrier_id carrier)
  write_eligibility org carrier_id carrier reasons

unfoldable pub check_activation_readiness : ℕ → ℕ → ℕ → Action Eligibility
check_activation_readiness now org carrier_id = do
  reasons ← gets (compute_compliance_reasons now org carrier_id)
  pure (record { eligible = is_empty reasons; reasons = reasons })
