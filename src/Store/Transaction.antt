-- ===== src/Store/Transaction.antt =====
-- The state of the whole system, and a transaction over it.
use truckmaster.Base.{
  filter, all, not, ◌≡◌, refl, ◌⊎◌, inl, inr, ℕ, suc, String, Bool, true, false, Option, none, some,
  List, [], ◌∷◌, ◌==◌, ◌++◌, if◌then◌else◌,
}
use truckmaster.Store.Statuses.{SequenceType, Ineligibility}
use truckmaster.Store.Rows.{
  Load, Stop, Carrier, Customer, CustomerContact, CarrierContact, ServiceArea, FactoringInfo,
  Organization, Resource, Membership, User, DispatchRecord, SourcingAttempt, ChargeType,
  ChargeLineItem, CheckCall, DocumentType, Document, Insurance, FmcsaVerification, Invoice,
  InvoiceLoad, InvoiceLineItem, Payment, Adjustment, CarrierPayment, Quote, RateAgreement,
  Notification,
}
use truckmaster.Store.Audit
use truckmaster.Store.Audit.{AuditEntry}

-- A table that is looked up by its primary key.
abbrev pub Table : Type 0 → Type 0
Table A = ℕ → Option A

abbrev pub put : {A : Type 0} → ℕ → A → Table A → Table A
put k v t j = if j == k then some v else t j

-- What the services of the loads read and do not write.
pub record Master : Type 0 where
  pub organizations : Table Organization
  pub customers : Table Customer
  pub customer_contacts : List CustomerContact
  pub drivers : List Resource
  pub trucks : List Resource
  pub trailers : List Resource
  pub memberships : List Membership
  pub users : List User
  pub charge_types : List ChargeType
  pub document_types : List DocumentType
  pub rate_agreements : List RateAgreement
  pub insurance : List Insurance
  pub fmcsa : List FmcsaVerification
  pub carrier_contacts : List CarrierContact
  pub service_areas : List ServiceArea
  pub factoring : Table FactoringInfo

pub record Billing : Type 0 where
  pub invoices : Table Invoice
  pub invoice_loads : List InvoiceLoad
  pub line_items : List InvoiceLineItem
  pub payments : List Payment
  pub adjustments : List Adjustment

-- What is done outside the database after a commit: the jobs that are put on the BullMQ queues, and the
-- removal of a member's sessions.
pub data Job : Type 0 where
  generate_rate_confirmation : (document_id load_id : ℕ) → Job
  generate_invoice : (document_id invoice_id : ℕ) → Job
  generate_settlement : (document_id carrier_payment_id : ℕ) → Job
  send_email : (to : String) (entity_id : ℕ) → Job
  resolve_stop_location : (stop_id : ℕ) (city state : String) → Job
  revoke_all_for_organization : (user_id organization_id : ℕ) → Job
  resolve_check_call_location : (check_call_id : ℕ) (city state : String) → Job

-- `next_id` stands for the source of fresh UUIDs, and `accepts` for the queues: a job that they do not
-- accept fails the call that adds it.
pub record Store : Type 0 where
  pub master : Master
  pub loads : Table Load
  pub stops : List Stop
  pub carriers : Table Carrier
  pub dispatch_records : Table DispatchRecord
  pub sourcing_attempts : List SourcingAttempt
  pub charges : List ChargeLineItem
  pub check_calls : List CheckCall
  pub documents : List Document
  pub billing : Billing
  pub carrier_payments : List CarrierPayment
  pub quotes : Table Quote
  pub sequences : ℕ → SequenceType → ℕ
  pub notifications : List Notification
  pub audit : List AuditEntry
  pub jobs : List Job
  pub accepts : Job → Bool
  pub next_id : ℕ

-- The classes of backend/src/common/errors/app-error.ts; `database` is a failure that Prisma raises,
-- such as an update of a row that is not there, and `unavailable` one of a queue.
pub data Failure : Type 0 where
  validation authentication permission self_review_forbidden not_found : Failure
  invalid_transition conflict business_rule csrf database unavailable : Failure
  eligibility : (reasons : List Ineligibility) → Failure
  pod_incomplete_warning : (affected_loads : List ℕ) → Failure

pub data Result (A : Type 0) : Type 0 where
  ok : A → Result A
  err : Failure → Result A

-- An `async` function: after a throw the state is still the one that it was left in.
abbrev pub Action : Type 0 → Type 0
Action A = Store → Result A × Store

module _ {A : Type 0} where
  abbrev pub pure : A → Action A
  pure a s = (ok a, s)

  abbrev pub throw : Failure → Action A
  throw e s = (err e, s)

  abbrev pub gets : (Store → A) → Action A
  gets f s = (ok (f s), s)

  abbrev pub or_throw : Failure → Option A → Action A
  or_throw e none = throw e
  or_throw e (some a) = pure a

infixl 5 ◌>>=◌ ◌>>◌
abbrev pub ◌>>=◌ : {A B : Type 0} → Action A → (A → Action B) → Action B
◌>>=◌ m f s = let (r, s') = m s in elim r [ ok a ↦ f a s' | err e ↦ (err e, s') ]

abbrev pub ◌>>◌ : {A B : Type 0} → Action A → Action B → Action B
m >> k = m >>= λ _. k

abbrev pub modify : (Store → Store) → Action (Unit {0})
modify f s = (ok tt, f s)

abbrev pub throw_if : Bool → Failure → Action (Unit {0})
throw_if true e = throw e
throw_if false e = pure tt

abbrev pub when : Bool → Action (Unit {0}) → Action (Unit {0})
when true m = m
when false m = pure tt

-- `$transaction`: a throw inside takes back everything that was written.
abbrev pub commit : {A : Type 0} → Store → Result A × Store → Result A × Store
commit s (ok a, s') = (ok a, s')
commit s (err e, s') = (err e, s)

-- `PrismaService.withTenantTransaction`
unfoldable pub with_tenant_transaction : {A : Type 0} → Action A → Action A
with_tenant_transaction body s = commit s (body s)

pub Result-cases :
    {A : Type 0} (r : Result A) → ((e : Failure) × (r ≡ err e)) ⊎ ((a : A) × (r ≡ ok a))
Result-cases (ok a) = inr (a, refl)
Result-cases (err e) = inl (e, refl)

-- `AuditService.record`
abbrev pub record_audit : ℕ → ℕ → Audit.Action → Option ℕ → Action (Unit {0})
record_audit org entity_id action actor = modify λ s. record s {
  audit =
      record {
        organization_id = org;
        entity_id = entity_id;
        action = action;
        actor_user_id = actor;
      }
      ∷ s.audit;
}

-- `Promise.all` over `queue.add`: what the queue accepts is queued, and a job that it refuses fails the
-- caller, whose transaction is committed by then.
abbrev pub enqueue_all : List Job → Action (Unit {0})
enqueue_all jobs = do
  accepts ← gets (λ s. s.accepts)
  modify (λ s. record s { jobs = s.jobs ++ filter accepts jobs })
  throw_if (not (all accepts jobs)) unavailable

-- `await queue.add(…)`
abbrev pub enqueue : Job → Action (Unit {0})
enqueue job = do
  accepts ← gets (λ s. s.accepts)
  throw_if (not (accepts job)) unavailable
  modify (λ s. record s { jobs = s.jobs ++ job ∷ [] })

abbrev pub fresh_id : Action ℕ
fresh_id s = (ok s.next_id, record s { next_id = suc s.next_id })
