-- ===== src/Store/Statuses.antt =====
-- The enumerations of backend/prisma/schema.prisma that the services branch on
-- (packages/shared-constants/src/statuses.ts mirrors them).
use truckmaster.Base.{ℕ, Bool, false, ◌||◌, List, [], ◌∷◌, ◌==◌}

pub data LoadStatus : Type 0 where
  booked carrier_sourcing carrier_assigned rate_confirmation : LoadStatus
  dispatched pickup in_transit delivered closed cancelled : LoadStatus

pub data StopType : Type 0 where
  pickup delivery other : StopType

pub data StopPurpose : Type 0 where
  standard return : StopPurpose

pub data StopStatus : Type 0 where
  pending arrived completed : StopStatus

pub data BookingSource : Type 0 where
  quote direct : BookingSource

pub data RateSource : Type 0 where
  manual rate_agreement manual_override : RateSource

pub data QuoteStatus : Type 0 where
  opened won lost : QuoteStatus

pub data CarrierStatus : Type 0 where
  pending active inactive blocked : CarrierStatus

pub data CustomerStatus : Type 0 where
  prospect active inactive blocked : CustomerStatus

pub data AttemptOutcome : Type 0 where
  assigned declined no_response quoted rejected_after_assignment : AttemptOutcome

pub data ChargeSide : Type 0 where
  customer carrier : ChargeSide

pub data ChargeSource : Type 0 where
  original adjustment : ChargeSource

pub data InvoiceStatus : Type 0 where
  draft sent partially_paid paid void credited : InvoiceStatus

pub data AdjustmentType : Type 0 where
  credit debit : AdjustmentType

pub data CarrierPaymentStatus : Type 0 where
  draft pending_approval approved paid : CarrierPaymentStatus

pub data CarrierPaymentType : Type 0 where
  deposit partial balance adjustment : CarrierPaymentType

pub data PodStatus : Type 0 where
  not_received partial complete : PodStatus

pub data RiskStatus : Type 0 where
  normal at_risk delayed : RiskStatus

pub data ScanStatus : Type 0 where
  pending clean infected scan_failed : ScanStatus

pub data ReviewStatus : Type 0 where
  not_applicable pending_review approved rejected expired : ReviewStatus

pub data GenerationStatus : Type 0 where
  pending complete failed : GenerationStatus

pub data Role : Type 0 where
  admin operations_manager dispatcher sales_booking accounting compliance_reviewer : Role

pub data EquipmentType : Type 0 where
  dry_van reefer flatbed : EquipmentType

pub data CoverageType : Type 0 where
  auto_liability cargo : CoverageType

pub data ServiceAreaType : Type 0 where
  lane region : ServiceAreaType

pub data PaymentTermsSource : Type 0 where
  inherited override : PaymentTermsSource

pub data PaymentTerms : Type 0 where
  due_on_receipt net_15 net_30 net_45 net_60 : PaymentTerms

pub data SubscriptionStatus : Type 0 where
  trial active expired cancelled : SubscriptionStatus

-- The document types that the modelled services look up by `code`.
pub data DocumentCode : Type 0 where
  rate_confirmation pod invoice settlement carrier_agreement w9 mc_authority other : DocumentCode

-- `Document.entityType`.
pub data EntityType : Type 0 where
  load stop carrier invoice carrier_payment : EntityType

-- The reasons of `CarrierEligibilityService`.
pub data Ineligibility : Type 0 where
  carrier_blocked carrier_not_active fmcsa_not_acceptable : Ineligibility
  document_not_approved : DocumentCode → Ineligibility
  insurance_not_valid : CoverageType → Ineligibility

-- `PENDING_VERIFICATION` and the other statuses of a member, and those of a user.
pub data MembershipStatus : Type 0 where
  pending_verification invited active inactive expired cancelled : MembershipStatus

pub data UserStatus : Type 0 where
  pending_verification active suspended : UserStatus

pub data NotificationType : Type 0 where
  carrier_assigned load_cancelled invitation_expired : NotificationType
  compliance_document_rejected : NotificationType

pub data SequenceType : Type 0 where
  load quote invoice : SequenceType

-- `===` on an enumeration, through the position of its constructors.
pub record Enum (A : Type 0) : Type 0 where
  pub code : A → ℕ

infix 50 ◌is◌
abbrev pub ◌is◌ : {A : Type 0} ⦃e : Enum A⦄ → A → A → Bool
◌is◌ ⦃e⦄ a b = e.code a == e.code b

-- `list.includes(a)`
abbrev pub is_one_of : {A : Type 0} ⦃e : Enum A⦄ → A → List A → Bool
is_one_of a [] = false
is_one_of a (x ∷ xs) = a is x || is_one_of a xs

abbrev load_status_code : LoadStatus → ℕ
load_status_code LoadStatus.booked = 0
load_status_code LoadStatus.carrier_sourcing = 1
load_status_code LoadStatus.carrier_assigned = 2
load_status_code LoadStatus.rate_confirmation = 3
load_status_code LoadStatus.dispatched = 4
load_status_code LoadStatus.pickup = 5
load_status_code LoadStatus.in_transit = 6
load_status_code LoadStatus.delivered = 7
load_status_code LoadStatus.closed = 8
load_status_code LoadStatus.cancelled = 9

instance abbrev pub load_status_enum : Enum LoadStatus
load_status_enum = record { code = load_status_code }

abbrev stop_type_code : StopType → ℕ
stop_type_code StopType.pickup = 0
stop_type_code StopType.delivery = 1
stop_type_code StopType.other = 2

instance abbrev pub stop_type_enum : Enum StopType
stop_type_enum = record { code = stop_type_code }

abbrev stop_purpose_code : StopPurpose → ℕ
stop_purpose_code StopPurpose.standard = 0
stop_purpose_code StopPurpose.return = 1

instance abbrev pub stop_purpose_enum : Enum StopPurpose
stop_purpose_enum = record { code = stop_purpose_code }

abbrev stop_status_code : StopStatus → ℕ
stop_status_code StopStatus.pending = 0
stop_status_code StopStatus.arrived = 1
stop_status_code StopStatus.completed = 2

instance abbrev pub stop_status_enum : Enum StopStatus
stop_status_enum = record { code = stop_status_code }

abbrev booking_source_code : BookingSource → ℕ
booking_source_code BookingSource.quote = 0
booking_source_code BookingSource.direct = 1

instance abbrev pub booking_source_enum : Enum BookingSource
booking_source_enum = record { code = booking_source_code }

abbrev rate_source_code : RateSource → ℕ
rate_source_code RateSource.manual = 0
rate_source_code RateSource.rate_agreement = 1
rate_source_code RateSource.manual_override = 2

instance abbrev pub rate_source_enum : Enum RateSource
rate_source_enum = record { code = rate_source_code }

abbrev quote_status_code : QuoteStatus → ℕ
quote_status_code QuoteStatus.opened = 0
quote_status_code QuoteStatus.won = 1
quote_status_code QuoteStatus.lost = 2

instance abbrev pub quote_status_enum : Enum QuoteStatus
quote_status_enum = record { code = quote_status_code }

abbrev carrier_status_code : CarrierStatus → ℕ
carrier_status_code CarrierStatus.pending = 0
carrier_status_code CarrierStatus.active = 1
carrier_status_code CarrierStatus.inactive = 2
carrier_status_code CarrierStatus.blocked = 3

instance abbrev pub carrier_status_enum : Enum CarrierStatus
carrier_status_enum = record { code = carrier_status_code }

abbrev customer_status_code : CustomerStatus → ℕ
customer_status_code CustomerStatus.prospect = 0
customer_status_code CustomerStatus.active = 1
customer_status_code CustomerStatus.inactive = 2
customer_status_code CustomerStatus.blocked = 3

instance abbrev pub customer_status_enum : Enum CustomerStatus
customer_status_enum = record { code = customer_status_code }

abbrev attempt_outcome_code : AttemptOutcome → ℕ
attempt_outcome_code AttemptOutcome.assigned = 0
attempt_outcome_code AttemptOutcome.declined = 1
attempt_outcome_code AttemptOutcome.no_response = 2
attempt_outcome_code AttemptOutcome.quoted = 3
attempt_outcome_code AttemptOutcome.rejected_after_assignment = 4

instance abbrev pub attempt_outcome_enum : Enum AttemptOutcome
attempt_outcome_enum = record { code = attempt_outcome_code }

abbrev charge_side_code : ChargeSide → ℕ
charge_side_code ChargeSide.customer = 0
charge_side_code ChargeSide.carrier = 1

instance abbrev pub charge_side_enum : Enum ChargeSide
charge_side_enum = record { code = charge_side_code }

abbrev charge_source_code : ChargeSource → ℕ
charge_source_code ChargeSource.original = 0
charge_source_code ChargeSource.adjustment = 1

instance abbrev pub charge_source_enum : Enum ChargeSource
charge_source_enum = record { code = charge_source_code }

abbrev invoice_status_code : InvoiceStatus → ℕ
invoice_status_code InvoiceStatus.draft = 0
invoice_status_code InvoiceStatus.sent = 1
invoice_status_code InvoiceStatus.partially_paid = 2
invoice_status_code InvoiceStatus.paid = 3
invoice_status_code InvoiceStatus.void = 4
invoice_status_code InvoiceStatus.credited = 5

instance abbrev pub invoice_status_enum : Enum InvoiceStatus
invoice_status_enum = record { code = invoice_status_code }

abbrev adjustment_type_code : AdjustmentType → ℕ
adjustment_type_code AdjustmentType.credit = 0
adjustment_type_code AdjustmentType.debit = 1

instance abbrev pub adjustment_type_enum : Enum AdjustmentType
adjustment_type_enum = record { code = adjustment_type_code }

abbrev carrier_payment_status_code : CarrierPaymentStatus → ℕ
carrier_payment_status_code CarrierPaymentStatus.draft = 0
carrier_payment_status_code CarrierPaymentStatus.pending_approval = 1
carrier_payment_status_code CarrierPaymentStatus.approved = 2
carrier_payment_status_code CarrierPaymentStatus.paid = 3

instance abbrev pub carrier_payment_status_enum : Enum CarrierPaymentStatus
carrier_payment_status_enum = record { code = carrier_payment_status_code }

abbrev carrier_payment_type_code : CarrierPaymentType → ℕ
carrier_payment_type_code CarrierPaymentType.deposit = 0
carrier_payment_type_code CarrierPaymentType.partial = 1
carrier_payment_type_code CarrierPaymentType.balance = 2
carrier_payment_type_code CarrierPaymentType.adjustment = 3

instance abbrev pub carrier_payment_type_enum : Enum CarrierPaymentType
carrier_payment_type_enum = record { code = carrier_payment_type_code }

abbrev pod_status_code : PodStatus → ℕ
pod_status_code PodStatus.not_received = 0
pod_status_code PodStatus.partial = 1
pod_status_code PodStatus.complete = 2

instance abbrev pub pod_status_enum : Enum PodStatus
pod_status_enum = record { code = pod_status_code }

abbrev risk_status_code : RiskStatus → ℕ
risk_status_code RiskStatus.normal = 0
risk_status_code RiskStatus.at_risk = 1
risk_status_code RiskStatus.delayed = 2

instance abbrev pub risk_status_enum : Enum RiskStatus
risk_status_enum = record { code = risk_status_code }

abbrev scan_status_code : ScanStatus → ℕ
scan_status_code ScanStatus.pending = 0
scan_status_code ScanStatus.clean = 1
scan_status_code ScanStatus.infected = 2
scan_status_code ScanStatus.scan_failed = 3

instance abbrev pub scan_status_enum : Enum ScanStatus
scan_status_enum = record { code = scan_status_code }

abbrev review_status_code : ReviewStatus → ℕ
review_status_code ReviewStatus.not_applicable = 0
review_status_code ReviewStatus.pending_review = 1
review_status_code ReviewStatus.approved = 2
review_status_code ReviewStatus.rejected = 3
review_status_code ReviewStatus.expired = 4

instance abbrev pub review_status_enum : Enum ReviewStatus
review_status_enum = record { code = review_status_code }

abbrev generation_status_code : GenerationStatus → ℕ
generation_status_code GenerationStatus.pending = 0
generation_status_code GenerationStatus.complete = 1
generation_status_code GenerationStatus.failed = 2

instance abbrev pub generation_status_enum : Enum GenerationStatus
generation_status_enum = record { code = generation_status_code }

abbrev role_code : Role → ℕ
role_code Role.admin = 0
role_code Role.operations_manager = 1
role_code Role.dispatcher = 2
role_code Role.sales_booking = 3
role_code Role.accounting = 4
role_code Role.compliance_reviewer = 5

instance abbrev pub role_enum : Enum Role
role_enum = record { code = role_code }

abbrev equipment_type_code : EquipmentType → ℕ
equipment_type_code EquipmentType.dry_van = 0
equipment_type_code EquipmentType.reefer = 1
equipment_type_code EquipmentType.flatbed = 2

instance abbrev pub equipment_type_enum : Enum EquipmentType
equipment_type_enum = record { code = equipment_type_code }

abbrev coverage_type_code : CoverageType → ℕ
coverage_type_code CoverageType.auto_liability = 0
coverage_type_code CoverageType.cargo = 1

instance abbrev pub coverage_type_enum : Enum CoverageType
coverage_type_enum = record { code = coverage_type_code }

abbrev payment_terms_code : PaymentTerms → ℕ
payment_terms_code PaymentTerms.due_on_receipt = 0
payment_terms_code PaymentTerms.net_15 = 1
payment_terms_code PaymentTerms.net_30 = 2
payment_terms_code PaymentTerms.net_45 = 3
payment_terms_code PaymentTerms.net_60 = 4

instance abbrev pub payment_terms_enum : Enum PaymentTerms
payment_terms_enum = record { code = payment_terms_code }

abbrev subscription_status_code : SubscriptionStatus → ℕ
subscription_status_code SubscriptionStatus.trial = 0
subscription_status_code SubscriptionStatus.active = 1
subscription_status_code SubscriptionStatus.expired = 2
subscription_status_code SubscriptionStatus.cancelled = 3

instance abbrev pub subscription_status_enum : Enum SubscriptionStatus
subscription_status_enum = record { code = subscription_status_code }

abbrev document_code_code : DocumentCode → ℕ
document_code_code DocumentCode.rate_confirmation = 0
document_code_code DocumentCode.pod = 1
document_code_code DocumentCode.invoice = 2
document_code_code DocumentCode.settlement = 3
document_code_code DocumentCode.carrier_agreement = 4
document_code_code DocumentCode.w9 = 5
document_code_code DocumentCode.mc_authority = 6
document_code_code DocumentCode.other = 7

instance abbrev pub document_code_enum : Enum DocumentCode
document_code_enum = record { code = document_code_code }

abbrev entity_type_code : EntityType → ℕ
entity_type_code EntityType.load = 0
entity_type_code EntityType.stop = 1
entity_type_code EntityType.carrier = 2
entity_type_code EntityType.invoice = 3
entity_type_code EntityType.carrier_payment = 4

instance abbrev pub entity_type_enum : Enum EntityType
entity_type_enum = record { code = entity_type_code }

abbrev membership_status_code : MembershipStatus → ℕ
membership_status_code MembershipStatus.pending_verification = 0
membership_status_code MembershipStatus.invited = 1
membership_status_code MembershipStatus.active = 2
membership_status_code MembershipStatus.inactive = 3
membership_status_code MembershipStatus.expired = 4
membership_status_code MembershipStatus.cancelled = 5

instance abbrev pub membership_status_enum : Enum MembershipStatus
membership_status_enum = record { code = membership_status_code }

abbrev user_status_code : UserStatus → ℕ
user_status_code UserStatus.pending_verification = 0
user_status_code UserStatus.active = 1
user_status_code UserStatus.suspended = 2

instance abbrev pub user_status_enum : Enum UserStatus
user_status_enum = record { code = user_status_code }

abbrev notification_type_code : NotificationType → ℕ
notification_type_code NotificationType.carrier_assigned = 0
notification_type_code NotificationType.load_cancelled = 1
notification_type_code NotificationType.invitation_expired = 2
notification_type_code NotificationType.compliance_document_rejected = 3

instance abbrev pub notification_type_enum : Enum NotificationType
notification_type_enum = record { code = notification_type_code }

abbrev sequence_type_code : SequenceType → ℕ
sequence_type_code SequenceType.load = 0
sequence_type_code SequenceType.quote = 1
sequence_type_code SequenceType.invoice = 2

instance abbrev pub sequence_type_enum : Enum SequenceType
sequence_type_enum = record { code = sequence_type_code }
