-- ===== src/Store/Rows.antt =====
-- The rows of the tables, with the columns that the modelled services read or write. Ids and users
-- are numbers (UUIDs are only compared), times are milliseconds, amounts are cents.
use truckmaster.Base.{ℕ, String, Bool, Option, List}
use truckmaster.Base.Int.{ℤ}
use truckmaster.Store.Statuses.{
  MembershipStatus, UserStatus, LoadStatus, StopType, StopPurpose, StopStatus, BookingSource,
  RateSource, QuoteStatus, CarrierStatus, CustomerStatus, AttemptOutcome, ChargeSide, ChargeSource,
  InvoiceStatus, AdjustmentType, CarrierPaymentStatus, CarrierPaymentType, PodStatus, RiskStatus,
  ScanStatus, ReviewStatus, GenerationStatus, Role, EquipmentType, CoverageType, PaymentTerms,
  PaymentTermsSource, ServiceAreaType, SubscriptionStatus, DocumentCode, EntityType, Ineligibility,
  NotificationType,
}

-- The columns that booking fixes and nothing later writes.
pub record Booking : Type 0 where
  pub load_number : ℕ
  pub customer_id : ℕ
  pub booking_source : BookingSource
  pub quote_id : Option ℕ
  pub equipment_type : EquipmentType
  pub customer_rate : ℕ
  pub rate_source : RateSource
  pub rate_agreement_id : Option ℕ
  pub created_by_user_id : ℕ

pub record ReferenceNumbers : Type 0 where
  pub customer_po_number : Option String
  pub bol_number : Option String
  pub pickup_number : Option String
  pub customer_reference_number : Option String

pub record Position : Type 0 where
  pub city : Option String
  pub state : Option String
  pub zip : Option String
  pub updated_at : Option ℕ
  pub eta : Option ℕ

pub record Load : Type 0 where
  pub id : ℕ
  pub organization_id : ℕ
  pub booking : Booking
  pub references : ReferenceNumbers
  pub status : LoadStatus
  pub assigned_carrier_id : Option ℕ
  pub carrier_rate : Option ℕ
  pub assigned_dispatcher_id : Option ℕ
  pub pod_status : PodStatus
  pub risk_status : RiskStatus
  pub risk_reason : Option String
  pub current_location : Position
  pub invoiced : Bool
  pub closed_at : Option ℕ
  pub closed_by_user_id : Option ℕ
  pub cancelled_at : Option ℕ
  pub cancelled_by_user_id : Option ℕ
  pub return_for_load_id : Option ℕ

-- The columns of a stop that `updateStops` corrects.
pub record StopDetails : Type 0 where
  pub stop_type : StopType
  pub company_name : Option String
  pub address_line1 : Option String
  pub city : String
  pub state : String
  pub zip : String
  pub appointment_datetime : Option ℕ
  pub contact_name : Option String
  pub contact_phone : Option String
  pub notes : Option String

pub record Stop : Type 0 where
  pub id : ℕ
  pub organization_id : ℕ
  pub load_id : ℕ
  pub sequence : ℕ
  pub stop_purpose : StopPurpose
  pub customer_location_id : Option ℕ
  pub details : StopDetails
  pub actual_arrival : Option ℕ
  pub actual_departure : Option ℕ
  pub status : StopStatus

pub record Carrier : Type 0 where
  pub id : ℕ
  pub organization_id : ℕ
  pub legal_name : String
  pub mc_number : String
  pub dot_number : String
  pub status : CarrierStatus
  pub primary_contact_email : Option String
  pub assignment_eligible : Bool
  pub ineligibility_reasons : List Ineligibility

pub record BillingAddress : Type 0 where
  pub line1 : String
  pub city : String
  pub state : String
  pub zip : String

pub record Customer : Type 0 where
  pub id : ℕ
  pub organization_id : ℕ
  pub legal_name : String
  pub billing : BillingAddress
  pub primary_contact_email : String
  pub status : CustomerStatus
  pub payment_terms : PaymentTerms
  pub payment_terms_source : PaymentTermsSource
  pub account_owner_user_id : Option ℕ
  pub created_by_user_id : ℕ

pub record CustomerContact : Type 0 where
  pub organization_id : ℕ
  pub customer_id : ℕ
  pub name : String
  pub email : Option String

pub record Organization : Type 0 where
  pub default_payment_terms : PaymentTerms
  pub subscription_status : SubscriptionStatus
  pub trial_ends_at : Option ℕ
  pub max_carriers : Option ℕ
  pub max_drivers : Option ℕ

-- A driver, a truck or a trailer; the label is the name or the unit number, and only a driver has a
-- license.
pub record Resource : Type 0 where
  pub id : ℕ
  pub organization_id : ℕ
  pub carrier_id : ℕ
  pub label : String
  pub license_number : Option String
  pub active : Bool

pub record Membership : Type 0 where
  pub id : ℕ
  pub organization_id : ℕ
  pub user_id : ℕ
  pub status : MembershipStatus
  pub invited_by_user_id : Option ℕ
  pub invited_at : Option ℕ
  pub invitation_token_hash : Option ℕ
  pub invitation_expires_at : Option ℕ
  pub activated_at : Option ℕ
  pub deactivated_at : Option ℕ
  pub deactivated_by_user_id : Option ℕ
  pub roles : List Role

pub record User : Type 0 where
  pub id : ℕ
  pub email : String
  pub password_hash : Option ℕ
  pub status : UserStatus
  pub email_verified_at : Option ℕ

pub record DispatchInfo : Type 0 where
  pub driver_name : String
  pub driver_phone : String
  pub truck_number : String
  pub trailer_number : String
  pub source_driver_id : Option ℕ
  pub source_truck_id : Option ℕ
  pub source_trailer_id : Option ℕ

pub record DispatchRecord : Type 0 where
  pub load_id : ℕ
  pub organization_id : ℕ
  pub info : DispatchInfo
  pub dispatched_by_user_id : ℕ
  pub dispatched_at : ℕ

pub record SourcingAttempt : Type 0 where
  pub id : ℕ
  pub organization_id : ℕ
  pub load_id : ℕ
  pub carrier_id : ℕ
  pub carrier_rate : Option ℕ
  pub outcome : AttemptOutcome
  pub rejection_reason : Option String
  pub logged_by_user_id : ℕ
  pub logged_at : ℕ

pub record ChargeType : Type 0 where
  pub id : ℕ
  pub organization_id : Option ℕ
  pub is_linehaul : Bool
  pub label : String

pub record ChargeLineItem : Type 0 where
  pub id : ℕ
  pub organization_id : ℕ
  pub load_id : ℕ
  pub side : ChargeSide
  pub charge_type_id : ℕ
  pub description : Option String
  pub quantity : ℕ
  pub unit_rate : ℕ
  pub amount : ℕ
  pub source : ChargeSource
  pub created_by_user_id : ℕ

pub record CheckCall : Type 0 where
  pub id : ℕ
  pub organization_id : ℕ
  pub load_id : ℕ
  pub logged_by_user_id : ℕ
  pub occurred_at : ℕ
  pub location_city : Option String
  pub location_state : Option String
  pub location_zip : Option String
  pub eta : Option ℕ

pub record DocumentType : Type 0 where
  pub id : ℕ
  pub organization_id : Option ℕ
  pub code : DocumentCode
  pub requires_review : Bool

pub record Document : Type 0 where
  pub id : ℕ
  pub organization_id : ℕ
  pub entity_type : EntityType
  pub entity_id : ℕ
  pub document_type_id : ℕ
  pub code : DocumentCode
  pub is_current_version : Bool
  pub scan_status : ScanStatus
  pub review_status : ReviewStatus
  pub generation_status : Option GenerationStatus
  pub uploaded_by_user_id : ℕ
  pub uploaded_at : ℕ

pub record CarrierContact : Type 0 where
  pub organization_id : ℕ
  pub carrier_id : ℕ
  pub name : String
  pub email : Option String
  pub is_primary : Bool

pub record ServiceArea : Type 0 where
  pub organization_id : ℕ
  pub carrier_id : ℕ
  pub type : ServiceAreaType
  pub origin_state : Option String
  pub destination_state : Option String
  pub region_label : Option String

pub record FactoringInfo : Type 0 where
  pub carrier_id : ℕ
  pub organization_id : ℕ
  pub uses_factoring : Bool
  pub factoring_company : Option String

pub record Insurance : Type 0 where
  pub organization_id : ℕ
  pub carrier_id : ℕ
  pub coverage_type : CoverageType
  pub expiration_date : ℕ
  pub coi_document_id : ℕ

pub record FmcsaVerification : Type 0 where
  pub organization_id : ℕ
  pub carrier_id : ℕ
  pub verification_date : ℕ
  pub result_status : String

pub record Invoice : Type 0 where
  pub id : ℕ
  pub organization_id : ℕ
  pub invoice_number : ℕ
  pub customer_id : ℕ
  pub status : InvoiceStatus
  pub sent_at : Option ℕ
  pub due_date : Option ℕ
  pub total : ℤ
  pub remaining_balance : ℤ
  pub created_by_user_id : ℕ

pub record InvoiceLoad : Type 0 where
  pub organization_id : ℕ
  pub invoice_id : ℕ
  pub load_id : ℕ
  pub load_total_at_invoice : ℕ

pub record InvoiceLineItem : Type 0 where
  pub organization_id : ℕ
  pub invoice_id : ℕ
  pub description : String
  pub amount : ℕ
  pub source_load_id : ℕ
  pub source_charge_line_item_id : Option ℕ

pub record Payment : Type 0 where
  pub organization_id : ℕ
  pub invoice_id : ℕ
  pub amount : ℕ
  pub payment_date : ℕ
  pub method : String
  pub reference_number : Option String
  pub recorded_by_user_id : ℕ

pub record Adjustment : Type 0 where
  pub organization_id : ℕ
  pub invoice_id : ℕ
  pub type : AdjustmentType
  pub amount : ℕ
  pub reason : String
  pub adjustment_date : ℕ
  pub created_by_user_id : ℕ

pub record CarrierPayment : Type 0 where
  pub id : ℕ
  pub organization_id : ℕ
  pub load_id : ℕ
  pub carrier_id : ℕ
  pub amount : ℕ
  pub payment_type : CarrierPaymentType
  pub method : Option String
  pub reference_number : Option String
  pub status : CarrierPaymentStatus
  pub prepared_by_user_id : ℕ
  pub submitted_at : Option ℕ
  pub approved_by_user_id : Option ℕ
  pub approved_at : Option ℕ
  pub last_rejected_by_user_id : Option ℕ
  pub last_rejected_at : Option ℕ
  pub last_rejection_reason : Option String
  pub paid_at : Option ℕ

pub record QuoteStop : Type 0 where
  pub sequence : ℕ
  pub stop_type : StopType
  pub address_city : String
  pub address_state : String
  pub address_zip : String
  pub appointment_notes : Option String

pub record Quote : Type 0 where
  pub id : ℕ
  pub organization_id : ℕ
  pub quote_number : ℕ
  pub customer_id : ℕ
  pub equipment_type : EquipmentType
  pub customer_rate : ℕ
  pub rate_source : RateSource
  pub rate_agreement_id : Option ℕ
  pub status : QuoteStatus
  pub loss_reason : Option String
  pub resulting_load_id : Option ℕ
  pub expiration_date : ℕ
  pub created_by_user_id : ℕ
  pub stops : List QuoteStop

pub record RateAgreement : Type 0 where
  pub id : ℕ
  pub organization_id : ℕ
  pub customer_id : ℕ
  pub origin_city : String
  pub origin_state : String
  pub destination_city : String
  pub destination_state : String
  pub equipment_type : EquipmentType
  pub rate : ℕ
  pub effective_date : ℕ
  pub expiration_date : Option ℕ

pub record Notification : Type 0 where
  pub organization_id : ℕ
  pub recipient_user_id : ℕ
  pub type : NotificationType
  pub related_load_id : ℕ
