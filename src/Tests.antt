-- ===== src/Tests.antt =====
-- A small office for the examples: organization 1, load 7, carrier 3, customer 5, users 20 and 21.
pub mod Queues
pub mod Loads
pub mod Money
pub mod Ledger
pub mod Times
pub mod Carriers
use truckmaster.Base.{ℕ, Bool, true, false, Option, none, some, List, [], ◌∷◌, if◌then◌else◌, ◌==◌}
use truckmaster.Base.Int.{ℤ, pos}
use truckmaster.Store.Statuses.{
  LoadStatus, StopType, StopPurpose, StopStatus, BookingSource, RateSource, CarrierStatus,
  CarrierPaymentStatus, CarrierPaymentType, PodStatus, RiskStatus, ScanStatus, ReviewStatus,
  GenerationStatus, EquipmentType, CoverageType, DocumentCode, EntityType, InvoiceStatus,
}
use truckmaster.Store.Rows.{
  Load, Stop, Carrier, Document, Insurance, FmcsaVerification, Invoice, InvoiceLoad, CarrierPayment,
}
use truckmaster.Store.Transaction.{Store, Master, Billing}

abbrev pub load_at : LoadStatus → Load
load_at status = record {
  id = 7;
  organization_id = 1;
  booking = record {
    load_number = 1;
    customer_id = 5;
    booking_source = BookingSource.direct;
    quote_id = none;
    equipment_type = EquipmentType.reefer;
    customer_rate = 200_000;
    rate_source = RateSource.manual;
    rate_agreement_id = none;
    created_by_user_id = 20;
  };
  references = record {
    customer_po_number = none;
    bol_number = none;
    pickup_number = none;
    customer_reference_number = none;
  };
  status = status;
  assigned_carrier_id = some 3;
  carrier_rate = some 150_000;
  assigned_dispatcher_id = none;
  pod_status = PodStatus.complete;
  risk_status = RiskStatus.normal;
  risk_reason = none;
  current_location = record {
    city = none;
    state = none;
    zip = none;
    updated_at = none;
    eta = none;
  };
  invoiced = false;
  closed_at = none;
  closed_by_user_id = none;
  cancelled_at = none;
  cancelled_by_user_id = none;
  return_for_load_id = none;
}

abbrev pub carrier_in : CarrierStatus → Carrier
carrier_in status = record {
  id = 3;
  organization_id = 1;
  legal_name = "Acme";
  mc_number = "1";
  dot_number = "2";
  status = status;
  primary_contact_email = none;
  assignment_eligible = true;
  ineligibility_reasons = [];
}

abbrev pub document_for : ℕ → EntityType → ℕ → DocumentCode → Document
document_for id type entity code = record {
  id = id;
  organization_id = 1;
  entity_type = type;
  entity_id = entity;
  document_type_id = 70;
  code = code;
  is_current_version = true;
  scan_status = ScanStatus.clean;
  review_status = ReviewStatus.approved;
  generation_status = none;
  uploaded_by_user_id = 20;
  uploaded_at = 10;
}

abbrev coverage : CoverageType → Insurance
coverage type = record {
  organization_id = 1;
  carrier_id = 3;
  coverage_type = type;
  expiration_date = 9_000;
  coi_document_id = 54;
}

abbrev pub arrived_stop : Stop
arrived_stop = record {
  id = 40;
  organization_id = 1;
  load_id = 7;
  sequence = 1;
  stop_purpose = StopPurpose.standard;
  customer_location_id = none;
  details = record {
    stop_type = StopType.pickup;
    company_name = none;
    address_line1 = none;
    city = "Reno";
    state = "NV";
    zip = "89501";
    appointment_datetime = none;
    contact_name = none;
    contact_phone = none;
    notes = none;
  };
  actual_arrival = some 50;
  actual_departure = none;
  status = StopStatus.arrived;
}

abbrev pub invoice_in : InvoiceStatus → Invoice
invoice_in status = record {
  id = 60;
  organization_id = 1;
  invoice_number = 1;
  customer_id = 5;
  status = status;
  sent_at = none;
  due_date = none;
  total = pos 200_000;
  remaining_balance = pos 200_000;
  created_by_user_id = 20;
}

abbrev pub pending_payment : CarrierPayment
pending_payment = record {
  id = 80;
  organization_id = 1;
  load_id = 7;
  carrier_id = 3;
  amount = 150_000;
  payment_type = CarrierPaymentType.balance;
  method = some "ACH";
  reference_number = some "1";
  status = CarrierPaymentStatus.pending_approval;
  prepared_by_user_id = 20;
  submitted_at = some 60;
  approved_by_user_id = none;
  approved_at = none;
  last_rejected_by_user_id = none;
  last_rejected_at = none;
  last_rejection_reason = none;
  paid_at = none;
}

-- The load at a status, with a carrier of a status, a stop, an invoice and a payment.
abbrev pub office : LoadStatus → CarrierStatus → Store
office load_status carrier_status = record {
  master = record {
    organizations = λ i. none;
    customers = λ i. none;
    customer_contacts = [];
    drivers = [];
    trucks = [];
    trailers = [];
    memberships = [];
    users = [];
    charge_types = [];
    document_types = [];
    rate_agreements = [];
    carrier_contacts = [];
    service_areas = [];
    factoring = λ i. none;
    insurance = coverage CoverageType.auto_liability ∷ coverage CoverageType.cargo ∷ [];
    fmcsa =
        record {
          organization_id = 1;
          carrier_id = 3;
          verification_date = 10;
          result_status = " Authorized";
        }
        ∷ [];
  };
  loads = λ i. if i == 7 then some (load_at load_status) else none;
  stops = arrived_stop ∷ [];
  carriers = λ i. if i == 3 then some (carrier_in carrier_status) else none;
  dispatch_records = λ i. none;
  sourcing_attempts = [];
  charges = [];
  check_calls = [];
  documents =
      document_for 50 EntityType.load 7 DocumentCode.rate_confirmation
      ∷ document_for 51 EntityType.carrier 3 DocumentCode.carrier_agreement
      ∷ document_for 52 EntityType.carrier 3 DocumentCode.w9
      ∷ document_for 53 EntityType.carrier 3 DocumentCode.mc_authority
      ∷ document_for 54 EntityType.carrier 3 DocumentCode.other
      ∷ [];
  billing = record {
    invoices = λ i. if i == 60 then some (invoice_in InvoiceStatus.sent) else none;
    invoice_loads =
        record {
          organization_id = 1;
          invoice_id = 60;
          load_id = 7;
          load_total_at_invoice = 200_000;
        }
        ∷ [];
    line_items = [];
    payments = [];
    adjustments = [];
  };
  carrier_payments = pending_payment ∷ [];
  quotes = λ i. none;
  sequences = λ o t. 0;
  notifications = [];
  audit = [];
  jobs = [];
  accepts = λ job. true;
  next_id = 100;
}
