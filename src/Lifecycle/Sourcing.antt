-- ===== src/Lifecycle/Sourcing.antt =====
-- The operations of carrier-sourcing.service.ts against the diagram.
use truckmaster.Base.{ℕ, String, Bool, arith}
use truckmaster.Lifecycle.Diagram.{Quiet, Evolves}
use truckmaster.Store.Transaction.{Store, with_tenant_transaction}
use truckmaster.Carrier.Eligibility.{recalculate}
use truckmaster.Notifying.{create_for_roles}
use truckmaster.Sourcing.{begin_sourcing, log_sourcing_attempt, AttemptDto}
use truckmaster.Sourcing.Assignment.{
  assign_carrier, carrier_rejected, create_original_carrier_linehaul_charge,
  remove_original_carrier_linehaul_charge,
}
use truckmaster.Sourcing.RateConfirmation.{
  create_rate_confirmation, generate_rate_confirmation, send_rate_confirmation,
}

pub begin_sourcing-Evolves :
    (org load_id actor : ℕ) (s : Store) → Evolves s (begin_sourcing org load_id actor s).1
unfolding begin_sourcing with_tenant_transaction
begin_sourcing-Evolves org load_id actor s i = ground arith

pub log_sourcing_attempt-Evolves :
    (now org load_id : ℕ) (dto : AttemptDto) (actor : ℕ) (s : Store)
    → Evolves s (log_sourcing_attempt now org load_id dto actor s).1
unfolding log_sourcing_attempt with_tenant_transaction
log_sourcing_attempt-Evolves now org load_id dto actor s i = ground arith

pub recalculate-Quiet :
    (now org carrier_id : ℕ) (s : Store) → Quiet s (recalculate now org carrier_id s).1
unfolding recalculate
recalculate-Quiet now org carrier_id s = ground arith

pub assign_carrier-Evolves :
    (now org load_id carrier_id rate actor : ℕ) (s : Store)
    → Evolves s (assign_carrier now org load_id carrier_id rate actor s).1
unfolding assign_carrier with_tenant_transaction create_for_roles
    create_original_carrier_linehaul_charge
assign_carrier-Evolves now org load_id carrier_id rate actor s i =
    ground (arith, recalculate-Quiet now org carrier_id s)

pub carrier_rejected-Evolves :
    (org load_id : ℕ) (reason : String) (actor : ℕ) (s : Store)
    → Evolves s (carrier_rejected org load_id reason actor s).1
unfolding carrier_rejected with_tenant_transaction remove_original_carrier_linehaul_charge
carrier_rejected-Evolves org load_id reason actor s i = ground arith

create_rate_confirmation-Evolves :
    (now org load_id actor : ℕ) (s : Store)
    → Evolves s (create_rate_confirmation now org load_id actor s).1
unfolding create_rate_confirmation with_tenant_transaction
create_rate_confirmation-Evolves now org load_id actor s i = ground arith

pub generate_rate_confirmation-Evolves :
    (now org load_id : ℕ) (send_email : Bool) (actor : ℕ) (s : Store)
    → Evolves s (generate_rate_confirmation now org load_id send_email actor s).1
unfolding generate_rate_confirmation send_rate_confirmation with_tenant_transaction
generate_rate_confirmation-Evolves now org load_id send_email actor s i =
    ground (arith, create_rate_confirmation-Evolves now org load_id actor s i)
