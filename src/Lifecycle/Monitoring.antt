-- ===== src/Lifecycle/Monitoring.antt =====
-- Check calls, risk, the dispatcher and appointments (dispatch-tracking.service.ts) against the diagram.
use truckmaster.Base.{ℕ, String, Option, arith}
use truckmaster.Lifecycle.Diagram.{Quiet, Evolves, Quiet-Evolves}
use truckmaster.Store.Statuses.{RiskStatus}
use truckmaster.Store.Transaction.{Store, with_tenant_transaction}
use truckmaster.Tracking.Progress.{reschedule_stop}
use truckmaster.Tracking.Monitoring.{
  CheckCallDto, create_check_call, enqueue_check_call, log_check_call, set_risk_status,
  check_dispatcher, assign_dispatcher,
}

create_check_call-Evolves :
    (now org load_id : ℕ) (dto : CheckCallDto) (actor : ℕ) (s : Store)
    → Evolves s (create_check_call now org load_id dto actor s).1
unfolding create_check_call with_tenant_transaction
create_check_call-Evolves now org load_id dto actor s i = ground arith

pub log_check_call-Evolves :
    (now org load_id : ℕ) (dto : CheckCallDto) (actor : ℕ) (s : Store)
    → Evolves s (log_check_call now org load_id dto actor s).1
unfolding log_check_call enqueue_check_call
log_check_call-Evolves now org load_id dto actor s i =
    ground (arith, create_check_call-Evolves now org load_id dto actor s i)

pub set_risk_status-Evolves :
    (org load_id : ℕ) (risk : RiskStatus) (reason : Option String) (actor : ℕ) (s : Store)
    → Evolves s (set_risk_status org load_id risk reason actor s).1
unfolding set_risk_status with_tenant_transaction
set_risk_status-Evolves org load_id risk reason actor s i = ground arith

pub assign_dispatcher-Evolves :
    (org load_id : ℕ) (user : Option ℕ) (actor : ℕ) (s : Store)
    → Evolves s (assign_dispatcher org load_id user actor s).1
unfolding assign_dispatcher check_dispatcher with_tenant_transaction
assign_dispatcher-Evolves org load_id user actor s i = ground arith

reschedule_stop-Quiet :
    (org load_id sequence appointment actor : ℕ) (s : Store)
    → Quiet s (reschedule_stop org load_id sequence appointment actor s).1
unfolding reschedule_stop with_tenant_transaction
reschedule_stop-Quiet org load_id sequence appointment actor s = ground arith

pub reschedule_stop-Evolves :
    (org load_id sequence appointment actor : ℕ) (s : Store)
    → Evolves s (reschedule_stop org load_id sequence appointment actor s).1
reschedule_stop-Evolves org load_id sequence appointment actor s =
    Quiet-Evolves s (reschedule_stop org load_id sequence appointment actor s).1
      (reschedule_stop-Quiet org load_id sequence appointment actor s)
