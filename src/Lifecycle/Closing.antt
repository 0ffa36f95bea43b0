-- ===== src/Lifecycle/Closing.antt =====
-- The operations of Closing.antt and the POD milestone against the diagram.
use truckmaster.Base.{ℕ, String, arith}
use truckmaster.Lifecycle.Diagram.{Evolves}
use truckmaster.Store.Transaction.{Store, with_tenant_transaction}
use truckmaster.Closing.{
  ReferencesDto, update_reference_numbers, link_return_load, close_load, cancel_load,
  notify_of_cancellation,
}
use truckmaster.Closing.Pod.{recalculate_pod_status}
use truckmaster.Notifying.{create_for_user_and_roles}

pub update_reference_numbers-Evolves :
    (org id : ℕ) (dto : ReferencesDto) (actor : ℕ) (s : Store)
    → Evolves s (update_reference_numbers org id dto actor s).1
unfolding update_reference_numbers with_tenant_transaction
update_reference_numbers-Evolves org id dto actor s i = ground arith

pub link_return_load-Evolves :
    (org load_id original actor : ℕ) (s : Store)
    → Evolves s (link_return_load org load_id original actor s).1
unfolding link_return_load with_tenant_transaction
link_return_load-Evolves org load_id original actor s i = ground arith

pub close_load-Evolves :
    (now org load_id actor : ℕ) (s : Store) → Evolves s (close_load now org load_id actor s).1
unfolding close_load with_tenant_transaction
close_load-Evolves now org load_id actor s i = ground arith

pub cancel_load-Evolves :
    (now org load_id : ℕ) (reason : String) (actor : ℕ) (s : Store)
    → Evolves s (cancel_load now org load_id reason actor s).1
unfolding cancel_load with_tenant_transaction notify_of_cancellation create_for_user_and_roles
cancel_load-Evolves now org load_id reason actor s i = ground arith

pub recalculate_pod_status-Evolves :
    (org load_id : ℕ) (s : Store) → Evolves s (recalculate_pod_status org load_id s).1
unfolding recalculate_pod_status
recalculate_pod_status-Evolves org load_id s i = ground arith
