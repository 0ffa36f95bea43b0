-- ===== src/Sourcing/Stranded.antt =====
-- `generateRateConfirmation` of carrier-sourcing.service.ts when a queue does not take its job.
use truckmaster.Base.{ℕ, ◌≡◌, Bool, some, arith}
use truckmaster.Store.Statuses.{LoadStatus, load_status_enum}
use truckmaster.Store.Rows.{Load}
use truckmaster.Store.Transaction.{
  Store, err, unavailable, invalid_transition, with_tenant_transaction,
}
use truckmaster.Store.Queries.{find_load}
use truckmaster.Sourcing.RateConfirmation.{
  create_rate_confirmation, send_rate_confirmation, generate_rate_confirmation,
}

-- A generation that fails because a queue does not take a job found the load at Carrier Assigned and
-- leaves it at Rate Confirmation, with nothing else of its row changed; every later generation for the
-- load is then refused as an invalid transition.
pub generate_rate_confirmation-stranded :
    (now later org load_id : ℕ) (send_email again : Bool) (actor : ℕ) (l : Load) (s : Store)
    → find_load org load_id s ≡ some l
    → (generate_rate_confirmation now org load_id send_email actor s).0 ≡ err unavailable
    → let after = (generate_rate_confirmation now org load_id send_email actor s).1 in
      (l.status ≡ LoadStatus.carrier_assigned)
      × (after.loads load_id ≡ some (record l { status = LoadStatus.rate_confirmation }))
      × ((generate_rate_confirmation later org load_id again actor after).0
          ≡ err invalid_transition)
unfolding generate_rate_confirmation create_rate_confirmation send_rate_confirmation
    with_tenant_transaction
generate_rate_confirmation-stranded now later org load_id send_email again actor l s found failed =
    (ground (arith, found, failed), ground (arith, found, failed), ground (arith, found, failed))
