-- ===== src/Tests/Queues.antt =====
-- An example of the theorem about a queue that does not take a job.
use truckmaster.Base.{◌≡◌, refl, false, some, none, [], ◌∷◌}
use truckmaster.Store.Statuses.{LoadStatus, CarrierStatus, DocumentCode, load_status_enum}
use truckmaster.Store.Rows.{DocumentType}
use truckmaster.Store.Transaction.{
  Store, err, unavailable, invalid_transition, with_tenant_transaction,
}
use truckmaster.Sourcing.RateConfirmation.{
  create_rate_confirmation, send_rate_confirmation, generate_rate_confirmation,
}
use truckmaster.Sourcing.Stranded.{generate_rate_confirmation-stranded}
use truckmaster.Tests.{office, load_at}

abbrev assigned : Store
assigned = office LoadStatus.carrier_assigned CarrierStatus.active

abbrev confirmation : DocumentType
confirmation = record {
  id = 80;
  organization_id = none;
  code = DocumentCode.rate_confirmation;
  requires_review = false;
}

abbrev without_queue : Store
without_queue = record assigned {
  master = record assigned.master { document_types = confirmation ∷ [] };
  accepts = λ job. false;
}

abbrev after : Store
after = (generate_rate_confirmation 100 1 7 false 20 without_queue).1

refused : (generate_rate_confirmation 100 1 7 false 20 without_queue).0 ≡ err unavailable
unfolding generate_rate_confirmation create_rate_confirmation send_rate_confirmation
    with_tenant_transaction
refused = refl

generate_rate_confirmation-stranded_example :
    (LoadStatus.carrier_assigned ≡ LoadStatus.carrier_assigned)
    × (after.loads 7
        ≡ some (record (load_at LoadStatus.carrier_assigned) {
          status = LoadStatus.rate_confirmation;
        }))
    × ((generate_rate_confirmation 200 1 7 false 20 after).0 ≡ err invalid_transition)
generate_rate_confirmation-stranded_example =
    generate_rate_confirmation-stranded 100 200 1 7 false false 20
      (load_at LoadStatus.carrier_assigned) without_queue refl refused
