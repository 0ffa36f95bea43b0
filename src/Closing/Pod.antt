-- ===== src/Closing/Pod.antt =====
-- backend/src/modules/quote-load/services/load-pod-status.service.ts
use truckmaster.Base.{
  ℕ, Bool, not, ◌&&◌, none, List, map, ◌==◌, ltb, length, filter, contains, if◌then◌else◌,
}
use truckmaster.Store.Statuses.{
  PodStatus, StopType, StopPurpose, ScanStatus, DocumentCode, EntityType, ◌is◌, pod_status_enum,
  stop_type_enum, stop_purpose_enum, scan_status_enum, document_code_enum, entity_type_enum,
}
use truckmaster.Store.Rows.{Stop, Document}
use truckmaster.Store.Transaction.{
  Action, pure, gets, or_throw, when, record_audit, ◌>>=◌, ◌>>◌, database,
}
use truckmaster.Store.Audit
use truckmaster.Store.Queries.{find_load, update_load, is_stop_of}
use truckmaster.Notifying.{distinct}

unfoldable pub delivery_stop_ids : ℕ → ℕ → List Stop → List ℕ
delivery_stop_ids org load_id stops =
    map (λ (stop : Stop). stop.id)
      (filter
        (λ (stop : Stop).
          is_stop_of org load_id stop
          && stop.details.stop_type is StopType.delivery
          && stop.stop_purpose is StopPurpose.standard)
        stops)

abbrev pub is_clean_pod : ℕ → List ℕ → Document → Bool
is_clean_pod org stop_ids d =
    d.organization_id == org
    && d.entity_type is EntityType.stop
    && contains d.entity_id stop_ids
    && d.is_current_version
    && d.scan_status is ScanStatus.clean
    && d.code is DocumentCode.pod

-- `new Set(cleanPodDocuments.map((d) => d.entityId))`
unfoldable pub stops_with_pod : ℕ → List ℕ → List Document → List ℕ
stops_with_pod org stop_ids documents =
    distinct (map (λ (d : Document). d.entity_id) (filter (is_clean_pod org stop_ids) documents))

unfoldable pub derive_pod_status : ℕ → ℕ → PodStatus
derive_pod_status with_pod deliveries =
    if with_pod == 0
    then PodStatus.not_received
    else if ltb with_pod deliveries
    then PodStatus.partial
    else PodStatus.complete

unfoldable pub recalculate_pod_status : ℕ → ℕ → Action PodStatus
recalculate_pod_status org load_id = do
  load ← gets (find_load org load_id) >>= or_throw database
  delivery_stops ← gets (λ s. delivery_stop_ids org load_id s.stops)
  with_pod ← gets (λ s. stops_with_pod org delivery_stops s.documents)
  let pod_status = derive_pod_status (length with_pod) (length delivery_stops)
  when (not (pod_status is load.pod_status)) do
    update_load load_id (λ l. record l { pod_status = pod_status })
    record_audit org load_id (Audit.pod_milestone_updated load.pod_status pod_status) none
  pure pod_status
