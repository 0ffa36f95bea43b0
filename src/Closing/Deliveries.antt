-- ===== src/Closing/Deliveries.antt =====
-- The POD milestone of load-pod-status.service.ts, for the stops and the documents in the store.
use truckmaster.Base.{
  ℕ, ◌<◌, ◌≡◌, ◌↔◌, refl, sym, ap, ◌∙◌, Bool, true, false, not, ◌&&◌, ◌||◌, some, List, [], ◌∷◌,
  map, arith, all, any, contains, filter, length, ◌==◌, ==_iff, Bool-cases, inl, inr,
}
use truckmaster.Store.Statuses.{
  PodStatus, StopType, StopPurpose, ScanStatus, DocumentCode, EntityType, ◌is◌, stop_type_enum,
  stop_purpose_enum, scan_status_enum, document_code_enum, entity_type_enum,
}
use truckmaster.Store.Rows.{Load, Stop, Document}
use truckmaster.Store.Transaction.{Store, ok}
use truckmaster.Store.Queries.{find_load}
use truckmaster.Closing.Pod.{
  delivery_stop_ids, stops_with_pod, derive_pod_status, recalculate_pod_status,
}
use truckmaster.Closing.Milestone.{are_distinct, has_clean_pod, derive_pod_status-complete}

-- A delivery stop of the load that is no return.
abbrev pub is_standard_delivery : ℕ → ℕ → Stop → Bool
is_standard_delivery org load_id stop =
    stop.organization_id == org
    && stop.load_id == load_id
    && stop.details.stop_type is StopType.delivery
    && stop.stop_purpose is StopPurpose.standard

-- The current version of a POD of the stop is scanned and clean.
abbrev pub has_pod : ℕ → List Document → ℕ → Bool
has_pod org documents id =
    any
      (λ (d : Document).
        d.organization_id == org
        && d.entity_type is EntityType.stop
        && d.entity_id == id
        && d.code is DocumentCode.pod
        && d.is_current_version
        && d.scan_status is ScanStatus.clean)
      documents

has_clean_pod-member :
    (org y : ℕ) (ids : List ℕ) (documents : List Document)
    → contains y ids ≡ true
    → has_clean_pod org ids documents y ≡ has_pod org documents y
has_clean_pod-member org y ids [] h = refl
has_clean_pod-member org y ids (d ∷ ds) h = elim (Bool-cases (d.entity_id == y)) [
  | inl e ↦
      let same = ap (λ z. contains z ids) ((==_iff d.entity_id y).0 e) in
      ground (arith, e, h, same, has_clean_pod-member org y ids ds h)
  | inr e ↦ ground (arith, e, h, has_clean_pod-member org y ids ds h)
]

all-same :
    (p q : ℕ → Bool) (xs : List ℕ)
    → ((y : ℕ) → contains y xs ≡ true → p y ≡ q y)
    → all p xs ≡ all q xs
all-same p q [] h = refl
all-same p q (x ∷ xs) h =
    ground (arith, h x, (==_iff x x).1, all-same p q xs (λ y k. h y (ground (arith, k))))

module _ (f : Stop → Bool) where
  all-filter :
      (q : ℕ → Bool) (stops : List Stop)
      → all q (map (λ (stop : Stop). stop.id) (filter f stops))
        ≡ all (λ (stop : Stop). not (f stop) || q stop.id) stops
  all-filter q [] = refl
  all-filter q (s ∷ ss) = ground (arith, all-filter q ss)

  contains-filter :
      (y : ℕ) (stops : List Stop)
      → contains y (map (λ (stop : Stop). stop.id) stops) ≡ false
      → contains y (map (λ (stop : Stop). stop.id) (filter f stops)) ≡ false
  contains-filter y [] h = refl
  contains-filter y (s ∷ ss) h = ground (arith, h, contains-filter y ss)

  are_distinct-filter :
      (stops : List Stop)
      → are_distinct (map (λ (stop : Stop). stop.id) stops) ≡ true
      → are_distinct (map (λ (stop : Stop). stop.id) (filter f stops)) ≡ true
  are_distinct-filter [] h = refl
  are_distinct-filter (s ∷ ss) h =
      ground (arith, h, are_distinct-filter ss, contains-filter s.id ss)

  any-filter :
      (stops : List Stop)
      → (0 < length (map (λ (stop : Stop). stop.id) (filter f stops))) ↔ (any f stops ≡ true)
  any-filter [] = (λ h. ground (arith, h), λ h. cc)
  any-filter (s ∷ ss) =
      (λ h. ground (arith, h, (any-filter ss).0), λ h. ground (arith, h, (any-filter ss).1))

delivery_stop_ids-of :
    (org load_id : ℕ) (stops : List Stop)
    → delivery_stop_ids org load_id stops
      ≡ map (λ (stop : Stop). stop.id) (filter (is_standard_delivery org load_id) stops)
unfolding delivery_stop_ids
delivery_stop_ids-of org load_id [] = refl
delivery_stop_ids-of org load_id (s ∷ ss) = ground (arith, delivery_stop_ids-of org load_id ss)

recalculate_pod_status-result :
    (org load_id : ℕ) (l : Load) (s : Store)
    → find_load org load_id s ≡ some l
    → let ids = delivery_stop_ids org load_id s.stops in
      (recalculate_pod_status org load_id s).0
      ≡ ok (derive_pod_status (length (stops_with_pod org ids s.documents)) (length ids))
unfolding recalculate_pod_status
recalculate_pod_status-result org load_id l s found = ground (arith, found)

-- The milestone that is derived for a load that is found, in a store whose stops have distinct ids, is Complete
-- exactly if the load has a standard delivery stop and the current POD of each of them is scanned and clean.
pub recalculate_pod_status-complete :
    (org load_id : ℕ) (l : Load) (s : Store)
    → find_load org load_id s ≡ some l
    → are_distinct (map (λ (stop : Stop). stop.id) s.stops) ≡ true
    → ((recalculate_pod_status org load_id s).0 ≡ ok PodStatus.complete) ↔ (
        (any (is_standard_delivery org load_id) s.stops ≡ true)
        × (all
              (λ (stop : Stop).
                not (is_standard_delivery org load_id stop) || has_pod org s.documents stop.id)
              s.stops
            ≡ true))
recalculate_pod_status-complete org load_id l s found apart =
    let f = is_standard_delivery org load_id in
    let ids = delivery_stop_ids org load_id s.stops in
    let ids_of = delivery_stop_ids-of org load_id s.stops in
    let result = recalculate_pod_status-result org load_id l s found in
    let distinct_ids : are_distinct ids ≡ true =
      ap are_distinct ids_of ∙ are_distinct-filter f s.stops apart in
    let complete = derive_pod_status-complete org ids s.documents distinct_ids in
    let each =
      all-same (has_clean_pod org ids s.documents) (has_pod org s.documents) ids
        (λ y k. has_clean_pod-member org y ids s.documents k)
      ∙ ap (all (has_pod org s.documents)) ids_of
      ∙ all-filter f (has_pod org s.documents) s.stops in
    let counted = ap length ids_of in
    let some_delivery = any-filter f s.stops in
    (
      λ h.
          let (positive, clean) = complete.0 (cc (h, result)) in
          (some_delivery.0 (rw (sym counted) positive), cc (each, clean)),
      λ h.
          let full = complete.1 (rw counted (some_delivery.1 h.0), cc (each, h.1)) in
          result ∙ ap ok full,
    )
