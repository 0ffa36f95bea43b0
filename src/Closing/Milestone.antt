-- ===== src/Closing/Milestone.antt =====
-- The POD milestone of load-pod-status.service.ts, against the stops that have a clean POD.
use truckmaster.Base.{
  ℕ, suc, ◌≤◌, ◌<◌, ◌≡◌, ◌↔◌, refl, sym, ap, ◌∙◌, Bool, true, false, not, ◌&&◌, List, [], ◌∷◌, map,
  arith, all, any, contains, filter, length, ◌==◌, ==_iff, Bool-cases, inl, inr, length-filter,
}
use truckmaster.Store.Statuses.{PodStatus}
use truckmaster.Store.Rows.{Document}
use truckmaster.Notifying.{distinct}
use truckmaster.Closing.Pod.{is_clean_pod, stops_with_pod, derive_pod_status}

abbrev pub are_distinct : List ℕ → Bool
are_distinct [] = true
are_distinct (x ∷ xs) = not (contains x xs) && are_distinct xs

-- A clean current POD of the stop among the documents.
abbrev pub has_clean_pod : ℕ → List ℕ → List Document → ℕ → Bool
has_clean_pod org stop_ids documents id =
    any (λ (d : Document). is_clean_pod org stop_ids d && d.entity_id == id) documents

abbrev without : ℕ → List ℕ → List ℕ
without x = filter (λ y. not (y == x))

contains-without :
    (x y : ℕ) (xs : List ℕ) → contains y (without x xs) ≡ (contains y xs && not (y == x))
contains-without x y [] = refl
contains-without x y (z ∷ zs) =
    ground (arith, contains-without x y zs, (==_iff z y).0, (==_iff z x).0, (==_iff y x).1)

contains-distinct : (y : ℕ) (xs : List ℕ) → contains y (distinct xs) ≡ contains y xs
contains-distinct y [] = refl
contains-distinct y (x ∷ xs) = ground (
  arith,
  contains-distinct y xs,
  contains-without x y (distinct xs),
  (==_iff x y).0,
  (==_iff y x).0,
)

are_distinct-without :
    (x : ℕ) (xs : List ℕ) → are_distinct xs ≡ true → are_distinct (without x xs) ≡ true
are_distinct-without x [] h = refl
are_distinct-without x (y ∷ ys) h =
    ground (arith, h, are_distinct-without x ys, contains-without x y ys)

are_distinct-distinct : (xs : List ℕ) → are_distinct (distinct xs) ≡ true
are_distinct-distinct [] = refl
are_distinct-distinct (x ∷ xs) = ground (
  arith,
  are_distinct-without x (distinct xs) (are_distinct-distinct xs),
  contains-without x x (distinct xs),
  (==_iff x x).1,
)

length-without_absent :
    (x : ℕ) (xs : List ℕ) → contains x xs ≡ false → length (without x xs) ≡ length xs
length-without_absent x [] h = refl
length-without_absent x (y ∷ ys) h = ground (arith, h, length-without_absent x ys)

length-without :
    (x : ℕ) (xs : List ℕ)
    → are_distinct xs ≡ true
    → contains x xs ≡ true
    → suc (length (without x xs)) ≡ length xs
length-without x [] d h = cc
length-without x (y ∷ ys) d h = elim (Bool-cases (y == x)) [
  | inl e ↦
      let absent : contains x ys ≡ false =
        ap (λ z. contains z ys) (sym ((==_iff y x).0 e)) ∙ ground (arith, d) in
      ground (arith, e, length-without_absent x ys absent)
  | inr e ↦ ground (arith, e, d, h, length-without x ys)
]

filter-same :
    (p q : ℕ → Bool) (xs : List ℕ)
    → ((y : ℕ) → contains y xs ≡ true → p y ≡ q y)
    → length (filter p xs) ≡ length (filter q xs)
filter-same p q [] h = refl
filter-same p q (x ∷ xs) h =
    ground (arith, h x, (==_iff x x).1, filter-same p q xs (λ y k. h y (ground (arith, k))))

-- Distinct members of a list, counted along the list.
length-covered :
    (ids ws : List ℕ)
    → are_distinct ids ≡ true
    → are_distinct ws ≡ true
    → ((y : ℕ) → contains y ws ≡ true → contains y ids ≡ true)
    → length ws ≡ length (filter (λ i. contains i ws) ids)
length-covered [] [] d e h = refl
length-covered [] (w ∷ ws) d e h = ground (arith, h w, (==_iff w w).1)
length-covered (x ∷ ids) ws d e h =
    let rest = without x ws in
    let fresh : contains x ids ≡ false = ground (arith, d) in
    let inside : (y : ℕ) → contains y rest ≡ true → contains y ids ≡ true =
      λ y k. ground (arith, k, h y, contains-without x y ws, (==_iff x y).0, (==_iff y x).1) in
    let counted =
      length-covered ids rest (ground (arith, d)) (are_distinct-without x ws e) inside in
    let same =
      filter-same (λ i. contains i rest) (λ i. contains i ws) ids
        (λ y k. elim (Bool-cases (y == x)) [
          | inl q ↦
              let gone : contains x ids ≡ true =
                ap (λ z. contains z ids) (sym ((==_iff y x).0 q)) ∙ k in
              ground (arith, gone, fresh)
          | inr q ↦ ground (arith, q, contains-without x y ws)
        ]) in
    elim (Bool-cases (contains x ws)) [
      | inl k ↦ ground (arith, k, counted, same, length-without x ws e k)
      | inr k ↦ ground (arith, k, counted, same, length-without_absent x ws k)
    ]

all-length : (p : ℕ → Bool) (xs : List ℕ) → (all p xs ≡ true) ↔ (length xs ≤ length (filter p xs))
all-length p [] = (λ h. omega arith, λ h. refl)
all-length p (x ∷ xs) = elim (Bool-cases (p x)) [
  | inl h ↦ (
    λ k. ground (arith, h, k, (all-length p xs).0),
    λ k. ground (arith, h, k, (all-length p xs).1),
  )
  | inr h ↦ (λ k. ground (arith, h, k), λ k. ground (arith, h, k, length-filter p xs))
]

module _ (org : ℕ) (ids : List ℕ) where
  contains-stops_with_pod :
      (y : ℕ) (documents : List Document)
      → contains y (map (λ (d : Document). d.entity_id) (filter (is_clean_pod org ids) documents))
        ≡ has_clean_pod org ids documents y
  contains-stops_with_pod y [] = refl
  contains-stops_with_pod y (d ∷ ds) = ground (arith, contains-stops_with_pod y ds)

  clean_inside :
      (y : ℕ) (documents : List Document)
      → has_clean_pod org ids documents y ≡ true
      → contains y ids ≡ true
  clean_inside y [] h = cc
  clean_inside y (d ∷ ds) h = elim (Bool-cases (d.entity_id == y)) [
    | inl e ↦
        let same = ap (λ z. contains z ids) ((==_iff d.entity_id y).0 e) in
        ground (arith, e, h, same, clean_inside y ds)
    | inr e ↦ ground (arith, e, h, clean_inside y ds)
  ]

  -- The number of stops with a POD is that of the delivery stops that have a clean one.
  length-stops_with_pod :
      (documents : List Document)
      → are_distinct ids ≡ true
      → length (stops_with_pod org ids documents)
        ≡ length (filter (has_clean_pod org ids documents) ids)
  unfolding stops_with_pod
  length-stops_with_pod documents d =
      let found = map (λ (d : Document). d.entity_id) (filter (is_clean_pod org ids) documents) in
      let ws = distinct found in
      let member = λ (y : ℕ). contains-distinct y found ∙ contains-stops_with_pod y documents in
      length-covered ids ws d (are_distinct-distinct found)
        (λ y k. clean_inside y documents (sym (member y) ∙ k))
      ∙ filter-same (λ i. contains i ws) (has_clean_pod org ids documents) ids (λ y k. member y)

  -- For distinct stops, the milestone is Complete exactly if there is
  -- one and each has a clean current POD.
  pub derive_pod_status-complete :
      (documents : List Document)
      → are_distinct ids ≡ true
      → (derive_pod_status (length (stops_with_pod org ids documents)) (length ids)
          ≡ PodStatus.complete)
        ↔ ((0 < length ids) × (all (has_clean_pod org ids documents) ids ≡ true))
  unfolding derive_pod_status
  derive_pod_status-complete documents d =
      let counted = length-stops_with_pod documents d in
      let each = all-length (has_clean_pod org ids documents) ids in
      let few = length-filter (has_clean_pod org ids documents) ids in
      (
        λ h. ground (arith, h, counted, each.0, each.1, few),
        λ h. ground (arith, h.0, h.1, counted, each.0, each.1, few),
      )
