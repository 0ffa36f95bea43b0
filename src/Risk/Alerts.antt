-- ===== src/Risk/Alerts.antt =====
-- The active items after a pass of eta-risk-sweep.service.ts.
use truckmaster.Base.{
  ℕ, ◌≡◌, inl, inr, refl, sym, ap, ◌∙◌, Bool, true, false, not, ◌&&◌, Option, none, some, List, [],
  ◌∷◌, ◌++◌, ◌==◌, ==_iff, arith, any, contains, filter, find, update_where, Option-cases,
  Bool-cases, is_some, if◌then◌else◌,
}
use truckmaster.Risk.{EtaRisk}
use truckmaster.Risk.Sweep.{
  OperationalLoad, AttentionItem, Board, is_item, resolved, resolve_item, apply_result, apply_each,
  resolve_stale, active_items, load_ids, risk_of, sweep, renewed, refreshed, new_item,
}

-- Whether the load has an item that is active.
abbrev pub active_in : ℕ → List AttentionItem → Bool
active_in i items = elim (find (is_item i) items) [ none ↦ false | some x ↦ x.active ]

abbrev pub has_active_item : ℕ → Board → Bool
has_active_item i b = active_in i b.items

module _ (k : ℕ) (f : AttentionItem → AttentionItem)
    (keeps : (x : AttentionItem) → (f x).load_id ≡ x.load_id) where
  find-update_same :
      (xs : List AttentionItem) (x : AttentionItem)
      → find (is_item k) xs ≡ some x
      → find (is_item k) (update_where (is_item k) f xs) ≡ some (f x)
  find-update_same [] x h = cc
  find-update_same (y ∷ ys) x h = ground (arith, find-update_same ys x, keeps y)

  find-update_none :
      (xs : List AttentionItem)
      → find (is_item k) xs ≡ none
      → find (is_item k) (update_where (is_item k) f xs) ≡ none
  find-update_none [] h = refl
  find-update_none (y ∷ ys) h = ground (arith, find-update_none ys, keeps y)

  find-update_other :
      (i : ℕ) (xs : List AttentionItem)
      → (k == i) ≡ false
      → find (is_item i) (update_where (is_item k) f xs) ≡ find (is_item i) xs
  find-update_other i [] h = refl
  find-update_other i (y ∷ ys) h = ground (arith, find-update_other i ys h, keeps y)

find-append :
    (i : ℕ) (xs ys : List AttentionItem)
    → find (is_item i) xs ≡ none
    → find (is_item i) (xs ++ ys) ≡ find (is_item i) ys
find-append i [] ys h = refl
find-append i (x ∷ xs) ys h = ground (arith, find-append i xs ys)

find-append_found :
    (i : ℕ) (xs ys : List AttentionItem) (x : AttentionItem)
    → find (is_item i) xs ≡ some x
    → find (is_item i) (xs ++ ys) ≡ some x
find-append_found i [] ys x h = cc
find-append_found i (y ∷ xs) ys x h = ground (arith, find-append_found i xs ys x)

-- After a pass over one load its item is active just when the load is at risk.
apply_result-same :
    (now k : ℕ) (risk : Option EtaRisk) (b : Board)
    → has_active_item k (apply_result now k risk b) ≡ is_some risk
unfolding apply_result
apply_result-same now k none b = elim (Option-cases (find (is_item k) b.items)) [
  | inl missing ↦ ground (arith, missing)
  | inr (x, e) ↦ ground (arith, e, find-update_same k (resolved now) (λ y. refl) b.items x e)
]
apply_result-same now k (some r) b = elim (Option-cases (find (is_item k) b.items)) [
  | inl missing ↦ ground (arith, missing, find-append k b.items (new_item now k r ∷ []) missing)
  | inr (x, e) ↦ ground (
    arith,
    e,
    find-update_same k (refreshed r) (λ y. refl) b.items x e,
    find-update_same k (renewed now r) (λ y. refl) b.items x e,
  )
]

apply_result-other :
    (now k i : ℕ) (risk : Option EtaRisk) (b : Board)
    → (k == i) ≡ false
    → has_active_item i (apply_result now k risk b) ≡ has_active_item i b
unfolding apply_result
apply_result-other now k i none b h = elim (Option-cases (find (is_item k) b.items)) [
  | inl missing ↦ ground (arith, missing)
  | inr (x, e) ↦ ground (arith, e, find-update_other k (resolved now) (λ y. refl) i b.items h)
]
apply_result-other now k i (some r) b h = elim (Option-cases (find (is_item k) b.items)) [
  | inl missing ↦ elim (Option-cases (find (is_item i) b.items)) [
    | inl nothing ↦
        ground (arith, missing, nothing, h, find-append i b.items (new_item now k r ∷ []) nothing)
    | inr (y, found) ↦
        ground (arith, missing, found, find-append_found i b.items (new_item now k r ∷ []) y found)
  ]
  | inr (x, e) ↦ ground (
    arith,
    e,
    find-update_other k (refreshed r) (λ y. refl) i b.items h,
    find-update_other k (renewed now r) (λ y. refl) i b.items h,
  )
]

apply_each-absent :
    (now i : ℕ) (loads : List OperationalLoad) (b : Board)
    → contains i (load_ids loads) ≡ false
    → has_active_item i (apply_each now loads b) ≡ has_active_item i b
unfolding apply_each
apply_each-absent now i [] b h = refl
apply_each-absent now i (l ∷ ls) b h =
    let t = apply_result now l.id (risk_of now l) b in
    let (first, rest) : ((l.id == i) ≡ false) × (contains i (load_ids ls) ≡ false) =
      (ground (arith, h), ground (arith, h)) in
    apply_each-absent now i ls t rest ∙ apply_result-other now l.id i (risk_of now l) b first

abbrev pub are_distinct : List ℕ → Bool
are_distinct [] = true
are_distinct (x ∷ xs) = not (contains x xs) && are_distinct xs

-- A load that is among the given ones and at risk.
abbrev pub is_at_risk : ℕ → ℕ → List OperationalLoad → Bool
is_at_risk now i [] = false
is_at_risk now i (l ∷ ls) =
    let rest = is_at_risk now i ls in if l.id == i then is_some (risk_of now l) else rest

apply_each-present :
    (now i : ℕ) (loads : List OperationalLoad) (b : Board)
    → are_distinct (load_ids loads) ≡ true
    → contains i (load_ids loads) ≡ true
    → has_active_item i (apply_each now loads b) ≡ is_at_risk now i loads
unfolding apply_each
apply_each-present now i [] b d h = cc
apply_each-present now i (l ∷ ls) b d h =
    let t = apply_result now l.id (risk_of now l) b in
    elim (Bool-cases (l.id == i)) [
      | inl e ↦
          let same = (==_iff l.id i).0 e in
          let once : contains i (load_ids ls) ≡ false = ground (arith, d, same) in
          ground (
            arith,
            e,
            apply_each-absent now i ls t once,
            ap (λ k. has_active_item k t) same,
            apply_result-same now l.id (risk_of now l) b,
          )
      | inr e ↦ ground (arith, e, d, h, apply_each-present now i ls t)
    ]

absent-not_at_risk :
    (now i : ℕ) (loads : List OperationalLoad)
    → contains i (load_ids loads) ≡ false
    → is_at_risk now i loads ≡ false
absent-not_at_risk now i [] h = refl
absent-not_at_risk now i (l ∷ ls) h = ground (arith, h, absent-not_at_risk now i ls)

resolve_item-other :
    (now k i : ℕ) (b : Board)
    → (k == i) ≡ false
    → has_active_item i (resolve_item now k b) ≡ has_active_item i b
resolve_item-other now k i b h =
    ground (arith, find-update_other k (resolved now) (λ y. refl) i b.items h)

resolve_item-same : (now k : ℕ) (b : Board) → has_active_item k (resolve_item now k b) ≡ false
resolve_item-same now k b = elim (Option-cases (find (is_item k) b.items)) [
  | inl missing ↦ ground (arith, find-update_none k (resolved now) (λ y. refl) b.items missing)
  | inr (x, e) ↦ ground (arith, find-update_same k (resolved now) (λ y. refl) b.items x e)
]

resolve_stale-kept :
    (now i : ℕ) (ids : List ℕ) (xs : List AttentionItem) (b : Board)
    → contains i ids ≡ true
    → has_active_item i (resolve_stale now ids xs b) ≡ has_active_item i b
unfolding resolve_stale
resolve_stale-kept now i ids [] b h = refl
resolve_stale-kept now i ids (x ∷ xs) b h = elim (Bool-cases (contains x.load_id ids)) [
  | inl e ↦ ground (arith, e, resolve_stale-kept now i ids xs b h)
  | inr e ↦ elim (Bool-cases (x.load_id == i)) [
    | inl same ↦ ground (arith, e, h, (==_iff x.load_id i).0 same)
    | inr other ↦ ground (
      arith,
      e,
      resolve_stale-kept now i ids xs (resolve_item now x.load_id b) h,
      resolve_item-other now x.load_id i b other,
    )
  ]
]

resolve_stale-cleared :
    (now i : ℕ) (ids : List ℕ) (xs : List AttentionItem) (b : Board)
    → contains i ids ≡ false
    → (has_active_item i b && not (any (is_item i) xs)) ≡ false
    → has_active_item i (resolve_stale now ids xs b) ≡ false
unfolding resolve_stale
resolve_stale-cleared now i ids [] b h k = ground (arith, k)
resolve_stale-cleared now i ids (x ∷ xs) b h k = elim (Bool-cases (x.load_id == i)) [
  | inl same ↦
      let e = (==_iff x.load_id i).0 same in
      let here : has_active_item i (resolve_item now x.load_id b) ≡ false =
        ap (λ j. has_active_item i (resolve_item now j b)) e ∙ resolve_item-same now i b in
      let free : contains x.load_id ids ≡ false = ap (λ j. contains j ids) e ∙ h in
      ground
        (arith, free, resolve_stale-cleared now i ids xs (resolve_item now x.load_id b) h, here)
  | inr other ↦ ground (
    arith,
    other,
    k,
    resolve_stale-cleared now i ids xs b h,
    resolve_stale-cleared now i ids xs (resolve_item now x.load_id b) h,
    resolve_item-other now x.load_id i b other,
  )
]

active_in-listed :
    (i : ℕ) (xs : List AttentionItem)
    → (active_in i xs && not (any (is_item i) (filter (λ (x : AttentionItem). x.active) xs)))
      ≡ false
active_in-listed i [] = refl
active_in-listed i (x ∷ xs) = ground (arith, active_in-listed i xs)

-- After a pass over the loads of an organization that are under way, each of them once, a load has an
-- active item just when it is one of these loads and at risk, whatever items there were before.
pub sweep-has_active_item :
    (now i : ℕ) (loads : List OperationalLoad) (b : Board)
    → are_distinct (load_ids loads) ≡ true
    → has_active_item i (sweep now loads b) ≡ is_at_risk now i loads
unfolding sweep
sweep-has_active_item now i loads b d =
    let t = apply_each now loads b in
    let ids = load_ids loads in
    elim (Bool-cases (contains i ids)) [
      | inl e ↦
          resolve_stale-kept now i ids (active_items t) t e ∙ apply_each-present now i loads b d e
      | inr e ↦
          resolve_stale-cleared now i ids (active_items t) t e (active_in-listed i t.items)
          ∙ sym (absent-not_at_risk now i loads e)
    ]
