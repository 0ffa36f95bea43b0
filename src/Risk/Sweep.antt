-- ===== src/Risk/Sweep.antt =====
-- backend/src/modules/background-jobs/services/eta-risk-sweep.service.ts: the items of one organization
-- and of the type ETA_AFTER_APPOINTMENT. The database does not fail here.
use truckmaster.Base.{
  ℕ, ◌/◌, ◌%◌, Bool, true, false, Option, none, some, List, [], ◌∷◌, ◌++◌, ◌==◌, contains, filter,
  map, find, update_where, if◌then◌else◌,
}
use truckmaster.Store.Statuses.{StopType}
use truckmaster.Store.Rows.{Stop}
use truckmaster.Risk.{EtaRisk, Severity, evaluate_eta_risk}

pub record OperationalLoad : Type 0 where
  pub id : ℕ
  pub current_eta : Option ℕ
  pub stops : List Stop

-- The hours and minutes of `formatDurationMinutes`, and the stop whose label the title carries.
pub record Content : Type 0 where
  pub stop_type : StopType
  pub hours : ℕ
  pub minutes : ℕ
  pub risk : EtaRisk

-- `(organizationId, loadId, type)` is unique: the load is the key.
pub record AttentionItem : Type 0 where
  pub load_id : ℕ
  pub active : Bool
  pub severity : Severity
  pub content : Content
  pub detected_at : ℕ
  pub resolved_at : Option ℕ

pub data Event : Type 0 where
  detected reactivated : (load_id : ℕ) (severity : Severity) → Event

pub record Board : Type 0 where
  pub items : List AttentionItem
  pub audit : List Event

abbrev content_of : EtaRisk → Content
content_of r = record {
  stop_type = r.stop_type;
  hours = r.minutes_after / 60;
  minutes = r.minutes_after % 60;
  risk = r;
}

abbrev pub is_item : ℕ → AttentionItem → Bool
is_item load_id x = x.load_id == load_id

abbrev pub resolved : ℕ → AttentionItem → AttentionItem
resolved now x = record x { active = false; resolved_at = some now }

-- `resolveItem`
abbrev pub resolve_item : ℕ → ℕ → Board → Board
resolve_item now load_id b = record b {
  items = update_where (is_item load_id) (resolved now) b.items;
}

abbrev pub new_item : ℕ → ℕ → EtaRisk → AttentionItem
new_item now load_id r = record {
  load_id = load_id;
  active = true;
  severity = r.severity;
  content = content_of r;
  detected_at = now;
  resolved_at = none;
}

abbrev pub refreshed : EtaRisk → AttentionItem → AttentionItem
refreshed r x = record x { severity = r.severity; content = content_of r }

abbrev pub renewed : ℕ → EtaRisk → AttentionItem → AttentionItem
renewed now r x = record x {
  active = true;
  severity = r.severity;
  content = content_of r;
  detected_at = now;
  resolved_at = none;
}

-- `applyResult`
unfoldable pub apply_result : ℕ → ℕ → Option EtaRisk → Board → Board
apply_result now load_id risk b = elim (find (is_item load_id) b.items) [
  | none ↦ elim risk [
    | none ↦ b
    | some r ↦ record {
      items = b.items ++ new_item now load_id r ∷ [];
      audit = b.audit ++ Event.detected load_id r.severity ∷ [];
    }
  ]
  | some existing ↦ elim risk [
    | none ↦ if existing.active then resolve_item now load_id b else b
    | some r ↦
        if existing.active
        then record b { items = update_where (is_item load_id) (refreshed r) b.items }
        else record {
          items = update_where (is_item load_id) (renewed now r) b.items;
          audit = b.audit ++ Event.reactivated load_id r.severity ∷ [];
        }
  ]
]

abbrev pub risk_of : ℕ → OperationalLoad → Option EtaRisk
risk_of now l = evaluate_eta_risk now l.current_eta l.stops

unfoldable pub apply_each : ℕ → List OperationalLoad → Board → Board
apply_each now [] b = b
apply_each now (l ∷ ls) b = apply_each now ls (apply_result now l.id (risk_of now l) b)

-- The items of loads that are no longer under way.
unfoldable pub resolve_stale : ℕ → List ℕ → List AttentionItem → Board → Board
resolve_stale now ids [] b = b
resolve_stale now ids (x ∷ xs) b =
    resolve_stale now ids xs (if contains x.load_id ids then b else resolve_item now x.load_id b)

abbrev pub active_items : Board → List AttentionItem
active_items b = filter (λ (x : AttentionItem). x.active) b.items

abbrev pub load_ids : List OperationalLoad → List ℕ
load_ids = map (λ (l : OperationalLoad). l.id)

-- The pass of `run` over one organization.
unfoldable pub sweep : ℕ → List OperationalLoad → Board → Board
sweep now loads b =
    let applied = apply_each now loads b in
    resolve_stale now (load_ids loads) (active_items applied) applied
