-- ===== src/Tests/Times.antt =====
-- Examples of the theorems about members, wall clocks and risks.
use truckmaster.Base.{
  leb, arith, codes, trim, ℕ, ◌+◌, ◌-◌, ◌/◌, ◌%◌, ◌≤◌, ◌<◌, ◌≡◌, inl, refl, true, Option, none,
  some, List, [], ◌∷◌, ltb, sort_by, if◌then◌else◌,
}
use truckmaster.Base.Int.{ℤ, pos, negsuc, ◌-ℤ◌, leb_ℤ}
use truckmaster.Store.Statuses.{
  LoadStatus, CarrierStatus, MembershipStatus, Role, StopStatus, StopType,
}
use truckmaster.Store.Rows.{Membership, Stop}
use truckmaster.Store.Transaction.{Store}
use truckmaster.Identity.Admins
use truckmaster.Identity.Admins.{run-has_active_admin}
use truckmaster.Identity.Admins.Keeping.{has_active_admin}
use truckmaster.Timezone.{
  WallClock, to_utc_ms, offset_at, candidates, day_start, parse_business_wall_clock,
}
use truckmaster.Timezone.Text.{parse_naive_components}
use truckmaster.Timezone.Writing.{written, parse_naive_components-written}
use truckmaster.Timezone.Parsing.{parse-shows, parse-earliest}
use truckmaster.Risk.{
  EtaRisk, Imminent, ActivitySource, Severity, evaluate_eta_risk, evaluate_appointment_imminent,
  find_applicable_stop, minutes,
}
use truckmaster.Risk.Bounds.{evaluate_eta_risk-bounds, evaluate_appointment_imminent-bounds}
use truckmaster.Risk.Sweep.{OperationalLoad, Board, sweep}
use truckmaster.Risk.Alerts.{has_active_item, is_at_risk, sweep-has_active_item}
use truckmaster.Tests.{office, arrived_stop}

abbrev admin : Membership
admin = record {
  id = 1;
  organization_id = 1;
  user_id = 20;
  status = MembershipStatus.active;
  invited_by_user_id = none;
  invited_at = none;
  invitation_token_hash = none;
  invitation_expires_at = none;
  activated_at = some 1;
  deactivated_at = none;
  deactivated_by_user_id = none;
  roles = Role.admin ∷ [];
}

abbrev staffed : Store
staffed =
    let s = office LoadStatus.delivered CarrierStatus.active in
    record s { master = record s.master { memberships = admin ∷ [] } }

abbrev leaving : List Admins.Request
leaving =
    record {
      now = 5;
      organization_id = 1;
      actor = 20;
      token_hash = 9;
      operation = Admins.Operation.deactivate 1;
    }
    ∷ []

run-has_active_admin_example :
    has_active_admin 1 (Admins.run (λ x. x) (λ x. x) leaving staffed) ≡ true
run-has_active_admin_example = run-has_active_admin (λ x. x) (λ x. x) 1 leaving staffed refl

-- A zone one hour ahead, and two from ten o'clock of the first day of 1970 on.
abbrev local_ms : ℕ → ℕ
local_ms ms = ms + (if ltb ms 36_000_000 then 3_600_000 else 7_200_000)

abbrev first_day : ℤ → WallClock
first_day (pos ms) = record {
  year = 1970;
  month = 1;
  day = 1;
  hour = local_ms ms / 3_600_000 % 24;
  minute = local_ms ms / 60_000 % 60;
  second = local_ms ms / 1000 % 60;
}
first_day (negsuc n) = record {
  year = 1969;
  month = 12;
  day = 31;
  hour = 0;
  minute = 0;
  second = 0;
}

abbrev early : WallClock
early = record { year = 1970; month = 1; day = 1; hour = 4; minute = 30; second = 0 }

parsed : parse_business_wall_clock first_day early ≡ some (pos 12_600_000)
unfolding parse_business_wall_clock candidates offset_at to_utc_ms ◌-ℤ◌
parsed = refl

parse-shows_example : first_day (pos 12_600_000) ≡ early
parse-shows_example = parse-shows first_day early (pos 12_600_000) parsed

at_start :
    offset_at first_day (pos 12_600_000)
    ≡ offset_at first_day (to_utc_ms (day_start (first_day (pos 12_600_000))))
unfolding offset_at to_utc_ms ◌-ℤ◌
at_start = refl

parse-earliest_example :
    (m : ℤ) × (parse_business_wall_clock first_day early ≡ some m)
    × (first_day m ≡ early)
    × (leb_ℤ m (pos 12_600_000) ≡ true)
parse-earliest_example = parse-earliest first_day (pos 12_600_000) (inl at_start)

-- A stop with an appointment at three o'clock.
abbrev pending : Stop
pending = record arrived_stop {
  status = StopStatus.pending;
  details = record arrived_stop.details { appointment_datetime = some 10_800_000 };
}

abbrev risk : EtaRisk
risk = record {
  stop_type = StopType.pickup;
  appointment = 10_800_000;
  current_eta = 12_000_001;
  minutes_after = 21;
  severity = Severity.high;
}

evaluated : evaluate_eta_risk 7_200_000 (some 12_000_001) (pending ∷ []) ≡ some risk
unfolding evaluate_eta_risk find_applicable_stop sort_by
evaluated = refl

evaluate_eta_risk-bounds_example :
    (◌≡◌ {A = Option ℕ} (some 12_000_001) (some 12_000_001))
    × (0 < 21)
    × (12_000_001 ≤ 10_800_000 + minutes 21)
    × (10_800_000 + minutes 21 < 12_000_001 + 60_000)
evaluate_eta_risk-bounds_example =
    evaluate_eta_risk-bounds 7_200_000 (some 12_000_001) (pending ∷ []) risk evaluated

abbrev near : Imminent
near = record {
  stop_type = StopType.pickup;
  appointment = 10_800_000;
  until_appointment = 1_000_000;
  since_activity = 9_800_000;
  source = ActivitySource.dispatch;
  severity = Severity.high;
}

imminent : evaluate_appointment_imminent 9_800_000 none (some 0) (pending ∷ []) ≡ some near
unfolding evaluate_appointment_imminent find_applicable_stop sort_by
imminent = refl

evaluate_appointment_imminent-bounds_example :
    (9_800_000 < 10_800_000)
    × (10_800_000 ≤ 9_800_000 + minutes 180)
    × (1_000_000 ≡ 10_800_000 - 9_800_000)
    × ((at : ℕ) × (some 0 ≡ some at)
        × (at + minutes 120 ≤ 9_800_000)
        × (9_800_000 ≡ 9_800_000 - at))
    × (Severity.high
        ≡ (if leb 10_800_000 (9_800_000 + minutes 60) then Severity.high else Severity.medium))
evaluate_appointment_imminent-bounds_example =
    evaluate_appointment_imminent-bounds 9_800_000 none (some 0) (pending ∷ []) near imminent

abbrev under_way : List OperationalLoad
under_way = record { id = 7; current_eta = some 12_000_001; stops = pending ∷ [] } ∷ []

abbrev empty_board : Board
empty_board = record { items = []; audit = [] }

sweep-has_active_item_example :
    has_active_item 7 (sweep 7_200_000 under_way empty_board) ≡ is_at_risk 7_200_000 7 under_way
sweep-has_active_item_example = sweep-has_active_item 7_200_000 7 under_way empty_board refl

abbrev september : WallClock
september = record { year = 2026; month = 9; day = 1; hour = 14; minute = 30; second = 5 }

typed : trim (codes " 2026-09-01T14:30:05") ≡ written september
unfolding trim
typed = refl

parse_naive_components-written_example :
    parse_naive_components (codes " 2026-09-01T14:30:05") ≡ some september
parse_naive_components-written_example =
    parse_naive_components-written (codes " 2026-09-01T14:30:05") september typed (record {
      year = omega arith;
      month = omega arith;
      day = omega arith;
      hour = omega arith;
      minute = omega arith;
      second = omega arith;
    })
