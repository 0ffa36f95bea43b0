-- ===== src/Risk/Bounds.antt =====
-- The severities and the minutes of eta-risk.ts and appointment-risk.ts.
use truckmaster.Base.{
  ℕ, ◌+◌, ◌-◌, ◌*◌, ◌≤◌, ◌<◌, ◌≡◌, Option, none, some, List, leb, if◌then◌else◌, arith,
  Option-cases, inl, inr,
}
use truckmaster.Store.Rows.{Stop}
use truckmaster.Risk.{
  EtaRisk, Imminent, find_applicable_stop, evaluate_eta_risk, evaluate_appointment_imminent,
  appointment_of, minutes, ceil_minutes, last_activity, Severity,
}

ceil_minutes-bounds :
    (ms : ℕ) → (ms ≤ ceil_minutes ms * 60_000) × (ceil_minutes ms * 60_000 < ms + 60_000)
ceil_minutes-bounds ms = (omega arith, omega arith)

-- An estimated arrival that is reported as a risk is after the appointment, by the minutes of the
-- report, at least one, rounded up.
pub evaluate_eta_risk-bounds :
    (now : ℕ) (eta : Option ℕ) (stops : List Stop) (r : EtaRisk)
    → evaluate_eta_risk now eta stops ≡ some r
    → (eta ≡ some r.current_eta)
      × (0 < r.minutes_after)
      × (r.current_eta ≤ r.appointment + minutes r.minutes_after)
      × (r.appointment + minutes r.minutes_after < r.current_eta + 60_000)
unfolding evaluate_eta_risk
evaluate_eta_risk-bounds now none stops r h = cc
evaluate_eta_risk-bounds now (some eta) stops r h =
    elim (Option-cases (find_applicable_stop now stops)) [
      | inl nothing ↦ ground (arith, h, nothing)
      | inr (s, e) ↦ ground (arith, h, e, ceil_minutes-bounds (eta - appointment_of s))
    ]

-- An appointment that is reported as imminent is ahead, by three hours at most, and the last activity
-- was known and is two hours ago or more, by the minutes of the report; the severity is High if the
-- appointment is at most an hour ahead, and Medium otherwise.
pub evaluate_appointment_imminent-bounds :
    (now : ℕ) (located dispatched : Option ℕ) (stops : List Stop) (r : Imminent)
    → evaluate_appointment_imminent now located dispatched stops ≡ some r
    → (now < r.appointment)
      × (r.appointment ≤ now + minutes 180)
      × (r.until_appointment ≡ r.appointment - now)
      × ((at : ℕ) × (last_activity located dispatched ≡ some at)
          × (at + minutes 120 ≤ now)
          × (r.since_activity ≡ now - at))
      × (r.severity
          ≡ (if leb r.appointment (now + minutes 60) then Severity.high else Severity.medium))
unfolding evaluate_appointment_imminent
evaluate_appointment_imminent-bounds now located dispatched stops r h =
    elim (Option-cases (find_applicable_stop now stops)) [
      | inl nothing ↦ ground (arith, h, nothing)
      | inr (s, e) ↦ elim (Option-cases (last_activity located dispatched)) [
        | inl silent ↦ ground (arith, h, e, silent)
        | inr (at, known) ↦ (
          ground (arith, h, e, known),
          ground (arith, h, e, known),
          ground (arith, h, e, known),
          (at, known, ground (arith, h, e, known), ground (arith, h, e, known)),
          ground (arith, h, e, known),
        )
      ]
    ]
