-- ===== src/Timezone/Parsing.antt =====
-- `parseBusinessWallClock` of business-timezone.ts, against the wall clock of the zone.
use truckmaster.Base.{
  ◌≡◌, ◌⊎◌, inl, inr, sym, ap, ◌∙◌, Bool, true, some, List, [], ◌∷◌, arith, filter, map,
  Option-cases, Bool-cases,
}
use truckmaster.Base.Int.{ℤ, ◌-ℤ◌, leb_ℤ, int_laws}
use truckmaster.Timezone.{
  WallClock, to_utc_ms, parts_equal, equal_ℤ, distinct_pair, least, min_ℤ, day_start, day_end,
  offset_at, candidates, parse_business_wall_clock,
}

parts_equal_sound : (a b : WallClock) → parts_equal a b ≡ true → a ≡ b
parts_equal_sound a b h = ground arith

parts_equal_refl : (a : WallClock) → parts_equal a a ≡ true
parts_equal_refl a = ground arith

least_passes : (p : ℤ → Bool) (xs : List ℤ) (m : ℤ) → least (filter p xs) ≡ some m → p m ≡ true
least_passes p [] m h = cc
least_passes p (x ∷ xs) m h = elim (Option-cases (least (filter p xs))) [
  | inl nothing ↦ ground (arith, h, nothing)
  | inr (y, e) ↦ ground (arith, h, e, least_passes p xs y e)
]

module _ (p : ℤ → Bool) (t : ℤ) (passes : p t ≡ true) where
  least-first : (xs : List ℤ) → (m : ℤ) × (least (filter p (t ∷ xs)) ≡ some m) × (leb_ℤ m t ≡ true)
  least-first xs = elim (Option-cases (least (filter p xs))) [
    | inl nothing ↦ (t, ground (arith, passes, nothing), ground arith)
    | inr (y, e) ↦ (min_ℤ t y, ground (arith, passes, e), ground arith)
  ]

  least-later :
      (x : ℤ) (xs : List ℤ)
      → (m : ℤ) × (least (filter p xs) ≡ some m) × (leb_ℤ m t ≡ true)
      → (m : ℤ) × (least (filter p (x ∷ xs)) ≡ some m) × (leb_ℤ m t ≡ true)
  least-later x xs (m, e, few) = elim (Bool-cases (p x)) [
    | inl h ↦ (min_ℤ x m, ground (arith, h, e), ground (arith, few))
    | inr h ↦ (m, ground (arith, h, e), few)
  ]

equal_ℤ_sound : (a b : ℤ) → equal_ℤ a b ≡ true → a ≡ b
equal_ℤ_sound a b h = ground arith

shifted : (a b : ℤ) → a -ℤ (a -ℤ b) ≡ b
shifted a b = omega int_laws

-- A wall clock time that is parsed is what the zone shows at the result.
pub parse-shows :
    (wall_clock : ℤ → WallClock) (target : WallClock) (m : ℤ)
    → parse_business_wall_clock wall_clock target ≡ some m
    → wall_clock m ≡ target
unfolding parse_business_wall_clock
parse-shows wall_clock target m h =
    parts_equal_sound (wall_clock m) target
      (least_passes (λ c. parts_equal (wall_clock c) target) (candidates wall_clock target) m h)

-- Of two candidates, one of which passes the test.
least-pair :
    (p : ℤ → Bool) (n t a b : ℤ)
    → p t ≡ true
    → (n -ℤ a ≡ t) ⊎ (n -ℤ b ≡ t)
    → (m : ℤ) × (least (filter p (map (λ o. n -ℤ o) (distinct_pair a b))) ≡ some m)
      × (leb_ℤ m t ≡ true)
least-pair p n t a b passes is_one = elim (Bool-cases (equal_ℤ a b)) [
  | inl same ↦
      let e : n -ℤ a ≡ t = elim is_one [
        | inl h ↦ h
        | inr h ↦ ap (λ x. n -ℤ x) (equal_ℤ_sound a b same) ∙ h
      ] in
      let (m, least, few) = least-first p t passes [] in (m, rw (same, e) least, few)
  | inr other ↦ elim is_one [
    | inl h ↦
        let (m, least, few) = least-first p t passes ((n -ℤ b) ∷ []) in
        (m, rw (other, h) least, few)
    | inr h ↦
        let (m, least, few) =
          least-later p t passes (n -ℤ a) (t ∷ []) (least-first p t passes []) in
        (m, rw (other, h) least, few)
  ]
]

-- If an instant shows the wall clock time, and the offset of the zone at it is the one at the start or
-- at the end of the day in question, then the time is parsed, to an instant that shows it too and is
-- not later.
pub parse-earliest :
    (wall_clock : ℤ → WallClock) (t : ℤ)
    → (offset_at wall_clock t ≡ offset_at wall_clock (to_utc_ms (day_start (wall_clock t))))
      ⊎ (offset_at wall_clock t ≡ offset_at wall_clock (to_utc_ms (day_end (wall_clock t))))
    → (m : ℤ) × (parse_business_wall_clock wall_clock (wall_clock t) ≡ some m)
      × (wall_clock m ≡ wall_clock t)
      × (leb_ℤ m t ≡ true)
unfolding parse_business_wall_clock candidates offset_at
parse-earliest wall_clock t probed =
    let target = wall_clock t in
    let p = λ (c : ℤ). parts_equal (wall_clock c) target in
    let a = offset_at wall_clock (to_utc_ms (day_start target)) in
    let b = offset_at wall_clock (to_utc_ms (day_end target)) in
    let n = to_utc_ms target in
    let at : n -ℤ offset_at wall_clock t ≡ t = shifted n t in
    let (m, parsed, few) = least-pair p n t a b (parts_equal_refl target) (elim probed [
      | inl h ↦ inl (ap (λ x. n -ℤ x) (sym h) ∙ at)
      | inr h ↦ inr (ap (λ x. n -ℤ x) (sym h) ∙ at)
    ]) in
    (m, parsed, parts_equal_sound (wall_clock m) target (least_passes p _ m parsed), few)
