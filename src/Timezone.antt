-- ===== src/Timezone.antt =====
-- backend/src/common/timezone/business-timezone.ts. The wall clock that `Intl` shows in a time zone is an
-- argument, as is the reading of a text with its own offset by `new Date`; instants are in milliseconds.
pub mod Parsing
pub mod Text
pub mod Writing
use truckmaster.Base.{
  ℕ, ◌+◌, ◌-◌, ◌*◌, ◌/◌, ◌%◌, Bool, true, false, not, ◌&&◌, ◌||◌, Option, none, some, List, [], ◌∷◌,
  ◌==◌, leb, if◌then◌else◌, map, filter,
}
use truckmaster.Base.Int.{ℤ, pos, ◌+ℤ◌, ◌-ℤ◌, leb_ℤ}

-- `WallClockParts`
pub record WallClock : Type 0 where
  pub year : ℕ
  pub month : ℕ
  pub day : ℕ
  pub hour : ℕ
  pub minute : ℕ
  pub second : ℕ

abbrev is_leap : ℕ → Bool
is_leap y = y % 4 == 0 && (not (y % 100 == 0) || y % 400 == 0)

abbrev days_before_month : ℕ → List ℕ → ℕ
days_before_month m [] = 0
days_before_month m (d ∷ ds) =
    let rest = days_before_month (m - 1) ds in if m == 0 then 0 else d + rest

abbrev month_lengths : ℕ → List ℕ
month_lengths y =
    31 ∷ (if is_leap y then 29 else 28) ∷ 31 ∷ 30 ∷ 31 ∷ 30 ∷ 31 ∷ 31 ∷ 30 ∷ 31 ∷ 30 ∷ 31 ∷ []

-- The days from the first of January of the year 0 to that of `y`.
abbrev days_before_year : ℕ → ℕ
days_before_year y = 365 * y + (y + 3) / 4 - (y + 99) / 100 + (y + 399) / 400

-- `Date.UTC`, where a month beyond the twelfth carries into the year, and the years 0 to 99 are 1900
-- to 1999.
abbrev full_year : ℕ → ℕ
full_year y = if leb y 99 then 1900 + y else y

unfoldable pub to_utc_ms : WallClock → ℤ
to_utc_ms w =
    let months = 12 * full_year w.year + w.month - 1 in
    let year = months / 12 in
    let days =
      days_before_year year + days_before_month (months % 12) (month_lengths year) + w.day - 1 in
    pos ((((days * 24 + w.hour) * 60 + w.minute) * 60 + w.second) * 1000)
    -ℤ pos (days_before_year 1970 * 86_400_000)

abbrev pub parts_equal : WallClock → WallClock → Bool
parts_equal a b =
    a.year == b.year
    && a.month == b.month
    && a.day == b.day
    && a.hour == b.hour
    && a.minute == b.minute
    && a.second == b.second

-- `Array.from(new Set([a, b]))`
abbrev pub equal_ℤ : ℤ → ℤ → Bool
equal_ℤ a b = leb_ℤ a b && leb_ℤ b a

abbrev pub distinct_pair : ℤ → ℤ → List ℤ
distinct_pair a b = if equal_ℤ a b then a ∷ [] else a ∷ b ∷ []

-- `Math.min` of the matches, where there is any.
abbrev pub min_ℤ : ℤ → ℤ → ℤ
min_ℤ a b = if leb_ℤ a b then a else b

abbrev pub least : List ℤ → Option ℤ
least [] = none
least (x ∷ xs) = elim (least xs) [ none ↦ some x | some y ↦ some (min_ℤ x y) ]

abbrev pub day_start : WallClock → WallClock
day_start w = record w { hour = 0; minute = 0; second = 0 }

abbrev pub day_end : WallClock → WallClock
day_end w = record w { hour = 23; minute = 59; second = 59 }

-- In the zone that shows the wall clock `wall_clock` at each instant. Offsets are in milliseconds.
module _ (wall_clock : ℤ → WallClock) where
  unfoldable pub offset_at : ℤ → ℤ
  offset_at instant = to_utc_ms (wall_clock instant) -ℤ instant

  unfoldable pub candidates : WallClock → List ℤ
  candidates target =
      map (λ offset. to_utc_ms target -ℤ offset)
        (distinct_pair (offset_at (to_utc_ms (day_start target)))
          (offset_at (to_utc_ms (day_end target))))

  -- `parseBusinessWallClock` on the components; a text that is no wall clock time of the zone throws.
  unfoldable pub parse_business_wall_clock : WallClock → Option ℤ
  parse_business_wall_clock target =
      least (filter (λ c. parts_equal (wall_clock c) target) (candidates target))
