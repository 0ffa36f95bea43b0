-- ===== src/Timezone/Text.antt =====
-- The texts of business-timezone.ts, as lists of code points: `parseNaiveComponents`, `hasExplicitOffset`
-- and `parseBusinessDateTime`.
use truckmaster.Base.{
  ℕ, zero, suc, ◌+◌, ◌-◌, ◌*◌, Bool, true, false, ◌&&◌, ◌||◌, Option, none, some, List, [], ◌∷◌,
  ◌==◌, leb, trim, if◌then◌else◌,
}
use mathlib.Core.List.{reverse}
use truckmaster.Base.Int.{ℤ}
use truckmaster.Timezone.{WallClock, parse_business_wall_clock}

infixl 5 ◌>>=◌
abbrev ◌>>=◌ : {A B : Type 0} → Option A → (A → Option B) → Option B
none >>= f = none
some a >>= f = f a

abbrev pub is_digit : ℕ → Bool
is_digit c = leb b'0' c && leb c b'9'

-- `\d{n}`, with the number that the digits write, and what follows.
abbrev pub digits : ℕ → ℕ → List ℕ → Option (ℕ × List ℕ)
digits zero acc cs = some (acc, cs)
digits (suc n) acc [] = none
digits (suc n) acc (c ∷ cs) =
    let rest = digits n (acc * 10 + (c - b'0')) cs in if is_digit c then rest else none

abbrev pub expect : ℕ → List ℕ → Option (List ℕ)
expect c [] = none
expect c (d ∷ ds) = if d == c then some ds else none

abbrev all_digits : List ℕ → Bool
all_digits [] = true
all_digits (c ∷ cs) = is_digit c && all_digits cs

-- `(?:\.\d+)?$`
abbrev is_fraction : List ℕ → Bool
is_fraction [] = true
is_fraction (c ∷ []) = false
is_fraction (c ∷ d ∷ ds) = c == b'.' && all_digits (d ∷ ds)

-- `(?::(\d{2})(?:\.\d+)?)?$`
abbrev pub seconds : List ℕ → Option ℕ
seconds [] = some 0
seconds (c ∷ cs) = do
  rest ← expect b':' (c ∷ cs)
  second ← digits 2 0 rest
  if is_fraction second.1 then some second.0 else none

-- `parseNaiveComponents`, where no match throws.
unfoldable pub parse_naive_components : List ℕ → Option WallClock
parse_naive_components input = do
  year ← digits 4 0 (trim input)
  r ← expect b'-' year.1
  month ← digits 2 0 r
  r ← expect b'-' month.1
  day ← digits 2 0 r
  r ← expect b'T' day.1
  hour ← digits 2 0 r
  r ← expect b':' hour.1
  minute ← digits 2 0 r
  second ← seconds minute.1
  some (record {
    year = year.0;
    month = month.0;
    day = day.0;
    hour = hour.0;
    minute = minute.0;
    second = second;
  })

abbrev is_sign : ℕ → Bool
is_sign c = c == b'+' || c == b'-'

-- `[+-]\d{2}:?\d{2}$`, read from the end
abbrev ends_with_offset : List ℕ → Bool
ends_with_offset (d ∷ c ∷ b ∷ a ∷ s ∷ []) =
    is_digit d && is_digit c && is_digit b && is_digit a && is_sign s
ends_with_offset (d ∷ c ∷ b ∷ a ∷ s ∷ t ∷ rest) =
    is_digit d
    && is_digit c
    && ((is_digit b && is_digit a && is_sign s)
        || (b == b':' && is_digit a && is_digit s && is_sign t))
ends_with_offset _ = false

-- `hasExplicitOffset`
abbrev ends_with_z : List ℕ → Bool
ends_with_z [] = false
ends_with_z (c ∷ cs) = c == b'Z'

unfoldable pub has_explicit_offset : List ℕ → Bool
has_explicit_offset input =
    let end = reverse (trim input) in ends_with_z end || ends_with_offset end

-- `parseBusinessDateTime`; `new Date` on a text with its own offset is an argument.
unfoldable pub parse_business_date_time : (List ℕ → Option ℤ) → (ℤ → WallClock) → List ℕ → Option ℤ
parse_business_date_time new_date wall_clock input =
    if has_explicit_offset input
    then new_date input
    else parse_naive_components input >>= parse_business_wall_clock wall_clock
