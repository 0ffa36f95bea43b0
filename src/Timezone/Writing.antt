-- ===== src/Timezone/Writing.antt =====
-- `parseNaiveComponents` of business-timezone.ts on the texts that a `datetime-local` input produces.
use truckmaster.Base.{
  ℕ, suc, ◌+◌, ◌*◌, ◌/◌, ◌%◌, ◌<◌, ◌≡◌, refl, ap, ◌∙◌, some, List, [], ◌∷◌, trim, arith,
}
use truckmaster.Timezone.{WallClock}
use truckmaster.Timezone.Text.{digits, parse_naive_components}

abbrev pub two_digits : ℕ → List ℕ → List ℕ
two_digits n rest = (b'0' + n / 10) ∷ (b'0' + n % 10) ∷ rest

abbrev pub four_digits : ℕ → List ℕ → List ℕ
four_digits n rest = two_digits (n / 100) (two_digits (n % 100) rest)

-- YYYY-MM-DDTHH:mm:ss
abbrev pub written : WallClock → List ℕ
written w = four_digits w.year (
    b'-'
    ∷ two_digits w.month (
        b'-'
        ∷ two_digits w.day (
            b'T' ∷ two_digits w.hour (b':' ∷ two_digits w.minute (b':' ∷ two_digits w.second [])))))

-- A year of four digits, and two digits for the rest.
pub record IsWritable (w : WallClock) : Type 0 where
  pub year : w.year < 10_000
  pub month : w.month < 100
  pub day : w.day < 100
  pub hour : w.hour < 100
  pub minute : w.minute < 100
  pub second : w.second < 100

digits-step :
    (k acc n : ℕ) (rest : List ℕ)
    → n < 10
    → digits (suc k) acc ((b'0' + n) ∷ rest) ≡ digits k (acc * 10 + n) rest
digits-step k acc n rest h = ground arith

digits-two_digits :
    (n : ℕ) (rest : List ℕ) → n < 100 → digits 2 0 (two_digits n rest) ≡ some (n, rest)
digits-two_digits n rest h =
    let tens = digits-step 1 0 (n / 10) ((b'0' + n % 10) ∷ rest) (omega arith) in
    let ones = digits-step 0 (0 * 10 + n / 10) (n % 10) rest (omega arith) in
    let whole : (0 * 10 + n / 10) * 10 + n % 10 ≡ n = omega arith in
    tens ∙ ones ∙ ap (λ k. some (k, rest)) whole

digits-four_digits :
    (n : ℕ) (rest : List ℕ) → n < 10_000 → digits 4 0 (four_digits n rest) ≡ some (n, rest)
digits-four_digits n rest h =
    let a = n / 100 / 10 in
    let b = n / 100 % 10 in
    let c = n % 100 / 10 in
    let d = n % 100 % 10 in
    let end = two_digits (n % 100) rest in
    let first = digits-step 3 0 a ((b'0' + b) ∷ end) (omega arith) in
    let second = digits-step 2 (0 * 10 + a) b end (omega arith) in
    let third = digits-step 1 ((0 * 10 + a) * 10 + b) c ((b'0' + d) ∷ rest) (omega arith) in
    let fourth = digits-step 0 (((0 * 10 + a) * 10 + b) * 10 + c) d rest (omega arith) in
    let whole : (((0 * 10 + a) * 10 + b) * 10 + c) * 10 + d ≡ n = omega arith in
    first ∙ second ∙ third ∙ fourth ∙ ap (λ k. some (k, rest)) whole

-- A text that is, within white space, the writing of a wall clock time whose year has four digits and
-- whose other parts have two is read as that time.
pub parse_naive_components-written :
    (input : List ℕ) (w : WallClock)
    → trim input ≡ written w
    → IsWritable w
    → parse_naive_components input ≡ some w
unfolding parse_naive_components
parse_naive_components-written input w h ok =
    rw
      (
        h,
        digits-four_digits w.year _ ok.year,
        digits-two_digits w.month _ ok.month,
        digits-two_digits w.day _ ok.day,
        digits-two_digits w.hour _ ok.hour,
        digits-two_digits w.minute _ ok.minute,
        digits-two_digits w.second [] ok.second,
      )
      refl
