-- ===== src/Billing/Doubles.antt =====
-- The arithmetic of JavaScript numbers on amounts of money: IEEE 754 doubles, rounded to 53 bits, half to
-- even. Every double of a size of a cent or more is a multiple of 2^-59, so a double is written here as a whole
-- number of those.
use truckmaster.Base.{
  ℕ, zero, suc, ◌+◌, ◌*◌, ◌/◌, ◌%◌, true, false, ◌&&◌, ◌||◌, List, [], ◌∷◌, ◌==◌, ltb,
  if◌then◌else◌,
}
use truckmaster.Base.Int.{ℤ, pos, negsuc, ◌+ℤ◌, ◌-ℤ◌}

abbrev mantissa_bound : ℕ
mantissa_bound = 9_007_199_254_740_992

-- The power of two by which a quotient must be divided to have 53 bits; 128 steps are enough for quotients
-- below 2^181.
power : ℕ → ℕ → ℕ → ℕ
power zero p n = p
power (suc fuel) p n = elim (ltb (n / p) mantissa_bound) [ true ↦ p | false ↦ power fuel (p * 2) n ]

-- Up if the rest is more than half, or half and the quotient is odd.
abbrev rounded : ℕ → ℕ → ℕ → ℕ
rounded q rest d = if ltb d (rest * 2) || (rest * 2 == d && q % 2 == 1) then suc q else q

-- The double nearest to `n / d`.
unfoldable pub nearest : ℕ → ℕ → ℕ
unfolding power
nearest n d = let p = power 128 1 (n / d) in rounded (n / (d * p)) (n % (d * p)) (d * p) * p

-- `Number(amount)` of an amount in cents.
abbrev pub of_cents : ℕ → ℕ
of_cents cents = nearest (cents * 576_460_752_303_423_488) 100

abbrev pub of_signed_cents : ℤ → ℤ
of_signed_cents (pos cents) = pos (of_cents cents)
of_signed_cents (negsuc n) = pos 0 -ℤ pos (of_cents (suc n))

abbrev pub round_ℤ : ℤ → ℤ
round_ℤ (pos n) = pos (nearest n 1)
round_ℤ (negsuc n) = pos 0 -ℤ pos (nearest (suc n) 1)

-- `rows.reduce((sum, row) => sum + Number(row.amount), start)`
abbrev pub double_sum : ℕ → List ℕ → ℕ
double_sum start [] = start
double_sum start (cents ∷ rest) = double_sum (nearest (start + of_cents cents) 1) rest

-- `Number(total) - paid - credit + debit`
unfoldable pub double_remaining : ℤ → List ℕ → List ℕ → List ℕ → ℤ
double_remaining total paid credits debits = round_ℤ (
    round_ℤ
      (round_ℤ (of_signed_cents total -ℤ pos (double_sum 0 paid)) -ℤ pos (double_sum 0 credits))
    +ℤ pos (double_sum 0 debits))
