-- ===== src/Carrier/Registry/Counting.antt =====
-- The rows of a table that pass a test, when one row changes.
use truckmaster.Base.{
  ℕ, zero, suc, ◌≡◌, refl, ◌≤◌, ◌<◌, ◌+◌, Bool, true, false, Option, none, some, length, filter,
  find, arith, if◌then◌else◌, Option-cases, inl, inr,
}
use truckmaster.Store.Transaction.{Table, put}
use truckmaster.Store.Queries.{rows_below}

module _ {A : Type 0} (p : A → Bool) where
  abbrev pub weight : Option A → ℕ
  weight none = 0
  weight (some a) = if p a then 1 else 0

  abbrev pub passing : ℕ → Table A → ℕ
  passing n t = length (filter p (rows_below n t))

  pub passing-suc : (n : ℕ) (t : Table A) → passing (suc n) t ≡ weight (t n) + passing n t
  unfolding rows_below
  passing-suc n t = elim (Option-cases (t n)) [
    | inl e ↦ ground (arith, e)
    | inr (a, e) ↦ ground (arith, e)
  ]

  pub passing-put_above :
      (n id : ℕ) (v : A) (t : Table A) → n ≤ id → passing n (put id v t) ≡ passing n t
  unfolding rows_below
  passing-put_above zero id v t h = refl
  passing-put_above (suc n) id v t h =
      ground (arith, passing-suc n (put id v t), passing-suc n t, passing-put_above n id v t)

  -- A row that is replaced counts as the new one does.
  pub passing-put :
      (n id : ℕ) (v : A) (t : Table A)
      → id < n
      → passing n (put id v t) + weight (t id) ≡ passing n t + weight (some v)
  passing-put zero id v t h = omega arith
  passing-put (suc n) id v t h =
      let above = passing-put_above n id v t in
      let below = passing-put n id v t in
      ground (arith, passing-suc n (put id v t), passing-suc n t, above, below)

  pub find-rows_below :
      (n k : ℕ) (t : Table A) (a : A)
      → find p (rows_below n t) ≡ none
      → k < n
      → t k ≡ some a
      → p a ≡ false
  unfolding rows_below
  find-rows_below zero k t a h less e = ground arith
  find-rows_below (suc n) k t a h less e = elim (Option-cases (t n)) [
    | inl x ↦ ground (arith, x, find-rows_below n k t a)
    | inr (b, x) ↦ ground (arith, x, find-rows_below n k t a)
  ]

  pub passing-present :
      (n k : ℕ) (t : Table A) (a : A) → k < n → t k ≡ some a → p a ≡ true → 1 ≤ passing n t
  passing-present zero k t a less e h = ground arith
  passing-present (suc n) k t a less e h = ground (arith, passing-suc n t, passing-present n k t a)
