-- ===== src/Carrier/Newest.antt =====
-- What the rows are that the eligibility rules of carrier-eligibility.service.ts read: some row of a table,
-- and the newest of the rows that match.
use truckmaster.Base.{
  ℕ, ◌≤◌, ◌≡◌, refl, sym, ◌⊎◌, Bool, true, none, some, List, [], ◌∷◌, arith, All, any, filter, find,
  leb, last_max, Bool-cases, Option-cases, inl, inr,
}
use mathlib.Core.Path.{subst}

module _ {A : Type 0} where
  -- Some member of a list satisfies the predicate.
  abbrev pub Any : (A → Type 0) → List A → Type 0
  Any P [] = ⊥
  Any P (x ∷ xs) = P x ⊎ Any P xs

  pub Any-map : (P Q : A → Type 0) (xs : List A) → ((x : A) → P x → Q x) → Any P xs → Any Q xs
  Any-map P Q [] f h = elim h [ ]
  Any-map P Q (x ∷ xs) f h = elim h [
    | inl here ↦ inl (f x here)
    | inr there ↦ inr (Any-map P Q xs f there)
  ]

  pub any-Any : (p : A → Bool) (xs : List A) → any p xs ≡ true → Any (λ x. p x ≡ true) xs
  any-Any p [] h = cc
  any-Any p (x ∷ xs) h = elim (Bool-cases (p x)) [
    | inl e ↦ inl e
    | inr e ↦ inr (any-Any p xs (ground (arith, h, e)))
  ]

  pub find-Any :
      (p : A → Bool) (xs : List A) (a : A)
      → find p xs ≡ some a
      → Any (λ x. (x ≡ a) × (p x ≡ true)) xs
  find-Any p [] a h = cc
  find-Any p (x ∷ xs) a h = elim (Bool-cases (p x)) [
    | inl e ↦ inl (ground (arith, h, e), e)
    | inr e ↦ inr (find-Any p xs a (ground (arith, h, e)))
  ]

module _ {A : Type 0} (key : A → ℕ) (p : A → Bool) where
  -- No row that matches is newer.
  abbrev pub IsNewest : ℕ → List A → Type 0
  IsNewest n = All (λ x. p x ≡ true → key x ≤ n)

  IsNewest-none : (n : ℕ) (xs : List A) → last_max key (filter p xs) ≡ none → IsNewest n xs
  IsNewest-none n [] h = tt
  IsNewest-none n (x ∷ xs) h = elim (Option-cases (last_max key (filter p xs))) [
    | inl e ↦ (λ k. ground (arith, h, k, e), IsNewest-none n xs e)
    | inr (b, e) ↦ elim (Bool-cases (p x)) [
      | inl k ↦ ground (arith, h, k, e)
      | inr k ↦ ground (arith, h, k, e)
    ]
  ]

  IsNewest-le : (m n : ℕ) (xs : List A) → m ≤ n → IsNewest m xs → IsNewest n xs
  IsNewest-le m n [] h k = tt
  IsNewest-le m n (x ∷ xs) h k = (λ e. ground (arith, h, k.0 e), IsNewest-le m n xs h k.1)

  -- The greatest of the rows that match is one of them, and none of them is newer.
  pub last_max-IsNewest :
      (xs : List A) (d : A)
      → last_max key (filter p xs) ≡ some d
      → Any (λ x. (x ≡ d) × (p x ≡ true)) xs × IsNewest (key d) xs
  last_max-IsNewest [] d h = cc
  last_max-IsNewest (x ∷ xs) d h = elim (Bool-cases (p x)) [
    | inr k ↦
        let (found, newest) = last_max-IsNewest xs d (ground (arith, h, k)) in
        (inr found, (λ e. ground (arith, k, e), newest))
    | inl k ↦ elim (Option-cases (last_max key (filter p xs))) [
      | inl e ↦
          let same : x ≡ d = ground (arith, h, k, e) in
          (
            inl (same, k),
            (λ q. subst (λ y. key y ≤ key d) (sym same) (omega arith), IsNewest-none (key d) xs e),
          )
      | inr (b, e) ↦
          let (found, newest) = last_max-IsNewest xs b e in
          elim (Bool-cases (leb (key x) (key b))) [
            | inl below ↦
                let same : b ≡ d = ground (arith, h, k, e, below) in
                let bound : key x ≤ key b = ground (arith, below) in
                subst (λ y. Any (λ z. (z ≡ y) × (p z ≡ true)) (x ∷ xs) × IsNewest (key y) (x ∷ xs))
                  same (inr found, (λ q. bound, newest))
            | inr above ↦
                let same : x ≡ d = ground (arith, h, k, e, above) in
                subst (λ y. Any (λ z. (z ≡ y) × (p z ≡ true)) (x ∷ xs) × IsNewest (key y) (x ∷ xs))
                  same
                  (
                    inl (refl, k),
                    (
                      λ q. omega arith,
                      IsNewest-le (key b) (key x) xs (ground (arith, above)) newest,
                    ),
                  )
          ]
    ]
  ]
