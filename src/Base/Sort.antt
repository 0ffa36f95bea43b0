-- ===== src/Base/Sort.antt =====
-- `Array.prototype.sort` with a comparator on a number: a stable sort, here by insertion.
use Prim.Native.Nat.{ℕ, ◌≤◌}
use mathlib.Core.Path.{◌≡◌, refl, ◌∙◌}
use mathlib.Core.Option.{Option, none, some}
use mathlib.Core.Logic.{inl, inr}
use mathlib.Core.List.{List, [], ◌∷◌}
use native.Mathlib.Omega.{arith}
use truckmaster.Base.Tests.{leb, if◌then◌else◌, Bool-cases}
use truckmaster.Base.Lists.{last?, All}

module _ {ℓ} {A : Type ℓ} (key : A → ℕ) where
  insert_by : A → List A → List A
  insert_by a [] = a ∷ []
  insert_by a (x ∷ xs) = if leb (key a) (key x) then a ∷ x ∷ xs else x ∷ insert_by a xs

  unfoldable pub sort_by : List A → List A
  unfolding insert_by
  sort_by [] = []
  sort_by (x ∷ xs) = insert_by x (sort_by xs)

  insert_desc_by : A → List A → List A
  insert_desc_by a [] = a ∷ []
  insert_desc_by a (x ∷ xs) = if leb (key x) (key a) then a ∷ x ∷ xs else x ∷ insert_desc_by a xs

  -- `sort((a, b) => b.key - a.key)`
  unfoldable pub sort_desc_by : List A → List A
  unfolding insert_desc_by
  sort_desc_by [] = []
  sort_desc_by (x ∷ xs) = insert_desc_by x (sort_desc_by xs)

  abbrev pub IsAscending : List A → Type 0
  IsAscending [] = Unit
  IsAscending (x ∷ xs) = All (λ y. key x ≤ key y) xs × IsAscending xs

  All-le_trans : (m n : ℕ) (xs : List A) → m ≤ n → All (λ y. n ≤ key y) xs → All (λ y. m ≤ key y) xs
  All-le_trans m n [] h k = tt
  All-le_trans m n (x ∷ xs) h k = (omega arith, All-le_trans m n xs h k.1)

  All-insert_by :
      (m : ℕ) (a : A) (xs : List A)
      → m ≤ key a
      → All (λ y. m ≤ key y) xs
      → All (λ y. m ≤ key y) (insert_by a xs)
  unfolding insert_by
  All-insert_by m a [] h k = (h, tt)
  All-insert_by m a (x ∷ xs) h k = elim (Bool-cases (leb (key a) (key x))) [
    | inl e ↦ rw e (h, (k.0, k.1))
    | inr e ↦ rw e (k.0, All-insert_by m a xs h k.1)
  ]

  insert_by-IsAscending : (a : A) (xs : List A) → IsAscending xs → IsAscending (insert_by a xs)
  unfolding insert_by
  insert_by-IsAscending a [] h = (tt, tt)
  insert_by-IsAscending a (x ∷ xs) h = elim (Bool-cases (leb (key a) (key x))) [
    | inl e ↦ rw e ((ground arith, All-le_trans (key a) (key x) xs (ground arith) h.0), (h.0, h.1))
    | inr e ↦ rw e (All-insert_by (key x) a xs (ground arith) h.0, insert_by-IsAscending a xs h.1)
  ]

  pub sort_by-IsAscending : (xs : List A) → IsAscending (sort_by xs)
  unfolding sort_by
  sort_by-IsAscending [] = tt
  sort_by-IsAscending (x ∷ xs) = insert_by-IsAscending x (sort_by xs) (sort_by-IsAscending xs)

  -- The greatest key; of equal keys, the one that stands later.
  abbrev pub later_max : A → Option A → Option A
  later_max a none = some a
  later_max a (some b) = if leb (key a) (key b) then some b else some a

  abbrev pub last_max : List A → Option A
  last_max [] = none
  last_max (x ∷ xs) = later_max x (last_max xs)

  last-cons-insert_by :
      (x a : A) (xs : List A) → last? (x ∷ insert_by a xs) ≡ last? (insert_by a xs)
  unfolding insert_by
  last-cons-insert_by x a [] = refl
  last-cons-insert_by x a (y ∷ ys) = ground arith

  le-last : (m : ℕ) (xs : List A) (b : A) → All (λ y. m ≤ key y) xs → last? xs ≡ some b → m ≤ key b
  le-last m [] b h e = cc
  le-last m (x ∷ []) b h e = ground arith
  le-last m (x ∷ y ∷ ys) b h e = le-last m (y ∷ ys) b h.1 e

  last_found : (x : A) (xs : List A) → (b : A) × (last? (x ∷ xs) ≡ some b)
  last_found x [] = (x, refl)
  last_found x (y ∷ ys) = last_found y ys

  last-insert_by :
      (a : A) (xs : List A) → IsAscending xs → last? (insert_by a xs) ≡ later_max a (last? xs)
  unfolding insert_by
  last-insert_by a [] h = refl
  last-insert_by a (x ∷ []) h = ground arith
  last-insert_by a (x ∷ y ∷ ys) h = elim (Bool-cases (leb (key a) (key x))) [
    | inl e ↦
        let (b, q) = last_found y ys in
        let bound : key x ≤ key b = le-last (key x) (y ∷ ys) b h.0 q in rw (e, q) (ground arith)
    | inr e ↦ rw e (last-cons-insert_by x a (y ∷ ys) ∙ last-insert_by a (y ∷ ys) h.1)
  ]

  pub last-sort_by : (xs : List A) → last? (sort_by xs) ≡ last_max xs
  unfolding sort_by
  last-sort_by [] = refl
  last-sort_by (x ∷ xs) =
      rw (last-insert_by x (sort_by xs) (sort_by-IsAscending xs)) (rw (last-sort_by xs))

  -- `findFirst` with `orderBy: { key: 'desc' }`
  abbrev pub latest : List A → Option A
  latest xs = last? (sort_by xs)
