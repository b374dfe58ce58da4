-- ===== src/Common/Sort.antt =====
-- ORDER BY: insertion sort, which keeps rows that compare equal in the table's order.
use mathlib.Core.Path.{◌≡◌, refl}
use mathlib.Core.Logic.{◌≢◌, ◌⊎◌, inl, inr}
use mathlib.Core.Bool.{Bool, true}
use mathlib.Core.Option.{Option, none, some}
use mathlib.Core.List.{List, [], ◌∷◌}
use native.Mathlib.Omega.{arith}
use fracta.Common.Tests.{if◌then◌else◌, Bool-cases, Option-cases}
use fracta.Common.Lists.{All, All-imp, In, here, there}

module _ {ℓ} {R : Type ℓ} where
  -- LIMIT 1
  abbrev pub first : List R → Option R
  first [] = none
  first (x ∷ xs) = some x

  pub first-In : (xs : List R) (r : R) → first xs ≡ some r → In r xs
  first-In [] r h = cc
  first-In (x ∷ xs) r h = here (cc)

module _ {ℓ} {R : Type ℓ} (before : R → R → Bool) where
  -- `x` goes in front of the first row that it may stand before.
  unfoldable pub insert_sorted : R → List R → List R
  insert_sorted x [] = x ∷ []
  insert_sorted x (y ∷ ys) = if before x y then x ∷ y ∷ ys else y ∷ insert_sorted x ys

  unfoldable pub sort_rows : List R → List R
  unfolding insert_sorted
  sort_rows [] = []
  sort_rows (x ∷ xs) = insert_sorted x (sort_rows xs)

  In-insert_sorted : (x r : R) (ys : List R) → In r (insert_sorted x ys) → (r ≡ x) ⊎ In r ys
  unfolding insert_sorted
  In-insert_sorted x r [] (here e) = inl e
  In-insert_sorted x r [] (there i) = elim i [ ]
  In-insert_sorted x r (y ∷ ys) h = elim (Bool-cases (before x y)) [
    | inl goes_first ↦ split (rw goes_first at h)
    | inr goes_later ↦ later (rw goes_later at h) (In-insert_sorted x r ys)
  ]
    where
      split : In r (x ∷ y ∷ ys) → (r ≡ x) ⊎ In r (y ∷ ys)
      split (here e) = inl e
      split (there i) = inr i

      later :
          In r (y ∷ insert_sorted x ys)
          → (In r (insert_sorted x ys) → (r ≡ x) ⊎ In r ys)
          → (r ≡ x) ⊎ In r (y ∷ ys)
      later (here e) f = inr (here e)
      later (there i) f = elim (f i) [ inl e ↦ inl e | inr j ↦ inr (there j) ]

  -- Sorting adds no row.
  pub In-sort_rows : (r : R) (xs : List R) → In r (sort_rows xs) → In r xs
  unfolding sort_rows
  In-sort_rows r [] h = h
  In-sort_rows r (x ∷ xs) h = elim (In-insert_sorted x r (sort_rows xs) h) [
    | inl e ↦ here e
    | inr i ↦ there (In-sort_rows r xs i)
  ]

  insert_sorted_first : (x : R) (ys : List R) → In x (insert_sorted x ys)
  unfolding insert_sorted
  insert_sorted_first x [] = here refl
  insert_sorted_first x (y ∷ ys) = elim (Bool-cases (before x y)) [
    | inl goes_first ↦ rw goes_first (here refl)
    | inr goes_later ↦ rw goes_later (there (insert_sorted_first x ys))
  ]

  insert_sorted_others : (x r : R) (ys : List R) → In r ys → In r (insert_sorted x ys)
  unfolding insert_sorted
  insert_sorted_others x r [] i = elim i [ ]
  insert_sorted_others x r (y ∷ ys) i = elim (Bool-cases (before x y)) [
    | inl goes_first ↦ rw goes_first (there i)
    | inr goes_later ↦
        rw goes_later (elim i [ here e ↦ here e | there j ↦ there (insert_sorted_others x r ys j) ])
  ]

  pub sort_rows-In : (r : R) (xs : List R) → In r xs → In r (sort_rows xs)
  unfolding sort_rows
  sort_rows-In r [] i = i
  sort_rows-In r (x ∷ xs) i = elim i [
    | here e ↦ rw e (insert_sorted_first x (sort_rows xs))
    | there j ↦ insert_sorted_others x r (sort_rows xs) (sort_rows-In r xs j)
  ]

  first-insert_sorted_some : (x : R) (ys : List R) → first (insert_sorted x ys) ≢ none
  unfolding insert_sorted
  first-insert_sorted_some x [] = ground arith
  first-insert_sorted_some x (y ∷ ys) = ground arith

  -- Sorting loses no first row.
  pub sort_rows_nil : (xs : List R) → first (sort_rows xs) ≡ none → xs ≡ []
  unfolding sort_rows
  sort_rows_nil [] h = refl
  sort_rows_nil (x ∷ xs) h = absurd (first-insert_sorted_some x (sort_rows xs) h)

module _ {ℓ} {R : Type ℓ} (before : R → R → Bool)
    (total : (x y : R) → (before x y ≡ true) ⊎ (before y x ≡ true))
    (trans : (x y z : R) → before x y ≡ true → before y z ≡ true → before x z ≡ true) where
  before_refl : (x : R) → before x x ≡ true
  before_refl x = elim (total x x) [ inl h ↦ h | inr h ↦ h ]

  first-insert_sorted :
      (x r : R) (ys : List R)
      → first (insert_sorted before x ys) ≡ some r
      → (before r x ≡ true) × ((s : R) → first ys ≡ some s → before r s ≡ true)
  unfolding insert_sorted
  first-insert_sorted x r [] h = (ground (arith, before_refl x), λ s e. cc)
  first-insert_sorted x r (y ∷ ys) h =
      (ground (arith, total x y, before_refl x), λ s e. ground (arith, before_refl y))

  -- The first row after sorting stands before every row.
  pub first-sort_rows :
      (xs : List R) (r : R) → first (sort_rows before xs) ≡ some r → All (λ x. before r x ≡ true) xs
  unfolding sort_rows
  first-sort_rows [] r h = tt
  first-sort_rows (x ∷ xs) r h =
      let (best, best_of) = first-insert_sorted x r (sort_rows before xs) h in
      (
        best,
        elim (Option-cases (first (sort_rows before xs))) [
          | inl empty ↦ rw (sort_rows_nil before xs empty) tt
          | inr (s, e) ↦ All-imp xs (λ y b. trans r s y (best_of s e) b) (first-sort_rows xs s e)
        ],
      )
