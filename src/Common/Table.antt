-- ===== src/Common/Table.antt =====
-- Tables of rows and the statements on them. A table is a list of rows in the order of insertion.
use Prim.Native.Nat.{ℕ, ◌+◌}
use mathlib.Core.Path.{◌≡◌, sym, ap, ◌∙◌}
use mathlib.Core.Bool.{Bool, true, false}
use mathlib.Core.Option.{Option, none, some}
use mathlib.Core.Logic.{inl, inr}
use mathlib.Core.List.{List, [], ◌∷◌}
use native.Mathlib.Omega.{arith}
use fracta.Common.Tests.{if◌then◌else◌, Bool-cases}
use fracta.Common.Lists.{All, In, here, there}

module _ {ℓ} {R : Type ℓ} where
  -- SELECT … WHERE p, for a p that holds of one row at most: the first.
  abbrev pub find_row : (R → Bool) → List R → Option R
  find_row p [] = none
  find_row p (r ∷ rs) = if p r then some r else find_row p rs

  -- Whether a row satisfies p.
  abbrev pub exists_row : (R → Bool) → List R → Bool
  exists_row p [] = false
  exists_row p (r ∷ rs) = if p r then true else exists_row p rs

  -- UPDATE … WHERE p, for a p that holds of one row at most: p tests the primary key.
  abbrev pub update_row : (R → Bool) → (R → R) → List R → List R
  update_row p f [] = []
  update_row p f (r ∷ rs) = if p r then f r ∷ rs else r ∷ update_row p f rs

  -- DELETE … WHERE p, for such a p.
  abbrev pub delete_row : (R → Bool) → List R → List R
  delete_row p [] = []
  delete_row p (r ∷ rs) = if p r then rs else r ∷ delete_row p rs

  -- SELECT … WHERE p, UPDATE … WHERE p and COUNT(*) … WHERE p, for any p.
  abbrev pub select_rows : (R → Bool) → List R → List R
  select_rows p [] = []
  select_rows p (r ∷ rs) = if p r then r ∷ select_rows p rs else select_rows p rs

  abbrev pub update_rows : (R → Bool) → (R → R) → List R → List R
  update_rows p f [] = []
  update_rows p f (r ∷ rs) = (if p r then f r else r) ∷ update_rows p f rs

  abbrev pub count_rows : (R → Bool) → List R → ℕ
  count_rows p [] = 0
  count_rows p (r ∷ rs) = (if p r then 1 else 0) + count_rows p rs

  pub exists_row-find_row :
      (p : R → Bool) (rs : List R) {r : R} → find_row p rs ≡ some r → exists_row p rs ≡ true
  exists_row-find_row p [] h = ground arith
  exists_row-find_row p (r ∷ rs) {r = v} h = ground (arith, exists_row-find_row p rs {r = v})

  pub find_row-exists_row :
      (p : R → Bool) (rs : List R) → exists_row p rs ≡ true → (r : R) × (find_row p rs ≡ some r)
  find_row-exists_row p [] h = ground arith
  find_row-exists_row p (r ∷ rs) h = elim (Bool-cases (p r)) [
    | inl found ↦ (r, rw found)
    | inr other ↦ rw other (find_row-exists_row p rs (rw other at h))
  ]

  -- What is found satisfies the test.
  pub find_row_sound : (p : R → Bool) (rs : List R) {r : R} → find_row p rs ≡ some r → p r ≡ true
  find_row_sound p [] h = ground arith
  find_row_sound p (r ∷ rs) {r = v} h = ground (arith, find_row_sound p rs {r = v})

  -- A selected row stands in the table and satisfies the test.
  pub In-select_rows :
      (p : R → Bool) (r : R) (rs : List R) → In r (select_rows p rs) → In r rs × (p r ≡ true)
  In-select_rows p r [] i = elim i [ ]
  In-select_rows p r (x ∷ rs) i = elim (Bool-cases (p x)) [
    | inl kept ↦ split kept (rw kept at i) (In-select_rows p r rs)
    | inr dropped ↦ let (j, e) = In-select_rows p r rs (rw dropped at i) in (there j, e)
  ]
    where
      split :
          p x ≡ true
          → In r (x ∷ select_rows p rs)
          → (In r (select_rows p rs) → In r rs × (p r ≡ true))
          → In r (x ∷ rs) × (p r ≡ true)
      split k (here e) f = (here e, rw e k)
      split k (there j) f = let (l, e) = f j in (there l, e)

  pub select_rows-In :
      (p : R → Bool) (r : R) (rs : List R) → In r rs → p r ≡ true → In r (select_rows p rs)
  select_rows-In p r [] i h = elim i [ ]
  select_rows-In p r (x ∷ rs) (here e) h = let k : p x ≡ true = ap p (sym e) ∙ h in rw k (here e)
  select_rows-In p r (x ∷ rs) (there j) h = elim (Bool-cases (p x)) [
    | inl kept ↦ rw kept (there (select_rows-In p r rs j h))
    | inr dropped ↦ rw dropped (select_rows-In p r rs j h)
  ]

  pub find_row-In : (p : R → Bool) (rs : List R) {r : R} → find_row p rs ≡ some r → In r rs
  find_row-In p [] h = ground arith
  find_row-In p (x ∷ rs) {r = v} h = elim (Bool-cases (p x)) [
    | inl hit ↦ let e : v ≡ x = cc (rw hit at h) in here e
    | inr miss ↦ there (find_row-In p rs (rw miss at h))
  ]

  -- Where nothing is selected no row satisfies the test.
  pub All-rejected :
      (p : R → Bool) (rs : List R) → select_rows p rs ≡ [] → All (λ r. p r ≡ false) rs
  All-rejected p [] h = tt
  All-rejected p (r ∷ rs) h = elim (Bool-cases (p r)) [
    | inl kept ↦ cc (rw kept at h)
    | inr dropped ↦ (dropped, All-rejected p rs (rw dropped at h))
  ]

  -- After an update by a key, the key finds the changed row, if the change keeps it.
  pub find_row-update_row :
      (p : R → Bool) (f : R → R) (rs : List R) (r : R)
      → find_row p rs ≡ some r
      → p (f r) ≡ true
      → find_row p (update_row p f rs) ≡ some (f r)
  find_row-update_row p f [] r h k = cc
  find_row-update_row p f (x ∷ rs) r h k = ground (arith, find_row-update_row p f rs r)

module _ {ℓ κ} {R : Type ℓ} (P : R → Type κ) where
  -- What holds of the selected rows holds of all that satisfy the test.
  pub All-of_select_rows :
      (p : R → Bool) (rs : List R) → All P (select_rows p rs) → All (λ r. p r ≡ true → P r) rs
  All-of_select_rows p [] a = tt
  All-of_select_rows p (r ∷ rs) a = elim (Bool-cases (p r)) [
    | inl kept ↦ let b = rw kept at a in (λ _. b.0, All-of_select_rows p rs b.1)
    | inr dropped ↦ (λ k. cc, All-of_select_rows p rs (rw dropped at a))
  ]

  pub All-find_row : (p : R → Bool) (rs : List R) {r : R} → All P rs → find_row p rs ≡ some r → P r
  All-find_row p [] a h = ground arith
  All-find_row p (x ∷ rs) {r = v} a h = ground (arith, All-find_row p rs {r = v} a.1)

  -- An update keeps a property of all rows if the row that it changes has it afterwards.
  pub All-update_row :
      (p : R → Bool) (f : R → R) (rs : List R)
      → All P rs
      → ((r : R) → find_row p rs ≡ some r → P (f r))
      → All P (update_row p f rs)
  All-update_row p f [] a h = tt
  All-update_row p f (r ∷ rs) a h = elim (Bool-cases (p r)) [
    | inl hit ↦ rw hit (h r (rw hit), a.1)
    | inr other ↦ rw other (a.0, All-update_row p f rs a.1 (λ x e. h x (rw other e)))
  ]

  pub All-update_rows :
      (p : R → Bool) (f : R → R) (rs : List R)
      → All P rs
      → ((r : R) → p r ≡ true → P r → P (f r))
      → All P (update_rows p f rs)
  All-update_rows p f [] a h = tt
  All-update_rows p f (r ∷ rs) a h = elim (Bool-cases (p r)) [
    | inl hit ↦ rw hit (h r hit a.0, All-update_rows p f rs a.1 h)
    | inr other ↦ rw other (a.0, All-update_rows p f rs a.1 h)
  ]

  pub All-delete_row : (p : R → Bool) (rs : List R) → All P rs → All P (delete_row p rs)
  All-delete_row p [] a = tt
  All-delete_row p (r ∷ rs) a = elim (Bool-cases (p r)) [
    | inl hit ↦ rw hit a.1
    | inr other ↦ rw other (a.0, All-delete_row p rs a.1)
  ]

  pub All-select_rows : (p : R → Bool) (rs : List R) → All P rs → All P (select_rows p rs)
  All-select_rows p [] a = tt
  All-select_rows p (r ∷ rs) a = elim (Bool-cases (p r)) [
    | inl hit ↦ rw hit (a.0, All-select_rows p rs a.1)
    | inr other ↦ rw other (All-select_rows p rs a.1)
  ]
