-- ===== src/Common/Find.antt =====
-- What a search for a row finds after the table has changed.
use mathlib.Core.Path.{◌≡◌, refl, ap, ◌∙◌}
use mathlib.Core.Bool.{Bool, true, false}
use mathlib.Core.Option.{none, some}
use mathlib.Core.Logic.{inl, inr}
use mathlib.Core.List.{List, [], ◌∷◌, ◌++◌}
use fracta.Common.Tests.{Bool-cases}
use fracta.Common.Lists.{All}
use fracta.Common.Table.{find_row, exists_row, update_row, update_rows, delete_row, select_rows}

module _ {ℓ} {R : Type ℓ} (p : R → Bool) where
  pub exists_row-none : (rs : List R) → exists_row p rs ≡ false → find_row p rs ≡ none
  exists_row-none [] h = refl
  exists_row-none (x ∷ rs) h = elim (Bool-cases (p x)) [
    | inl hit ↦ cc (rw hit at h)
    | inr miss ↦ rw miss (exists_row-none rs (rw miss at h))
  ]

  -- A new row at the end.
  pub find_row-append_other :
      (rs : List R) (x : R) → p x ≡ false → find_row p (rs ++ (x ∷ [])) ≡ find_row p rs
  find_row-append_other [] x h = rw h
  find_row-append_other (r ∷ rs) x h = elim (Bool-cases (p r)) [
    | inl hit ↦ rw hit
    | inr miss ↦ rw miss (find_row-append_other rs x h)
  ]

  pub find_row-append_new :
      (rs : List R) (x : R)
      → find_row p rs ≡ none
      → p x ≡ true
      → find_row p (rs ++ (x ∷ [])) ≡ some x
  find_row-append_new [] x h k = rw k
  find_row-append_new (r ∷ rs) x h k = elim (Bool-cases (p r)) [
    | inl hit ↦ cc (rw hit at h)
    | inr miss ↦ rw miss (find_row-append_new rs x (rw miss at h) k)
  ]

  -- An append leaves a row that is found.
  pub find_row-append_found :
      (rs : List R) (x r : R) → find_row p rs ≡ some r → find_row p (rs ++ (x ∷ [])) ≡ some r
  find_row-append_found [] x r h = cc
  find_row-append_found (y ∷ rs) x r h = elim (Bool-cases (p y)) [
    | inl hit ↦ rw hit (rw hit at h)
    | inr miss ↦ rw miss (find_row-append_found rs x r (rw miss at h))
  ]

  -- A selection that keeps, or drops, all that is searched for.
  pub find_row-select_rows :
      (q : R → Bool) (rs : List R)
      → ((r : R) → p r ≡ true → q r ≡ true)
      → find_row p (select_rows q rs) ≡ find_row p rs
  find_row-select_rows q [] h = refl
  find_row-select_rows q (r ∷ rs) h = elim (Bool-cases (q r)) [
    | inl kept ↦ elim (Bool-cases (p r)) [
      | inl hit ↦ rw (kept, hit)
      | inr miss ↦ rw (kept, miss) (find_row-select_rows q rs h)
    ]
    | inr dropped ↦ elim (Bool-cases (p r)) [
      | inl hit ↦ cc (h r hit, dropped)
      | inr miss ↦ rw (dropped, miss) (find_row-select_rows q rs h)
    ]
  ]

  pub find_row-select_rows-none :
      (q : R → Bool) (rs : List R)
      → ((r : R) → p r ≡ true → q r ≡ false)
      → find_row p (select_rows q rs) ≡ none
  find_row-select_rows-none q [] h = refl
  find_row-select_rows-none q (r ∷ rs) h = elim (Bool-cases (q r)) [
    | inl kept ↦ elim (Bool-cases (p r)) [
      | inl hit ↦ cc (h r hit, kept)
      | inr miss ↦ rw (kept, miss) (find_row-select_rows-none q rs h)
    ]
    | inr dropped ↦ rw dropped (find_row-select_rows-none q rs h)
  ]

  -- A change of rows that are not searched for, neither before nor after.
  pub find_row-update_row_other :
      (q : R → Bool) (f : R → R) (rs : List R)
      → ((r : R) → q r ≡ true → p r ≡ false)
      → ((r : R) → q r ≡ true → p (f r) ≡ false)
      → find_row p (update_row q f rs) ≡ find_row p rs
  find_row-update_row_other q f [] h k = refl
  find_row-update_row_other q f (r ∷ rs) h k = elim (Bool-cases (q r)) [
    | inl hit ↦ rw (hit, h r hit, k r hit)
    | inr miss ↦ elim (Bool-cases (p r)) [
      | inl found ↦ rw (miss, found)
      | inr other ↦ rw (miss, other) (find_row-update_row_other q f rs h k)
    ]
  ]

  pub find_row-delete_row_other :
      (q : R → Bool) (rs : List R)
      → ((r : R) → q r ≡ true → p r ≡ false)
      → find_row p (delete_row q rs) ≡ find_row p rs
  find_row-delete_row_other q [] h = refl
  find_row-delete_row_other q (r ∷ rs) h = elim (Bool-cases (q r)) [
    | inl hit ↦ rw (hit, h r hit) refl
    | inr miss ↦ elim (Bool-cases (p r)) [
      | inl found ↦ rw (miss, found) refl
      | inr other ↦ rw (miss, other) (find_row-delete_row_other q rs h)
    ]
  ]

  -- A change that leaves the row that is found.
  pub find_row-update_row_same :
      (q : R → Bool) (f : R → R) (rs : List R) (r : R)
      → ((x : R) → p (f x) ≡ p x)
      → f r ≡ r
      → find_row p rs ≡ some r
      → find_row p (update_row q f rs) ≡ some r
  find_row-update_row_same q f [] r keeps e h = h
  find_row-update_row_same q f (x ∷ rs) r keeps e h = elim (Bool-cases (p x)) [
    | inl found ↦
        let same_row : some x ≡ some r = rw found at h in
        elim (Bool-cases (q x)) [
          | inl hit ↦
              let g : p (f x) ≡ true = keeps x ∙ found in
              let d : x ≡ r = cc same_row in rw (hit, g) (ap some (ap f d ∙ e))
          | inr miss ↦ rw (miss, found) same_row
        ]
    | inr other ↦ elim (Bool-cases (q x)) [
      | inl hit ↦ let g : p (f x) ≡ false = keeps x ∙ other in rw (hit, g) (rw other at h)
      | inr miss ↦ rw (miss, other) (find_row-update_row_same q f rs r keeps e (rw other at h))
    ]
  ]

  pub find_row-update_rows_same :
      (q : R → Bool) (f : R → R) (rs : List R) (r : R)
      → ((x : R) → p (f x) ≡ p x)
      → q r ≡ false
      → find_row p rs ≡ some r
      → find_row p (update_rows q f rs) ≡ some r
  find_row-update_rows_same q f [] r keeps e h = h
  find_row-update_rows_same q f (x ∷ rs) r keeps e h = elim (Bool-cases (p x)) [
    | inl found ↦
        let same_row : some x ≡ some r = rw found at h in
        let d : x ≡ r = cc same_row in
        let miss : q x ≡ false = ap q d ∙ e in rw (miss, found) same_row
    | inr other ↦ elim (Bool-cases (q x)) [
      | inl hit ↦
          let g : p (f x) ≡ false = keeps x ∙ other in
          rw (hit, g) (find_row-update_rows_same q f rs r keeps e (rw other at h))
      | inr miss ↦ rw (miss, other) (find_row-update_rows_same q f rs r keeps e (rw other at h))
    ]
  ]

-- A change of all rows that satisfy a test, which the row that is found does.
module _ {ℓ} {R : Type ℓ} (p : R → Bool) where
  pub find_row-update_rows_hit :
      (q : R → Bool) (f : R → R) (rs : List R) (r : R)
      → ((x : R) → p (f x) ≡ p x)
      → q r ≡ true
      → find_row p rs ≡ some r
      → find_row p (update_rows q f rs) ≡ some (f r)
  find_row-update_rows_hit q f [] r keeps e h = cc
  find_row-update_rows_hit q f (x ∷ rs) r keeps e h = elim (Bool-cases (p x)) [
    | inl found ↦
        let same_row : some x ≡ some r = rw found at h in
        let d : x ≡ r = cc same_row in
        let hit : q x ≡ true = ap q d ∙ e in
        let g : p (f x) ≡ true = keeps x ∙ found in rw (hit, g) (ap some (ap f d))
    | inr other ↦ elim (Bool-cases (q x)) [
      | inl hit ↦
          let g : p (f x) ≡ false = keeps x ∙ other in
          rw (hit, g) (find_row-update_rows_hit q f rs r keeps e (rw other at h))
      | inr miss ↦ rw (miss, other) (find_row-update_rows_hit q f rs r keeps e (rw other at h))
    ]
  ]

-- Whether a row is there after a change.
module _ {ℓ} {R : Type ℓ} (p : R → Bool) where
  pub exists_row-update_row :
      (q : R → Bool) (f : R → R) (rs : List R)
      → ((x : R) → p (f x) ≡ p x)
      → exists_row p (update_row q f rs) ≡ exists_row p rs
  exists_row-update_row q f [] keeps = refl
  exists_row-update_row q f (x ∷ rs) keeps = elim (Bool-cases (q x)) [
    | inl hit ↦ rw (hit, keeps x)
    | inr miss ↦ rw (miss, exists_row-update_row q f rs keeps)
  ]

  pub exists_row-update_rows :
      (q : R → Bool) (f : R → R) (rs : List R)
      → ((x : R) → p (f x) ≡ p x)
      → exists_row p (update_rows q f rs) ≡ exists_row p rs
  exists_row-update_rows q f [] keeps = refl
  exists_row-update_rows q f (x ∷ rs) keeps = elim (Bool-cases (q x)) [
    | inl hit ↦ rw (hit, keeps x, exists_row-update_rows q f rs keeps)
    | inr miss ↦ rw (miss, exists_row-update_rows q f rs keeps)
  ]

  pub exists_row-append :
      (rs : List R) (x : R) → exists_row p rs ≡ true → exists_row p (rs ++ (x ∷ [])) ≡ true
  exists_row-append [] x h = cc
  exists_row-append (r ∷ rs) x h = elim (Bool-cases (p r)) [
    | inl hit ↦ rw hit
    | inr miss ↦ rw miss (exists_row-append rs x (rw miss at h))
  ]

  pub exists_row-select_rows :
      (q : R → Bool) (rs : List R)
      → ((r : R) → p r ≡ true → q r ≡ true)
      → exists_row p (select_rows q rs) ≡ exists_row p rs
  exists_row-select_rows q [] h = refl
  exists_row-select_rows q (r ∷ rs) h = elim (Bool-cases (q r)) [
    | inl kept ↦ rw kept (rw (exists_row-select_rows q rs h) refl)
    | inr dropped ↦ elim (Bool-cases (p r)) [
      | inl hit ↦ cc (h r hit, dropped)
      | inr miss ↦ rw (dropped, miss) (exists_row-select_rows q rs h)
    ]
  ]

module _ {ℓ κ} {R : Type ℓ} (P : R → Type κ) where
  -- An update of all rows that satisfy a test: each is changed, or it fails the test.
  pub All-update_rows_cases :
      (q : R → Bool) (f : R → R) (rs : List R)
      → ((r : R) → q r ≡ true → P (f r))
      → ((r : R) → q r ≡ false → P r)
      → All P (update_rows q f rs)
  All-update_rows_cases q f [] h k = tt
  All-update_rows_cases q f (r ∷ rs) h k = elim (Bool-cases (q r)) [
    | inl hit ↦ rw hit (h r hit, All-update_rows_cases q f rs h k)
    | inr miss ↦ rw miss (k r miss, All-update_rows_cases q f rs h k)
  ]
