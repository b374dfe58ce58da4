-- ===== src/Common/Maps.antt =====
-- Go's maps with texts as keys: association lists, in which `put` keeps a key once.
use mathlib.Core.Path.{◌≡◌, refl, sym, ap}
use mathlib.Core.Bool.{false}
use mathlib.Core.Option.{Option, none, some, map}
use mathlib.Core.Logic.{inl, inr}
use mathlib.Core.List.{List, [], ◌∷◌}
use Prim.Native.String.{String}
use fracta.Common.Tests.{if◌then◌else◌, Bool-cases}
use fracta.Common.Lists.{In, here, there}
use fracta.Common.Texts.{same, same_refl, same→≡, ≡→same}

-- `m[key] = value`, `m[key]` and `delete(m, key)`.
unfoldable pub put : {A : Type 0} → String → A → List (String × A) → List (String × A)
put k a [] = (k, a) ∷ []
put k a ((x, b) ∷ m) = let rest = put k a m in if same x k then (k, a) ∷ m else (x, b) ∷ rest

unfoldable pub lookup : {A : Type 0} → String → List (String × A) → Option A
lookup k [] = none
lookup k ((x, a) ∷ m) = let rest = lookup k m in if same x k then some a else rest

unfoldable pub drop_key : {A : Type 0} → String → List (String × A) → List (String × A)
drop_key k [] = []
drop_key k ((x, a) ∷ m) = let rest = drop_key k m in if same x k then rest else (x, a) ∷ rest

module _ {A : Type 0} where
  pub lookup-put : (k : String) (a : A) (m : List (String × A)) → lookup k (put k a m) ≡ some a
  unfolding lookup put
  lookup-put k a [] = rw (same_refl k)
  lookup-put k a ((x, b) ∷ m) = elim (Bool-cases (same x k)) [
    | inl hit ↦ rw (hit, same_refl k)
    | inr miss ↦ rw (miss, lookup, miss) (lookup-put k a m)
  ]

  pub lookup-put_other :
      (j k : String) (a : A) (m : List (String × A))
      → same k j ≡ false
      → lookup j (put k a m) ≡ lookup j m
  unfolding lookup put
  lookup-put_other j k a [] h = rw h
  lookup-put_other j k a ((x, b) ∷ m) h = elim (Bool-cases (same x k)) [
    | inl hit ↦ let e : same x j ≡ false = rw (same→≡ x k hit) h in rw (hit, h, e)
    | inr miss ↦ rw (miss, lookup-put_other j k a m h)
  ]

  pub lookup-drop_key : (k : String) (m : List (String × A)) → lookup k (drop_key k m) ≡ none
  unfolding lookup drop_key
  lookup-drop_key k [] = refl
  lookup-drop_key k ((x, b) ∷ m) = elim (Bool-cases (same x k)) [
    | inl hit ↦ rw hit (lookup-drop_key k m)
    | inr miss ↦ rw (miss, lookup, miss) (lookup-drop_key k m)
  ]

  pub lookup-drop_key_other :
      (j k : String) (m : List (String × A))
      → same k j ≡ false
      → lookup j (drop_key k m) ≡ lookup j m
  unfolding lookup drop_key
  lookup-drop_key_other j k [] h = refl
  lookup-drop_key_other j k ((x, b) ∷ m) h = elim (Bool-cases (same x k)) [
    | inl hit ↦
        let e : same x j ≡ false = rw (same→≡ x k hit) h in
        rw (hit, e) (lookup-drop_key_other j k m h)
    | inr miss ↦ rw (miss, lookup-drop_key_other j k m h)
  ]

  -- A key has a value just where it stands in the map.
  pub lookup-In : (k : String) (m : List (String × A)) {a : A} → lookup k m ≡ some a → In (k, a) m
  unfolding lookup
  lookup-In k [] h = cc
  lookup-In k ((x, b) ∷ m) {a = a} h = elim (Bool-cases (same x k)) [
    | inl hit ↦
        let e : k ≡ x = sym (same→≡ x k hit) in let f : a ≡ b = cc (rw hit at h) in here (cc (e, f))
    | inr miss ↦ there (lookup-In k m (rw miss at h))
  ]

  pub In-lookup :
      (k : String) (a : A) (m : List (String × A)) → In (k, a) m → (b : A) × (lookup k m ≡ some b)
  unfolding lookup
  In-lookup k a [] i = elim i [ ]
  In-lookup k a ((x, b) ∷ m) (here e) = (b, rw (≡→same x k (ap (λ p. p.0) (sym e))))
  In-lookup k a ((x, b) ∷ m) (there j) = elim (Bool-cases (same x k)) [
    | inl hit ↦ (b, rw hit)
    | inr miss ↦ rw miss (In-lookup k a m j)
  ]

module _ {A B : Type 0} (f : String → A → B) where
  -- A new map with the same keys.
  abbrev pub map_values : List (String × A) → List (String × B)
  map_values [] = []
  map_values ((x, a) ∷ m) = (x, f x a) ∷ map_values m

  pub lookup-map_values :
      (k : String) (m : List (String × A)) → lookup k (map_values m) ≡ map (f k) (lookup k m)
  unfolding lookup
  lookup-map_values k [] = refl
  lookup-map_values k ((x, a) ∷ m) = elim (Bool-cases (same x k)) [
    | inl hit ↦ rw (hit, same→≡ x k hit)
    | inr miss ↦ rw miss (lookup-map_values k m)
  ]
