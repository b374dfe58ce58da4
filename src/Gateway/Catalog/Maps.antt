-- ===== src/Gateway/Catalog/Maps.antt =====
-- What holds of a map's entries after entries are put and deleted.
use fracta.Common.{
  String, same, ≡→same, Bool-cases, List, [], ◌∷◌, ◌≢◌, inl, inr, In, here, there, All, All-imp,
  put, drop_key,
}
use fracta.Gateway.Catalog.{drop_keys}

module _ {A : Type 0} (P : String × A → Type 0) where
  pub All-put :
      (k : String) (a : A) (m : List (String × A)) → P (k, a) → All P m → All P (put k a m)
  unfolding put
  All-put k a [] p h = (p, tt)
  All-put k a ((x, b) ∷ m) p h = elim (Bool-cases (same x k)) [
    | inl hit ↦ rw hit (p, h.1)
    | inr miss ↦ rw miss (h.0, All-put k a m p h.1)
  ]

  pub All-drop_key : (k : String) (m : List (String × A)) → All P m → All P (drop_key k m)
  unfolding drop_key
  All-drop_key k [] h = tt
  All-drop_key k ((x, b) ∷ m) h = elim (Bool-cases (same x k)) [
    | inl hit ↦ rw hit (All-drop_key k m h.1)
    | inr miss ↦ rw miss (h.0, All-drop_key k m h.1)
  ]

  pub All-drop_keys : (ks : List String) (m : List (String × A)) → All P m → All P (drop_keys ks m)
  unfolding drop_keys
  All-drop_keys [] m h = h
  All-drop_keys (k ∷ ks) m h = All-drop_keys ks (drop_key k m) (All-drop_key k m h)

pub All-both :
    {X : Type 0} (P Q : X → Type 0) (xs : List X) → All P xs → All Q xs → All (λ x. P x × Q x) xs
All-both P Q [] h k = tt
All-both P Q (x ∷ xs) h k = ((h.0, k.0), All-both P Q xs h.1 k.1)

module _ {A : Type 0} where
  pub drop_key-gone : (k : String) (m : List (String × A)) → All (λ p. p.0 ≢ k) (drop_key k m)
  unfolding drop_key
  drop_key-gone k [] = tt
  drop_key-gone k ((x, b) ∷ m) = elim (Bool-cases (same x k)) [
    | inl hit ↦ rw hit (drop_key-gone k m)
    | inr miss ↦ rw miss (λ e. cc (≡→same x k e, miss), drop_key-gone k m)
  ]

  All-true : (m : List (String × A)) → All (λ p. Unit {0}) m
  All-true [] = tt
  All-true (p ∷ m) = (tt, All-true m)

  -- No key of the list is left.
  pub dropped :
      (ks : List String) (m : List (String × A)) → All (λ p. In p.0 ks → ⊥) (drop_keys ks m)
  unfolding drop_keys
  dropped [] m = All-imp m (λ p h i. elim i [ ]) (All-true m)
  dropped (k ∷ ks) m =
      All-imp (drop_keys ks (drop_key k m)) (λ p h i. elim i [ here e ↦ h.0 e | there j ↦ h.1 j ])
        (All-both (λ p. p.0 ≢ k) (λ p. In p.0 ks → ⊥) (drop_keys ks (drop_key k m))
          (All-drop_keys (λ p. p.0 ≢ k) ks (drop_key k m) (drop_key-gone k m))
          (dropped ks (drop_key k m)))
