-- ===== src/Events/Ring/Laws/Positions.antt =====
-- Positions in a ring counted back from the head.
use native.Mathlib.Nat.{add-mod_right, mod-eq_of_lt, mod_self, mod-lt}
use fracta.Common.{
  ℕ, suc, ◌+◌, ◌-◌, ◌%◌, ◌≤◌, ◌<◌, ltb, Bool-cases, ◌⊎◌, inl, inr, ◌≡◌, ◌≢◌, sym, ◌∙◌, arith,
}

-- The position that is j + 1 steps behind the head.
abbrev pub behind : ℕ → ℕ → ℕ → ℕ
behind cap head j = (head + cap - suc j) % cap

module _ (cap head j : ℕ) (h : head < cap) where
  behind-below : j < head → behind cap head j ≡ head - suc j
  behind-below k =
      let e : head + cap - suc j ≡ (head - suc j) + cap = omega arith in
      rw e
        (add-mod_right (head - suc j) cap ∙ mod-eq_of_lt {n = head - suc j} {m = cap} (omega arith))

  behind-above : head ≤ j → j < cap → behind cap head j ≡ head + cap - suc j
  behind-above k l = mod-eq_of_lt {n = head + cap - suc j} {m = cap} (omega arith)

module _ (cap head : ℕ) (h : head < cap) where
  next_cases :
      ((suc head < cap) × ((head + 1) % cap ≡ suc head))
      ⊎ ((suc head ≡ cap) × ((head + 1) % cap ≡ 0))
  next_cases = elim (Bool-cases (ltb (suc head) cap)) [
    | inl k ↦
        let l : suc head < cap = ground arith in
        inl (l, mod-eq_of_lt {n = head + 1} {m = cap} (omega arith) ∙ omega arith)
    | inr k ↦
        let l : suc head ≡ cap = ground arith in
        let e : head + 1 ≡ cap = omega arith in inr (l, rw e (mod_self cap))
  ]

  pub next_head-< : (head + 1) % cap < cap
  next_head-< = mod-lt (head + 1) (omega arith)

  pub behind_next : behind cap ((head + 1) % cap) 0 ≡ head
  behind_next = elim next_cases [
    | inl (l, e) ↦ rw e (behind-below cap (suc head) 0 l (omega arith) ∙ omega arith)
    | inr (l, e) ↦
        rw e (behind-above cap 0 0 (omega arith) (omega arith) (omega arith) ∙ omega arith)
  ]

  pub behind_next-suc :
      (j : ℕ) → suc j < cap → behind cap ((head + 1) % cap) (suc j) ≡ behind cap head j
  behind_next-suc j k = elim next_cases [
    | inl (l, e) ↦
        let x : suc head + cap - suc (suc j) ≡ head + cap - suc j = omega arith in rw (e, x)
    | inr (l, e) ↦ rw e (
        behind-above cap 0 (suc j) (omega arith) (omega arith) k
        ∙ (let x : 0 + cap - suc (suc j) ≡ head - suc j = omega arith in x)
        ∙ sym (behind-below cap head j h (omega arith)))
  ]

  pub behind-≢ : (j : ℕ) → suc j < cap → behind cap head j ≢ head
  behind-≢ j k e = elim (Bool-cases (ltb j head)) [
    | inl l ↦
        let below : j < head = ground arith in
        let x = behind-below cap head j h below in omega arith
    | inr l ↦
        let above : head ≤ j = ground arith in
        let x = behind-above cap head j h above (omega arith) in omega arith
  ]
