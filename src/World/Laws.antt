-- ===== src/World/Laws.antt =====
-- Taking a successful action apart.
use fracta.Common.{ℕ, ◌≤◌, ◌≡◌, refl, ◌∙◌, arith, false, inl, inr, Bool-cases}
use fracta.World.{
  World, Outcome, ok, err, Action, ◌>>=◌, call, tick, settle, transaction, Unchanged,
}

module _ {A : Type 0} where
  -- A call that succeeds has met no fault.
  pub call-eq-ok :
      (m : Action A) (w : World) {r : A} {w' : World}
      → call m w ≡ (ok r, w')
      → (w.fault w.calls ≡ false) × (m (tick w) ≡ (ok r, w'))
  call-eq-ok m w h = elim (Bool-cases (w.fault w.calls)) [
    | inl fails ↦ cc (rw fails at h)
    | inr passes ↦ (passes, rw passes at h)
  ]

module _ {A B : Type 0} where
  abbrev pub continue : (A → Action B) → Outcome A × World → Outcome B × World
  continue f p = elim p.0 [ ok a ↦ f a p.1 | err e ↦ (err e, p.1) ]

  continue-eq-ok :
      (f : A → Action B) (p : Outcome A × World) {b : B} {w' : World}
      → continue f p ≡ (ok b, w')
      → (a : A) × (v : World) × (p ≡ (ok a, v)) × (f a v ≡ (ok b, w'))
  continue-eq-ok f (ok a, v) h = (a, v, refl, h)
  continue-eq-ok f (err e, v) h = cc

  -- A chain that succeeds has a first part that does.
  pub >>=-eq-ok :
      (m : Action A) (f : A → Action B) (w : World) {b : B} {w' : World}
      → (m >>= f) w ≡ (ok b, w')
      → (a : A) × (v : World) × (m w ≡ (ok a, v)) × (f a v ≡ (ok b, w'))
  >>=-eq-ok m f w h = continue-eq-ok f (m w) h

-- What a transaction has done: its statements and the commit went through, or no table has changed.
abbrev pub Settled : {A : Type 0} → Action A → World → Outcome A × World → Type 0
Settled m w (err _, w') = Unchanged w w'
Settled m w (ok a, w') = (v : World) × (m (tick w) ≡ (ok a, v)) × (w' ≡ tick v)

module _ {A : Type 0} (m : Action A) (w : World) where
  settle-Settled : (p : Outcome A × World) → m (tick w) ≡ p → Settled m w (settle (tick w) p)
  settle-Settled (err e, v) h = (refl, refl, refl, refl, refl, refl, refl, (refl, refl, refl), refl)
  settle-Settled (ok a, v) h = elim (Bool-cases (v.fault v.calls)) [
    | inl fails ↦
        rw (fails, Settled) (refl, refl, refl, refl, refl, refl, refl, (refl, refl, refl), refl)
    | inr commits ↦ rw (commits, Settled) (v, h, refl)
  ]

  pub transaction-Settled : Settled m w (transaction m w)
  transaction-Settled = elim (Bool-cases (w.fault w.calls)) [
    | inl fails ↦
        rw (fails, Settled) (refl, refl, refl, refl, refl, refl, refl, (refl, refl, refl), refl)
    | inr begins ↦ rw (begins, Settled) (settle-Settled (m (tick w)) refl)
  ]

-- The sequence of missions never goes back.
abbrev pub Grows : {A : Type 0} → Action A → Type 0
Grows m = (w : World) → w.next_mission ≤ (m w).1.next_mission

module _ {A : Type 0} where
  pub call-Grows : (m : Action A) → Grows m → Grows (call m)
  call-Grows m g w = elim (Bool-cases (w.fault w.calls)) [
    | inl fails ↦ rw fails (omega arith)
    | inr passes ↦ rw passes (g (tick w))
  ]

  settled-next :
      (before : World) (p : Outcome A × World)
      → before.next_mission ≤ p.1.next_mission
      → before.next_mission ≤ (settle before p).1.next_mission
  settled-next before (err e, w) h = h
  settled-next before (ok a, w) h = elim (Bool-cases (w.fault w.calls)) [
    | inl fails ↦ rw fails h
    | inr commits ↦ rw commits h
  ]

  pub transaction-Grows : (m : Action A) → Grows m → Grows (transaction m)
  transaction-Grows m g w = elim (Bool-cases (w.fault w.calls)) [
    | inl fails ↦ rw fails (omega arith)
    | inr begins ↦ rw begins (settled-next (tick w) (m (tick w)) (g (tick w)))
  ]

module _ {A B : Type 0} where
  continued-next :
      (f : A → Action B) (n : ℕ) (p : Outcome A × World)
      → ((a : A) → Grows (f a))
      → n ≤ p.1.next_mission
      → n ≤ (continue f p).1.next_mission
  continued-next f n (ok a, w) g h = let k = g a w in omega arith
  continued-next f n (err e, w) g h = h

  pub >>=-Grows :
      (m : Action A) (f : A → Action B) → Grows m → ((a : A) → Grows (f a)) → Grows (m >>= f)
  >>=-Grows m f g k w = continued-next f w.next_mission (m w) k (g w)

-- Actions that leave the agents alone.
abbrev pub KeepsRows : {A : Type 0} → Action A → Type 0
KeepsRows m = (w : World) → (m w).1.agents ≡ w.agents

module _ {A : Type 0} where
  pub call-KeepsRows : (m : Action A) → KeepsRows m → KeepsRows (call m)
  call-KeepsRows m k w = elim (Bool-cases (w.fault w.calls)) [
    | inl fails ↦ rw fails refl
    | inr passes ↦ rw passes (k (tick w))
  ]

  settled-rows :
      (before : World) (p : Outcome A × World)
      → p.1.agents ≡ before.agents
      → (settle before p).1.agents ≡ before.agents
  settled-rows before (err e, w) h = refl
  settled-rows before (ok a, w) h = elim (Bool-cases (w.fault w.calls)) [
    | inl fails ↦ rw fails refl
    | inr commits ↦ rw commits h
  ]

  pub transaction-KeepsRows : (m : Action A) → KeepsRows m → KeepsRows (transaction m)
  transaction-KeepsRows m k w = elim (Bool-cases (w.fault w.calls)) [
    | inl fails ↦ rw fails refl
    | inr begins ↦ rw begins (settled-rows (tick w) (m (tick w)) (k (tick w)))
  ]

module _ {A B : Type 0} where
  continued-rows :
      (f : A → Action B) (w : World) (p : Outcome A × World)
      → p.1.agents ≡ w.agents
      → ((a : A) → KeepsRows (f a))
      → (continue f p).1.agents ≡ w.agents
  continued-rows f w (ok a, v) h k = k a v ∙ h
  continued-rows f w (err e, v) h k = h

  pub >>=-KeepsRows :
      (m : Action A) (f : A → Action B)
      → KeepsRows m
      → ((a : A) → KeepsRows (f a))
      → KeepsRows (m >>= f)
  >>=-KeepsRows m f h k w = continued-rows f w (m w) (h w) k
