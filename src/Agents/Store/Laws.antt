-- ===== src/Agents/Store/Laws.antt =====
-- What an update of one agent does to the table: internal/state/pgstore/pgstore.go.
use fracta.Common.{
  String, Bool, true, false, Bool-cases, inl, inr, List, [], ◌∷◌, In, here, there, exists_row,
  update_row, ◌≡◌, ◌≢◌, refl, arith,
}
use fracta.Model.{AgentStatus, AgentEntry}
use fracta.World.{World, Outcome, ok, err}
use fracta.Agents.Store.{expected_task, update_expected}

-- One row is replaced, and the others stay where they are.
pub data Replaced {ℓ} {R : Type ℓ} (old new : R) : List R → List R → Type ℓ where
  first_row : {rs : List R} → Replaced old new (old ∷ rs) (new ∷ rs)
  later_row :
      {r : R} {rs rs' : List R} → Replaced old new rs rs' → Replaced old new (r ∷ rs) (r ∷ rs')

module _ {ℓ} {R : Type ℓ} where
  pub update_row-Replaced :
      (p : R → Bool) (f : R → R) (rs : List R)
      → exists_row p rs ≡ true
      → (r : R) × (p r ≡ true) × Replaced r (f r) rs (update_row p f rs)
  update_row-Replaced p f [] h = ground arith
  update_row-Replaced p f (r ∷ rs) h = elim (Bool-cases (p r)) [
    | inl hit ↦ (r, hit, rw hit first_row)
    | inr miss ↦
        let (x, k, t) = update_row-Replaced p f rs (rw miss at h) in (x, k, rw miss (later_row t))
  ]

  pub update_row-absent :
      (p : R → Bool) (f : R → R) (rs : List R) → exists_row p rs ≡ false → update_row p f rs ≡ rs
  update_row-absent p f [] h = refl
  update_row-absent p f (r ∷ rs) h = elim (Bool-cases (p r)) [
    | inl hit ↦ cc (rw hit at h)
    | inr miss ↦ rw (miss, update_row-absent p f rs (rw miss at h))
  ]

  -- Rows other than the replaced one are still there.
  pub In-Replaced :
      (old new r : R) (rs rs' : List R) → Replaced old new rs rs' → In r rs → r ≢ old → In r rs'
  In-Replaced old new r [] _ t _ k = elim t [ ]
  In-Replaced old new r (x ∷ rs) [] t _ k = elim t [ ]
  In-Replaced old new r (x ∷ rs) (y ∷ rs') first_row (here e) k = elim (k e) [ ]
  In-Replaced old new r (x ∷ rs) (y ∷ rs') first_row (there i) k = there i
  In-Replaced old new r (x ∷ rs) (y ∷ rs') (later_row t) (here e) k = here e
  In-Replaced old new r (x ∷ rs) (y ∷ rs') (later_row t) (there i) k =
      there (In-Replaced old new r rs rs' t i k)

-- The outcome of a conditional update: one agent in an expected state is replaced, or no agent is in
-- such a state and the table is as before, or the call has failed and the table is as before.
abbrev pub Updated :
    String
    → List AgentStatus
    → (AgentEntry → AgentEntry)
    → List AgentEntry
    → Outcome Bool × World
    → Type 0
Updated task expected f agents (ok true, w') =
    (a : AgentEntry) × (expected_task task expected a ≡ true) × Replaced a (f a) agents w'.agents
Updated task expected f agents (ok false, w') =
    (exists_row (expected_task task expected) agents ≡ false) × (w'.agents ≡ agents)
Updated task expected f agents (err _, w') = w'.agents ≡ agents

pub update_expected-Updated :
    (task : String) (s : AgentStatus) (ss : List AgentStatus) (f : AgentEntry → AgentEntry)
    (w : World)
    → Updated task (s ∷ ss) f w.agents (update_expected task (s ∷ ss) f w)
update_expected-Updated task s ss f w = elim (Bool-cases (w.fault w.calls)) [
  | inl fails ↦ rw (fails, Updated)
  | inr passes ↦ elim (Bool-cases (exists_row (expected_task task (s ∷ ss)) w.agents)) [
    | inl hit ↦
        rw (passes, hit, Updated) (update_row-Replaced (expected_task task (s ∷ ss)) f w.agents hit)
    | inr miss ↦
        rw (passes, miss, Updated)
          (miss, update_row-absent (expected_task task (s ∷ ss)) f w.agents miss)
  ]
]
