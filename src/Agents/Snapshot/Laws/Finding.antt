-- ===== src/Agents/Snapshot/Laws/Finding.antt =====
-- The agent that a task finds after a statement on the table.
use fracta.Common.{
  String, same, same→≡, ≡→same, true, false, not, Bool-cases, inl, inr, Option, none, some, List,
  [], ◌∷◌, ◌++◌, find_row, exists_row, select_rows, update_row, if◌then◌else◌, ◌≡◌, refl, sym, ◌∙◌,
  arith,
}
use fracta.Model.{AgentEntry}
use fracta.Agents.Store.{has_task}

-- The agent of a task.
abbrev pub agent_of : String → List AgentEntry → Option AgentEntry
agent_of t rs = find_row (has_task t) rs

-- No two agents of the list have the same task.
abbrev pub Distinct : List AgentEntry → Type 0
Distinct [] = Unit
Distinct (a ∷ rs) = (exists_row (has_task a.task) rs ≡ false) × Distinct rs

-- Two tasks that differ.
pub other_task : (a b t : String) → b ≡ t → same b a ≡ false → same a t ≡ false
other_task a b t e h = elim (Bool-cases (same a t)) [
  | inl k ↦ cc (≡→same b a (e ∙ sym (same→≡ a t k)), h)
  | inr k ↦ k
]

pub other_task_same : (b a t : String) → b ≡ a → same a t ≡ false → same b t ≡ false
other_task_same b a t e h = rw e h

module _ (t : String) where
  pub agent_of-append :
      (rs : List AgentEntry) (a : AgentEntry)
      → exists_row (has_task a.task) rs ≡ false
      → agent_of t (rs ++ (a ∷ [])) ≡ (if same a.task t then some a else agent_of t rs)
  agent_of-append [] a h = refl
  agent_of-append (b ∷ rs) a h = elim (Bool-cases (same b.task a.task)) [
    | inl k ↦ cc (rw k at h)
    | inr k ↦ elim (Bool-cases (same b.task t)) [
      | inl m ↦
          let e = same→≡ b.task t m in
          let n : same a.task t ≡ false = other_task a.task b.task t e k in rw (m, n)
      | inr m ↦ rw m (agent_of-append rs a (rw k at h))
    ]
  ]

  pub agent_of-update :
      (rs : List AgentEntry) (a : AgentEntry)
      → exists_row (has_task a.task) rs ≡ true
      → agent_of t (update_row (has_task a.task) (λ _. a) rs)
        ≡ (if same a.task t then some a else agent_of t rs)
  agent_of-update [] a h = ground arith
  agent_of-update (b ∷ rs) a h = elim (Bool-cases (same b.task a.task)) [
    | inl k ↦ elim (Bool-cases (same a.task t)) [
      | inl o ↦ rw (k, o)
      | inr o ↦
          let n : same b.task t ≡ false =
            other_task_same b.task a.task t (same→≡ b.task a.task k) o in
          rw (k, o, n)
    ]
    | inr k ↦ elim (Bool-cases (same b.task t)) [
      | inl m ↦
          let e = same→≡ b.task t m in
          let n : same a.task t ≡ false = other_task a.task b.task t e k in rw (k, m, n)
      | inr m ↦ rw (k, m) (agent_of-update rs a (rw k at h))
    ]
  ]

  pub agent_of-delete :
      (k : String) (rs : List AgentEntry)
      → agent_of t (select_rows (λ a. not (has_task k a)) rs)
        ≡ (if same k t then none else agent_of t rs)
  agent_of-delete k [] = elim (Bool-cases (same k t)) [ inl e ↦ rw e | inr e ↦ rw e ]
  agent_of-delete k (b ∷ rs) = elim (Bool-cases (same b.task k)) [
    | inl m ↦ elim (Bool-cases (same k t)) [
      | inl o ↦ rw (m, o) (agent_of-delete k rs ∙ rw o)
      | inr o ↦
          let n : same b.task t ≡ false = other_task_same b.task k t (same→≡ b.task k m) o in
          rw (m, o, n) (agent_of-delete k rs ∙ rw o)
    ]
    | inr m ↦ elim (Bool-cases (same b.task t)) [
      | inl n ↦
          let e = same→≡ b.task t n in
          let o : same k t ≡ false = other_task k b.task t e m in rw (m, n, o)
      | inr n ↦ rw (m, n) (agent_of-delete k rs)
    ]
  ]
