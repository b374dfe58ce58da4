-- ===== src/Agents/Writer/Laws/Start.antt =====
-- A new agent: `RecordAgentStarted` of internal/agentlifecycle/writer.go.
use fracta.Common.{
  String, same, same→≡, ≡→same, false, Bool-cases, inl, inr, some, List, [], ◌∷◌, ◌++◌, exists_row,
  if◌then◌else◌, ◌≡◌, refl, sym, ap, ◌∙◌,
}
use fracta.Model.{AgentEntry, State}
use fracta.World.{World, Outcome, ok, err, Unchanged}
use fracta.Agents.Store.{has_task}
use fracta.Agents.Snapshot.{with_lock}
use fracta.Agents.Snapshot.Laws.{Saved, with_lock-Saved}
use fracta.Agents.Snapshot.Laws.Finding.{agent_of, Distinct, agent_of-append}
use fracta.Agents.Writer.{
  CreationMeta, Writer, Session, Transitioned, done, skipped, failed, emit_lifecycle_event,
  new_entry, is_admitted, add_entry, after_start, record_agent_started,
}
use fracta.Agents.Writer.Laws.Marks.{emit-world, emit-summary, progress-world, progress-emitted}
use fracta.Agents.Writer.Laws.Steps.{summary}

append_fresh :
    (t : String) (a : AgentEntry) (rs : List AgentEntry)
    → same t a.task ≡ false
    → exists_row (has_task t) rs ≡ false
    → exists_row (has_task t) (rs ++ (a ∷ [])) ≡ false
append_fresh t a [] k e = elim (Bool-cases (same a.task t)) [
  | inl n ↦ cc (≡→same t a.task (sym (same→≡ a.task t n)), k)
  | inr n ↦ rw n
]
append_fresh t a (x ∷ rs) k e = elim (Bool-cases (same x.task t)) [
  | inl n ↦ cc (rw n at e)
  | inr n ↦ rw n (append_fresh t a rs k (rw n at e))
]

abbrev agents_in : Outcome State → List AgentEntry
agents_in (ok st) = st.agents
agents_in (err _) = []

-- What the caller's function gives.
pub add_entry-ok :
    (c : Writer) (a : AgentEntry) (st after : State)
    → add_entry c a st ≡ ok after
    → after.agents ≡ st.agents ++ (a ∷ [])
add_entry-ok c a st after h = elim (Bool-cases (is_admitted c.admission_check st)) [
  | inl admitted ↦ ap agents_in (sym (rw (admitted, add_entry) at h))
  | inr refused ↦ cc (rw (refused, add_entry) at h)
]

pub Distinct-append :
    (rs : List AgentEntry) (a : AgentEntry)
    → Distinct rs
    → exists_row (has_task a.task) rs ≡ false
    → Distinct (rs ++ (a ∷ []))
Distinct-append [] a d h = (refl, tt)
Distinct-append (b ∷ rs) a d h = elim (Bool-cases (same b.task a.task)) [
  | inl k ↦ cc (rw k at h)
  | inr k ↦ (append_fresh b.task a rs k d.0, Distinct-append rs a d.1 (rw k at h))
]

module _ (c : Writer) (task : String) (m : CreationMeta) (s : Session) where
  -- The outcomes of `record_agent_started`.
  abbrev pub Started : Transitioned × Session → Type 0
  Started (done, s') =
      ((t : String)
        → agent_of t s'.world.agents
          ≡ (if same task t then some (new_entry task m s.world) else agent_of t s.world.agents))
      × (summary s'.emitted
          ≡ (if c.has_bus then (task, "lifecycle.started") ∷ [] else []) ++ summary s.emitted)
  Started (skipped, s') = ⊥
  Started (failed _, s') = Unchanged s.world s'.world × (s'.emitted ≡ s.emitted)

  Started-outcome :
      Distinct s.world.agents
      → exists_row (has_task task) s.world.agents ≡ false
      → (p : Outcome (Unit {0}) × World) → Saved (add_entry c (new_entry task m s.world)) s.world p
      → Started (after_start c task m s p)
  Started-outcome d new (err e, w) u = (u, refl)
  Started-outcome d new (ok _, w) (seen, after, rows, f, found) =
      let meta = m.meta in
      let emitted =
        emit_lifecycle_event c task "lifecycle.started" "info" meta (record s { world = w }) in
      let e =
        progress-world c emitted
        ∙ emit-world c task "lifecycle.started" "info" meta (record s { world = w }) in
      let entry = new_entry task m s.world in
      let rows_after : after.agents ≡ s.world.agents ++ (entry ∷ []) =
        add_entry-ok c entry seen after f ∙ ap (λ rs. rs ++ (entry ∷ [])) rows in
      (
        λ t.
            ap (λ x. agent_of t x.agents) e
            ∙ found t
            ∙ ap (agent_of t) rows_after
            ∙ agent_of-append t s.world.agents entry new,
        ap summary (progress-emitted c emitted)
            ∙ emit-summary c task "lifecycle.started" "info" meta (record s { world = w }),
      )

  -- In a table where no task stands twice, the start of a task that is not in it fails, and no table
  -- changes and nothing is emitted, or it is done: the task finds the new, running agent, the other
  -- tasks find what they found, and the event is emitted.
  pub record_agent_started-Started :
      Distinct s.world.agents
      → exists_row (has_task task) s.world.agents ≡ false
      → Started (record_agent_started c task m s)
  unfolding record_agent_started
  record_agent_started-Started d new =
      let entry = new_entry task m s.world in
      Started-outcome d new (with_lock (add_entry c entry) s.world) (
        with_lock-Saved (add_entry c entry) s.world (λ seen after rows f.
          rw (add_entry-ok c entry seen after f ∙ ap (λ rs. rs ++ (entry ∷ [])) rows)
            (Distinct-append s.world.agents entry d new)))
