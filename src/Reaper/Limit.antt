-- ===== src/Reaper/Limit.antt =====
-- How many agents may run: `CheckSpawnAllowed` of internal/controlplane/reaper.go as the admission check
-- of internal/agentlifecycle/writer.go.
use fracta.Common.{
  pos, leb_ℤ, leb_ℤ-false, ◌<ℤ◌, String, true, false, Bool-cases, some, [], ◌∷◌, ◌++◌, ◌≡◌, sym, ap,
  ◌∙◌, inl, inr, count_rows, exists_row,
}
use fracta.Model.{AgentEntry, State}
use fracta.World.{World, Outcome, ok, err}
use fracta.Agents.Store.{has_task}
use fracta.Agents.Snapshot.{with_lock}
use fracta.Agents.Snapshot.Laws.{Saved, with_lock-Saved}
use fracta.Agents.Snapshot.Laws.Finding.{Distinct}
use fracta.Agents.Writer.{
  CreationMeta, Writer, Session, done, new_entry, is_admitted, add_entry, after_start,
  record_agent_started,
}
use fracta.Agents.Writer.Laws.Start.{add_entry-ok, Distinct-append}
use fracta.Reaper.{Reaper, is_running, check_spawn_allowed}

admitted :
    (c : Writer) (a : AgentEntry) (st after : State)
    → add_entry c a st ≡ ok after
    → is_admitted c.admission_check st ≡ true
admitted c a st after h = elim (Bool-cases (is_admitted c.admission_check st)) [
  | inl passes ↦ passes
  | inr fails ↦ cc (rw (fails, add_entry) at h)
]

below_limit :
    (r : Reaper) (st : State)
    → pos 0 <ℤ r.max_concurrent
    → check_spawn_allowed r st ≡ true
    → pos (count_rows is_running st.agents) <ℤ r.max_concurrent
unfolding check_spawn_allowed
below_limit r st limited h =
    let positive = (leb_ℤ-false r.max_concurrent (pos 0)).1 limited in
    elim (Bool-cases (leb_ℤ r.max_concurrent (pos (count_rows is_running st.agents)))) [
      | inl reached ↦ cc (rw (positive, reached) at h)
      | inr below ↦ (leb_ℤ-false r.max_concurrent (pos (count_rows is_running st.agents))).0 below
    ]

module _ (r : Reaper) (c : Writer) (task : String) (m : CreationMeta) (s : Session)
    (checks : c.admission_check ≡ some (check_spawn_allowed r))
    (limited : pos 0 <ℤ r.max_concurrent) where
  saved-bounded :
      (p : Outcome (Unit {0}) × World)
      → Saved (add_entry c (new_entry task m s.world)) s.world p
      → {s' : Session} → after_start c task m s p ≡ (done, s')
      → pos (count_rows is_running s.world.agents) <ℤ r.max_concurrent
  saved-bounded (err e, w) saved h = cc h
  saved-bounded (ok _, w) (seen, after, rows, f, found) h =
      let k : check_spawn_allowed r seen ≡ true =
        ap (λ o. is_admitted o seen) (sym checks)
        ∙ admitted c (new_entry task m s.world) seen after f in
      rw (sym rows) (below_limit r seen limited k)

  -- Where the reaper's check is the admission check and there is a limit, an agent with a new task is
  -- started only while fewer agents run than the limit.
  pub record_agent_started-bounded :
      {s' : Session}
      → Distinct s.world.agents
      → exists_row (has_task task) s.world.agents ≡ false
      → record_agent_started c task m s ≡ (done, s')
      → pos (count_rows is_running s.world.agents) <ℤ r.max_concurrent
  unfolding record_agent_started
  record_agent_started-bounded d new h =
      let entry = new_entry task m s.world in
      saved-bounded (with_lock (add_entry c entry) s.world)
        (with_lock-Saved (add_entry c entry) s.world (λ seen after rows f.
          rw (add_entry-ok c entry seen after f ∙ ap (λ rs. rs ++ (entry ∷ [])) rows)
            (Distinct-append s.world.agents entry d new)))
        h
