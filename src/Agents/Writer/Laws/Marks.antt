-- ===== src/Agents/Writer/Laws/Marks.antt =====
-- The marks of internal/agentlifecycle/writer.go against the state machine of an agent.
use fracta.Common.{
  String, Bool, true, false, Bool-cases, both, inl, inr, List, [], ◌∷◌, ◌++◌, In, exists_row,
  update_row, if◌then◌else◌, ◌≡◌, refl, ◌∙◌,
}
use fracta.Model.{AgentStatus, AgentEntry}
use fracta.World.{World, Outcome, ok, err, tick, now}
use fracta.Agents.Store.{
  has_task, is_expected, expected_task, update_expected, with_status, with_result, started,
  update_agent_status_if, update_agent_result_if, claim_agent,
}
use fracta.Agents.Store.Laws.{In-Replaced, Updated, update_row-Replaced, update_expected-Updated}
use fracta.Agents.Writer.{
  LifecycleMeta, Writer, Session, Transitioned, done, skipped, failed, emit_lifecycle_event,
  trigger_progress, after_update, quiet, mark_running, mark_idle, mark_completed, mark_failed,
  mark_stopped, claim_queued_agent, after_claim,
}
use fracta.Agents.Writer.Laws.Steps.{
  AgentStep, starts, resumes, rests, completes, completes_idle, fails, fails_idle, fails_queued,
  stops, stops_idle, stops_queued, Mark, claim, run, rest, complete, fail, stop, run_mark, reported,
  summary, MarkEffect, claim-step, run-step, rest-step, complete-step, fail-step, stop-step,
}

-- An event and the progress hook do not touch the database.
pub emit-world :
    (c : Writer) (task action severity : String) (m : LifecycleMeta) (s : Session)
    → (emit_lifecycle_event c task action severity m s).world ≡ s.world
unfolding emit_lifecycle_event
emit-world c task action severity m s = elim (Bool-cases c.has_bus) [ inl h ↦ rw h | inr h ↦ rw h ]

pub emit-summary :
    (c : Writer) (task action severity : String) (m : LifecycleMeta) (s : Session)
    → summary (emit_lifecycle_event c task action severity m s).emitted
      ≡ (if c.has_bus then (task, action) ∷ [] else []) ++ summary s.emitted
unfolding emit_lifecycle_event
emit-summary c task action severity m s = elim (Bool-cases c.has_bus) [
  | inl h ↦ rw h
  | inr h ↦ rw h
]

pub progress-world : (c : Writer) (s : Session) → (trigger_progress c s).world ≡ s.world
unfolding trigger_progress
progress-world c s = elim (Bool-cases c.has_progress_hook) [ inl h ↦ rw h | inr h ↦ rw h ]

pub progress-emitted : (c : Writer) (s : Session) → (trigger_progress c s).emitted ≡ s.emitted
unfolding trigger_progress
progress-emitted c s = elim (Bool-cases c.has_progress_hook) [ inl h ↦ rw h | inr h ↦ rw h ]

reported_none : (b : Bool) (xs : List (String × String)) → xs ≡ (if b then [] else []) ++ xs
reported_none true xs = refl
reported_none false xs = refl

-- The marks that are a conditional update.
module _ (c : Writer) (task : String) (m : Mark) (s : Session) (expected : List AgentStatus)
    (f : AgentEntry → AgentEntry) (emit : Session → Session)
    (keeps : (a : AgentEntry) → (f a).task ≡ a.task)
    (steps : (a : AgentEntry)
      → is_expected expected a.status ≡ true
      → AgentStep a.status (f a).status)
    (database : (w : World) → (emit (record s { world = w })).world ≡ w)
    (reports_it : (w : World)
      → summary (emit (record s { world = w })).emitted
        ≡ reported c task m ++ summary s.emitted) where
  after_update-Effect :
      (p : Outcome Bool × World)
      → Updated task expected f s.world.agents p
      → MarkEffect c task m s (after_update c emit s p)
  after_update-Effect (err e, w) u = (u, refl)
  after_update-Effect (ok false, w) u = (u.1, refl)
  after_update-Effect (ok true, w) (a, hit, replaced) =
      let (mine, allowed) = both (has_task task a) (is_expected expected a.status) hit in
      let e = progress-world c (emit (record s { world = w })) ∙ database w in
      (
        a,
        f a,
        rw e replaced,
        mine,
        keeps a,
        steps a allowed,
        rw (progress-emitted c (emit (record s { world = w }))) (reports_it w),
      )

module _ (c : Writer) (task : String) (s : Session) where
  claim-Effect :
      (m : LifecycleMeta)
      → MarkEffect c task (claim m) s (after_claim c task m s (claim_agent task s.world))
  unfolding claim_agent
  claim-Effect m = elim (Bool-cases (s.world.fault s.world.calls)) [
    | inl fault ↦ rw (fault, MarkEffect) (refl, refl)
    | inr passes ↦
        elim (Bool-cases
          (exists_row (expected_task task (AgentStatus.queued ∷ [])) s.world.agents)) [
            | inl hit ↦
                rw (passes, hit)
                  (after_update-Effect c task (claim m) s (AgentStatus.queued ∷ [])
                    (started (now s.world))
                    (emit_lifecycle_event c task "lifecycle.started" "info" m) (λ a. refl)
                    (λ a h. claim-step a.status h)
                    (λ w. emit-world c task "lifecycle.started" "info" m (record s { world = w }))
                    (λ w. emit-summary c task "lifecycle.started" "info" m (record s { world = w }))
                    (
                      ok true,
                      record (tick s.world) {
                        agents =
                            update_row (expected_task task (AgentStatus.queued ∷ []))
                              (started (now s.world)) s.world.agents;
                      },
                    )
                    (update_row-Replaced (expected_task task (AgentStatus.queued ∷ []))
                      (started (now s.world)) s.world.agents hit))
            | inr miss ↦ rw (passes, miss, MarkEffect) (refl, refl)
          ]
  ]

  -- A mark is done, and one agent of its task makes a transition of the state machine and the report
  -- is emitted, or it is skipped or fails, and no agent changes and nothing is emitted.
  pub run_mark-Effect : (m : Mark) → MarkEffect c task m s (run_mark c task m s)
  unfolding mark_running mark_idle mark_completed mark_failed mark_stopped claim_queued_agent
      update_agent_status_if update_agent_result_if
  run_mark-Effect (claim m) = claim-Effect m
  run_mark-Effect run =
      after_update-Effect c task run s (AgentStatus.idle ∷ []) (with_status AgentStatus.running "")
        quiet (λ a. refl) (λ a h. run-step a.status h) (λ w. refl)
        (λ w. reported_none c.has_bus (summary s.emitted))
        (update_expected task (AgentStatus.idle ∷ []) (with_status AgentStatus.running "") s.world)
        (update_expected-Updated task AgentStatus.idle [] (with_status AgentStatus.running "")
          s.world)
  run_mark-Effect (rest output token) =
      after_update-Effect c task (rest output token) s (AgentStatus.running ∷ [])
        (with_result AgentStatus.idle output token) quiet (λ a. refl) (λ a h. rest-step a.status h)
        (λ w. refl) (λ w. reported_none c.has_bus (summary s.emitted))
        (update_expected task (AgentStatus.running ∷ []) (with_result AgentStatus.idle output token)
          s.world)
        (update_expected-Updated task AgentStatus.running []
          (with_result AgentStatus.idle output token) s.world)
  run_mark-Effect (complete r) =
      after_update-Effect c task (complete r) s (AgentStatus.running ∷ AgentStatus.idle ∷ [])
        (with_result AgentStatus.completed r.last_output r.resume_token)
        (emit_lifecycle_event c task "lifecycle.completed" "info" r.meta) (λ a. refl)
        (λ a h. complete-step a.status h)
        (λ w. emit-world c task "lifecycle.completed" "info" r.meta (record s { world = w }))
        (λ w. emit-summary c task "lifecycle.completed" "info" r.meta (record s { world = w }))
        (update_expected task (AgentStatus.running ∷ AgentStatus.idle ∷ [])
          (with_result AgentStatus.completed r.last_output r.resume_token) s.world)
        (update_expected-Updated task AgentStatus.running (AgentStatus.idle ∷ [])
          (with_result AgentStatus.completed r.last_output r.resume_token) s.world)
  run_mark-Effect (fail r) =
      after_update-Effect c task (fail r) s
        (AgentStatus.running ∷ AgentStatus.idle ∷ AgentStatus.queued ∷ [])
        (with_result AgentStatus.failed r.last_output r.resume_token)
        (emit_lifecycle_event c task "lifecycle.failed" "error" r.meta) (λ a. refl)
        (λ a h. fail-step a.status h)
        (λ w. emit-world c task "lifecycle.failed" "error" r.meta (record s { world = w }))
        (λ w. emit-summary c task "lifecycle.failed" "error" r.meta (record s { world = w }))
        (update_expected task (AgentStatus.running ∷ AgentStatus.idle ∷ AgentStatus.queued ∷ [])
          (with_result AgentStatus.failed r.last_output r.resume_token) s.world)
        (update_expected-Updated task AgentStatus.running
          (AgentStatus.idle ∷ AgentStatus.queued ∷ [])
          (with_result AgentStatus.failed r.last_output r.resume_token) s.world)
  run_mark-Effect (stop m) =
      after_update-Effect c task (stop m) s
        (AgentStatus.queued ∷ AgentStatus.running ∷ AgentStatus.idle ∷ [])
        (with_status AgentStatus.stopped m.reason)
        (emit_lifecycle_event c task "lifecycle.stopped" "warn" m) (λ a. refl)
        (λ a h. stop-step a.status h)
        (λ w. emit-world c task "lifecycle.stopped" "warn" m (record s { world = w }))
        (λ w. emit-summary c task "lifecycle.stopped" "warn" m (record s { world = w }))
        (update_expected task (AgentStatus.queued ∷ AgentStatus.running ∷ AgentStatus.idle ∷ [])
          (with_status AgentStatus.stopped m.reason) s.world)
        (update_expected-Updated task AgentStatus.queued
          (AgentStatus.running ∷ AgentStatus.idle ∷ []) (with_status AgentStatus.stopped m.reason)
          s.world)

-- Completed, failed and stopped agents.
abbrev pub is_over : AgentStatus → Bool
is_over AgentStatus.completed = true
is_over AgentStatus.failed = true
is_over AgentStatus.stopped = true
is_over _ = false

AgentStep-is_over : {s s' : AgentStatus} → AgentStep s s' → is_over s ≡ false
AgentStep-is_over starts = refl
AgentStep-is_over resumes = refl
AgentStep-is_over rests = refl
AgentStep-is_over completes = refl
AgentStep-is_over completes_idle = refl
AgentStep-is_over fails = refl
AgentStep-is_over fails_idle = refl
AgentStep-is_over fails_queued = refl
AgentStep-is_over stops = refl
AgentStep-is_over stops_idle = refl
AgentStep-is_over stops_queued = refl

abbrev pub run_marks : Writer → List (String × Mark) → Session → Session
run_marks c [] s = s
run_marks c ((task, m) ∷ ms) s = run_marks c ms (run_mark c task m s).1

module _ (a : AgentEntry) (over : is_over a.status ≡ true) where
  effect_keeps :
      (c : Writer) (task : String) (m : Mark) (s : Session) (p : Transitioned × Session)
      → MarkEffect c task m s p
      → In a s.world.agents
      → In a p.1.world.agents
  effect_keeps c task m s (done, s') (old, new, replaced, _, _, step, _) i =
      In-Replaced old new a s.world.agents s'.world.agents replaced i
        (λ e. let k = AgentStep-is_over step in cc (rw e at over))
  effect_keeps c task m s (skipped, s') (e, _) i = rw e i
  effect_keeps c task m s (failed x, s') (e, _) i = rw e i

  -- An agent that is completed, failed or stopped is left as it is by any sequence of marks of any
  -- tasks.
  pub run_marks-keeps_over :
      (c : Writer) (ms : List (String × Mark)) (s : Session)
      → In a s.world.agents
      → In a (run_marks c ms s).world.agents
  run_marks-keeps_over c [] s i = i
  run_marks-keeps_over c ((task, m) ∷ ms) s i =
      run_marks-keeps_over c ms (run_mark c task m s).1
        (effect_keeps c task m s (run_mark c task m s) (run_mark-Effect c task s m) i)
