-- ===== src/Agents/Writer.antt =====
-- The transitions of an agent: internal/agentlifecycle/writer.go. Emitting an event appends it to a
-- log; the progress hook is counted; the service log is left out.
pub mod Laws
mod Tests
use fracta.Common.{
  ℕ, zero, suc, ◌+◌, String, same, decimal, Bool, true, false, Option, none, some, List, [], ◌∷◌,
  ◌++◌, length, if◌then◌else◌,
}
use fracta.Model.{AgentStatus, AgentEntry, State}
use fracta.World.{World, Error, not_claimable, Outcome, ok, err, Action, now}
use fracta.Events.{Event}
use fracta.Agents.Store.{update_agent_status_if, update_agent_result_if, claim_agent}
use fracta.Agents.Snapshot.{with_lock}

-- `LifecycleMeta`, `ResultMeta` and `CreationMeta` of types.go; embedding is inlined by a field.
pub record LifecycleMeta : Type 0 where
  pub runtime_type : String
  pub backend : String
  pub mission_id : ℕ
  pub objective_id : String
  pub reason : String

pub record ResultMeta : Type 0 where
  pub meta : LifecycleMeta
  pub last_output : String
  pub resume_token : String

pub record CreationMeta : Type 0 where
  pub meta : LifecycleMeta
  pub workspace_path : String
  pub branch_name : String
  pub base_branch : String
  pub mode : String

-- `Writer`: the dependencies that may be nil are options or flags; `uuid n` is what the package of
-- identifiers gives for the event with number n.
pub record Writer : Type 0 where
  pub has_bus : Bool
  pub admission_check : Option (State → Bool)
  pub has_progress_hook : Bool
  pub uuid : ℕ → String

-- The database, the events emitted so far, the newest first, and the calls of the progress hook.
pub record Session : Type 0 where
  pub world : World
  pub emitted : List Event
  pub progress : ℕ

-- nil, `ErrTransitionSkipped` and the error of a call.
pub data Transitioned : Type 0 where
  done skipped : Transitioned
  failed : Error → Transitioned

-- The three entries of the map of `emitLifecycleEvent`.
unfoldable pub lifecycle_attrs : LifecycleMeta → List (String × String)
unfolding decimal
lifecycle_attrs m =
    (if same m.runtime_type "" then [] else (("runtime", m.runtime_type) ∷ []))
    ++ ((if same m.backend "" then [] else (("backend", m.backend) ∷ []))
        ++ (elim m.mission_id [ zero ↦ [] | suc n ↦ ("mission_id", decimal (suc n)) ∷ [] ]))

abbrev pub lifecycle_event : Writer → String → String → String → LifecycleMeta → Session → Event
lifecycle_event c task action severity m s = record {
  id = c.uuid (length s.emitted);
  time = now s.world;
  component = "agentlifecycle";
  category = "agent_activity";
  resource = "";
  action = action;
  outcome = "";
  severity = severity;
  task = task;
  mission_id = m.mission_id;
  objective_id = m.objective_id;
  detail = m.reason;
  attrs = lifecycle_attrs m;
}

-- `emitLifecycleEvent`
unfoldable pub emit_lifecycle_event :
    Writer → String → String → String → LifecycleMeta → Session → Session
unfolding lifecycle_attrs decimal
emit_lifecycle_event c task action severity m s =
    if c.has_bus
    then record s { emitted = lifecycle_event c task action severity m s ∷ s.emitted }
    else s

-- `triggerProgress`
unfoldable pub trigger_progress : Writer → Session → Session
trigger_progress c s = if c.has_progress_hook then record s { progress = s.progress + 1 } else s

-- What the marks do with the outcome of the conditional update: `emit` is the event, if there is one.
abbrev pub after_update :
    Writer → (Session → Session) → Session → Outcome Bool × World → Transitioned × Session
after_update c emit s (err e, w) = (failed e, record s { world = w })
after_update c emit s (ok false, w) = (skipped, record s { world = w })
after_update c emit s (ok true, w) = (done, trigger_progress c (emit (record s { world = w })))

abbrev pub quiet : Session → Session
quiet s = s

-- `MarkRunning`
unfoldable pub mark_running : Writer → String → Session → Transitioned × Session
unfolding update_agent_status_if
mark_running c task s =
    after_update c quiet s
      (update_agent_status_if task (AgentStatus.idle ∷ []) AgentStatus.running "" s.world)

-- `MarkIdle`
unfoldable pub mark_idle : Writer → String → String → String → Session → Transitioned × Session
unfolding update_agent_result_if
mark_idle c task output token s =
    after_update c quiet s
      (update_agent_result_if task (AgentStatus.running ∷ []) AgentStatus.idle output token s.world)

-- `MarkCompleted`
unfoldable pub mark_completed : Writer → String → ResultMeta → Session → Transitioned × Session
unfolding update_agent_result_if
mark_completed c task r s =
    after_update c (emit_lifecycle_event c task "lifecycle.completed" "info" r.meta) s (
      update_agent_result_if task (AgentStatus.running ∷ AgentStatus.idle ∷ [])
        AgentStatus.completed r.last_output r.resume_token s.world)

-- `MarkFailed`
unfoldable pub mark_failed : Writer → String → ResultMeta → Session → Transitioned × Session
unfolding update_agent_result_if
mark_failed c task r s =
    after_update c (emit_lifecycle_event c task "lifecycle.failed" "error" r.meta) s (
      update_agent_result_if task (AgentStatus.running ∷ AgentStatus.idle ∷ AgentStatus.queued ∷ [])
        AgentStatus.failed r.last_output r.resume_token s.world)

-- `MarkStopped`
unfoldable pub mark_stopped : Writer → String → LifecycleMeta → Session → Transitioned × Session
unfolding update_agent_status_if
mark_stopped c task m s =
    after_update c (emit_lifecycle_event c task "lifecycle.stopped" "warn" m) s (
      update_agent_status_if task (AgentStatus.queued ∷ AgentStatus.running ∷ AgentStatus.idle ∷ [])
        AgentStatus.stopped m.reason s.world)

abbrev pub after_claim :
    Writer → String → LifecycleMeta → Session → Outcome (Unit {0}) × World → Transitioned × Session
after_claim c task m s (err not_claimable, w) = (skipped, record s { world = w })
after_claim c task m s (err e, w) = (failed e, record s { world = w })
after_claim c task m s (ok _, w) = (
  done,
  trigger_progress c
      (emit_lifecycle_event c task "lifecycle.started" "info" m (record s { world = w })),
)

-- `ClaimQueuedAgent`
unfoldable pub claim_queued_agent :
    Writer → String → LifecycleMeta → Session → Transitioned × Session
unfolding claim_agent
claim_queued_agent c task m s = after_claim c task m s (claim_agent task s.world)

abbrev pub new_entry : String → CreationMeta → World → AgentEntry
new_entry task m w = record {
  task = task;
  runtime_type = m.meta.runtime_type;
  resume_token = "";
  workspace_path = m.workspace_path;
  branch_name = m.branch_name;
  base_branch = m.base_branch;
  status = AgentStatus.running;
  last_output = "";
  start_time = now w;
  mode = m.mode;
  current_intent = "";
  mission_id = m.meta.mission_id;
  objective_id = m.meta.objective_id;
}

abbrev pub is_admitted : Option (State → Bool) → State → Bool
is_admitted none st = true
is_admitted (some check) st = check st

-- The function that `RecordAgentStarted` passes to `WithLock`.
abbrev pub add_entry : Writer → AgentEntry → State → Outcome State
add_entry c a st =
    if is_admitted c.admission_check st
    then ok (record st { agents = st.agents ++ (a ∷ []) })
    else err Error.refused

abbrev pub after_start :
    Writer → String → CreationMeta → Session → Outcome (Unit {0}) × World → Transitioned × Session
after_start c task m s (err e, w) = (failed e, record s { world = w })
after_start c task m s (ok _, w) = (
  done,
  trigger_progress c
      (emit_lifecycle_event c task "lifecycle.started" "info" m.meta (record s { world = w })),
)

-- `RecordAgentStarted`
unfoldable pub record_agent_started :
    Writer → String → CreationMeta → Session → Transitioned × Session
unfolding with_lock
record_agent_started c task m s =
    after_start c task m s (with_lock (add_entry c (new_entry task m s.world)) s.world)
