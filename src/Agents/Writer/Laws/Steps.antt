-- ===== src/Agents/Writer/Laws/Steps.antt =====
-- The state machine of an agent and the marks of a writer: internal/agentlifecycle/writer.go.
use fracta.Common.{String, same, true, List, [], ◌∷◌, ◌++◌, map, if◌then◌else◌, ◌≡◌}
use fracta.Model.{AgentStatus, AgentEntry}
use fracta.Events.{Event}
use fracta.Agents.Store.{is_expected}
use fracta.Agents.Store.Laws.{Replaced}
use fracta.Agents.Writer.{
  LifecycleMeta, ResultMeta, Writer, Session, Transitioned, done, skipped, failed, mark_running,
  mark_idle, mark_completed, mark_failed, mark_stopped, claim_queued_agent,
}

-- The transitions of an agent.
pub data AgentStep : AgentStatus → AgentStatus → Type 0 where
  starts : AgentStep AgentStatus.queued AgentStatus.running
  resumes : AgentStep AgentStatus.idle AgentStatus.running
  rests : AgentStep AgentStatus.running AgentStatus.idle
  completes : AgentStep AgentStatus.running AgentStatus.completed
  completes_idle : AgentStep AgentStatus.idle AgentStatus.completed
  fails : AgentStep AgentStatus.running AgentStatus.failed
  fails_idle : AgentStep AgentStatus.idle AgentStatus.failed
  fails_queued : AgentStep AgentStatus.queued AgentStatus.failed
  stops : AgentStep AgentStatus.running AgentStatus.stopped
  stops_idle : AgentStep AgentStatus.idle AgentStatus.stopped
  stops_queued : AgentStep AgentStatus.queued AgentStatus.stopped

-- The calls of a writer that change an agent that is there.
pub data Mark : Type 0 where
  claim : LifecycleMeta → Mark
  run : Mark
  rest : String → String → Mark
  complete fail : ResultMeta → Mark
  stop : LifecycleMeta → Mark

abbrev pub run_mark : Writer → String → Mark → Session → Transitioned × Session
run_mark c task (claim m) s = claim_queued_agent c task m s
run_mark c task run s = mark_running c task s
run_mark c task (rest output token) s = mark_idle c task output token s
run_mark c task (complete r) s = mark_completed c task r s
run_mark c task (fail r) s = mark_failed c task r s
run_mark c task (stop m) s = mark_stopped c task m s

-- The actions that a mark reports when it is done, with the task.
abbrev pub reports : String → Mark → List (String × String)
reports task (claim _) = (task, "lifecycle.started") ∷ []
reports task run = []
reports task (rest _ _) = []
reports task (complete _) = (task, "lifecycle.completed") ∷ []
reports task (fail _) = (task, "lifecycle.failed") ∷ []
reports task (stop _) = (task, "lifecycle.stopped") ∷ []

abbrev pub reported : Writer → String → Mark → List (String × String)
reported c task m = if c.has_bus then reports task m else []

abbrev pub summary : List Event → List (String × String)
summary es = map (λ e. (e.task, e.action)) es

-- What a mark does: it is done, one agent of this task makes one of the transitions and the report
-- is emitted, or it is skipped or fails, and no agent changes and nothing is emitted.
abbrev pub MarkEffect : Writer → String → Mark → Session → Transitioned × Session → Type 0
MarkEffect c task m s (done, s') =
    (old new : AgentEntry) × Replaced old new s.world.agents s'.world.agents
    × (same old.task task ≡ true)
    × (new.task ≡ old.task)
    × AgentStep old.status new.status
    × (summary s'.emitted ≡ reported c task m ++ summary s.emitted)
MarkEffect c task m s (skipped, s') = (s'.world.agents ≡ s.world.agents) × (s'.emitted ≡ s.emitted)
MarkEffect c task m s (failed e, s') = (s'.world.agents ≡ s.world.agents) × (s'.emitted ≡ s.emitted)

-- The states that each mark expects are those from which there is a transition.
pub claim-step :
    (s : AgentStatus)
    → is_expected (AgentStatus.queued ∷ []) s ≡ true
    → AgentStep s AgentStatus.running
claim-step AgentStatus.pending h = cc
claim-step AgentStatus.queued h = starts
claim-step AgentStatus.running h = cc
claim-step AgentStatus.stopped h = cc
claim-step AgentStatus.completed h = cc
claim-step AgentStatus.failed h = cc
claim-step AgentStatus.idle h = cc

pub run-step :
    (s : AgentStatus)
    → is_expected (AgentStatus.idle ∷ []) s ≡ true
    → AgentStep s AgentStatus.running
run-step AgentStatus.pending h = cc
run-step AgentStatus.queued h = cc
run-step AgentStatus.running h = cc
run-step AgentStatus.stopped h = cc
run-step AgentStatus.completed h = cc
run-step AgentStatus.failed h = cc
run-step AgentStatus.idle h = resumes

pub rest-step :
    (s : AgentStatus)
    → is_expected (AgentStatus.running ∷ []) s ≡ true
    → AgentStep s AgentStatus.idle
rest-step AgentStatus.pending h = cc
rest-step AgentStatus.queued h = cc
rest-step AgentStatus.running h = rests
rest-step AgentStatus.stopped h = cc
rest-step AgentStatus.completed h = cc
rest-step AgentStatus.failed h = cc
rest-step AgentStatus.idle h = cc

pub complete-step :
    (s : AgentStatus)
    → is_expected (AgentStatus.running ∷ AgentStatus.idle ∷ []) s ≡ true
    → AgentStep s AgentStatus.completed
complete-step AgentStatus.pending h = cc
complete-step AgentStatus.queued h = cc
complete-step AgentStatus.running h = completes
complete-step AgentStatus.stopped h = cc
complete-step AgentStatus.completed h = cc
complete-step AgentStatus.failed h = cc
complete-step AgentStatus.idle h = completes_idle

pub fail-step :
    (s : AgentStatus)
    → is_expected (AgentStatus.running ∷ AgentStatus.idle ∷ AgentStatus.queued ∷ []) s ≡ true
    → AgentStep s AgentStatus.failed
fail-step AgentStatus.pending h = cc
fail-step AgentStatus.queued h = fails_queued
fail-step AgentStatus.running h = fails
fail-step AgentStatus.stopped h = cc
fail-step AgentStatus.completed h = cc
fail-step AgentStatus.failed h = cc
fail-step AgentStatus.idle h = fails_idle

pub stop-step :
    (s : AgentStatus)
    → is_expected (AgentStatus.queued ∷ AgentStatus.running ∷ AgentStatus.idle ∷ []) s ≡ true
    → AgentStep s AgentStatus.stopped
stop-step AgentStatus.pending h = cc
stop-step AgentStatus.queued h = stops_queued
stop-step AgentStatus.running h = stops
stop-step AgentStatus.stopped h = cc
stop-step AgentStatus.completed h = cc
stop-step AgentStatus.failed h = cc
stop-step AgentStatus.idle h = stops_idle
