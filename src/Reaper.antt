-- ===== src/Reaper.antt =====
-- The reaper: internal/controlplane/reaper.go. What a runtime answers to a kill is chosen by the
-- environment; the texts of reasons are joined, and an age is not rounded to seconds.
pub mod Round
pub mod Untouched
pub mod Laws
pub mod Limit
mod Tests
use fracta.Common.{
  ℕ, zero, suc, ◌+◌, ℤ, pos, leb_ℤ, ltb_ℤ, time_sub, Time, Duration, String, ◌⧺◌, same, Bool, true,
  false, not, ◌&&◌, ◌||◌, Option, none, some, List, [], ◌∷◌, length, count_rows, if◌then◌else◌,
}
use fracta.Model.{AgentStatus, agent_status_eq, AgentEntry, State}
use fracta.World.{World, Outcome, ok, err, Action, now}
use fracta.Events.{Event}
use fracta.Mailbox.Store as Mailbox
use fracta.Queue.Postgres.{cancel}
use fracta.Agents.Store.{remove_agent, update_agent_status}
use fracta.Agents.Snapshot.{load}
use fracta.Agents.Writer.{LifecycleMeta, Writer, Session, mark_stopped}

-- nil, `runtime.ErrNotFound` and any other error.
pub data Killed : Type 0 where
  killed missing kill_failed : Killed

-- `Reaper`: the dependencies that may be nil are options or flags.
pub record Reaper : Type 0 where
  pub backend : String → Killed
  pub stream_backend : Option (String → Killed)
  pub has_queue : Bool
  pub has_mailbox : Bool
  pub has_objective_store : Bool
  pub has_bus : Bool
  pub lifecycle : Option Writer
  pub uuid : ℕ → String
  pub max_age : Duration
  pub max_concurrent : ℤ

abbrev pub is_running : AgentEntry → Bool
is_running a = agent_status_eq a.status AgentStatus.running

-- `CheckSpawnAllowed`: whether it gives no error.
unfoldable pub check_spawn_allowed : Reaper → State → Bool
check_spawn_allowed r st =
    if leb_ℤ r.max_concurrent (pos 0)
    then true
    else not (leb_ℤ r.max_concurrent (pos (count_rows is_running st.agents)))

-- `isTerminal`
abbrev pub is_terminal : AgentStatus → Bool
is_terminal s =
    agent_status_eq s AgentStatus.stopped
    || (agent_status_eq s AgentStatus.failed || agent_status_eq s AgentStatus.completed)

-- A call whose error is only logged.
abbrev pub quietly : {A : Type 0} → Action A → Session → Session
quietly m s = record s { world = (m s.world).1 }

abbrev pub when : Bool → (Session → Session) → Session → Session
when true f s = f s
when false f s = s

-- `emitReapEvent`
abbrev pub reap_event : Reaper → String → String → String → Session → Event
reap_event r task reason severity s = record {
  id = r.uuid (length s.emitted);
  time = now s.world;
  component = "reconciler";
  category = "agent";
  resource = "task:" ⧺ task;
  action = "reap";
  outcome = "success";
  severity = severity;
  task = task;
  mission_id = 0;
  objective_id = "";
  detail = "agent reaped: " ⧺ reason;
  attrs = ("reason", reason) ∷ [];
}

unfoldable pub emit_reap_event : Reaper → String → String → String → Session → Session
emit_reap_event r task reason severity s =
    if r.has_bus then record s { emitted = reap_event r task reason severity s ∷ s.emitted } else s

-- `cleanupTerminalQueuedAgent`
unfoldable pub cleanup_terminal_queued_agent : Reaper → AgentEntry → Session → Session
unfolding remove_agent Mailbox.remove emit_reap_event
cleanup_terminal_queued_agent r a s =
    emit_reap_event r a.task "terminal_queued" "debug"
      (when r.has_mailbox (quietly (Mailbox.remove a.task)) (quietly (remove_agent a.task) s))

abbrev pub reason_only : String → LifecycleMeta
reason_only reason = record {
  runtime_type = "";
  backend = "";
  mission_id = 0;
  objective_id = "";
  reason = reason;
}

-- `transitionReapedAgent`
unfoldable pub stop_reaped : Option Writer → String → String → Session → Session
unfolding update_agent_status mark_stopped
stop_reaped none task reason s = quietly (update_agent_status task AgentStatus.stopped reason) s
stop_reaped (some c) task reason s = (mark_stopped c task (reason_only reason) s).1

unfoldable pub transition_reaped_agent : Reaper → String → String → Session → Session
unfolding stop_reaped update_agent_status mark_stopped
transition_reaped_agent r task reason s = stop_reaped r.lifecycle task reason s

-- The end of a round of the loop of `reap` for an agent that has been killed.
unfoldable pub stop_and_report : Reaper → AgentEntry → Session → Session
unfolding transition_reaped_agent stop_reaped update_agent_status mark_stopped emit_reap_event
stop_and_report r a s =
    emit_reap_event r a.task "max_age" "info" (transition_reaped_agent r a.task "reaped: max_age" s)

-- The three branches on the mode.
abbrev pub is_gone : Killed → Bool
is_gone killed = true
is_gone missing = true
is_gone kill_failed = false

abbrev pub is_killed : Killed → Bool
is_killed killed = true
is_killed _ = false

abbrev pub stream_gone : Option (String → Killed) → String → Bool
stream_gone none task = false
stream_gone (some kill) task = is_gone (kill task)

unfoldable pub cancel_mission : Reaper → ℕ → Session → Session
unfolding cancel
cancel_mission r zero s = s
cancel_mission r (suc id) s = when r.has_queue (quietly (cancel (suc id))) s

unfoldable pub kill_expired : Reaper → AgentEntry → Session → Session
unfolding cancel_mission cancel stop_and_report
kill_expired r a s =
    if same a.mode "queued"
    then stop_and_report r a (cancel_mission r a.mission_id s)
    else if same a.mode "stream"
    then when (stream_gone r.stream_backend a.task) (stop_and_report r a) s
    else when (is_killed (r.backend a.task)) (stop_and_report r a) s

abbrev pub is_eligible : AgentEntry → Bool
is_eligible a = is_running a || (same a.mode "stream" && agent_status_eq a.status AgentStatus.idle)

unfoldable pub is_expired : Duration → Time → AgentEntry → Bool
unfolding time_sub
is_expired max_age at a =
    not (leb_ℤ max_age (pos 0)) && not (leb_ℤ (time_sub at a.start_time) max_age)

-- One round of the loop of `reap`.
unfoldable pub reap_agent : Reaper → Time → AgentEntry → Session → Session
unfolding cleanup_terminal_queued_agent kill_expired is_expired
reap_agent r at a s =
    if agent_status_eq a.status AgentStatus.queued
    then s
    else if same a.mode "queued" && is_terminal a.status
    then cleanup_terminal_queued_agent r a s
    else if not (is_eligible a)
    then s
    else if is_expired r.max_age at a
    then kill_expired r a s
    else s

unfoldable pub reap_agents : Reaper → Time → List AgentEntry → Session → Session
unfolding reap_agent
reap_agents r at [] s = s
reap_agents r at (a ∷ rest) s = reap_agents r at rest (reap_agent r at a s)
