-- ===== src/Reaper/Tests.antt =====
-- The reaper at a table with a running, an old and a finished agent.
use fracta.Common.{
  pos, String, true, false, none, some, List, [], ◌∷◌, ◌≡◌, refl, ◌<ℤ◌, inl, inr, count_rows,
  time_sub, arith,
}
use fracta.Model.{AgentStatus, AgentEntry}
use fracta.Agents.Snapshot.Laws.Finding.{agent_of}
use fracta.Agents.Writer.{CreationMeta, Writer, Session, done, record_agent_started}
use fracta.Reaper.{Killed, Reaper, is_running, is_expired, check_spawn_allowed, reap_agents}
use fracta.Reaper.Laws.{reap_agents-spares}
use fracta.Reaper.Untouched.{is_due}
use fracta.Reaper.Limit.{record_agent_started-bounded}
use fracta.Agents.Snapshot.{
  with_lock, load, apply_diff, delete_removed, save_agents, insert_agent_tx,
}
use fracta.Samples.{world}

abbrev agent : String → String → AgentStatus → AgentEntry
agent task mode status = record {
  task = task;
  runtime_type = "claude";
  resume_token = "";
  workspace_path = "";
  branch_name = "";
  base_branch = "main";
  status = status;
  last_output = "";
  start_time = pos 150;
  mode = mode;
  current_intent = "";
  mission_id = 0;
  objective_id = "";
}

abbrev agents : List AgentEntry
agents =
    agent "old" "batch" AgentStatus.running
    ∷ agent "over" "queued" AgentStatus.completed
    ∷ agent "waits" "queued" AgentStatus.queued
    ∷ []

abbrev session : Session
session = record { world = record world { agents = agents }; emitted = []; progress = 0 }

abbrev reaper : Reaper
reaper = record {
  backend = λ _. Killed.killed;
  stream_backend = none;
  has_queue = true;
  has_mailbox = true;
  has_objective_store = true;
  has_bus = true;
  lifecycle = none;
  uuid = λ _. "u";
  max_age = pos 10;
  max_concurrent = pos 2;
}

not_due : is_due reaper (pos 200) (agent "waits" "queued" AgentStatus.queued) ≡ false
unfolding is_expired time_sub
not_due = refl

reap_agents-spares_example :
    agent_of "waits" (reap_agents reaper (pos 200) agents session).world.agents
    ≡ agent_of "waits" agents
reap_agents-spares_example =
    reap_agents-spares reaper (pos 200) "waits" agents session
      (inl refl, (inl refl, (inr not_due, tt)))

abbrev writer : Writer
writer = record {
  has_bus = true;
  admission_check = some (check_spawn_allowed reaper);
  has_progress_hook = false;
  uuid = λ _. "u";
}

abbrev creation : CreationMeta
creation = record {
  meta = record {
    runtime_type = "claude";
    backend = "local";
    mission_id = 0;
    objective_id = "";
    reason = "";
  };
  workspace_path = "";
  branch_name = "";
  base_branch = "main";
  mode = "batch";
}

abbrev started_session : Session
started_session = (record_agent_started writer "new" creation session).1

starts : record_agent_started writer "new" creation session ≡ (done, started_session)
unfolding record_agent_started with_lock load apply_diff delete_removed save_agents insert_agent_tx
    check_spawn_allowed
starts = refl

record_agent_started-bounded_example : pos (count_rows is_running agents) <ℤ pos 2
record_agent_started-bounded_example =
    record_agent_started-bounded reaper writer "new" creation session refl (omega arith)
      (refl, (refl, (refl, tt))) refl starts
