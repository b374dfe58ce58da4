-- ===== src/Agents/Writer/Tests.antt =====
-- The agents' calls at a concrete table.
use fracta.Common.{pos, String, ◌≡◌, refl, sym, ap, true, none, List, [], ◌∷◌, In, here, there}
use fracta.Model.{AgentStatus, AgentEntry, State}
use fracta.World.{Outcome, ok, err}
use fracta.Agents.Snapshot.{with_lock}
use fracta.Agents.Snapshot.Laws.{Saved, with_lock-Saved}
use fracta.Agents.Snapshot.Laws.Finding.{Distinct}
use fracta.Agents.Writer.{
  LifecycleMeta, ResultMeta, CreationMeta, Writer, Session, record_agent_started,
}
use fracta.Agents.Writer.Laws.Marks.{run_marks, run_mark-Effect, run_marks-keeps_over}
use fracta.Agents.Writer.Laws.Steps.{Mark, run, complete, stop, run_mark, MarkEffect}
use fracta.Agents.Writer.Laws.Start.{Started, record_agent_started-Started}
use fracta.Samples.{world}

abbrev meta : LifecycleMeta
meta = record {
  runtime_type = "claude";
  backend = "local";
  mission_id = 1;
  objective_id = "o1";
  reason = "";
}

abbrev result : ResultMeta
result = record { meta = meta; last_output = "found"; resume_token = "" }

abbrev agent : String → AgentStatus → AgentEntry
agent task status = record {
  task = task;
  runtime_type = "claude";
  resume_token = "";
  workspace_path = "";
  branch_name = "";
  base_branch = "main";
  status = status;
  last_output = "";
  start_time = pos 150;
  mode = "batch";
  current_intent = "";
  mission_id = 1;
  objective_id = "";
}

abbrev over : AgentEntry
over = agent "b" AgentStatus.stopped

abbrev agents : List AgentEntry
agents = agent "a" AgentStatus.running ∷ over ∷ []

abbrev writer : Writer
writer = record {
  has_bus = true;
  admission_check = none;
  has_progress_hook = true;
  uuid = λ _. "u";
}

abbrev session : Session
session = record { world = record world { agents = agents }; emitted = []; progress = 0 }

run_mark-Effect_example :
    MarkEffect writer "a" (complete result) session (run_mark writer "a" (complete result) session)
run_mark-Effect_example = run_mark-Effect writer "a" session (complete result)

abbrev marks : List (String × Mark)
marks = ("a", complete result) ∷ ("b", run) ∷ ("b", complete result) ∷ ("b", stop meta) ∷ []

run_marks-keeps_over_example : In over (run_marks writer marks session).world.agents
run_marks-keeps_over_example =
    run_marks-keeps_over over refl writer marks session (there (here refl))

-- A caller that empties the table.
abbrev clear : State → Outcome State
clear st = ok (record st { agents = [] })

abbrev rows_of : Outcome State → List AgentEntry
rows_of (ok st) = st.agents
rows_of (err _) = []

clear-Distinct :
    (seen after : State) → seen.agents ≡ agents → clear seen ≡ ok after → Distinct after.agents
clear-Distinct seen after e h = let k : after.agents ≡ [] = ap rows_of (sym h) in rw k tt

with_lock-Saved_example : Saved clear session.world (with_lock clear session.world)
with_lock-Saved_example = with_lock-Saved clear session.world clear-Distinct

abbrev creation : CreationMeta
creation = record {
  meta = meta;
  workspace_path = "/w";
  branch_name = "c";
  base_branch = "main";
  mode = "batch";
}

record_agent_started-Started_example :
    Started writer "c" creation session (record_agent_started writer "c" creation session)
record_agent_started-Started_example =
    record_agent_started-Started writer "c" creation session (refl, (refl, tt)) refl
