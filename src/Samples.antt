-- ===== src/Samples.antt =====
-- Data for the tests: one objective with a claimed and a pending mission, and two proposals.
use mathlib.Core.Option
use fracta.Common.{ℕ, pos, String, true, false, none, some, [], ◌∷◌}
use fracta.Objective.{open_status, Objective}
use fracta.Proposal.{ProposalStatus, Note, MissionProposal}
use fracta.Queue.{MissionStatus, MissionPayload, RawPayload, encoded, malformed, Mission}
use fracta.World.{World}
use fracta.Admission.Policy.{default_policy}
use fracta.Admission.Controller.{AdmissionController}

abbrev pub objective : Objective
objective = record {
  id = "o1";
  description = "find it";
  status = open_status;
  created_at = pos 100;
  updated_at = pos 100;
  created_by = "chessmaster";
  max_missions = pos 10;
  max_depth = pos 5;
  max_runtime = pos 1000;
  max_branching = pos 5;
  mission_count = pos 1;
  finding_count = pos 0;
  outcome = "";
  outcome_data = none;
}

abbrev pub payload : MissionPayload
payload = record {
  task = "root";
  contract = "";
  base_branch = "main";
  model = "m";
  mode = "";
  runtime_type = "claude";
  allowed_tools = [];
  mcp_servers = "";
  backend = "local";
  config_path = "";
  graph_addr = "";
  strategy_dir = "";
  config_hash = "";
  gateway_url = "http://gw";
  objective_id = "o1";
  mission_id = 1;
  staged_credential_refs = [];
}

abbrev pub mission : ℕ → MissionStatus → Option.Option String → RawPayload → Mission
mission id status worker raw = record {
  id = id;
  agent_task = "root";
  payload = raw;
  status = status;
  priority = pos 0;
  created_at = pos 100;
  claimed_by = worker;
  claimed_at = Option.map (λ _. pos 110) worker;
  completed_at = none;
  error = "";
  objective_id = "o1";
  parent_id = none;
  depth = pos 0;
  dedupe_key = "";
  proposed_by = "";
}

-- Mission 1 is claimed, 2 waits, and 3 is claimed and has a payload that cannot be decoded.
abbrev pub parent : Mission
parent = mission 1 MissionStatus.claimed (some "w1") (encoded payload)

abbrev pub waiting : Mission
waiting = mission 2 MissionStatus.pending none (encoded payload)

abbrev pub broken : Mission
broken = mission 3 MissionStatus.claimed (some "w1") malformed

abbrev pub proposal : ℕ → ℕ → MissionProposal
proposal id parent_mission = record {
  id = id;
  objective_id = "o1";
  parent_mission = parent_mission;
  proposed_by = "root";
  task = "child";
  contract = "";
  priority = pos 2;
  dedupe_key = "k1";
  rationale = "";
  evidence = none;
  status = ProposalStatus.pending;
  created_at = pos 120;
  reviewed_at = none;
  rejection_note = Note.text "";
}

-- The clock runs, and no call fails.
abbrev pub world : World
world = record {
  objectives = objective ∷ [];
  proposals = proposal 1 1 ∷ proposal 2 2 ∷ proposal 3 3 ∷ [];
  missions = parent ∷ waiting ∷ broken ∷ [];
  agents = [];
  chessmaster = none;
  messages = [];
  cursors = [];
  servers = [];
  tools = [];
  audit_log = [];
  next_proposal = 4;
  next_mission = 4;
  next_message = 1;
  next_audit = 1;
  calls = 0;
  fault = λ _. false;
  clock = λ _. pos 200;
}

abbrev pub controller : AdmissionController
controller = record { policy = default_policy; has_mailbox = true }
