-- ===== src/Model.antt =====
-- Agents: internal/model/model.go. Times are nanoseconds since Go's zero time.
use fracta.Common.{ℕ, ◌==◌, ◌==ℤ◌, Time, String, same, Bool, true, false, ◌&&◌, List}

-- `AgentStatus`: the code stores no other text in the column.
pub data AgentStatus : Type 0 where
  pending queued running stopped completed failed idle : AgentStatus

-- `==` on two agent statuses.
abbrev pub agent_status_eq : AgentStatus → AgentStatus → Bool
agent_status_eq pending pending = true
agent_status_eq queued queued = true
agent_status_eq running running = true
agent_status_eq stopped stopped = true
agent_status_eq completed completed = true
agent_status_eq failed failed = true
agent_status_eq idle idle = true
agent_status_eq _ _ = false

-- `AgentEntry`. `mission_id` is 0 for an agent without a mission.
pub record AgentEntry : Type 0 where
  pub task : String
  pub runtime_type : String
  pub resume_token : String
  pub workspace_path : String
  pub branch_name : String
  pub base_branch : String
  pub status : AgentStatus
  pub last_output : String
  pub start_time : Time
  pub mode : String
  pub current_intent : String
  pub mission_id : ℕ
  pub objective_id : String

-- `ChessmasterStatus` and `State`.
pub record ChessmasterStatus : Type 0 where
  pub status : String
  pub last_action : String
  pub updated_at : Time

pub record State : Type 0 where
  pub agents : List AgentEntry
  pub chessmaster : ChessmasterStatus

-- `==` on two agents and on two chessmaster's states; times are compared by their instants.
abbrev pub agent_entry_eq : AgentEntry → AgentEntry → Bool
agent_entry_eq a b =
    same a.task b.task
    && same a.runtime_type b.runtime_type
    && same a.resume_token b.resume_token
    && same a.workspace_path b.workspace_path
    && same a.branch_name b.branch_name
    && same a.base_branch b.base_branch
    && agent_status_eq a.status b.status
    && same a.last_output b.last_output
    && a.start_time ==ℤ b.start_time
    && same a.mode b.mode
    && same a.current_intent b.current_intent
    && a.mission_id == b.mission_id
    && same a.objective_id b.objective_id

abbrev pub chessmaster_eq : ChessmasterStatus → ChessmasterStatus → Bool
chessmaster_eq a b =
    same a.status b.status && same a.last_action b.last_action && a.updated_at ==ℤ b.updated_at
