-- ===== src/Queue.antt =====
-- Missions: internal/queue/queue.go, and the columns that the missions table adds.
pub mod Postgres
pub mod Memory
use fracta.Common.{ℕ, ℤ, Time, String, Bool, true, false, Option, List}

pub data MissionStatus : Type 0 where
  pending claimed completed failed cancelled : MissionStatus

-- `status IN ('pending', 'claimed')`
abbrev pub is_active : MissionStatus → Bool
is_active pending = true
is_active claimed = true
is_active _ = false

abbrev pub is_pending : MissionStatus → Bool
is_pending pending = true
is_pending _ = false

abbrev pub is_claimed : MissionStatus → Bool
is_claimed claimed = true
is_claimed _ = false

-- `MissionPayload`
pub record MissionPayload : Type 0 where
  pub task : String
  pub contract : String
  pub base_branch : String
  pub model : String
  pub mode : String
  pub runtime_type : String
  pub allowed_tools : List String
  pub mcp_servers : String
  pub backend : String
  pub config_path : String
  pub graph_addr : String
  pub strategy_dir : String
  pub config_hash : String
  pub gateway_url : String
  pub objective_id : String
  pub mission_id : ℕ
  pub staged_credential_refs : List (String × String)

-- `json.RawMessage` of a payload, by what decoding it gives: a payload or an error.
pub data RawPayload : Type 0 where
  encoded : MissionPayload → RawPayload
  malformed : RawPayload

-- `Mission`, a row of the missions table. An `objective_id` of "" is NULL, as `nilIfEmpty` stores it.
-- `completed_at` is a column only.
pub record Mission : Type 0 where
  pub id : ℕ
  pub agent_task : String
  pub payload : RawPayload
  pub status : MissionStatus
  pub priority : ℤ
  pub created_at : Time
  pub claimed_by : Option String
  pub claimed_at : Option Time
  pub completed_at : Option Time
  pub error : String
  pub objective_id : String
  pub parent_id : Option ℕ
  pub depth : ℤ
  pub dedupe_key : String
  pub proposed_by : String
