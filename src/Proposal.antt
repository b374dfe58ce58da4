-- ===== src/Proposal.antt =====
-- Mission proposals: internal/proposal/proposal.go, and the texts that the admission controller
-- writes into them (internal/admission/policy.go and controller.go).
pub mod Store
use fracta.Common.{ℕ, ℤ, Time, Duration, String, Bool, true, false, Option}
use fracta.Objective.{ObjectiveStatus}

-- The status constants; `other` is any other text.
pub data ProposalStatus : Type 0 where
  pending approved rejected dedupe_hit : ProposalStatus
  other : String → ProposalStatus

abbrev pub is_pending : ProposalStatus → Bool
is_pending pending = true
is_pending _ = false

-- The reasons of decisions and the rejection notes: the format string with its arguments.
-- `text` is a note that comes from elsewhere.
pub data Note : Type 0 where
  text : String → Note
  not_open : ObjectiveStatus → Note
  cap_reached : ℤ → ℤ → Note
  depth_exceeds : ℤ → ℤ → Note
  count_failed : Note
  branching_reached : ℤ → ℤ → Note
  runtime_exceeded : Duration → Duration → Note
  evidence_required : ℤ → ℤ → Note
  circuit_breaker : ℤ → ℤ → ℤ → Note
  checks_passed : Note
  objective_not_found parent_not_found missions_terminal : Note
  objective_frozen : Note → Note
  objective_closed : ObjectiveStatus → Note

-- `MissionProposal`. Identifiers are drawn from a sequence, so they are naturals.
pub record MissionProposal : Type 0 where
  pub id : ℕ
  pub objective_id : String
  pub parent_mission : ℕ
  pub proposed_by : String
  pub task : String
  pub contract : String
  pub priority : ℤ
  pub dedupe_key : String
  pub rationale : String
  pub evidence : Option String
  pub status : ProposalStatus
  pub created_at : Time
  pub reviewed_at : Option Time
  pub rejection_note : Note
