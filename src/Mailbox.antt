-- ===== src/Mailbox.antt =====
-- Messages between agents: internal/mailbox/mailbox.go.
pub mod Store
use fracta.Common.{ℕ, ℤ, Time, Duration, String}
use fracta.Objective.{ObjectiveStatus}
use fracta.Proposal.{Note}

-- What is sent: the format string of the sender with its arguments, or a text.
pub data Content : Type 0 where
  text : String → Content
  proposal_approved : ℕ → String → String → ℤ → Content
  proposal_rejected : ℕ → String → Note → Content
  objective_frozen : String → Note → ℕ → Content
  objective_transitioned : String → ObjectiveStatus → Note → Content
  objective_timed_out : String → Duration → Duration → Content

-- A row of the messages table, `Message` with its number.
pub record Message : Type 0 where
  pub id : ℕ
  pub from : String
  pub to : String
  pub content : Content
  pub timestamp : Time

-- A row of the cursors table: the number of the last message that an agent has read.
pub record Cursor : Type 0 where
  pub task : String
  pub last_id : ℕ
