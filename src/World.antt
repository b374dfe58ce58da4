-- ===== src/World.antt =====
-- The database that the stores, the queue and the readers share, and the calls on it.
-- A statement is one step. `fault n` says whether the call with number `n` fails, and `clock n` is
-- the time at that call: both are chosen by the environment.
pub mod Laws
use fracta.Common.{ℕ, ◌+◌, Time, ◌≡◌, Bool, false, Option, List, if◌then◌else◌}
use fracta.Model.{AgentEntry, ChessmasterStatus}
use fracta.Objective.{Objective}
use fracta.Proposal.{MissionProposal}
use fracta.Queue.{Mission}
use fracta.Mailbox.{Message, Cursor}
use fracta.Registry.{Server, Tool, AuditEntry}
use fracta.Authz.{ForbiddenError}

pub record World : Type 0 where
  pub objectives : List Objective
  pub proposals : List MissionProposal
  pub missions : List Mission
  pub agents : List AgentEntry
  pub chessmaster : Option ChessmasterStatus
  pub messages : List Message
  pub cursors : List Cursor
  pub servers : List Server
  pub tools : List Tool
  pub audit_log : List AuditEntry
  pub next_proposal : ℕ
  pub next_mission : ℕ
  pub next_message : ℕ
  pub next_audit : ℕ
  pub calls : ℕ
  pub fault : ℕ → Bool
  pub clock : ℕ → Time

-- `not_found` is the sentinel of each package, `not_claimable` is `state.ErrAgentNotClaimable`,
-- `agent_not_found` is the error of the agents' store for a missing task, `refused` is an error of a
-- function that a caller passes; `server_not_found` and `tool_not_found` are the errors of the registry
-- for a missing row, `unauthorized` and `forbidden` are those of internal/authz; `db_error` is any
-- other error of a call.
pub data Error : Type 0 where
  not_found not_claimable agent_not_found refused db_error : Error
  server_not_found tool_not_found unauthorized : Error
  forbidden : ForbiddenError → Error

pub data Outcome (A : Type 0) : Type 0 where
  ok : A → Outcome A
  err : Error → Outcome A

abbrev pub Action : Type 0 → Type 0
Action A = World → Outcome A × World

abbrev pub pure : {A : Type 0} → A → Action A
pure a w = (ok a, w)

abbrev pub raise : {A : Type 0} → Error → Action A
raise e w = (err e, w)

infixl 5 ◌>>=◌ ◌>>◌
abbrev pub ◌>>=◌ : {A B : Type 0} → Action A → (A → Action B) → Action B
◌>>=◌ m f w = let (r, w') = m w in elim r [ ok a ↦ f a w' | err e ↦ (err e, w') ]

abbrev pub ◌>>◌ : {B : Type 0} → Action (Unit {0}) → Action B → Action B
m >> k = m >>= λ _. k

-- One more call has been made.
abbrev pub tick : World → World
tick w = record w { calls = w.calls + 1 }

-- One statement: it fails and changes nothing, or it runs.
abbrev pub call : {A : Type 0} → Action A → Action A
call m w = if w.fault w.calls then (err db_error, tick w) else m (tick w)

-- `time.Now()` and SQL's `NOW()` at this point.
abbrev pub now : World → Time
now w = w.clock w.calls

-- A transaction that is rolled back: the tables are as before, the sequences are not.
abbrev pub rollback : World → World → World
rollback before after = record before {
  next_proposal = after.next_proposal;
  next_mission = after.next_mission;
  next_message = after.next_message;
  next_audit = after.next_audit;
  calls = after.calls;
}

-- `Commit`, or the deferred `Rollback`.
abbrev pub settle : {A : Type 0} → World → Outcome A × World → Outcome A × World
settle before (err e, w) = (err e, rollback before w)
settle before (ok a, w) =
    if w.fault w.calls then (err db_error, rollback before (tick w)) else (ok a, tick w)

-- `Begin`, the statements and `Commit`.
abbrev pub transaction : {A : Type 0} → Action A → Action A
transaction m w = if w.fault w.calls then (err db_error, tick w) else settle (tick w) (m (tick w))

-- No call fails.
abbrev pub Reliable : World → Type 0
Reliable w = (n : ℕ) → w.fault n ≡ false

-- What a step leaves alone.
abbrev pub KeepsObjectives : World → World → Type 0
KeepsObjectives w w' = w'.objectives ≡ w.objectives

abbrev pub KeepsProposals : World → World → Type 0
KeepsProposals w w' = w'.proposals ≡ w.proposals

abbrev pub KeepsMissions : World → World → Type 0
KeepsMissions w w' = w'.missions ≡ w.missions

abbrev pub KeepsAgents : World → World → Type 0
KeepsAgents w w' = w'.agents ≡ w.agents

abbrev pub KeepsFaults : World → World → Type 0
KeepsFaults w w' = w'.fault ≡ w.fault

abbrev pub KeepsRegistry : World → World → Type 0
KeepsRegistry w w' = (w'.servers ≡ w.servers) × (w'.tools ≡ w.tools) × (w'.audit_log ≡ w.audit_log)

-- No table changes; sequences and the count of calls may.
abbrev pub Unchanged : World → World → Type 0
Unchanged w w' =
    KeepsObjectives w w'
    × KeepsProposals w w'
    × KeepsMissions w w'
    × KeepsAgents w w'
    × (w'.messages ≡ w.messages)
    × (w'.cursors ≡ w.cursors)
    × (w'.chessmaster ≡ w.chessmaster)
    × KeepsRegistry w w'
    × KeepsFaults w w'
