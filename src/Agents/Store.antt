-- ===== src/Agents/Store.antt =====
-- The agents' statements of internal/state/pgstore/pgstore.go, one per method.
pub mod Laws
use fracta.Common.{
  Time, String, same, Bool, true, false, ◌&&◌, Option, none, some, List, [], ◌∷◌, find_row,
  exists_row, update_row, delete_row, if◌then◌else◌, ℤ, pos, ◌==ℤ◌,
}
use fracta.Model.{AgentStatus, agent_status_eq, AgentEntry, ChessmasterStatus}
use fracta.World.{World, Error, not_claimable, agent_not_found, ok, err, Action, call, now}

-- WHERE task = …: the primary key.
abbrev pub has_task : String → AgentEntry → Bool
has_task task a = same a.task task

-- status = ANY(…)
abbrev pub is_expected : List AgentStatus → AgentStatus → Bool
is_expected [] s = false
is_expected (x ∷ xs) s = if agent_status_eq x s then true else is_expected xs s

abbrev pub expected_task : String → List AgentStatus → AgentEntry → Bool
expected_task task expected a = has_task task a && is_expected expected a.status

-- `FindAgent`; an agent that is not there is no error.
unfoldable pub find_agent : String → Action (Option AgentEntry)
find_agent task w = call (λ w'. (ok (find_row (has_task task) w'.agents), w')) w

-- An UPDATE, and the error where no row is affected.
abbrev pub update_task : String → (AgentEntry → AgentEntry) → Action (Unit {0})
update_task task f = call (λ w.
    if exists_row (has_task task) w.agents
    then (ok tt, record w { agents = update_row (has_task task) f w.agents })
    else (err agent_not_found, w))

-- An UPDATE of one agent in one of the states given, and whether a row is affected. Without a state
-- there is no statement.
abbrev pub update_expected : String → List AgentStatus → (AgentEntry → AgentEntry) → Action Bool
update_expected task [] f w = (ok false, w)
update_expected task (s ∷ ss) f w =
    call
      (λ w'. (
        ok (exists_row (expected_task task (s ∷ ss)) w'.agents),
        record w' { agents = update_row (expected_task task (s ∷ ss)) f w'.agents },
      ))
      w

abbrev pub with_status : AgentStatus → String → AgentEntry → AgentEntry
with_status s output a = record a { status = s; last_output = output }

-- An empty token leaves the old one.
abbrev pub with_result : AgentStatus → String → String → AgentEntry → AgentEntry
with_result s output token a = record a {
  status = s;
  last_output = output;
  resume_token = if same token "" then a.resume_token else token;
}

-- `RemoveAgent`
unfoldable pub remove_agent : String → Action (Unit {0})
remove_agent task = call (λ w.
    if exists_row (has_task task) w.agents
    then (ok tt, record w { agents = delete_row (has_task task) w.agents })
    else (err agent_not_found, w))

-- `UpdateAgentStatus`
unfoldable pub update_agent_status : String → AgentStatus → String → Action (Unit {0})
update_agent_status task s output = update_task task (with_status s output)

-- `UpdateAgentResult`
unfoldable pub update_agent_result : String → AgentStatus → String → String → Action (Unit {0})
update_agent_result task s output token = update_task task (with_result s output token)

-- `UpdateAgentIntent`
unfoldable pub update_agent_intent : String → String → Action (Unit {0})
update_agent_intent task intent = update_task task (λ a. record a { current_intent = intent })

-- `UpdateAgentStatusIf`
unfoldable pub update_agent_status_if :
    String → List AgentStatus → AgentStatus → String → Action Bool
update_agent_status_if task expected s output = update_expected task expected (with_status s output)

-- `UpdateAgentResultIf`
unfoldable pub update_agent_result_if :
    String → List AgentStatus → AgentStatus → String → String → Action Bool
update_agent_result_if task expected s output token =
    update_expected task expected (with_result s output token)

-- The row after `ClaimAgent`.
abbrev pub started : Time → AgentEntry → AgentEntry
started at a = record a { status = AgentStatus.running; start_time = at }

-- `ClaimAgent`
unfoldable pub claim_agent : String → Action (Unit {0})
claim_agent task w =
    call
      (λ w'.
        let queued = expected_task task (AgentStatus.queued ∷ []) in
        if exists_row queued w'.agents
        then (ok tt, record w' { agents = update_row queued (started (now w)) w'.agents })
        else (err not_claimable, w'))
      w

-- `UpdateChessmaster`: an upsert of the only row; a zero time is NULL and is read as zero again.
unfoldable pub update_chessmaster : ChessmasterStatus → Action (Unit {0})
update_chessmaster c = call (λ w. (ok tt, record w { chessmaster = some c }))
