-- ===== src/Agents/Snapshot.antt =====
-- The agents as one value: `Load` and `WithLock` of internal/state/pgstore/pgstore.go. `WithLock` holds
-- an advisory lock, so that its transaction is one step between those of the other callers.
pub mod Laws
use fracta.Common.{
  String, pos, same, Bool, not, Option, none, some, List, [], ◌∷◌, ◌++◌, find_row, exists_row,
  select_rows, update_row, if◌then◌else◌,
}
use fracta.Model.{AgentEntry, agent_entry_eq, ChessmasterStatus, chessmaster_eq, State}
use fracta.World.{
  World, Error, db_error, Outcome, ok, err, Action, pure, ◌>>=◌, ◌>>◌, call, transaction,
}
use fracta.Agents.Store.{has_task, update_chessmaster}

abbrev pub no_chessmaster : ChessmasterStatus
no_chessmaster = record { status = ""; last_action = ""; updated_at = pos 0 }

abbrev pub chessmaster_or_zero : Option ChessmasterStatus → ChessmasterStatus
chessmaster_or_zero none = no_chessmaster
chessmaster_or_zero (some c) = c

-- `loadChessmaster`: an error, as for a missing row, leaves the zero value.
abbrev pub load_chessmaster :
    List AgentEntry → Outcome (Option ChessmasterStatus) × World → Outcome State × World
load_chessmaster agents (err _, w) =
    (ok (record { agents = agents; chessmaster = no_chessmaster }), w)
load_chessmaster agents (ok c, w) =
    (ok (record { agents = agents; chessmaster = chessmaster_or_zero c }), w)

-- `Load`, and `loadStateTx`, which has the same statements inside a transaction.
unfoldable pub load : Action State
load = call (λ w. (ok w.agents, w)) >>= λ agents w.
    load_chessmaster agents (call (λ w'. (ok w'.chessmaster, w')) w)

-- DELETE FROM agents WHERE task = …
abbrev pub delete_agent : String → Action (Unit {0})
delete_agent task =
    call (λ w. (ok tt, record w { agents = select_rows (λ a. not (has_task task a)) w.agents }))

-- `insertAgentTx`: a task that is there breaks the primary key.
unfoldable pub insert_agent_tx : AgentEntry → Action (Unit {0})
insert_agent_tx a = call (λ w.
    if exists_row (has_task a.task) w.agents
    then (err db_error, w)
    else (ok tt, record w { agents = w.agents ++ (a ∷ []) }))

-- `updateAgentTx`: it sets every column but the key, and does not ask for the rows affected.
unfoldable pub update_agent_tx : AgentEntry → Action (Unit {0})
update_agent_tx a =
    call (λ w. (ok tt, record w { agents = update_row (has_task a.task) (λ b. a) w.agents }))

-- The first loop of `applyDiff`, over the agents before; the order of a map's keys has no effect.
unfoldable pub delete_removed : List AgentEntry → List AgentEntry → Action (Unit {0})
delete_removed [] after = pure tt
delete_removed (a ∷ before) after =
    let rest = delete_removed before after in
    if exists_row (has_task a.task) after then rest else (delete_agent a.task >> rest)

-- The statement for one agent, given the entry that it had before.
abbrev pub save_agent : Option AgentEntry → AgentEntry → Action (Unit {0})
save_agent none a = insert_agent_tx a
save_agent (some old) a = if agent_entry_eq a old then pure tt else update_agent_tx a

-- The second loop of `applyDiff`; a task is in the table once, so that its entry is the first found.
unfoldable pub save_agents : List AgentEntry → List AgentEntry → Action (Unit {0})
save_agents before [] = pure tt
save_agents before (a ∷ after) =
    let rest = save_agents before after in save_agent (find_row (has_task a.task) before) a >> rest

-- `applyDiff`
unfoldable pub apply_diff : State → State → Action (Unit {0})
unfolding delete_removed save_agents update_chessmaster insert_agent_tx update_agent_tx
apply_diff before after =
    delete_removed before.agents after.agents
    >> (save_agents before.agents after.agents
        >> (if chessmaster_eq after.chessmaster before.chessmaster
            then pure tt
            else update_chessmaster after.chessmaster))

abbrev pub apply_function : (State → Outcome State) → State → Action (Unit {0})
apply_function fn before w = elim (fn before) [
  | err e ↦ (err e, w)
  | ok after ↦ apply_diff before after w
]

-- `WithLock`; `fn` is the function of the caller, that gives the new state or an error.
unfoldable pub with_lock : (State → Outcome State) → Action (Unit {0})
unfolding apply_diff load
with_lock fn = transaction (call (λ w. (ok tt, w)) >> (load >>= λ before. apply_function fn before))
