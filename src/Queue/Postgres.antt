-- ===== src/Queue/Postgres.antt =====
-- The mission queue over PostgreSQL: internal/queue/postgres.go.
-- LISTEN and NOTIFY only wake a waiting `Dequeue`; the loops around the statements are not here.
pub mod Laws
mod Tests
use fracta.Common.{
  ℕ, ◌+◌, ℤ, ltb_ℤ, leb_ℤ, ◌==ℤ◌, ◌-ℤ◌, Time, Duration, String, same, Bool, false, not, ◌&&◌, ◌||◌,
  ◌==◌, Option, none, some, List, [], ◌∷◌, ◌++◌, find_row, exists_row, select_rows, update_row,
  update_rows, delete_row, count_rows, sort_rows, first, if◌then◌else◌,
}
use fracta.Model.{AgentStatus, agent_status_eq, AgentEntry}
use fracta.World.{
  World, not_found, db_error, ok, err, Action, ◌>>=◌, pure, call, tick, now, transaction,
}
use fracta.Queue.{
  MissionStatus, pending, claimed, completed, failed, cancelled, is_pending, is_claimed, is_active,
  malformed, Mission,
}

abbrev pub has_id : ℕ → Mission → Bool
has_id id m = m.id == id

-- The unique index on (objective_id, dedupe_key) over active missions with a key. NULLs differ.
abbrev pub duplicates : Mission → Mission → Bool
duplicates m n =
    is_active n.status
    && (not (same m.objective_id "")
        && (not (same m.dedupe_key "")
            && (same n.objective_id m.objective_id && same n.dedupe_key m.dedupe_key)))

-- The row that the INSERT of `Enqueue` makes of the caller's mission.
abbrev pub new_row : ℕ → Time → Mission → Mission
new_row id t m = record m {
  id = id;
  status = pending;
  created_at = t;
  claimed_by = none;
  claimed_at = none;
  completed_at = none;
  error = "";
}

-- INSERT INTO missions … RETURNING id. A number of the sequence is used up also on a duplicate.
abbrev mission_statement : Mission → Action ℕ
mission_statement m w =
    let id = w.next_mission in
    if exists_row (duplicates m) w.missions
    then (err db_error, record w { next_mission = id + 1 })
    else (
      ok id,
      record w { next_mission = id + 1; missions = w.missions ++ (new_row id (now w) m ∷ []) },
    )

insert_mission : Mission → Action ℕ
insert_mission m = call (mission_statement m)

-- INSERT INTO agents …: `task` is the primary key, `objective_id` is no column of the statement.
abbrev agent_statement : AgentEntry → Action ℕ
agent_statement a w =
    if exists_row (λ b. same b.task a.task) w.agents
    then (err db_error, w)
    else (ok a.mission_id, record w { agents = w.agents ++ (record a { objective_id = "" } ∷ []) })

insert_agent : AgentEntry → Action ℕ
insert_agent a = call (agent_statement a)

-- The statements of `Enqueue` between `Begin` and `Commit`.
insert_both : Mission → AgentEntry → Action ℕ
unfolding insert_mission insert_agent
insert_both m a = insert_mission m >>= λ id. insert_agent (record a { mission_id = id })

-- `Enqueue`. The result is the number that the caller's mission is given. The notification after
-- the commit is one more call, whose error is ignored.
unfoldable pub enqueue : Mission → AgentEntry → Action ℕ
unfolding insert_both
enqueue m a = transaction (insert_both m a) >>= λ id w. (ok id, tick w)

-- `ORDER BY priority DESC, created_at`
abbrev pub ranked_before : Mission → Mission → Bool
ranked_before m n =
    ltb_ℤ n.priority m.priority || ((m.priority ==ℤ n.priority) && leb_ℤ m.created_at n.created_at)

-- The rows that the inner SELECT of `tryClaim` reads: SKIP LOCKED leaves out those that another
-- transaction has locked.
abbrev pub claimable : (ℕ → Bool) → Mission → Bool
claimable locked m = is_pending m.status && not (locked m.id)

-- `LIMIT 1`
unfoldable pub candidate : (ℕ → Bool) → List Mission → Option Mission
unfolding sort_rows
candidate locked ms = first (sort_rows ranked_before (select_rows (claimable locked) ms))

abbrev pub claimed_row : String → Time → Mission → Mission
claimed_row worker t m = record m {
  status = claimed;
  claimed_by = some worker;
  claimed_at = some t;
}

-- What `tryClaim` returns of the row: it scans five columns and sets three fields.
abbrev pub scanned : String → Time → Mission → Mission
scanned worker t m = record {
  id = m.id;
  agent_task = m.agent_task;
  payload = m.payload;
  status = claimed;
  priority = m.priority;
  created_at = m.created_at;
  claimed_by = some worker;
  claimed_at = some t;
  completed_at = none;
  error = "";
  objective_id = "";
  parent_id = none;
  depth = ℤ.pos 0;
  dedupe_key = "";
  proposed_by = "";
}

-- `tryClaim`. `none` where there is nothing to claim.
unfoldable pub try_claim : (ℕ → Bool) → String → Action (Option Mission)
unfolding candidate
try_claim locked worker w =
    call
      (λ w'. elim (candidate locked w'.missions) [
        | none ↦ (ok none, w')
        | some m ↦ (
          ok (some (scanned worker (now w') m)),
          record w' {
            missions = update_row (has_id m.id) (claimed_row worker (now w)) w'.missions;
          },
        )
      ])
      w

-- UPDATE … WHERE id = $1 AND status = 'claimed', and the error where no row is affected.
abbrev pub claimed_with_id : ℕ → Mission → Bool
claimed_with_id id m = (m.id == id) && is_claimed m.status

abbrev pub update_claimed : ℕ → (Mission → Mission) → Action (Unit {0})
update_claimed id f w =
    if exists_row (claimed_with_id id) w.missions
    then (ok tt, record w { missions = update_row (claimed_with_id id) f w.missions })
    else (err not_found, w)

-- `Ack`
unfoldable pub ack : ℕ → Action (Unit {0})
ack id w =
    call (update_claimed id (λ m. record m { status = completed; completed_at = some (now w) })) w

-- `Fail`
unfoldable pub fail : ℕ → String → Action (Unit {0})
fail id reason w =
    call
      (update_claimed id
        (λ m. record m { status = failed; error = reason; completed_at = some (now w) }))
      w

-- `Len`
unfoldable pub len : Action ℕ
len = call λ w. (ok (count_rows (λ m. is_pending m.status) w.missions), w)

-- `Status`
unfoldable pub status : ℕ → Action MissionStatus
status id = call λ w. elim (find_row (has_id id) w.missions) [
  | none ↦ (err not_found, w)
  | some m ↦ (ok m.status, w)
]

abbrev pub pending_with_id : ℕ → Mission → Bool
pending_with_id id m = (m.id == id) && is_pending m.status

-- The DELETE of `Cancel`: whether a row was deleted.
abbrev pub delete_pending : ℕ → Action Bool
delete_pending id = call λ w. (
  ok (exists_row (pending_with_id id) w.missions),
  record w { missions = delete_row (pending_with_id id) w.missions },
)

-- `Cancel`: deletes a pending mission, or marks a claimed one.
unfoldable pub cancel : ℕ → Action (Unit {0})
cancel id = delete_pending id >>= λ deleted.
    if deleted then pure tt else call (update_claimed id (λ m. record m { status = cancelled }))

-- `status='claimed' AND claimed_at < NOW() - $1::interval`; a comparison with NULL is not true.
abbrev claimed_earlier : Time → Option Time → Bool
claimed_earlier limit none = false
claimed_earlier limit (some t) = ltb_ℤ t limit

abbrev pub is_stuck : Time → Mission → Bool
is_stuck limit m = is_claimed m.status && claimed_earlier limit m.claimed_at

abbrev pub reclaimed_row : Mission → Mission
reclaimed_row m = record m { status = pending; claimed_by = none; claimed_at = none }

-- `task=$1 AND status='Running'`, and the agent after the UPDATE.
abbrev running_task : String → AgentEntry → Bool
running_task task a = same a.task task && agent_status_eq a.status AgentStatus.running

abbrev requeued : AgentEntry → AgentEntry
requeued a = record a { status = AgentStatus.queued; start_time = ℤ.pos 0 }

abbrev tasks_of : List Mission → List String
tasks_of [] = []
tasks_of (m ∷ ms) = m.agent_task ∷ tasks_of ms

-- The loop over the tasks. An error of one UPDATE is only logged, but it aborts the transaction:
-- PostgreSQL refuses the statements that follow, and `Commit` rolls back.
unfoldable pub requeue_agents : List String → List String → Action (List String)
requeue_agents result [] w = (ok result, w)
requeue_agents result (task ∷ tasks) w =
    let rest =
      requeue_agents result tasks
        (record (tick w) { agents = update_row (running_task task) requeued w.agents }) in
    if w.fault w.calls then (err db_error, tick w) else rest

-- The statements of `reclaimStuck` between `Begin` and `Commit`; the result is the list of tasks.
unfoldable pub reclaim_statements : Duration → Action (List String)
unfolding requeue_agents
reclaim_statements lease w =
    let limit = now w -ℤ lease in
    call
      (λ w'.
        let tasks = tasks_of (select_rows (is_stuck limit) w'.missions) in
        requeue_agents tasks tasks
          (record w' { missions = update_rows (is_stuck limit) reclaimed_row w'.missions }))
      w

-- `reclaimStuck`: errors are logged only, and a notification follows if there were tasks.
unfoldable pub reclaim_stuck : Duration → World → World
unfolding reclaim_statements
reclaim_stuck lease w =
    let (r, w') = transaction (reclaim_statements lease) w in
    elim r [ err _ ↦ w' | ok tasks ↦ elim tasks [ [] ↦ w' | _ ∷ _ ↦ tick w' ] ]
