-- ===== src/Queue/Memory.antt =====
-- The mission queue in memory: internal/queue/memory.go. The channel holds the numbers of missions, and
-- the map the missions, in the order of their numbers. Which case of a `select` is taken where several
-- are ready is an argument: `sends` for `Enqueue`, `takes` for the rounds of `Dequeue`. A `Dequeue` on an
-- empty channel ends with its context or with the closing of the queue.
pub mod Laws
pub mod Cancel
pub mod Order
pub mod Past
pub mod Once
pub mod Numbers
mod Tests
use fracta.Common.{
  ℕ, ◌+◌, ltb, leb, ◌==◌, ℤ, pos, pos_part, leb_ℤ, not, Time, String, Bool, true, false, ◌&&◌,
  Option, none, some, List, [], ◌∷◌, ◌++◌, length, find_row, update_row, count_rows, if◌then◌else◌,
}
use fracta.Model.{AgentEntry, State}
use fracta.World.{World, Error, not_found, db_error, Outcome, ok, err, now}
use fracta.Agents.Snapshot.{with_lock}
use fracta.Queue.{
  MissionStatus, pending, claimed, completed, failed, cancelled, is_pending, Mission,
}

-- `MemoryQueue`
pub record MemoryQueue : Type 0 where
  pub channel : List ℕ
  pub capacity : ℕ
  pub missions : List Mission
  pub next_id : ℕ

-- `NewMemoryQueue`
unfoldable pub new_memory_queue : ℤ → MemoryQueue
new_memory_queue size = record {
  channel = [];
  capacity = if leb_ℤ size (pos 0) then 100 else pos_part size;
  missions = [];
  next_id = 0;
}

abbrev pub with_number : ℕ → Mission → Bool
with_number id m = m.id == id

abbrev pub queued_mission : ℕ → Time → Mission → Mission
queued_mission id at m = record m { id = id; status = pending; created_at = at }

abbrev pub add_agent : ℕ → AgentEntry → State → Outcome State
add_agent id a st = ok (record st { agents = st.agents ++ (record a { mission_id = id } ∷ []) })

-- The `select` at the end of `Enqueue`.
abbrev pub send : Bool → ℕ → MemoryQueue → Outcome (Unit {0}) × MemoryQueue
send sends id q =
    if sends && ltb (length q.channel) q.capacity
    then (ok tt, record q { channel = q.channel ++ (id ∷ []) })
    else (err db_error, q)

abbrev pub after_persist :
    Bool
    → ℕ
    → Time
    → Mission
    → MemoryQueue
    → Outcome (Unit {0}) × World
    → Outcome (Unit {0}) × (MemoryQueue × World)
after_persist sends id at m q (err e, w) = (err e, (record q { next_id = id }, w))
after_persist sends id at m q (ok _, w) =
    let (r, q') =
      send sends id
        (record q { next_id = id; missions = q.missions ++ (queued_mission id at m ∷ []) }) in
    (r, (q', w))

-- `Enqueue`
unfoldable pub enqueue :
    Bool → Mission → AgentEntry → MemoryQueue × World → Outcome (Unit {0}) × (MemoryQueue × World)
unfolding with_lock
enqueue sends m a (q, w) =
    let id = q.next_id + 1 in after_persist sends id (now w) m q (with_lock (add_agent id a) w)

abbrev pub claimed_mission : Time → Mission → Mission
claimed_mission at m = record m { status = claimed; claimed_at = some at }

abbrev pub is_waiting : Option Mission → Bool
is_waiting none = false
is_waiting (some m) = is_pending m.status

-- The loop of `Dequeue`: the number of the mission that is claimed, and what is left of the channel.
-- `takes n` says whether the `select` of round `n` takes from the channel, where it has a number; if it
-- does not, the context has ended or the queue is closed.
unfoldable pub take_waiting : (ℕ → Bool) → ℕ → List Mission → List ℕ → Option ℕ × List ℕ
take_waiting takes n ms [] = (none, [])
take_waiting takes n ms (id ∷ ids) =
    let rest = take_waiting takes (n + 1) ms ids in
    if not (takes n)
    then (none, id ∷ ids)
    else if is_waiting (find_row (with_number id) ms)
    then (some id, ids)
    else rest

abbrev pub claim_taken : Time → MemoryQueue → Option ℕ × List ℕ → Option Mission × MemoryQueue
claim_taken at q (none, ids) = (none, record q { channel = ids })
claim_taken at q (some id, ids) =
    let ms = update_row (with_number id) (claimed_mission at) q.missions in
    (find_row (with_number id) ms, record q { channel = ids; missions = ms })

-- `Dequeue`. No mission stands for an error, of the context or of a closed queue.
unfoldable pub dequeue : (ℕ → Bool) → Time → MemoryQueue → Option Mission × MemoryQueue
unfolding take_waiting
dequeue takes at q = claim_taken at q (take_waiting takes 0 q.missions q.channel)

-- The changed mission is in the map, or `ErrNotFound`.
abbrev pub store_change : ℕ → MemoryQueue → Option Mission → Outcome (Unit {0}) × MemoryQueue
store_change id q none = (err not_found, q)
store_change id q (some m) =
    (ok tt, record q { missions = update_row (with_number id) (λ _. m) q.missions })

abbrev pub change :
    ℕ → (Mission → Option Mission) → MemoryQueue → Option Mission → Outcome (Unit {0}) × MemoryQueue
change id f q none = (err not_found, q)
change id f q (some m) = store_change id q (f m)

abbrev pub completed_mission : Mission → Mission
completed_mission m = record m { status = completed }

abbrev pub failed_mission : String → Mission → Mission
failed_mission reason m = record m { status = failed; error = reason }

-- `Ack`, `Fail` and `Cancel`
unfoldable pub ack : ℕ → MemoryQueue → Outcome (Unit {0}) × MemoryQueue
ack id q = change id (λ m. some (completed_mission m)) q (find_row (with_number id) q.missions)

unfoldable pub fail : ℕ → String → MemoryQueue → Outcome (Unit {0}) × MemoryQueue
fail id reason q =
    change id (λ m. some (failed_mission reason m)) q (find_row (with_number id) q.missions)

-- The `switch` of `Cancel`.
abbrev pub cancelled_by_status : MissionStatus → Mission → Option Mission
cancelled_by_status pending m = some (record m { status = cancelled })
cancelled_by_status claimed m = some (record m { status = cancelled })
cancelled_by_status _ m = none

unfoldable pub cancel : ℕ → MemoryQueue → Outcome (Unit {0}) × MemoryQueue
cancel id q =
    change id (λ m. cancelled_by_status m.status m) q (find_row (with_number id) q.missions)

-- `Len` and `Status`
unfoldable pub len : MemoryQueue → ℕ
len q = count_rows (λ m. is_pending m.status) q.missions

abbrev pub status_found : Option Mission → Outcome MissionStatus
status_found none = err not_found
status_found (some m) = ok m.status

unfoldable pub status : ℕ → MemoryQueue → Outcome MissionStatus
status id q = status_found (find_row (with_number id) q.missions)
