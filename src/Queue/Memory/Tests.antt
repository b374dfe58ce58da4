-- ===== src/Queue/Memory/Tests.antt =====
-- The queue in memory at a concrete run.
use fracta.Common.{ℕ, Bool, pos, true, some, List, [], ◌∷◌, ◌≡◌, ◌≢◌, refl, arith}
use fracta.Model.{AgentEntry}
use fracta.World.{World, ok}
use fracta.Queue.{completed, cancelled, Mission}
use fracta.Agents.Snapshot.{
  with_lock, load, apply_diff, delete_removed, save_agents, insert_agent_tx,
}
use fracta.Queue.Memory.{
  MemoryQueue, queued_mission, claimed_mission, enqueue, take_waiting, dequeue, ack, cancel, status,
}
use fracta.Queue.Memory.Laws.{Dequeued, dequeue-Dequeued}
use fracta.Queue.Memory.Cancel.{cancel-ack}
use fracta.Queue.Memory.Order.{dequeue-enqueue}
use fracta.Queue.Memory.Once.{
  MemoryCall, enqueues, dequeues, acks, cancels_it, run_call, run_calls, dequeue-once,
  dequeue-cancel,
}
use fracta.Samples.{objective, parent, payload, proposal, waiting, world}
use fracta.Admission.Controller.{child_agent}

-- No context ends.
abbrev takes_all : ℕ → Bool
takes_all n = true

abbrev empty_queue : MemoryQueue
empty_queue = record { channel = []; capacity = 2; missions = []; next_id = 3 }

-- Mission 1 is cancelled, 2 and 3 wait.
abbrev second : Mission
second = record waiting { id = 3 }

abbrev full_queue : MemoryQueue
full_queue = record {
  channel = 1 ∷ 2 ∷ 3 ∷ [];
  capacity = 5;
  missions = record waiting { id = 1; status = cancelled } ∷ waiting ∷ second ∷ [];
  next_id = 3;
}

dequeue-Dequeued_example :
    Dequeued takes_all (pos 300) full_queue (dequeue takes_all (pos 300) full_queue)
dequeue-Dequeued_example = dequeue-Dequeued takes_all (pos 300) full_queue

-- Mission 2 is cancelled too.
abbrev after_cancel : MemoryQueue
after_cancel = record full_queue {
  missions =
      record waiting { id = 1; status = cancelled }
      ∷ record waiting { status = cancelled }
      ∷ second
      ∷ [];
}

cancels : cancel 2 full_queue ≡ (ok tt, after_cancel)
unfolding cancel
cancels = refl

abbrev given : Mission
given = claimed_mission (pos 300) second

-- Mission 1 is acknowledged, then 3 is given.
abbrev acknowledged : Mission
acknowledged = record waiting { id = 1; status = completed }

abbrev after_given : MemoryQueue
after_given = record full_queue {
  channel = [];
  missions = acknowledged ∷ record waiting { status = cancelled } ∷ given ∷ [];
}

gives_third :
    dequeue takes_all (pos 300) (run_calls (acks 1 ∷ []) (after_cancel, world)).0
    ≡ (some given, after_given)
unfolding dequeue take_waiting run_call ack
gives_third = refl

dequeue-cancel_example : given.id ≢ 2
dequeue-cancel_example =
    dequeue-cancel takes_all (pos 300) (acks 1 ∷ []) 2 full_queue after_cancel after_given world
      given (omega arith, (omega arith, (omega arith, tt))) cancels gives_third

cancel-ack_example :
    (status 2 after_cancel ≡ ok cancelled)
    × ((ack 2 after_cancel).0 ≡ ok tt)
    × (status 2 (ack 2 after_cancel).1 ≡ ok completed)
cancel-ack_example = cancel-ack 2 full_queue after_cancel cancels

abbrev agent : AgentEntry
agent = child_agent (proposal 1 1) objective parent payload

abbrev stored : MemoryQueue × World
stored = (
  record empty_queue {
    channel = 4 ∷ [];
    missions = queued_mission 4 (pos 200) waiting ∷ [];
    next_id = 4;
  },
  record world { agents = record agent { mission_id = 4 } ∷ []; calls = 6 },
)

accepts : enqueue true waiting agent (empty_queue, world) ≡ (ok tt, stored)
unfolding enqueue with_lock load apply_diff delete_removed save_agents insert_agent_tx
accepts = refl

dequeue-enqueue_example :
    (dequeue takes_all (pos 300) stored.0).0
    ≡ some (claimed_mission (pos 300) (queued_mission 4 (pos 200) waiting))
dequeue-enqueue_example =
    dequeue-enqueue true waiting agent empty_queue stored.0 world stored.1 takes_all (pos 300) refl
      tt refl accepts

-- Mission 2 is given, completed and cancelled; then 3 is given.
abbrev first_given : Mission
first_given = claimed_mission (pos 300) waiting

abbrev after_first : MemoryQueue
after_first = record full_queue {
  channel = 3 ∷ [];
  missions = record waiting { id = 1; status = cancelled } ∷ first_given ∷ second ∷ [];
}

gives_second : dequeue takes_all (pos 300) full_queue ≡ (some first_given, after_first)
unfolding dequeue take_waiting
gives_second = refl

abbrev between : List MemoryCall
between = acks 2 ∷ cancels_it 1 ∷ []

abbrev after_last : MemoryQueue
after_last = record after_first {
  channel = [];
  missions =
      record waiting { id = 1; status = cancelled }
      ∷ record first_given { status = completed }
      ∷ given
      ∷ [];
}

gives_last :
    dequeue takes_all (pos 300) (run_calls between (after_first, world)).0
    ≡ (some given, after_last)
unfolding dequeue take_waiting run_call ack cancel
gives_last = refl

dequeue-once_example : given.id ≢ first_given.id
dequeue-once_example =
    dequeue-once takes_all takes_all (pos 300) (pos 300) between full_queue after_first after_last
      world first_given given (omega arith, (omega arith, (omega arith, tt))) gives_second
      gives_last

abbrev calls : List MemoryCall
calls = enqueues true waiting agent ∷ dequeues takes_all (pos 300) ∷ acks 1 ∷ cancels_it 1 ∷ []
