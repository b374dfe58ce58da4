-- ===== src/Queue/Postgres/Tests.antt =====
-- The queue at a concrete database.
use fracta.Common.{ℕ, Bool, false, pos, some, List, [], ◌∷◌, In, here, refl, arith}
use fracta.Model.{AgentEntry}
use fracta.World.{World}
use fracta.Queue.{MissionStatus, encoded, Mission}
use fracta.Queue.Postgres.{enqueue, try_claim}
use fracta.Queue.Postgres.Laws.{
  Enqueued, enqueue_atomic, ClaimedBy, try_claim_best, Sound, QueueCall, enqueues, tries_claim,
  acks, cancels_it, fails_it, reclaims_stuck, run_calls, run_calls-Sound, run_calls-keeps_finished,
}
use fracta.Samples.{mission, objective, parent, payload, proposal, waiting, world}
use fracta.Admission.Controller.{child_mission, child_agent}

abbrev child : Mission
child = child_mission (proposal 1 1) objective parent payload

abbrev agent : AgentEntry
agent = child_agent (proposal 1 1) objective parent payload

enqueue_atomic_example : Enqueued child agent world (enqueue child agent world)
enqueue_atomic_example = enqueue_atomic child agent world

abbrev unlocked : ℕ → Bool
unlocked id = false

try_claim_best_example : ClaimedBy unlocked "w2" world (try_claim unlocked "w2" world)
try_claim_best_example = try_claim_best unlocked "w2" world

abbrev calls : List QueueCall
calls =
    enqueues child agent
    ∷ tries_claim unlocked "w2"
    ∷ acks 1
    ∷ fails_it 2 "lost"
    ∷ cancels_it 3
    ∷ reclaims_stuck (pos 0)
    ∷ []

world-Sound : Sound world
world-Sound = (
  (
    ((λ e. omega arith, refl), ((λ e. omega arith, refl), tt)),
    (((λ e. omega arith, refl), tt), (tt, tt)),
  ),
  (omega arith, (omega arith, (omega arith, tt))),
)

run_calls-Sound_example : Sound (run_calls calls world)
run_calls-Sound_example = run_calls-Sound calls world world-Sound

-- A mission that is completed, before the calls.
abbrev finished : Mission
finished = mission 1 MissionStatus.completed (some "w1") (encoded payload)

abbrev later_world : World
later_world = record world { missions = finished ∷ waiting ∷ [] }

later_world-Sound : Sound later_world
later_world-Sound = ((((λ e. omega arith, refl), tt), (tt, tt)), (omega arith, (omega arith, tt)))

run_calls-keeps_finished_example : In finished (run_calls calls later_world).missions
run_calls-keeps_finished_example =
    run_calls-keeps_finished finished refl calls later_world later_world-Sound (here refl)
