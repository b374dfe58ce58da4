-- ===== src/Admission/Controller/Tests.antt =====
-- The controller at a concrete database.
use fracta.Common.{
  ◌-ℤ◌, ◌≡◌, refl, false, arith, find_row, some, pos, [], ◌∷◌, sort_rows, insert_sorted,
}
use fracta.World.{World, tick, now}
use fracta.Proposal.{MissionProposal, is_pending, parent_not_found}
use fracta.Proposal.Store.{has_id, pending_proposals, rejected_row}
use fracta.Proposal.Store as Proposals
use fracta.Objective.Store as Objectives
use fracta.Mailbox.Store as Mail
use fracta.Admission.Reader.{get_mission}
use fracta.Queue.Postgres.{reclaimed_row, reclaim_stuck}
use fracta.Queue.Postgres as Missions
use fracta.Admission.Controller.Laws.Reclaimed.{evaluate_one-reclaim_stuck}
use fracta.Admission.Controller.{
  evaluate_one, evaluate_all, evaluate_proposals, reject_proposal, notify,
}
use fracta.Admission.Controller.Laws.Effect.{Effect, evaluate_one-Effect}
use fracta.Admission.Controller.Laws.Budget.{InBudget}
use fracta.Admission.Controller.Laws.Rounds.{ticks, ticks-InBudget}
use fracta.Admission.Controller.Laws.Closing.{evaluate_proposals-none_pending}
use fracta.Objective.{Objective}
use fracta.Admission.Controller.{check_objective_convergence}
use fracta.Admission.Controller.Laws.Converge.{Converged, check_objective_convergence-Converged}
use fracta.Samples.{objective, controller, parent, proposal, world}

evaluate_one-Effect_example :
    Effect controller (proposal 1 1) world (evaluate_one controller (proposal 1 1) world)
evaluate_one-Effect_example = evaluate_one-Effect controller (proposal 1 1) world

ticks-InBudget_example : InBudget (ticks 3 controller world)
ticks-InBudget_example = ticks-InBudget 3 controller world (omega arith, tt)

-- Mission 1 was claimed at 110; the lease is 50, and it is 200.
evaluate_one-reclaim_stuck_example :
    let before = reclaim_stuck (pos 50) world in
    let after = evaluate_one controller (proposal 1 1) before in
    (find_row (Missions.has_id 1) after.missions ≡ some (reclaimed_row parent))
    × (find_row (has_id 1) after.proposals
        ≡ some (rejected_row (now (tick (tick before))) parent_not_found (proposal 1 1)))
    × (after.objectives ≡ world.objectives)
    × (after.missions ≡ before.missions)
unfolding ◌-ℤ◌
evaluate_one-reclaim_stuck_example =
    evaluate_one-reclaim_stuck controller (proposal 1 1) (proposal 1 1) objective parent (pos 50)
      world (λ n. refl) refl refl refl refl

-- One proposal, whose parent mission waits for a worker.
abbrev one_proposal : World
one_proposal = record world { proposals = proposal 2 2 ∷ [] }

abbrev reviewed : MissionProposal
reviewed = rejected_row (pos 200) parent_not_found (proposal 2 2)

evaluated :
    find_row (has_id 2) (evaluate_proposals controller one_proposal).proposals ≡ some reviewed
unfolding evaluate_proposals pending_proposals sort_rows insert_sorted evaluate_all evaluate_one
    Objectives.get get_mission reject_proposal Proposals.reject notify Mail.send
evaluated = refl

evaluate_proposals-none_pending_example : is_pending reviewed.status ≡ false
evaluate_proposals-none_pending_example =
    evaluate_proposals-none_pending controller one_proposal 2 reviewed (λ n. refl) (refl, tt)
      evaluated

-- An objective at its cap.
abbrev full : Objective
full = record objective { mission_count = pos 10 }

check_objective_convergence-Converged_example :
    Converged full world (check_objective_convergence controller full world)
check_objective_convergence-Converged_example =
    check_objective_convergence-Converged controller full world
