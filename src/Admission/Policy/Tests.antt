-- ===== src/Admission/Policy/Tests.antt =====
-- The policy at concrete inputs.
use fracta.Common.{pos, ◌≡◌, refl, add_int, time_sub, mul_int, ◌↔◌}
use fracta.Objective.{Objective}
use fracta.Admission.Reader.{count_active_children}
use fracta.Admission.Policy.{
  approve, freeze, reject, default_policy, evaluate, budget_spent, too_deep, branching_full,
  runtime_spent, evidence_missing, breaker_trips,
}
use fracta.Admission.Policy.Laws.{IsPassed, Trips, evaluate-approve, evaluate-freeze}
use fracta.Samples.{objective, parent, proposal, world}

-- Three missions and one finding: the ratio 3 is reached.
abbrev busy : Objective
busy = record objective { mission_count = pos 3; finding_count = pos 1 }

abbrev full : Objective
full = record objective { mission_count = pos 10 }

approves : (evaluate default_policy (proposal 1 1) objective parent world).0.action ≡ approve
unfolding evaluate count_active_children budget_spent too_deep branching_full runtime_spent
    evidence_missing breaker_trips add_int time_sub mul_int
approves = refl

rejects_full : (evaluate default_policy (proposal 1 1) full parent world).0.action ≡ reject
unfolding evaluate count_active_children budget_spent too_deep branching_full runtime_spent
    evidence_missing breaker_trips add_int time_sub mul_int
rejects_full = refl

evaluate-approve_example :
    ((evaluate default_policy (proposal 1 1) objective parent world).0.action ≡ approve) ↔ (
      IsPassed default_policy (proposal 1 1) objective parent world
      × ¬ Trips default_policy objective)
evaluate-approve_example = evaluate-approve default_policy (proposal 1 1) objective parent world

evaluate-freeze_example :
    ((evaluate default_policy (proposal 1 1) busy parent world).0.action ≡ freeze)
    ↔ (IsPassed default_policy (proposal 1 1) busy parent world × Trips default_policy busy)
evaluate-freeze_example = evaluate-freeze default_policy (proposal 1 1) busy parent world
