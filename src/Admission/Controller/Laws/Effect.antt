-- ===== src/Admission/Controller/Laws/Effect.antt =====
-- The effect of `evaluateOne` on objectives and missions: internal/admission/controller.go.
use fracta.Common.{◌≡◌, refl, ◌∙◌, ap, inl, inr, some, find_row}
use fracta.World.{World, Outcome, ok, err, tick, KeepsObjectives, KeepsMissions}
use fracta.Objective.{Objective, open_status, frozen}
use fracta.Objective.Store as Objectives
use fracta.Objective.Store.Laws as ObjectiveLaws
use fracta.Proposal.{MissionProposal, Note, objective_not_found, parent_not_found}
use fracta.Queue.{Mission}
use fracta.Queue.Postgres as Missions
use fracta.Admission.Reader.{get_mission}
use fracta.Admission.Reader.Laws.{get_mission_reads, get_mission_found}
use fracta.Admission.Policy.{Verdict, approve, reject, freeze, Decision, evaluate}
use fracta.Admission.Policy.Laws.{
  Passes, Trips, children_of, read_time, evaluate-approve, evaluate-freeze, evaluate_reads,
}
use fracta.Admission.Controller.{
  AdmissionController, materialize, reject_proposal, freeze_objective, apply_decision, with_parent,
  with_objective, evaluate_one,
}
use fracta.Admission.Controller.Laws.Materialize.{
  Rewritten, Rewritten-between, counted_row, restated_row, Stored, Materialized-after, Materialized,
  materialize_lem, reject_proposal-Frame, Froze, freeze_objective_lem,
}

-- One evaluation of `p` between two worlds. `kept`: nothing but proposals and messages changes.
-- `froze`: the open objective trips the circuit breaker and is frozen. `admitted`: the objective and
-- the parent are there, every condition of the policy holds at the number of active children and the
-- time of the clock at the call after the three reads, and the child is stored.
pub data Effect (c : AdmissionController) (p : MissionProposal) (w w' : World) : Type 0 where
  kept : KeepsObjectives w w' → KeepsMissions w w' → Effect c p w w'
  froze :
      (o : Objective)
      → find_row (Objectives.has_id p.objective_id) w.objectives ≡ some o
      → o.status ≡ open_status
      → Trips c.policy o
      → Froze o w w'
      → Effect c p w w'
  admitted :
      (o : Objective) (parent : Mission)
      → find_row (Objectives.has_id p.objective_id) w.objectives ≡ some o
      → find_row (Missions.has_id p.parent_mission) w.missions ≡ some parent
      → Passes c.policy p o parent (children_of parent w) (read_time (tick (tick w)))
      → ¬ Trips c.policy o
      → Stored p o parent w w'
      → Rewritten counted_row o.id w w'
      → Effect c p w w'

module _ (c : AdmissionController) (p : MissionProposal) (o : Objective) (parent : Mission)
    (w : World) (found : find_row (Objectives.has_id p.objective_id) w.objectives ≡ some o)
    (has_parent : find_row (Missions.has_id p.parent_mission) w.missions ≡ some parent) where
  -- The world in which the policy is asked, after the two reads.
  abbrev asked : World
  asked = tick (tick w)

  abbrev Same : World → Type 0
  Same u = KeepsObjectives w u × KeepsMissions w u

  admitted_lem :
      (u v : World)
      → Same u
      → Passes c.policy p o parent (children_of parent w) (read_time asked)
      → ¬ Trips c.policy o
      → Materialized p o parent u v
      → Effect c p w v
  admitted_lem u v same passes quiet m = go (Materialized-after c p o parent w u v same.0 same.1 m)
    where
      go : Materialized p o parent w v → Effect c p w v
      go (inl (a, b)) = kept a b
      go (inr (stored, counted)) = admitted o parent found has_parent passes quiet stored counted

  verdict_lem :
      (d : Decision) (u : World) (v : Verdict)
      → evaluate c.policy p o parent asked ≡ (d, u)
      → d.action ≡ v
      → Same u
      → Effect c p w (apply_decision c p o parent (d, u))
  verdict_lem d u approve e a same =
      let ((answers, passes), quiet) =
        (evaluate-approve c.policy p o parent asked).0 (ap (λ r. r.0.action) e ∙ a) in
      rw (a, apply_decision)
        (admitted_lem u (materialize c p o parent u) same passes quiet
          (materialize_lem c p o parent u))
  verdict_lem d u reject e a same =
      let f = reject_proposal-Frame c p d.reason u in
      rw (a, apply_decision) (kept (f.0 ∙ same.0) (f.1 ∙ same.1))
  verdict_lem d u freeze e a same =
      let ((answers, passes), trips) =
        (evaluate-freeze c.policy p o parent asked).0 (ap (λ r. r.0.action) e ∙ a) in
      let (rewritten, missions) = freeze_objective_lem c o d.reason u in
      let w' = freeze_objective c o d.reason u in
      rw (a, apply_decision)
        (froze o found passes.is_open trips (
          Rewritten-between (restated_row o frozen) o.id w u w' w' same.0 rewritten refl,
          missions ∙ same.1,
        ))

  decided_lem : Effect c p w (apply_decision c p o parent (evaluate c.policy p o parent asked))
  decided_lem =
      let r = evaluate c.policy p o parent asked in
      verdict_lem r.0 r.1 r.0.action refl refl (elim (evaluate_reads c.policy p o parent asked) [
        | inl k ↦ (ap (λ (v : World). v.objectives) k, ap (λ (v : World). v.missions) k)
        | inr k ↦ (ap (λ (v : World). v.objectives) k, ap (λ (v : World). v.missions) k)
      ])

module _ (c : AdmissionController) (p : MissionProposal) (w : World) where
  rejected_lem :
      (note : Note) (u : World)
      → KeepsObjectives w u
      → KeepsMissions w u
      → Effect c p w (reject_proposal c p note u)
  rejected_lem note u e f = let g = reject_proposal-Frame c p note u in kept (g.0 ∙ e) (g.1 ∙ f)

  with_parent_lem :
      (o : Objective) (r : Outcome Mission × World)
      → get_mission p.parent_mission (tick w) ≡ r
      → find_row (Objectives.has_id p.objective_id) w.objectives ≡ some o
      → r.1 ≡ tick (tick w)
      → Effect c p w (with_parent c p o r)
  with_parent_lem o (err e, u) h found k =
      rejected_lem parent_not_found u (ap (λ (v : World). v.objectives) k)
        (ap (λ (v : World). v.missions) k)
  with_parent_lem o (ok parent, u) h found k = rw k (
      decided_lem c p o parent w found
        (get_mission_found (tick w) p.parent_mission (ap (λ r. r.0) h)))

  with_objective_lem :
      (r : Outcome Objective × World)
      → Objectives.get p.objective_id w ≡ r
      → r.1 ≡ tick w
      → Effect c p w (with_objective c p r)
  with_objective_lem (err e, u) h k =
      rejected_lem objective_not_found u (ap (λ (v : World). v.objectives) k)
        (ap (λ (v : World). v.missions) k)
  with_objective_lem (ok o, u) h k = rw k (
      with_parent_lem o (get_mission p.parent_mission (tick w)) refl
        (ObjectiveLaws.get_found w p.objective_id (ap (λ r. r.0) h))
        (get_mission_reads (tick w) p.parent_mission))

  -- Whichever calls fail, an evaluation leaves objectives and missions alone; or the open objective
  -- trips the circuit breaker, its row is at most rewritten as frozen, and missions stay; or the
  -- objective and the parent are in their tables, every condition of the policy holds at the
  -- children counted in the table and the reading of the clock after the three reads, the breaker
  -- does not fire, one child is stored, and the objective's row at most counts one mission more.
  pub evaluate_one-Effect : Effect c p w (evaluate_one c p w)
  unfolding evaluate_one
  evaluate_one-Effect =
      with_objective_lem (Objectives.get p.objective_id w) refl
        (ObjectiveLaws.get_reads w p.objective_id)
