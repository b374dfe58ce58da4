-- ===== src/Admission/Controller/Laws/Budget.antt =====
-- The cap on missions, for `evaluateProposals` of internal/admission/controller.go.
use fracta.Common.{
  pos, +ℤ_parts, ◌≤ℤ◌, ◌<ℤ◌, Time, String, same→≡, ◌≡◌, sym, ◌∙◌, inl, inr, some, List, [], ◌∷◌,
  All, All-find_row, All-update_row, find_row, find_row_sound, arith,
}
use fracta.World.{World, Outcome, ok, err}
use fracta.Objective.{Objective, frozen}
use fracta.Objective.Store as Objectives
use fracta.Proposal.{MissionProposal}
use fracta.Proposal.Store as Proposals
use fracta.Proposal.Store.Laws as ProposalLaws
use fracta.Admission.Controller.{
  AdmissionController, evaluate_one, evaluate_all, evaluate_fetched, evaluate_proposals,
}
use fracta.Admission.Controller.Laws.Materialize.{Rewritten, counted_row, restated_row}
use fracta.Admission.Controller.Laws.Effect.{Effect, kept, froze, admitted, evaluate_one-Effect}

-- No objective has counted more missions than its cap.
abbrev pub Within : Objective → Type 0
Within o = o.mission_count ≤ℤ o.max_missions

abbrev pub InBudget : World → Type 0
InBudget w = All Within w.objectives

count_Within :
    (o : Objective) (t : Time) → o.mission_count <ℤ o.max_missions → Within (counted_row t o)
count_Within o t h = omega (arith, +ℤ_parts o.mission_count (pos 1))

-- The row under the identifier of a row that was found is that row.
found_self :
    (id : String) (os : List Objective) {o r : Objective}
    → find_row (Objectives.has_id id) os ≡ some o
    → find_row (Objectives.has_id o.id) os ≡ some r
    → r ≡ o
found_self id os {o} {r} h k =
    let e : o.id ≡ id = same→≡ o.id id (find_row_sound (Objectives.has_id id) os h) in
    some_inj (sym (rw e at k) ∙ h)
  where
    some_inj : some r ≡ some o → r ≡ o
    some_inj q = cc

pub Rewritten-InBudget :
    (f : Time → Objective → Objective) (id : String) (w w' : World)
    → InBudget w
    → ((t : Time) (r : Objective)
        → find_row (Objectives.has_id id) w.objectives ≡ some r
        → Within (f t r))
    → Rewritten f id w w'
    → InBudget w'
Rewritten-InBudget f id w w' a h (inl k) = rw k a
Rewritten-InBudget f id w w' a h (inr (t, k)) =
    rw k (All-update_row Within (Objectives.has_id id) (f t) w.objectives a (h t))

Effect-InBudget :
    (c : AdmissionController) (p : MissionProposal) (w w' : World)
    → InBudget w
    → Effect c p w w'
    → InBudget w'
Effect-InBudget c p w w' a (kept k m) = rw k a
Effect-InBudget c p w w' a (froze o found is_open trips (rewritten, m)) =
    Rewritten-InBudget (restated_row o frozen) o.id w w' a
      (λ t r e. All-find_row Within (Objectives.has_id p.objective_id) w.objectives a found)
      rewritten
Effect-InBudget c p w w' a (admitted o parent found has_parent passes quiet stored counted) =
    Rewritten-InBudget counted_row o.id w w' a
      (λ u r e.
        rw (found_self p.objective_id w.objectives found e) (count_Within o u passes.budget))
      counted

pub evaluate_all-InBudget :
    (c : AdmissionController) (ps : List MissionProposal) (w : World)
    → InBudget w
    → InBudget (evaluate_all c ps w)
unfolding evaluate_all
evaluate_all-InBudget c [] w a = a
evaluate_all-InBudget c (p ∷ ps) w a =
    evaluate_all-InBudget c ps (evaluate_one c p w)
      (Effect-InBudget c p w (evaluate_one c p w) a (evaluate_one-Effect c p w))

-- If no objective has counted more missions than its cap, that is so after a round of evaluations,
-- whichever calls fail.
pub evaluate_proposals-InBudget :
    (c : AdmissionController) (w : World) → InBudget w → InBudget (evaluate_proposals c w)
unfolding evaluate_proposals
evaluate_proposals-InBudget c w a =
    fetched (Proposals.pending_proposals w) (ProposalLaws.pending_proposals-Frame w)
  where
    fetched :
        (r : Outcome (List MissionProposal) × World)
        → ProposalLaws.Frame w r.1
        → InBudget (evaluate_fetched c r)
    fetched (err e, u) f = rw f.0 a
    fetched (ok ps, u) f = evaluate_all-InBudget c ps u (rw f.0 a)
