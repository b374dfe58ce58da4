-- ===== src/Admission/Controller/Laws/Rounds.antt =====
-- Any number of rounds of the controller: `tick` of internal/admission/controller.go.
use fracta.Common.{
  ℕ, zero, suc, inl, inr, Bool-cases, List, [], ◌∷◌, All, All-of_In, All-In, In-sort_rows,
  In-select_rows, sort_rows, select_rows,
}
use fracta.World.{World, Outcome, ok, err}
use fracta.Objective.{Objective, open_status, status_eq, ObjectiveStatus}
use fracta.Objective.Store as Objectives
use fracta.Objective.Store.Laws as ObjectiveLaws
use fracta.Admission.Controller.{
  AdmissionController, check_objective_convergence, converge_all, converge_fetched,
  check_convergence, evaluate_proposals, tick,
}
use fracta.Admission.Controller.Laws.Materialize.{restated_row}
use fracta.Admission.Controller.Laws.Budget.{
  Within, InBudget, Rewritten-InBudget, evaluate_proposals-InBudget,
}
use fracta.Admission.Controller.Laws.Converge.{Converged, check_objective_convergence-Converged}

Converged-InBudget :
    (o : Objective) (w w' : World) → Within o → InBudget w → Converged o w w' → InBudget w'
Converged-InBudget o w w' h a (inl (k, m)) = rw k a
Converged-InBudget o w w' h a (inr (s, step, due, written, m)) =
    Rewritten-InBudget (restated_row o s) o.id w w' a (λ t r e. h) written

converge_all-InBudget :
    (c : AdmissionController) (os : List Objective) (w : World)
    → All Within os
    → InBudget w
    → InBudget (converge_all c os w)
unfolding converge_all
converge_all-InBudget c [] w h a = a
converge_all-InBudget c (o ∷ os) w h a =
    let w' = check_objective_convergence c o w in
    converge_all-InBudget c os w' h.1
      (Converged-InBudget o w w' h.0 a (check_objective_convergence-Converged c o w))

abbrev listed : Outcome (List Objective) → List Objective
listed (ok os) = os
listed (err _) = []

-- The objectives that are listed stand in the table.
listed-Within :
    (s : ObjectiveStatus) (w : World)
    → InBudget w
    → All Within (listed (Objectives.list_by_status s w).0)
unfolding Objectives.list_by_status
listed-Within s w a = elim (Bool-cases (w.fault w.calls)) [
  | inl faulty ↦ rw faulty tt
  | inr passes ↦
      let open_rows = select_rows (λ (o : Objective). status_eq o.status s) w.objectives in
      rw passes (
        All-of_In Within (sort_rows Objectives.created_before open_rows) (λ o i.
          let (j, _) =
            In-select_rows (λ (r : Objective). status_eq r.status s) o w.objectives
              (In-sort_rows Objectives.created_before o open_rows i) in
          All-In Within w.objectives a j))
]

check_convergence-InBudget :
    (c : AdmissionController) (w : World) → InBudget w → InBudget (check_convergence c w)
unfolding check_convergence
check_convergence-InBudget c w a =
    fetched (Objectives.list_by_status open_status w) (listed-Within open_status w a)
      (rw (ObjectiveLaws.list_by_status_reads w open_status) a)
  where
    fetched :
        (r : Outcome (List Objective) × World)
        → All Within (listed r.0)
        → InBudget r.1
        → InBudget (converge_fetched c r)
    fetched (err e, u) h k = k
    fetched (ok os, u) h k = converge_all-InBudget c os u h k

abbrev pub ticks : ℕ → AdmissionController → World → World
ticks zero c w = w
ticks (suc n) c w = ticks n c (tick c w)

-- If no objective has counted more missions than its cap, that is so after any number of rounds,
-- whichever calls fail.
pub ticks-InBudget :
    (n : ℕ) (c : AdmissionController) (w : World) → InBudget w → InBudget (ticks n c w)
unfolding tick
ticks-InBudget zero c w a = a
ticks-InBudget (suc n) c w a =
    ticks-InBudget n c (tick c w)
      (check_convergence-InBudget c (evaluate_proposals c w) (evaluate_proposals-InBudget c w a))
