-- ===== src/Admission/Controller/Laws/Converge.antt =====
-- What `checkObjectiveConvergence` of internal/admission/controller.go does to an objective.
use fracta.Common.{
  pos, ◌≤ℤ◌, ◌<ℤ◌, leb_ℤ, ltb_ℤ, leb_ℤ-true, ltb_ℤ-true, time_sub, Bool, true, false, ◌&&◌, both,
  Bool-cases, ◌≡◌, refl, sym, ◌∙◌, ap, ◌⊎◌, inl, inr, List, [], ◌∷◌, count_rows, select_rows,
  sort_rows_nil, first, arith,
}
use fracta.World.{World, Outcome, ok, err, tick, now, KeepsObjectives, KeepsMissions}
use fracta.Objective.{
  ObjectiveStatus, Objective, exhausted, budget_exhausted, timed_out, is_terminal, can_transition,
}
use fracta.Objective.Store as Objectives
use fracta.Objective.Store.Laws as ObjectiveLaws
use fracta.Objective.Lifecycle.{Transition, can_transition-Transition}
use fracta.Proposal.{
  MissionProposal, Note, cap_reached, runtime_exceeded, missions_terminal, objective_closed,
}
use fracta.Proposal.Store as Proposals
use fracta.Proposal.Store.Laws as ProposalLaws
use fracta.Mailbox.{objective_transitioned}
use fracta.Admission.Reader.{active_in, all_missions_terminal}
use fracta.Admission.Reader.Laws.{all_missions_terminal_reads}
use fracta.Admission.Controller.{
  AdmissionController, close_proposals, after_transition, transition_objective, converge_idle,
  converge_exhausted, check_objective_convergence,
}
use fracta.Admission.Controller.Laws.Materialize.{
  Rewritten, Rewritten-between, restated_row, update-Rewritten, notify-Frame,
}

-- Why an objective is closed: its cap is reached, its time is up, or it has had missions, none is
-- active, and no proposal waits.
pub data Due (o : Objective) (w : World) : ObjectiveStatus → Type 0 where
  capped : o.max_missions ≤ℤ o.mission_count → Due o w budget_exhausted
  late : pos 0 <ℤ o.max_runtime → o.max_runtime ≤ℤ time_sub (now w) o.created_at → Due o w timed_out
  idle :
      pos 0 <ℤ o.mission_count
      → count_rows (active_in o.id) w.missions ≡ 0
      → select_rows (Proposals.pending_of o.id) w.proposals ≡ []
      → Due o w exhausted

-- The objective is closed for a reason, by a transition of the lifecycle; or no objective changes.
-- Missions stay.
abbrev pub Converged : Objective → World → World → Type 0
Converged o w w' =
    (KeepsObjectives w w' × KeepsMissions w w')
    ⊎ ((s : ObjectiveStatus) × Transition o.status s
        × Due o w s
        × Rewritten (restated_row o s) o.id w w'
        × KeepsMissions w w')

-- Objectives and missions are as before.
abbrev Same : World → World → Type 0
Same w w' = KeepsObjectives w w' × KeepsMissions w w'

close_proposals-Same :
    (o : Objective) (s : ObjectiveStatus) (w : World) → Same w (close_proposals o s w)
close_proposals-Same o s w = elim (Bool-cases (is_terminal s)) [
  | inl over ↦
      let f = ProposalLaws.reject_all_pending-Frame w o.id (objective_closed s) in
      rw over (f.0, f.1)
  | inr going ↦ rw going (refl, refl)
]

module _ (c : AdmissionController) (o : Objective) (s : ObjectiveStatus) (reason : Note)
    (w : World) where
  transitioned :
      (r : Outcome (Unit {0}) × World)
      → Rewritten (restated_row o s) o.id w r.1
      → KeepsMissions w r.1
      → Rewritten (restated_row o s) o.id w (after_transition c o s reason r)
        × KeepsMissions w (after_transition c o s reason r)
  transitioned (err e, v) h k = (h, k)
  transitioned (ok _, v) h k =
      let a = close_proposals-Same o s v in
      let b =
        notify-Frame c "chessmaster" (objective_transitioned o.id s reason)
          (close_proposals o s v) in
      (
        Rewritten-between (restated_row o s) o.id w w v (after_transition c o s reason (ok tt, v))
            refl h (b.0 ∙ a.0),
        b.2 ∙ a.1 ∙ k,
      )

  transition_objective-Converged :
      (w0 : World) → Same w0 w → Due o w0 s → Converged o w0 (transition_objective c o s reason w)
  unfolding transition_objective
  transition_objective-Converged w0 same due = elim (Bool-cases (can_transition o.status s)) [
    | inr refused ↦ rw refused (inl same)
    | inl allowed ↦
        let row = record o { status = s } in
        let (written, missions) =
          transitioned (Objectives.update row w) (update-Rewritten o s w)
            (ObjectiveLaws.update-Frame w row).1 in
        let w' = after_transition c o s reason (Objectives.update row w) in
        rw allowed (
          inr (
            s,
            (can_transition-Transition o.status s).0 allowed,
            due,
            Rewritten-between (restated_row o s) o.id w0 w w' w' same.0 written refl,
            missions ∙ same.1,
          ))
  ]

abbrev rows_of : Outcome (List MissionProposal) → List MissionProposal
rows_of (ok ps) = ps
rows_of (err _) = []

abbrev answer_of : Outcome Bool → Bool
answer_of (ok b) = b
answer_of (err _) = false

module _ (c : AdmissionController) (o : Objective) (w : World) where
  converge_idle-Converged :
      (r : Outcome (List MissionProposal) × World)
      → Same w r.1
      → (r.0 ≡ ok [] → Due o w exhausted)
      → Converged o w (converge_idle c o r)
  converge_idle-Converged (err e, v) h d = inl h
  converge_idle-Converged (ok [], v) h d =
      transition_objective-Converged c o exhausted missions_terminal v w h (d refl)
  converge_idle-Converged (ok (p ∷ ps), v) h d = inl h

  none_pending :
      (v : World)
      → (Proposals.pending_for_objective o.id v).0 ≡ ok []
      → select_rows (Proposals.pending_of o.id) v.proposals ≡ []
  unfolding Proposals.pending_for_objective
  none_pending v h = elim (Bool-cases (v.fault v.calls)) [
    | inl faulty ↦ cc (rw faulty at h)
    | inr passes ↦
        sort_rows_nil Proposals.ranked_before (select_rows (Proposals.pending_of o.id) v.proposals)
          (ap (λ r. first (rows_of r)) (rw passes at h))
  ]

  converge_exhausted-Converged :
      (r : Outcome Bool × World)
      → r.1 ≡ tick w
      → (r.0 ≡ ok true → count_rows (active_in o.id) w.missions ≡ 0)
      → Converged o w (converge_exhausted c o r)
  converge_exhausted-Converged (err e, v) k h =
      inl (ap (λ (x : World). x.objectives) k, ap (λ (x : World). x.missions) k)
  converge_exhausted-Converged (ok b, v) k h =
      elim (Bool-cases (b && ltb_ℤ (pos 0) o.mission_count)) [
        | inr busy ↦ rw (busy, k) (inl (refl, refl))
        | inl spent ↦
            let (all, counted) = both b (ltb_ℤ (pos 0) o.mission_count) spent in
            let f = ProposalLaws.pending_for_objective-Frame v o.id in
            rw spent (
              converge_idle-Converged (Proposals.pending_for_objective o.id v)
                (f.0 ∙ ap (λ (x : World). x.objectives) k, f.1 ∙ ap (λ (x : World). x.missions) k)
                (λ e. idle ((ltb_ℤ-true (pos 0) o.mission_count).0 counted) (h (ap ok all)) (
                  ap (λ (x : World). select_rows (Proposals.pending_of o.id) x.proposals) (sym k)
                  ∙ none_pending v e)))
      ]

  terminal_answer :
      (all_missions_terminal o.id w).0 ≡ ok true → count_rows (active_in o.id) w.missions ≡ 0
  unfolding all_missions_terminal
  terminal_answer h = elim (Bool-cases (w.fault w.calls)) [
    | inl faulty ↦ cc (rw faulty at h)
    | inr passes ↦ let k = ap answer_of (rw passes at h) in ground arith
  ]

  -- Whichever calls fail, a check of convergence leaves objectives and missions alone; or it at most
  -- rewrites the row of the checked objective with a status that the lifecycle allows, because its
  -- cap is reached, its time is up, or it has had missions, none of them is active and no proposal
  -- waits, and missions stay.
  pub check_objective_convergence-Converged : Converged o w (check_objective_convergence c o w)
  unfolding check_objective_convergence
  check_objective_convergence-Converged =
      let elapsed = time_sub (now w) o.created_at in
      elim (Bool-cases (leb_ℤ o.max_missions o.mission_count)) [
        | inl full ↦ rw full (
            transition_objective-Converged c o budget_exhausted
              (cap_reached o.mission_count o.max_missions) w w (refl, refl)
              (capped ((leb_ℤ-true o.max_missions o.mission_count).0 full)))
        | inr room ↦
            elim (Bool-cases (ltb_ℤ (pos 0) o.max_runtime && leb_ℤ o.max_runtime elapsed)) [
              | inl over ↦
                  let (limited, reached) =
                    both (ltb_ℤ (pos 0) o.max_runtime) (leb_ℤ o.max_runtime elapsed) over in
                  rw (room, over)
                    (transition_objective-Converged c o timed_out
                      (runtime_exceeded elapsed o.max_runtime) w w (refl, refl)
                      (late ((ltb_ℤ-true (pos 0) o.max_runtime).0 limited)
                        ((leb_ℤ-true o.max_runtime elapsed).0 reached)))
              | inr going ↦
                  rw (room, going)
                    (converge_exhausted-Converged (all_missions_terminal o.id w)
                      (all_missions_terminal_reads w o.id) terminal_answer)
            ]
      ]
