-- ===== src/Admission/Controller.antt =====
-- The admission controller: internal/admission/controller.go. Errors are logged and swallowed, so an
-- operation is a function of the world; the log is left out.
pub mod Laws
mod Tests
use fracta.Common.{
  ℕ, ℤ, pos, leb_ℤ, ltb_ℤ, add_int, time_sub, String, len, slice, ◌⧺◌, decimal, decimal_int, ltb,
  Bool, not, ◌&&◌, none, some, List, [], ◌∷◌, if◌then◌else◌,
}
use fracta.Model.{AgentStatus, AgentEntry}
use fracta.Objective.{
  ObjectiveStatus, open_status, exhausted, budget_exhausted, timed_out, frozen, is_terminal,
  can_transition, Objective,
}
use fracta.Objective.Store as Objectives
use fracta.Proposal.{
  Note, cap_reached, runtime_exceeded, objective_not_found, parent_not_found, missions_terminal,
  objective_frozen, objective_closed, MissionProposal,
}
use fracta.Proposal.Store as Proposals
use fracta.Queue.{MissionStatus, MissionPayload, RawPayload, encoded, malformed, Mission}
use fracta.Queue.Postgres as Missions
use fracta.Mailbox.{Content, proposal_approved, proposal_rejected, objective_transitioned}
use fracta.Mailbox.Store as Mail
use fracta.World.{World, Outcome, ok, err, now}
use fracta.Admission.Reader.{get_mission, all_missions_terminal}
use fracta.Admission.Policy.{approve, reject, freeze, Decision, AdmissionPolicy, evaluate}

-- `AdmissionController`: the policy, and whether a mailbox is configured.
pub record AdmissionController : Type 0 where
  pub policy : AdmissionPolicy
  pub has_mailbox : Bool

-- `notify`: an error is logged only.
unfoldable pub notify : AdmissionController → String → Content → World → World
notify c to content w =
    if c.has_mailbox then (Mail.send "admission-controller" to content w).1 else w

-- `childMissionPayload`: the parent's payload but for the identity of the child.
unfoldable pub child_mission_payload : MissionPayload → String → String → String → MissionPayload
child_mission_payload parent task contract objective_id = record parent {
  task = task;
  contract = contract;
  objective_id = objective_id;
  mission_id = 0;
}

-- The name of the child's task, cut at 64 bytes.
unfoldable pub task_name : String → ℤ → ℕ → String
unfolding decimal_int decimal
task_name objective_id depth proposal_id =
    let name = "obj-" ⧺ objective_id ⧺ "-d" ⧺ decimal_int depth ⧺ "-" ⧺ decimal proposal_id in
    if ltb 64 (len name) then slice name 0 64 else name

-- The mission that `materialize` enqueues, the fields that `Enqueue` sets left at zero.
abbrev pub child_mission : MissionProposal → Objective → Mission → MissionPayload → Mission
child_mission p o parent payload = record {
  id = 0;
  agent_task = task_name o.id (add_int parent.depth (pos 1)) p.id;
  payload = encoded (child_mission_payload payload p.task p.contract o.id);
  status = MissionStatus.pending;
  priority = p.priority;
  created_at = pos 0;
  claimed_by = none;
  claimed_at = none;
  completed_at = none;
  error = "";
  objective_id = o.id;
  parent_id = some parent.id;
  depth = add_int parent.depth (pos 1);
  dedupe_key = p.dedupe_key;
  proposed_by = p.proposed_by;
}

-- The agent that goes with it.
abbrev pub child_agent : MissionProposal → Objective → Mission → MissionPayload → AgentEntry
child_agent p o parent payload = record {
  task = task_name o.id (add_int parent.depth (pos 1)) p.id;
  runtime_type = payload.runtime_type;
  resume_token = "";
  workspace_path = "";
  branch_name = "";
  base_branch = payload.base_branch;
  status = AgentStatus.queued;
  last_output = "";
  start_time = pos 0;
  mode = "queued";
  current_intent = "";
  mission_id = 0;
  objective_id = "";
}

-- Steps 6 and 7 of `materialize`, after the outcome of `Enqueue`.
abbrev finish_materialize :
    AdmissionController → MissionProposal → Objective → Mission → Outcome ℕ × World → World
finish_materialize c p o parent (err _, w) = w
finish_materialize c p o parent (ok _, w) =
    let depth = add_int parent.depth (pos 1) in
    let note = proposal_approved p.id p.dedupe_key (task_name o.id depth p.id) depth in
    notify c p.proposed_by note (Objectives.increment_mission_count o.id w).1

-- Steps 2 to 5: the parent's payload is decoded and the child is enqueued.
abbrev enqueue_child :
    AdmissionController → MissionProposal → Objective → Mission → RawPayload → World → World
enqueue_child c p o parent malformed w = w
enqueue_child c p o parent (encoded payload) w =
    finish_materialize c p o parent
      (Missions.enqueue (child_mission p o parent payload) (child_agent p o parent payload) w)

abbrev after_approve :
    AdmissionController → MissionProposal → Objective → Mission → Outcome (Unit {0}) × World → World
after_approve c p o parent (err _, w) = w
after_approve c p o parent (ok _, w) = enqueue_child c p o parent parent.payload w

-- `materialize`
unfoldable pub materialize :
    AdmissionController → MissionProposal → Objective → Mission → World → World
materialize c p o parent w = after_approve c p o parent (Proposals.approve p.id w)

abbrev after_reject :
    AdmissionController → MissionProposal → Note → Outcome (Unit {0}) × World → World
after_reject c p note (err _, w) = w
after_reject c p note (ok _, w) =
    notify c p.proposed_by (proposal_rejected p.id p.dedupe_key note) w

-- `reject`
unfoldable pub reject_proposal : AdmissionController → MissionProposal → Note → World → World
reject_proposal c p note w = after_reject c p note (Proposals.reject p.id note w)

-- The number that `RejectAllPending` returns, 0 beside an error.
abbrev rejected_count : Outcome ℕ → ℕ
rejected_count (err _) = 0
rejected_count (ok n) = n

abbrev after_freeze : AdmissionController → Objective → Note → Outcome (Unit {0}) × World → World
after_freeze c o reason (err _, w) = w
after_freeze c o reason (ok _, w) =
    let (r, w') = Proposals.reject_all_pending o.id (objective_frozen reason) w in
    notify c "chessmaster" (Content.objective_frozen o.id reason (rejected_count r)) w'

-- `freezeObjective`
unfoldable pub freeze_objective : AdmissionController → Objective → Note → World → World
freeze_objective c o reason w =
    after_freeze c o reason (Objectives.update (record o { status = frozen }) w)

-- The switch of `evaluateOne`.
abbrev pub apply_decision :
    AdmissionController → MissionProposal → Objective → Mission → Decision × World → World
apply_decision c p o parent (d, w) = elim d.action [
  | approve ↦ materialize c p o parent w
  | reject ↦ reject_proposal c p d.reason w
  | freeze ↦ freeze_objective c o d.reason w
]

abbrev with_parent :
    AdmissionController → MissionProposal → Objective → Outcome Mission × World → World
with_parent c p o (err _, w) = reject_proposal c p parent_not_found w
with_parent c p o (ok parent, w) = apply_decision c p o parent (evaluate c.policy p o parent w)

abbrev with_objective : AdmissionController → MissionProposal → Outcome Objective × World → World
with_objective c p (err _, w) = reject_proposal c p objective_not_found w
with_objective c p (ok o, w) = with_parent c p o (get_mission p.parent_mission w)

-- `evaluateOne`
unfoldable pub evaluate_one : AdmissionController → MissionProposal → World → World
evaluate_one c p w = with_objective c p (Objectives.get p.objective_id w)

-- The loop of `evaluateProposals`.
unfoldable pub evaluate_all : AdmissionController → List MissionProposal → World → World
evaluate_all c [] w = w
evaluate_all c (p ∷ ps) w = evaluate_all c ps (evaluate_one c p w)

abbrev evaluate_fetched : AdmissionController → Outcome (List MissionProposal) × World → World
evaluate_fetched c (err _, w) = w
evaluate_fetched c (ok ps, w) = evaluate_all c ps w

-- `evaluateProposals`
unfoldable pub evaluate_proposals : AdmissionController → World → World
unfolding evaluate_all
evaluate_proposals c w = evaluate_fetched c (Proposals.pending_proposals w)

-- Pending proposals of an objective that is closed are rejected; an error is ignored.
abbrev close_proposals : Objective → ObjectiveStatus → World → World
close_proposals o s w =
    if is_terminal s then (Proposals.reject_all_pending o.id (objective_closed s) w).1 else w

abbrev after_transition :
    AdmissionController → Objective → ObjectiveStatus → Note → Outcome (Unit {0}) × World → World
after_transition c o s reason (err _, w) = w
after_transition c o s reason (ok _, w) =
    notify c "chessmaster" (objective_transitioned o.id s reason) (close_proposals o s w)

-- `transitionObjective`
unfoldable pub transition_objective :
    AdmissionController → Objective → ObjectiveStatus → Note → World → World
transition_objective c o s reason w =
    if not (can_transition o.status s)
    then w
    else after_transition c o s reason (Objectives.update (record o { status = s }) w)

abbrev converge_idle :
    AdmissionController → Objective → Outcome (List MissionProposal) × World → World
converge_idle c o (err _, w) = w
converge_idle c o (ok [], w) = transition_objective c o exhausted missions_terminal w
converge_idle c o (ok (_ ∷ _), w) = w

abbrev converge_exhausted : AdmissionController → Objective → Outcome Bool × World → World
converge_exhausted c o (err _, w) = w
converge_exhausted c o (ok all_terminal, w) =
    if all_terminal && ltb_ℤ (pos 0) o.mission_count
    then converge_idle c o (Proposals.pending_for_objective o.id w)
    else w

-- `checkObjectiveConvergence`. The readings of the clock in the note are taken to be the same.
unfoldable pub check_objective_convergence : AdmissionController → Objective → World → World
check_objective_convergence c o w =
    let elapsed = time_sub (now w) o.created_at in
    if leb_ℤ o.max_missions o.mission_count
    then transition_objective c o budget_exhausted (cap_reached o.mission_count o.max_missions) w
    else if ltb_ℤ (pos 0) o.max_runtime && leb_ℤ o.max_runtime elapsed
    then transition_objective c o timed_out (runtime_exceeded elapsed o.max_runtime) w
    else converge_exhausted c o (all_missions_terminal o.id w)

-- The loop of `checkConvergence`.
unfoldable pub converge_all : AdmissionController → List Objective → World → World
converge_all c [] w = w
converge_all c (o ∷ os) w = converge_all c os (check_objective_convergence c o w)

abbrev converge_fetched : AdmissionController → Outcome (List Objective) × World → World
converge_fetched c (err _, w) = w
converge_fetched c (ok os, w) = converge_all c os w

-- `checkConvergence`
unfoldable pub check_convergence : AdmissionController → World → World
unfolding converge_all
check_convergence c w = converge_fetched c (Objectives.list_by_status open_status w)

-- `tick`, one round of the loop of `Run`.
unfoldable pub tick : AdmissionController → World → World
unfolding evaluate_proposals check_convergence
tick c w = check_convergence c (evaluate_proposals c w)
