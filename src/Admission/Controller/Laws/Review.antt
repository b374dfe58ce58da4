-- ===== src/Admission/Controller/Laws/Review.antt =====
-- `evaluateOne` of internal/admission/controller.go where no call fails.
use fracta.Common.{
  ℕ, same→≡, ◌≡◌, refl, ◌∙◌, ap, inl, inr, true, some, find_row, find_row_sound, exists_row,
  exists_row-find_row, update_row, update_rows, count_rows,
}
use fracta.World.{World, Outcome, ok, err, tick, now}
use fracta.Model.{AgentEntry}
use fracta.Objective.{Objective, frozen}
use fracta.Objective.Store as Objectives
use fracta.Objective.Store.Laws as ObjectiveLaws
use fracta.Proposal.{MissionProposal, Note, objective_not_found, parent_not_found, objective_frozen}
use fracta.Proposal.Store as Proposals
use fracta.Queue.{Mission, RawPayload, encoded, malformed}
use fracta.Queue.Postgres as Missions
use fracta.Queue.Postgres.Laws as MissionLaws
use fracta.Mailbox.{Content}
use fracta.Admission.Reader.{get_mission}
use fracta.Admission.Reader.Laws.{get_mission_reads}
use fracta.Admission.Policy.{Verdict, approve, reject, freeze, Decision, evaluate}
use fracta.Admission.Policy.Laws.{evaluate_reads}
use fracta.Admission.Controller.{
  AdmissionController, child_mission, child_agent, finish_materialize, enqueue_child, materialize,
  reject_proposal, freeze_objective, apply_decision, with_parent, with_objective, evaluate_one,
}
use fracta.Admission.Controller.Laws.Pending.{by_key, by_objective, Tracks}
use fracta.Admission.Controller.Laws.Reliable.{
  Reliable, Review, Quiet, Review-between, approved_row, approve-ok, reject_all_pending-ok,
  update-ok, notify-Quiet, approved-Closes, rejected-Closes, reject_proposal-Review,
}

finish-Quiet :
    (c : AdmissionController) (p : MissionProposal) (o : Objective) (parent : Mission) (w : World)
    (r : Outcome ℕ × World)
    → Quiet w r.1
    → Quiet w (finish_materialize c p o parent r)
finish-Quiet c p o parent w (err e, v) q = q
finish-Quiet c p o parent w (ok id, v) q =
    let u = (Objectives.increment_mission_count o.id v).1 in
    let f = ObjectiveLaws.increment-Frame v o.id in
    let n = notify-Quiet c p.proposed_by _ u in (n.0 ∙ f.0 ∙ q.0, n.1 ∙ f.3 ∙ q.1)

Enqueued-Quiet :
    (m : Mission) (a : AgentEntry) (w : World) (r : Outcome ℕ × World)
    → MissionLaws.Enqueued m a w r
    → Quiet w r.1
Enqueued-Quiet m a w (err e, v) h = (h.1, h.8)
Enqueued-Quiet m a w (ok id, v) h = (h.6, h.7)

enqueue_child-Quiet :
    (c : AdmissionController) (p : MissionProposal) (o : Objective) (parent : Mission)
    (raw : RawPayload) (w : World)
    → Quiet w (enqueue_child c p o parent raw w)
enqueue_child-Quiet c p o parent malformed w = (refl, refl)
enqueue_child-Quiet c p o parent (encoded payload) w =
    let m = child_mission p o parent payload in
    let a = child_agent p o parent payload in
    finish-Quiet c p o parent w (Missions.enqueue m a w)
      (Enqueued-Quiet m a w (Missions.enqueue m a w) (MissionLaws.enqueue_atomic m a w))

module _ (c : AdmissionController) (p : MissionProposal) (w : World) (reliable : Reliable w)
    (tracked : Tracks p w.proposals) where
  present : exists_row (Proposals.has_id p.id) w.proposals ≡ true
  present = exists_row-find_row (Proposals.has_id p.id) w.proposals tracked.1

  materialize-Review : (o : Objective) (parent : Mission) → Review p w (materialize c p o parent w)
  unfolding materialize
  materialize-Review o parent =
      let e = approve-ok p.id w (reliable w.calls) present in
      let v = record (tick w) {
        proposals = update_row (Proposals.has_id p.id) (approved_row (now w)) w.proposals;
      } in
      let q = enqueue_child-Quiet c p o parent parent.payload v in
      rw e (by_key (approved_row (now w)) (approved-Closes (now w)) q.0, q.1)

  freeze_objective-Review :
      (o : Objective) (reason : Note)
      → find_row (Objectives.has_id p.objective_id) w.objectives ≡ some o
      → Review p w (freeze_objective c o reason w)
  unfolding freeze_objective
  freeze_objective-Review o reason found =
      let same_id : o.id ≡ p.objective_id =
        same→≡ o.id p.objective_id
          (find_row_sound (Objectives.has_id p.objective_id) w.objectives found) in
      let there_already : exists_row (Objectives.has_id o.id) w.objectives ≡ true =
        ap (λ i. exists_row (Objectives.has_id i) w.objectives) same_id
        ∙ exists_row-find_row (Objectives.has_id p.objective_id) w.objectives found in
      let row = record o { status = frozen } in
      let e = update-ok row w (reliable w.calls) there_already in
      let v = record (tick w) {
        objectives =
            update_row (Objectives.has_id o.id) (Objectives.updated_row row (now w)) w.objectives;
      } in
      let note = objective_frozen reason in
      let k = reject_all_pending-ok o.id note v (reliable v.calls) in
      let f = Proposals.rejected_row (now v) note in
      let u = record (tick v) {
        proposals = update_rows (Proposals.pending_of o.id) f v.proposals;
      } in
      let count = count_rows (Proposals.pending_of o.id) v.proposals in
      let q = notify-Quiet c "chessmaster" (Content.objective_frozen o.id reason count) u in
      rw (e, k)
        (
          by_objective f (rejected-Closes (now v) note)
              (q.0 ∙ ap (λ i. update_rows (Proposals.pending_of i) f w.proposals) same_id),
          q.1,
        )

  apply_decision-Review :
      (o : Objective) (parent : Mission) (d : Decision) (v : Verdict)
      → d.action ≡ v
      → find_row (Objectives.has_id p.objective_id) w.objectives ≡ some o
      → Review p w (apply_decision c p o parent (d, w))
  apply_decision-Review o parent d approve e found =
      rw (e, apply_decision) (materialize-Review o parent)
  apply_decision-Review o parent d reject e found =
      rw (e, apply_decision) (reject_proposal-Review c p w reliable present d.reason)
  apply_decision-Review o parent d freeze e found =
      rw (e, apply_decision) (freeze_objective-Review o d.reason found)

module _ (c : AdmissionController) (p : MissionProposal) (w : World) (reliable : Reliable w)
    (tracked : Tracks p w.proposals) where
  -- A world that differs from this one by reads.
  abbrev After : World → Type 0
  After u = (w.objectives ≡ u.objectives) × (u.proposals ≡ w.proposals) × (u.fault ≡ w.fault)

  reviewed-After :
      (u v : World) → After u → (Reliable u → Tracks p u.proposals → Review p u v) → Review p w v
  reviewed-After u v a f =
      Review-between p w u v v (a.1, a.2) (f (λ n. ap (λ g. g n) a.2 ∙ reliable n) (rw a.1 tracked))
        (refl, refl)

  rejected-After : (note : Note) (u : World) → After u → Review p w (reject_proposal c p note u)
  rejected-After note u a = reviewed-After u (reject_proposal c p note u) a (λ r t.
      reject_proposal-Review c p u r (exists_row-find_row (Proposals.has_id p.id) u.proposals t.1)
        note)

  decided-After :
      (o : Objective) (parent : Mission) (d : Decision) (u : World)
      → After u
      → find_row (Objectives.has_id p.objective_id) w.objectives ≡ some o
      → Review p w (apply_decision c p o parent (d, u))
  decided-After o parent d u a found =
      reviewed-After u (apply_decision c p o parent (d, u)) a
        (λ r t. apply_decision-Review c p u r t o parent d d.action refl (rw a.0 at found))

  with_parent-Review :
      (o : Objective) (r : Outcome Mission × World)
      → r.1 ≡ tick (tick w)
      → find_row (Objectives.has_id p.objective_id) w.objectives ≡ some o
      → Review p w (with_parent c p o r)
  with_parent-Review o (err e, u) k found =
      rejected-After parent_not_found u (rw k (refl, refl, refl))
  with_parent-Review o (ok parent, u) k found =
      let r = evaluate c.policy p o parent u in
      decided-After o parent r.0 r.1
        (elim (evaluate_reads c.policy p o parent u) [
          | inl e ↦ rw (e, k) (refl, refl, refl)
          | inr e ↦ rw (e, k) (refl, refl, refl)
        ])
        found

  with_objective-Review :
      (r : Outcome Objective × World)
      → Objectives.get p.objective_id w ≡ r
      → r.1 ≡ tick w
      → Review p w (with_objective c p r)
  with_objective-Review (err e, u) h k =
      rejected-After objective_not_found u (rw k (refl, refl, refl))
  with_objective-Review (ok o, u) h k =
      with_parent-Review o (get_mission p.parent_mission u)
        (get_mission_reads u p.parent_mission ∙ ap tick k)
        (ObjectiveLaws.get_found w p.objective_id (ap (λ r. r.0) h))

  pub evaluate_one-Review : Review p w (evaluate_one c p w)
  unfolding evaluate_one
  evaluate_one-Review =
      with_objective-Review (Objectives.get p.objective_id w) refl
        (ObjectiveLaws.get_reads w p.objective_id)
