-- ===== src/Admission/Controller/Laws/Reclaimed.antt =====
-- A proposal whose parent mission has been reclaimed: `reclaimStuck` of internal/queue/postgres.go, then
-- `evaluateOne` of internal/admission/controller.go, where no call fails.
use fracta.Common.{
  ◌-ℤ◌, Duration, ◌≡◌, refl, ◌∙◌, ap, true, some, none, find_row, find_row_sound,
  find_row-update_row, find_row-update_rows_hit, exists_row-find_row, update_row,
}
use fracta.World.{World, tick, now}
use fracta.Objective.{Objective}
use fracta.Objective.Store as Objectives
use fracta.Proposal.{MissionProposal, parent_not_found}
use fracta.Proposal.Store as Proposals
use fracta.Queue.{Mission}
use fracta.Queue.Postgres.{is_stuck, reclaimed_row, reclaim_stuck}
use fracta.Queue.Postgres as Missions
use fracta.Queue.Postgres.Laws.Reclaim.{reclaim_stuck-Reclaimed}
use fracta.Mailbox.{proposal_rejected}
use fracta.Admission.Reader.Laws.{get_mission_unclaimed}
use fracta.Admission.Controller.{AdmissionController, with_parent, reject_proposal, evaluate_one}
use fracta.Admission.Controller.Laws.Materialize.{notify-Frame}
use fracta.Admission.Controller.Laws.Reliable.{Reliable, reject-ok}

module _ (c : AdmissionController) (p : MissionProposal) (w : World) where
  -- The parent of the proposal is there, and no worker has claimed it.
  unclaimed_parent-rejected :
      (o : Objective) (m : Mission)
      → Reliable w
      → find_row (Objectives.has_id p.objective_id) w.objectives ≡ some o
      → find_row (Missions.has_id p.parent_mission) w.missions ≡ some m
      → m.claimed_by ≡ none
      → evaluate_one c p w ≡ reject_proposal c p parent_not_found (tick (tick w))
  unfolding evaluate_one Objectives.get
  unclaimed_parent-rejected o m safe has_objective has_parent unclaimed =
      let e = get_mission_unclaimed (tick w) p.parent_mission has_parent unclaimed in
      rw (safe w.calls, has_objective) (ap (with_parent c p o) e)

  rejected_lem :
      (q : MissionProposal)
      → Reliable w
      → find_row (Proposals.has_id p.id) w.proposals ≡ some q
      → let v = reject_proposal c p parent_not_found w in
        (find_row (Proposals.has_id p.id) v.proposals
          ≡ some (Proposals.rejected_row (now w) parent_not_found q))
        × (v.objectives ≡ w.objectives)
        × (v.missions ≡ w.missions)
  unfolding reject_proposal
  rejected_lem q safe found =
      let row = Proposals.rejected_row (now w) parent_not_found in
      let e =
        reject-ok p.id parent_not_found w (safe w.calls)
          (exists_row-find_row (Proposals.has_id p.id) w.proposals found) in
      let u = record (tick w) { proposals = update_row (Proposals.has_id p.id) row w.proposals } in
      let f =
        notify-Frame c p.proposed_by (proposal_rejected p.id p.dedupe_key parent_not_found) u in
      let hit =
        find_row-update_row (Proposals.has_id p.id) row w.proposals q found
          (find_row_sound (Proposals.has_id p.id) w.proposals found) in
      rw e (ap (find_row (Proposals.has_id p.id)) f.1 ∙ hit, f.0, f.2)

module _ (c : AdmissionController) (p q : MissionProposal) (o : Objective) (m : Mission)
    (lease : Duration) (w : World) where
  -- Where no call fails, the evaluation of a stored proposal whose objective is there and whose parent
  -- mission a reclaim has just put back in the queue rejects the proposal, as one whose parent is not
  -- found, though the parent's row is there, and leaves objectives and missions alone.
  pub evaluate_one-reclaim_stuck :
      Reliable w
      → find_row (Objectives.has_id p.objective_id) w.objectives ≡ some o
      → find_row (Proposals.has_id p.id) w.proposals ≡ some q
      → find_row (Missions.has_id p.parent_mission) w.missions ≡ some m
      → is_stuck (now (tick w) -ℤ lease) m ≡ true
      → let before = reclaim_stuck lease w in
        let after = evaluate_one c p before in
        (find_row (Missions.has_id p.parent_mission) after.missions ≡ some (reclaimed_row m))
        × (find_row (Proposals.has_id p.id) after.proposals
            ≡ some (Proposals.rejected_row (now (tick (tick before))) parent_not_found q))
        × (after.objectives ≡ w.objectives)
        × (after.missions ≡ before.missions)
  evaluate_one-reclaim_stuck safe has_objective has_proposal has_parent stuck =
      let before = reclaim_stuck lease w in
      let (objectives, proposals, missions, faults) = reclaim_stuck-Reclaimed lease w safe in
      let still : Reliable before = λ n. ap (λ f. f n) faults ∙ safe n in
      let parent : find_row (Missions.has_id p.parent_mission) before.missions
          ≡ some (reclaimed_row m) =
        ap (find_row (Missions.has_id p.parent_mission)) missions
        ∙ find_row-update_rows_hit (Missions.has_id p.parent_mission)
            (is_stuck (now (tick w) -ℤ lease)) reclaimed_row w.missions m (λ x. refl) stuck
            has_parent in
      let e =
        unclaimed_parent-rejected c p before o (reclaimed_row m) still
          (ap (find_row (Objectives.has_id p.objective_id)) objectives ∙ has_objective) parent
          refl in
      let (hit, kept, rows) =
        rejected_lem c p (tick (tick before)) q still
          (ap (find_row (Proposals.has_id p.id)) proposals ∙ has_proposal) in
      let after_missions = ap (λ (x : World). x.missions) e ∙ rows in
      (
        ap (find_row (Missions.has_id p.parent_mission)) after_missions ∙ parent,
        ap (λ (x : World). find_row (Proposals.has_id p.id) x.proposals) e ∙ hit,
        ap (λ (x : World). x.objectives) e ∙ kept ∙ objectives,
        after_missions,
      )
