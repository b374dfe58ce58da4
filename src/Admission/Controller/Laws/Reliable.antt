-- ===== src/Admission/Controller/Laws/Reliable.antt =====
-- What calls do that do not fail: the statements that internal/admission/controller.go makes.
use fracta.Common.{
  ℕ, Time, String, ◌≡◌, refl, ◌∙◌, ap, true, false, some, exists_row, update_row, update_rows,
  count_rows,
}
pub use fracta.World.{Reliable}
use fracta.World.{World, ok, tick, now, KeepsProposals, KeepsFaults}
use fracta.Objective.{Objective}
use fracta.Objective.Store as Objectives
use fracta.Proposal.{MissionProposal, Note, approved}
use fracta.Proposal.Store as Proposals
use fracta.Mailbox.{Content, proposal_rejected}
use fracta.Admission.Controller.{AdmissionController, notify, reject_proposal}
use fracta.Admission.Controller.Laws.Materialize.{notify-Frame}
use fracta.Admission.Controller.Laws.Pending.{Closes, Reviewed, by_key, by_objective}

-- The proposal is reviewed, and calls are as reliable as before.
abbrev pub Review : MissionProposal → World → World → Type 0
Review p w w' = Reviewed p w.proposals w'.proposals × KeepsFaults w w'

abbrev pub Quiet : World → World → Type 0
Quiet w w' = KeepsProposals w w' × KeepsFaults w w'

-- Steps that leave the proposals alone may stand before and after a review.
pub Review-between :
    (p : MissionProposal) (w w' v u : World) → Quiet w w' → Review p w' v → Quiet v u → Review p w u
Review-between p w w' v u a (by_key f c e, k) b =
    (by_key f c (b.0 ∙ e ∙ ap (update_row (Proposals.has_id p.id) f) a.0), b.1 ∙ k ∙ a.1)
Review-between p w w' v u a (by_objective f c e, k) b = (
  by_objective f c (b.0 ∙ e ∙ ap (update_rows (Proposals.pending_of p.objective_id) f) a.0),
  b.1 ∙ k ∙ a.1,
)

pub approved_row : Time → MissionProposal → MissionProposal
approved_row t q = record q { status = approved; reviewed_at = some t }

pub approve-ok :
    (id : ℕ) (w : World)
    → w.fault w.calls ≡ false
    → exists_row (Proposals.has_id id) w.proposals ≡ true
    → Proposals.approve id w ≡ (
      ok tt,
      record (tick w) {
        proposals = update_row (Proposals.has_id id) (approved_row (now w)) w.proposals;
      },
    )
unfolding Proposals.approve approved_row
approve-ok id w f h = rw (f, h)

pub reject-ok :
    (id : ℕ) (note : Note) (w : World)
    → w.fault w.calls ≡ false
    → exists_row (Proposals.has_id id) w.proposals ≡ true
    → Proposals.reject id note w ≡ (
      ok tt,
      record (tick w) {
        proposals =
            update_row (Proposals.has_id id) (Proposals.rejected_row (now w) note) w.proposals;
      },
    )
unfolding Proposals.reject
reject-ok id note w f h = rw (f, h)

pub reject_all_pending-ok :
    (id : String) (note : Note) (w : World)
    → w.fault w.calls ≡ false
    → Proposals.reject_all_pending id note w ≡ (
      ok (count_rows (Proposals.pending_of id) w.proposals),
      record (tick w) {
        proposals =
            update_rows (Proposals.pending_of id) (Proposals.rejected_row (now w) note) w.proposals;
      },
    )
unfolding Proposals.reject_all_pending
reject_all_pending-ok id note w f = rw f

pub update-ok :
    (o : Objective) (w : World)
    → w.fault w.calls ≡ false
    → exists_row (Objectives.has_id o.id) w.objectives ≡ true
    → Objectives.update o w ≡ (
      ok tt,
      record (tick w) {
        objectives =
            update_row (Objectives.has_id o.id) (Objectives.updated_row o (now w)) w.objectives;
      },
    )
unfolding Objectives.update
update-ok o w f h = rw (f, h)

pub notify-Quiet :
    (c : AdmissionController) (to : String) (content : Content) (w : World)
    → Quiet w (notify c to content w)
notify-Quiet c to content w = let f = notify-Frame c to content w in (f.1, f.4)

pub approved-Closes : (t : Time) → Closes (approved_row t)
unfolding approved_row
approved-Closes t = record { same_id = λ q. refl; same_objective = λ q. refl; closed = λ q. refl }

pub rejected-Closes : (t : Time) (note : Note) → Closes (Proposals.rejected_row t note)
rejected-Closes t note = record {
  same_id = λ q. refl;
  same_objective = λ q. refl;
  closed = λ q. refl;
}

module _ (c : AdmissionController) (p : MissionProposal) (w : World) (reliable : Reliable w)
    (present : exists_row (Proposals.has_id p.id) w.proposals ≡ true) where
  pub reject_proposal-Review : (note : Note) → Review p w (reject_proposal c p note w)
  unfolding reject_proposal
  reject_proposal-Review note =
      let e = reject-ok p.id note w (reliable w.calls) present in
      let v = record (tick w) {
        proposals =
            update_row (Proposals.has_id p.id) (Proposals.rejected_row (now w) note) w.proposals;
      } in
      let q = notify-Quiet c p.proposed_by (proposal_rejected p.id p.dedupe_key note) v in
      rw e (by_key (Proposals.rejected_row (now w) note) (rejected-Closes (now w) note) q.0, q.1)
