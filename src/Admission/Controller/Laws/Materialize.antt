-- ===== src/Admission/Controller/Laws/Materialize.antt =====
-- `materialize` and the operations that end an evaluation: what they change, and what they leave.
use fracta.Common.{
  ℕ, ◌+◌, pos, ◌+ℤ◌, Time, String, ◌≡◌, refl, ◌∙◌, ap, ◌⊎◌, inl, inr, [], ◌∷◌, ◌++◌, update_row,
  arith,
}
use fracta.World.{World, Outcome, ok, err, KeepsObjectives, KeepsMissions}
use fracta.Objective.{ObjectiveStatus, Objective, frozen}
use fracta.Objective.Store as Objectives
use fracta.Objective.Store.Laws as ObjectiveLaws
use fracta.Proposal.{MissionProposal, Note, objective_frozen}
use fracta.Proposal.Store as Proposals
use fracta.Proposal.Store.Laws as ProposalLaws
use fracta.Queue.{Mission, MissionPayload, RawPayload, encoded, malformed}
use fracta.Queue.Postgres as Missions
use fracta.Queue.Postgres.Laws as MissionLaws
use fracta.Mailbox.{Content, proposal_rejected}
use fracta.Mailbox.Store.Laws as MailLaws
use fracta.Admission.Controller.{
  AdmissionController, notify, child_mission, child_agent, finish_materialize, enqueue_child,
  after_approve, materialize, after_reject, reject_proposal, after_freeze, rejected_count,
  freeze_objective,
}

pub notify-Frame :
    (c : AdmissionController) (to : String) (content : Content) (w : World)
    → MailLaws.Frame w (notify c to content w)
unfolding notify
notify-Frame c to content w =
    ground (arith, MailLaws.send-Frame "admission-controller" to content w)

-- The row under an identifier is rewritten at some time, or no objective changes.
abbrev pub Rewritten : (Time → Objective → Objective) → String → World → World → Type 0
Rewritten f id w w' =
    KeepsObjectives w w'
    ⊎ ((t : Time) × (w'.objectives ≡ update_row (Objectives.has_id id) (f t) w.objectives))

-- Around a step that rewrites, steps that keep the objectives.
pub Rewritten-between :
    (f : Time → Objective → Objective) (id : String) (w w' v u : World)
    → w'.objectives ≡ w.objectives
    → Rewritten f id w' v
    → u.objectives ≡ v.objectives
    → Rewritten f id w u
Rewritten-between f id w w' v u e (inl k) h = inl (h ∙ k ∙ e)
Rewritten-between f id w w' v u e (inr (t, k)) h =
    inr (t, h ∙ k ∙ ap (update_row (Objectives.has_id id) (f t)) e)

abbrev pub counted_row : Time → Objective → Objective
counted_row t o = record o { mission_count = o.mission_count +ℤ pos 1; updated_at = t }

abbrev pub restated_row : Objective → ObjectiveStatus → Time → Objective → Objective
restated_row o s = Objectives.updated_row (record o { status = s })

increment-Rewritten :
    (id : String) (w : World)
    → Rewritten counted_row id w (Objectives.increment_mission_count id w).1
increment-Rewritten id w = elim (ObjectiveLaws.increment_objectives w id) [
  | inl k ↦ inl k
  | inr k ↦ inr (w.clock (w.calls + 1), k)
]

pub update-Rewritten :
    (o : Objective) (s : ObjectiveStatus) (w : World)
    → Rewritten (restated_row o s) o.id w (Objectives.update (record o { status = s }) w).1
update-Rewritten o s w = elim (ObjectiveLaws.update_objectives w (record o { status = s })) [
  | inl k ↦ inl k
  | inr k ↦ inr (w.clock w.calls, k)
]

-- The child mission stands at the end of the table.
abbrev pub Stored : MissionProposal → Objective → Mission → World → World → Type 0
Stored p o parent w w' =
    (payload : MissionPayload) × (id : ℕ) × (t : Time) × (parent.payload ≡ encoded payload)
    × (w'.missions ≡ w.missions ++ (Missions.new_row id t (child_mission p o parent payload) ∷ []))

-- Either one child mission is stored, or neither missions nor objectives change.
abbrev pub Materialized : MissionProposal → Objective → Mission → World → World → Type 0
Materialized p o parent w w' =
    (KeepsObjectives w w' × KeepsMissions w w')
    ⊎ (Stored p o parent w w' × Rewritten counted_row o.id w w')

module _ (c : AdmissionController) (p : MissionProposal) (o : Objective) (parent : Mission) where
  finish_materialize_lem :
      (payload : MissionPayload) (w : World) (r : Outcome ℕ × World)
      → parent.payload ≡ encoded payload
      → MissionLaws.Enqueued (child_mission p o parent payload) (child_agent p o parent payload) w r
      → Materialized p o parent w (finish_materialize c p o parent r)
  finish_materialize_lem payload w (err e, w') d h = inl (h.0, h.2)
  finish_materialize_lem payload w (ok id, w') d h = inr (
    (payload, id, w.clock (w.calls + 1 + 1), d, frame.2 ∙ count_frame.1 ∙ h.3),
    Rewritten-between counted_row o.id w w' v (finish_materialize c p o parent (ok id, w')) h.5
        (increment-Rewritten o.id w') frame.0,
  )
    where
      v : World
      v = (Objectives.increment_mission_count o.id w').1

      count_frame : ObjectiveLaws.Frame w' v
      count_frame = ObjectiveLaws.increment-Frame w' o.id

      frame : MailLaws.Frame v (finish_materialize c p o parent (ok id, w'))
      frame = notify-Frame c p.proposed_by _ v

  enqueue_child_lem :
      (w : World) (raw : RawPayload)
      → parent.payload ≡ raw
      → Materialized p o parent w (enqueue_child c p o parent raw w)
  enqueue_child_lem w malformed d = inl (refl, refl)
  enqueue_child_lem w (encoded payload) d = finish_materialize_lem payload w _ d (
      MissionLaws.enqueue_atomic (child_mission p o parent payload) (child_agent p o parent payload)
        w)

  pub Materialized-after :
      (w w' v : World)
      → KeepsObjectives w w'
      → KeepsMissions w w'
      → Materialized p o parent w' v
      → Materialized p o parent w v
  Materialized-after w w' v e f (inl (a, b)) = inl (a ∙ e, b ∙ f)
  Materialized-after w w' v e f (inr ((payload, id, t, d, m), k)) = inr (
    (
      payload,
      id,
      t,
      d,
      m ∙ ap (λ ms. ms ++ (Missions.new_row id t (child_mission p o parent payload) ∷ [])) f,
    ),
    Rewritten-between counted_row o.id w w' v v e k refl,
  )

  after_approve_lem :
      (w : World) (r : Outcome (Unit {0}) × World)
      → ProposalLaws.Frame w r.1
      → Materialized p o parent w (after_approve c p o parent r)
  after_approve_lem w (err e, w') h = inl (h.0, h.1)
  after_approve_lem w (ok _, w') h =
      Materialized-after w w' (enqueue_child c p o parent parent.payload w') h.0 h.1
        (enqueue_child_lem w' parent.payload refl)

  pub materialize_lem : (w : World) → Materialized p o parent w (materialize c p o parent w)
  unfolding materialize
  materialize_lem w =
      after_approve_lem w (Proposals.approve p.id w) (ProposalLaws.approve-Frame w p.id)

-- A rejection changes proposals and messages only.
after_reject-Frame :
    (c : AdmissionController) (p : MissionProposal) (note : Note) (w : World)
    (r : Outcome (Unit {0}) × World)
    → ProposalLaws.Frame w r.1
    → ProposalLaws.Frame w (after_reject c p note r)
after_reject-Frame c p note w (err e, w') h = h
after_reject-Frame c p note w (ok _, w') h =
    let f = notify-Frame c p.proposed_by (proposal_rejected p.id p.dedupe_key note) w' in
    (f.0 ∙ h.0, f.2 ∙ h.1, f.3 ∙ h.2, f.4 ∙ h.3)

pub reject_proposal-Frame :
    (c : AdmissionController) (p : MissionProposal) (note : Note) (w : World)
    → ProposalLaws.Frame w (reject_proposal c p note w)
unfolding reject_proposal
reject_proposal-Frame c p note w =
    after_reject-Frame c p note w (Proposals.reject p.id note w)
      (ProposalLaws.reject-Frame w p.id note)

-- The objective is written with the status frozen, or no objective changes; missions stay.
abbrev pub Froze : Objective → World → World → Type 0
Froze o w w' = Rewritten (restated_row o frozen) o.id w w' × KeepsMissions w w'

after_freeze_lem :
    (c : AdmissionController) (o : Objective) (reason : Note) (w : World)
    (r : Outcome (Unit {0}) × World)
    → Froze o w r.1
    → Froze o w (after_freeze c o reason r)
after_freeze_lem c o reason w (err e, w') h = h
after_freeze_lem c o reason w (ok _, w') h = (
  Rewritten-between (restated_row o frozen) o.id w w w' (after_freeze c o reason (ok tt, w')) refl
      h.0 (told.0 ∙ cleared.0),
  told.2 ∙ cleared.1 ∙ h.1,
)
  where
    r : Outcome ℕ × World
    r = Proposals.reject_all_pending o.id (objective_frozen reason) w'

    cleared : ProposalLaws.Frame w' r.1
    cleared = ProposalLaws.reject_all_pending-Frame w' o.id (objective_frozen reason)

    told : MailLaws.Frame r.1 (after_freeze c o reason (ok tt, w'))
    told =
        notify-Frame c "chessmaster" (Content.objective_frozen o.id reason (rejected_count r.0)) r.1

pub freeze_objective_lem :
    (c : AdmissionController) (o : Objective) (reason : Note) (w : World)
    → Froze o w (freeze_objective c o reason w)
unfolding freeze_objective
freeze_objective_lem c o reason w =
    after_freeze_lem c o reason w (Objectives.update (record o { status = frozen }) w)
      (update-Rewritten o frozen w, (ObjectiveLaws.update-Frame w (record o { status = frozen })).1)
