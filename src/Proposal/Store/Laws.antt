-- ===== src/Proposal/Store/Laws.antt =====
-- What the statements of the proposal store do to the tables.
use fracta.Common.{ℕ, String, arith}
use fracta.World.{World, KeepsObjectives, KeepsMissions, KeepsAgents, KeepsFaults}
use fracta.Proposal.{Note}
use fracta.Proposal.Store.{
  approve, reject, reject_all_pending, pending_proposals, pending_for_objective,
}

-- Only the proposals change.
abbrev pub Frame : World → World → Type 0
Frame w w' = KeepsObjectives w w' × KeepsMissions w w' × KeepsAgents w w' × KeepsFaults w w'

module _ (w : World) where
  pub approve-Frame : (id : ℕ) → Frame w (approve id w).1
  unfolding approve
  approve-Frame id = ground arith

  pub reject-Frame : (id : ℕ) (note : Note) → Frame w (reject id note w).1
  unfolding reject
  reject-Frame id note = ground arith

  pub reject_all_pending-Frame :
      (id : String) (note : Note) → Frame w (reject_all_pending id note w).1
  unfolding reject_all_pending
  reject_all_pending-Frame id note = ground arith

  pub pending_proposals-Frame : Frame w (pending_proposals w).1
  unfolding pending_proposals
  pending_proposals-Frame = ground arith

  pub pending_for_objective-Frame : (id : String) → Frame w (pending_for_objective id w).1
  unfolding pending_for_objective
  pending_for_objective-Frame id = ground arith
