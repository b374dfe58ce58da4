-- ===== src/Proposal/Store.antt =====
-- The proposal store over PostgreSQL: internal/proposal/pgstore.go.
pub mod Laws
use fracta.Common.{
  ℕ, ◌+◌, ℤ, pos, ltb_ℤ, leb_ℤ, ◌==ℤ◌, Time, String, same, Bool, false, ◌&&◌, ◌||◌, ◌==◌, none,
  some, List, [], ◌∷◌, ◌++◌, exists_row, select_rows, update_row, update_rows, count_rows,
  sort_rows, if◌then◌else◌,
}
use fracta.World.{not_found, ok, err, Action, call, now}
use fracta.Proposal.{ProposalStatus, is_pending, approved, rejected, Note, MissionProposal}

abbrev pub has_id : ℕ → MissionProposal → Bool
has_id id p = p.id == id

abbrev is_empty : ProposalStatus → Bool
is_empty (ProposalStatus.other s) = same s ""
is_empty _ = false

-- `Submit`. The result is the caller's proposal, whose fields are set; `id` is drawn from the
-- sequence. `reviewed_at` is no column of the INSERT.
unfoldable pub submit : MissionProposal → Action MissionProposal
submit p w =
    call
      (λ w'.
        let row = record p {
          id = w'.next_proposal;
          status = if is_empty p.status then ProposalStatus.pending else p.status;
          created_at = if p.created_at ==ℤ pos 0 then now w else p.created_at;
        } in
        (
          ok row,
          record w' {
            proposals = w'.proposals ++ (record row { reviewed_at = none } ∷ []);
            next_proposal = w'.next_proposal + 1;
          },
        ))
      w

-- `ORDER BY priority DESC, created_at ASC`
abbrev pub ranked_before : MissionProposal → MissionProposal → Bool
ranked_before p q =
    ltb_ℤ q.priority p.priority || ((p.priority ==ℤ q.priority) && leb_ℤ p.created_at q.created_at)

abbrev pub pending_row : MissionProposal → Bool
pending_row p = is_pending p.status

-- `PendingProposals`
unfoldable pub pending_proposals : Action (List MissionProposal)
unfolding sort_rows
pending_proposals =
    call λ w. (ok (sort_rows ranked_before (select_rows pending_row w.proposals)), w)

-- UPDATE … WHERE id = $1, and the error where no row is affected.
abbrev update_by_id : ℕ → (MissionProposal → MissionProposal) → Action (Unit {0})
update_by_id id f w =
    if exists_row (has_id id) w.proposals
    then (ok tt, record w { proposals = update_row (has_id id) f w.proposals })
    else (err not_found, w)

-- `Approve`
unfoldable pub approve : ℕ → Action (Unit {0})
approve id w =
    call (update_by_id id (λ p. record p { status = approved; reviewed_at = some (now w) })) w

abbrev pub rejected_row : Time → Note → MissionProposal → MissionProposal
rejected_row t note p = record p { status = rejected; reviewed_at = some t; rejection_note = note }

-- `Reject`
unfoldable pub reject : ℕ → Note → Action (Unit {0})
reject id note w = call (update_by_id id (rejected_row (now w) note)) w

-- `UpdateStatus`
unfoldable pub update_status : ℕ → ProposalStatus → Action (Unit {0})
update_status id s w =
    call (update_by_id id (λ p. record p { status = s; reviewed_at = some (now w) })) w

-- `objective_id = $1 AND status = 'pending'`
abbrev pub pending_of : String → MissionProposal → Bool
pending_of id p = same p.objective_id id && is_pending p.status

-- `PendingForObjective`
unfoldable pub pending_for_objective : String → Action (List MissionProposal)
unfolding sort_rows
pending_for_objective id =
    call λ w. (ok (sort_rows ranked_before (select_rows (pending_of id) w.proposals)), w)

-- `RejectAllPending`
unfoldable pub reject_all_pending : String → Note → Action ℕ
reject_all_pending id note w =
    call
      (λ w'. (
        ok (count_rows (pending_of id) w'.proposals),
        record w' {
          proposals = update_rows (pending_of id) (rejected_row (now w) note) w'.proposals;
        },
      ))
      w
