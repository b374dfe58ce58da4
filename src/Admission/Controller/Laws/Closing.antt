-- ===== src/Admission/Controller/Laws/Closing.antt =====
-- The proposals after `evaluateProposals` of internal/admission/controller.go.
use fracta.Common.{
  ℕ, ◌≡◌, refl, ◌∙◌, ap, inl, inr, false, Bool-cases, Option-cases, some, List, [], ◌∷◌, All,
  All-In, In, here, there, find_row, find_row_sound, select_rows, In-select_rows, select_rows-In,
  find_row-In, All-of_In, sort_rows, sort_rows-In, In-sort_rows, arith,
}
use fracta.World.{World, tick}
use fracta.Proposal.{MissionProposal, is_pending}
use fracta.Proposal.Store.{has_id, pending_row, ranked_before, pending_proposals}
use fracta.Admission.Controller.{
  AdmissionController, evaluate_one, evaluate_all, evaluate_proposals,
}
use fracta.Admission.Controller.Laws.Pending.{
  Reviewed, Tracks, Closed, Reviewed-Change, Change-Closed, Change-Tracks, Reviewed-closes,
}
use fracta.Admission.Controller.Laws.Review.{evaluate_one-Review}
use fracta.Admission.Controller.Laws.Reliable.{Reliable, Review}

-- The table finds every row under its own number: it is the primary key.
abbrev pub Keyed : List MissionProposal → Type 0
Keyed ps = All (λ q. find_row (has_id q.id) ps ≡ some q) ps

module _ (c : AdmissionController) where
  Reliable-after :
      (p : MissionProposal) (w : World)
      → Reliable w
      → Review p w (evaluate_one c p w)
      → Reliable (evaluate_one c p w)
  Reliable-after p w r v n = ap (λ f. f n) v.1 ∙ r n

  All-Tracks :
      (p : MissionProposal) (ps : List MissionProposal) (rs rs' : List MissionProposal)
      → Reviewed p rs rs'
      → All (λ q. Tracks q rs) ps
      → All (λ q. Tracks q rs') ps
  All-Tracks p [] rs rs' v t = tt
  All-Tracks p (q ∷ ps) rs rs' v t =
      let (g, change) = Reviewed-Change p rs rs' q.id v in
      (Change-Tracks q rs rs' g change t.0, All-Tracks p ps rs rs' v t.1)

  -- What is closed stays closed, and every proposal of the list is closed.
  evaluate_all-Closed :
      (ps : List MissionProposal) (w : World) (k : ℕ)
      → Reliable w
      → All (λ q. Tracks q w.proposals) ps
      → Closed k w.proposals
      → Closed k (evaluate_all c ps w).proposals
  unfolding evaluate_all
  evaluate_all-Closed [] w k r t closed = closed
  evaluate_all-Closed (p ∷ ps) w k r t closed =
      let v = evaluate_one-Review c p w r t.0 in
      let w' = evaluate_one c p w in
      let (g, change) = Reviewed-Change p w.proposals w'.proposals k v.0 in
      evaluate_all-Closed ps w' k (Reliable-after p w r v)
        (All-Tracks p ps w.proposals w'.proposals v.0 t.1)
        (Change-Closed k w.proposals w'.proposals g change closed)

  evaluate_all-closes :
      (ps : List MissionProposal) (w : World) (p : MissionProposal)
      → Reliable w
      → All (λ q. Tracks q w.proposals) ps
      → In p ps
      → Closed p.id (evaluate_all c ps w).proposals
  unfolding evaluate_all
  evaluate_all-closes [] w p r t i = elim i [ ]
  evaluate_all-closes (q ∷ ps) w p r t i =
      let v = evaluate_one-Review c q w r t.0 in
      let w' = evaluate_one c q w in
      let tracks = All-Tracks q ps w.proposals w'.proposals v.0 t.1 in
      elim i [
        | here e ↦
            let closed : Closed p.id w'.proposals =
              rw e (Reviewed-closes q w.proposals w'.proposals v.0 t.0) in
            evaluate_all-Closed ps w' p.id (Reliable-after q w r v) tracks closed
        | there j ↦ evaluate_all-closes ps w' p (Reliable-after q w r v) tracks j
      ]

-- The proposals that `PendingProposals` reads, in its order.
abbrev fetched : World → List MissionProposal
fetched w = sort_rows ranked_before (select_rows pending_row w.proposals)

fetched-Tracks : (w : World) → Keyed w.proposals → All (λ q. Tracks q w.proposals) (fetched w)
fetched-Tracks w keyed =
    All-of_In (λ q. Tracks q w.proposals) (fetched w)
      (λ q i.
        let (j, pending) =
          In-select_rows pending_row q w.proposals
            (In-sort_rows ranked_before q (select_rows pending_row w.proposals) i) in
        (q, All-In (λ r. find_row (has_id r.id) w.proposals ≡ some r) w.proposals keyed j, refl))

fetched_closes :
    (c : AdmissionController) (w : World) (k : ℕ)
    → Reliable w
    → Keyed w.proposals
    → Closed k (evaluate_all c (fetched w) (tick w)).proposals
fetched_closes c w k r keyed = elim (Option-cases (find_row (has_id k) w.proposals)) [
  | inl absent ↦ evaluate_all-Closed c (fetched w) (tick w) k r (fetched-Tracks w keyed) (λ q e. cc)
  | inr (q, found) ↦ elim (Bool-cases (pending_row q)) [
    | inl pending ↦
        let i = sort_rows-In ranked_before q (select_rows pending_row w.proposals) (
          select_rows-In pending_row q w.proposals (find_row-In (has_id k) w.proposals found)
            pending) in
        let h = find_row_sound (has_id k) w.proposals found in
        let e : q.id ≡ k = ground arith in
        rw (← e) (evaluate_all-closes c (fetched w) (tick w) q r (fetched-Tracks w keyed) i)
    | inr settled ↦
        evaluate_all-Closed c (fetched w) (tick w) k r (fetched-Tracks w keyed)
          (λ x e. let n : q ≡ x = cc in rw (← n) settled)
  ]
]

-- If no call fails and every proposal of the table is found by its number, no number finds a pending
-- proposal after a round of evaluations.
pub evaluate_proposals-none_pending :
    (c : AdmissionController) (w : World) (k : ℕ) (q : MissionProposal)
    → Reliable w
    → Keyed w.proposals
    → find_row (has_id k) (evaluate_proposals c w).proposals ≡ some q
    → is_pending q.status ≡ false
unfolding evaluate_proposals pending_proposals
evaluate_proposals-none_pending c w k q r keyed h =
    fetched_closes c w k r keyed q (rw (r w.calls) at h)
