-- ===== src/Admission/Controller/Laws/Pending.antt =====
-- The reviews of a proposal and the row that its number finds.
use mathlib.Core.Option
use fracta.Common.{
  if◌then◌else◌, ℕ, ◌==◌, String, same, ≡→same, ◌≡◌, refl, sym, ◌∙◌, ap, ◌⊎◌, inl, inr, Bool, true,
  false, ◌&&◌, some, List, [], ◌∷◌, find_row, update_row, update_rows, arith, Bool-cases,
  Option-cases,
}
use fracta.Proposal.{MissionProposal, is_pending}
use fracta.Proposal.Store.{has_id, pending_of}

-- A change to a row that keeps its identity and takes it out of the pending ones.
pub record Closes (f : MissionProposal → MissionProposal) : Type 0 where
  pub same_id : (q : MissionProposal) → (f q).id ≡ q.id
  pub same_objective : (q : MissionProposal) → (f q).objective_id ≡ q.objective_id
  pub closed : (q : MissionProposal) → is_pending (f q).status ≡ false

-- A review of `p`: its row is closed, or all rows of its objective that are pending.
pub data Reviewed (p : MissionProposal) (ps ps' : List MissionProposal) : Type 0 where
  by_key :
      (f : MissionProposal → MissionProposal)
      → Closes f
      → ps' ≡ update_row (has_id p.id) f ps
      → Reviewed p ps ps'
  by_objective :
      (f : MissionProposal → MissionProposal)
      → Closes f
      → ps' ≡ update_rows (pending_of p.objective_id) f ps
      → Reviewed p ps ps'

-- The row that a number finds after each kind of change.
find_row-by_key :
    (k id : ℕ) (f : MissionProposal → MissionProposal) (ps : List MissionProposal)
    → Closes f
    → find_row (has_id k) (update_row (has_id id) f ps)
      ≡ Option.map (λ q. if k == id then f q else q) (find_row (has_id k) ps)
find_row-by_key k id f [] c = refl
find_row-by_key k id f (q ∷ ps) c = ground (arith, c.same_id q, find_row-by_key k id f ps c)

find_row-by_objective :
    (k : ℕ) (o : String) (f : MissionProposal → MissionProposal) (ps : List MissionProposal)
    → Closes f
    → find_row (has_id k) (update_rows (pending_of o) f ps)
      ≡ Option.map (λ q. if pending_of o q then f q else q) (find_row (has_id k) ps)
find_row-by_objective k o f [] c = refl
find_row-by_objective k o f (q ∷ ps) c = elim (Bool-cases (pending_of o q)) [
  | inl hit ↦ ground (arith, c.same_id q, find_row-by_objective k o f ps c)
  | inr other ↦ ground (arith, find_row-by_objective k o f ps c)
]

-- The proposal is in the table under its number, with the objective that was read.
abbrev pub Tracks : MissionProposal → List MissionProposal → Type 0
Tracks p ps =
    (q : MissionProposal) × (find_row (has_id p.id) ps ≡ some q) × (q.objective_id ≡ p.objective_id)

-- The row under the number, if any, is not pending.
abbrev pub Closed : ℕ → List MissionProposal → Type 0
Closed k ps = (q : MissionProposal) → find_row (has_id k) ps ≡ some q → is_pending q.status ≡ false

-- What a review does to the row under a number.
pub record Change (k : ℕ) (ps ps' : List MissionProposal) (g : MissionProposal → MissionProposal)
    : Type 0 where
  finds : find_row (has_id k) ps' ≡ Option.map g (find_row (has_id k) ps)
  keeps : (q : MissionProposal) → (g q).objective_id ≡ q.objective_id
  stays : (q : MissionProposal) → is_pending q.status ≡ false → is_pending (g q).status ≡ false

pub Reviewed-Change :
    (p : MissionProposal) (ps ps' : List MissionProposal) (k : ℕ)
    → Reviewed p ps ps'
    → (g : MissionProposal → MissionProposal) × Change k ps ps' g
Reviewed-Change p ps ps' k (by_key f c e) = (
  λ q. if k == p.id then f q else q,
  record {
    finds = rw e (find_row-by_key k p.id f ps c);
    keeps = λ q. ground (arith, c.same_objective q);
    stays = λ q h. ground (arith, c.closed q);
  },
)
Reviewed-Change p ps ps' k (by_objective f c e) = (
  λ q. if pending_of p.objective_id q then f q else q,
  record {
    finds = rw e (find_row-by_objective k p.objective_id f ps c);
    keeps = λ q. keep q (Bool-cases (pending_of p.objective_id q));
    stays = λ q h. stay q h (Bool-cases (pending_of p.objective_id q));
  },
)
  where
    keep :
        (q : MissionProposal)
        → (pending_of p.objective_id q ≡ true) ⊎ (pending_of p.objective_id q ≡ false)
        → (if pending_of p.objective_id q then f q else q).objective_id ≡ q.objective_id
    keep q (inl h) = rw h (c.same_objective q)
    keep q (inr h) = rw h

    stay :
        (q : MissionProposal)
        → is_pending q.status ≡ false
        → (pending_of p.objective_id q ≡ true) ⊎ (pending_of p.objective_id q ≡ false)
        → is_pending (if pending_of p.objective_id q then f q else q).status ≡ false
    stay q k (inl h) = rw h (c.closed q)
    stay q k (inr h) = rw h k

module _ (k : ℕ) (ps ps' : List MissionProposal) (g : MissionProposal → MissionProposal)
    (change : Change k ps ps' g) where
  pub Change-Closed : Closed k ps → Closed k ps'
  Change-Closed closed q' e = elim (Option-cases (find_row (has_id k) ps)) [
    | inl absent ↦ cc (rw absent at change.finds)
    | inr (q, present) ↦
        let h : g q ≡ q' = cc (rw present at change.finds) in
        rw (← h) (change.stays q (closed q present))
  ]

pub Change-Tracks :
    (p : MissionProposal) (ps ps' : List MissionProposal) (g : MissionProposal → MissionProposal)
    → Change p.id ps ps' g
    → Tracks p ps
    → Tracks p ps'
Change-Tracks p ps ps' g change (q, present, e) =
    (g q, change.finds ∙ ap (Option.map g) present, change.keeps q ∙ e)

not_pending : (s t : String) (b : Bool) → s ≡ t → same s t && b ≡ false → b ≡ false
not_pending s t b e h = elim (Bool-cases b) [ inl k ↦ cc (rw (≡→same s t e, k) at h) | inr k ↦ k ]

-- A review closes the proposal itself.
pub Reviewed-closes :
    (p : MissionProposal) (ps ps' : List MissionProposal)
    → Reviewed p ps ps'
    → Tracks p ps
    → Closed p.id ps'
Reviewed-closes p ps ps' (by_key f c e) (q, present, o) q' h =
    let k : Option.map (λ r. if p.id == p.id then f r else r) (find_row (has_id p.id) ps)
        ≡ some q' =
      sym (find_row-by_key p.id p.id f ps c) ∙ rw e at h in
    let m : some (if p.id == p.id then f q else q) ≡ some q' = rw present at k in
    let same_key : p.id == p.id ≡ true = ground arith in
    let n : f q ≡ q' = cc (rw same_key at m) in rw (← n) (c.closed q)
Reviewed-closes p ps ps' (by_objective f c e) (q, present, o) q' h =
    let k : Option.map (λ r. if pending_of p.objective_id r then f r else r)
          (find_row (has_id p.id) ps)
        ≡ some q' =
      sym (find_row-by_objective p.id p.objective_id f ps c) ∙ rw e at h in
    let m : some (if pending_of p.objective_id q then f q else q) ≡ some q' = rw present at k in
    elim (Bool-cases (pending_of p.objective_id q)) [
      | inl hit ↦ let n : f q ≡ q' = cc (rw hit at m) in rw (← n) (c.closed q)
      | inr miss ↦
          let n : q ≡ q' = cc (rw miss at m) in
          rw (← n) (not_pending q.objective_id p.objective_id (is_pending q.status) o miss)
    ]
