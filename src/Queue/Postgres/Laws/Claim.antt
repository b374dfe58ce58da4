-- ===== src/Queue/Postgres/Laws/Claim.antt =====
-- Which mission `tryClaim` takes: internal/queue/postgres.go.
use fracta.Common.{
  ℕ, ◌+◌, ◌≤ℤ◌, ◌<ℤ◌, String, ◌≡◌, refl, Bool, true, false, ◌⊎◌, inl, inr, Option, none, some, List,
  All, In, select_rows, update_row, sort_rows, In-sort_rows, sort_rows_nil, first-sort_rows,
  In-select_rows, All-imp, All-rejected, first-In, arith, Bool-cases, Option-cases,
}
use fracta.World.{World, ok, err, Outcome, KeepsMissions}
use fracta.Queue.{Mission}
use fracta.Queue.Postgres.{
  has_id, ranked_before, claimable, candidate, claimed_row, scanned, try_claim,
}

-- `m` is claimed before `n`: it has the higher priority, or the same and is no younger.
abbrev pub Ranks : Mission → Mission → Type 0
Ranks m n =
    (n.priority <ℤ m.priority) ⊎ ((m.priority ≡ n.priority) × (m.created_at ≤ℤ n.created_at))

ranked_before-total : (m n : Mission) → (ranked_before m n ≡ true) ⊎ (ranked_before n m ≡ true)
ranked_before-total m n = ground arith

ranked_before_trans :
    (l m n : Mission)
    → ranked_before l m ≡ true
    → ranked_before m n ≡ true
    → ranked_before l n ≡ true
ranked_before_trans l m n h k = ground arith

ranked_before-Ranks : (m n : Mission) → ranked_before m n ≡ true → Ranks m n
ranked_before-Ranks m n h = ground arith

-- The candidate is a free row of the table, and ranks before every free row.
candidate_best :
    (locked : ℕ → Bool) (ms : List Mission) (m : Mission)
    → candidate locked ms ≡ some m
    → In m ms × (claimable locked m ≡ true) × All (Ranks m) (select_rows (claimable locked) ms)
unfolding candidate
candidate_best locked ms m h =
    let free = select_rows (claimable locked) ms in
    let (i, c) =
      In-select_rows (claimable locked) m ms
        (In-sort_rows ranked_before m free (first-In (sort_rows ranked_before free) m h)) in
    (
      i,
      c,
      All-imp free (λ n. ranked_before-Ranks m n)
          (first-sort_rows ranked_before ranked_before-total ranked_before_trans free m h),
    )

-- Without a candidate no row is free.
candidate-none :
    (locked : ℕ → Bool) (ms : List Mission)
    → candidate locked ms ≡ none
    → All (λ n. claimable locked n ≡ false) ms
unfolding candidate
candidate-none locked ms h =
    All-rejected (claimable locked) ms
      (sort_rows_nil ranked_before (select_rows (claimable locked) ms) h)

-- What `tryClaim` has done, by its outcome.
abbrev pub ClaimedBy : (ℕ → Bool) → String → World → Outcome (Option Mission) × World → Type 0
ClaimedBy locked worker w (err _, w') = KeepsMissions w w'
ClaimedBy locked worker w (ok none, w') =
    KeepsMissions w w' × All (λ n. claimable locked n ≡ false) w.missions
ClaimedBy locked worker w (ok (some m), w') =
    (r : Mission) × In r w.missions
    × (claimable locked r ≡ true)
    × All (Ranks r) (select_rows (claimable locked) w.missions)
    × (m ≡ scanned worker (w.clock (w.calls + 1)) r)
    × (w'.missions ≡ update_row (has_id r.id) (claimed_row worker (w.clock w.calls)) w.missions)

-- The mission that is claimed was pending and not locked by another worker, ranks before every such
-- mission by priority and age, and its row is the one that is marked; nothing is claimed only if no
-- mission is free; and where the call fails no mission changes.
pub try_claim_best :
    (locked : ℕ → Bool) (worker : String) (w : World)
    → ClaimedBy locked worker w (try_claim locked worker w)
unfolding try_claim
try_claim_best locked worker w = elim (Bool-cases (w.fault w.calls)) [
  | inl fails ↦ rw (fails, ClaimedBy) refl
  | inr runs ↦ elim (Option-cases (candidate locked w.missions)) [
    | inl empty ↦ rw (runs, ClaimedBy, empty) (refl, candidate-none locked w.missions empty)
    | inr (m, e) ↦
        let (i, c, best) = candidate_best locked w.missions m e in
        rw (runs, ClaimedBy, e) (m, i, c, best, refl, refl)
  ]
]
