-- ===== src/Admission/Policy/Laws.antt =====
-- What the policy decides, against a description of its eight conditions.
use fracta.Common.{
  ◌+◌, pos, ◌≤ℤ◌, ◌<ℤ◌, ℤ, add_int, mul_int, time_sub, Time, ◌≡◌, ◌≢◌, true, false, ◌⊎◌, inl, inr,
  ◌↔◌, count_rows, arith, Bool-cases, leb_ℤ-false, ltb_ℤ-false,
}
use fracta.Objective.{open_status, Objective}
use fracta.Proposal.{MissionProposal}
use fracta.Queue.{Mission}
use fracta.World.{World, tick}
use fracta.Admission.Reader.{active_child_of, count_active_children}
use fracta.Admission.Policy.{
  approve, freeze, AdmissionPolicy, lacks_evidence, budget_spent, too_deep, branching_full,
  runtime_spent, evidence_missing, breaker_trips, evaluate,
}

-- Steps 1 to 7 let the proposal pass, at the number of active children and the time that are read.
pub record Passes (p : AdmissionPolicy) (prop : MissionProposal) (o : Objective) (parent : Mission)
    (children : ℤ) (t : Time) : Type 0 where
  pub is_open : o.status ≡ open_status
  pub budget : o.mission_count <ℤ o.max_missions
  pub depth : add_int parent.depth (pos 1) ≤ℤ o.max_depth
  pub branching : children <ℤ o.max_branching
  pub runtime : (o.max_runtime ≤ℤ pos 0) ⊎ (time_sub t o.created_at <ℤ o.max_runtime)
  pub evidence :
      (p.evidence_threshold ≤ℤ pos 0)
      ⊎ (o.mission_count <ℤ p.evidence_threshold)
      ⊎ (lacks_evidence prop.evidence ≡ false)

-- The circuit breaker of step 8 fires: the missions have reached the ratio times the findings, as a
-- 64-bit product, or the ratio itself where that product is 0.
pub record Trips (p : AdmissionPolicy) (o : Objective) : Type 0 where
  pub enabled : pos 0 <ℤ p.circuit_breaker_ratio
  pub started : pos 0 <ℤ o.mission_count
  pub reached :
      ((mul_int p.circuit_breaker_ratio o.finding_count ≡ pos 0)
        × (p.circuit_breaker_ratio ≤ℤ o.mission_count))
      ⊎ ((mul_int p.circuit_breaker_ratio o.finding_count ≢ pos 0)
          × (mul_int p.circuit_breaker_ratio o.finding_count ≤ℤ o.mission_count))

-- The number of active children that `Evaluate` reads, and the time.
abbrev pub children_of : Mission → World → ℤ
children_of parent w = pos (count_rows (active_child_of parent.id) w.missions)

abbrev pub read_time : World → Time
read_time w = w.clock (w.calls + 1)

-- What the conditions of the steps mean.
module _ (o : Objective) where
  budget_spent-false : (budget_spent o ≡ false) ↔ (o.mission_count <ℤ o.max_missions)
  unfolding budget_spent
  budget_spent-false = leb_ℤ-false o.max_missions o.mission_count

  too_deep-false : (d : ℤ) → (too_deep o d ≡ false) ↔ (d ≤ℤ o.max_depth)
  unfolding too_deep
  too_deep-false d = ltb_ℤ-false o.max_depth d

  branching_full-false : (n : ℤ) → (branching_full o n ≡ false) ↔ (n <ℤ o.max_branching)
  unfolding branching_full
  branching_full-false n = leb_ℤ-false o.max_branching n

  runtime_spent-false :
      (t : Time)
      → (runtime_spent o t ≡ false)
        ↔ ((o.max_runtime ≤ℤ pos 0) ⊎ (time_sub t o.created_at <ℤ o.max_runtime))
  unfolding runtime_spent
  runtime_spent-false t = ground arith

  evidence_missing-false :
      (p : AdmissionPolicy) (prop : MissionProposal)
      → (evidence_missing p prop o ≡ false) ↔ (
          (p.evidence_threshold ≤ℤ pos 0)
          ⊎ (o.mission_count <ℤ p.evidence_threshold)
          ⊎ (lacks_evidence prop.evidence ≡ false))
  unfolding evidence_missing
  evidence_missing-false p prop = ground arith

  breaker_trips-Trips : (p : AdmissionPolicy) → (breaker_trips p o ≡ true) ↔ Trips p o
  unfolding breaker_trips
  breaker_trips-Trips p = ground arith

module _ (p : AdmissionPolicy) (prop : MissionProposal) (o : Objective) (parent : Mission)
    (w : World) where
  -- No gate of steps 1 and 3 to 7 is closed, and the reader answers.
  abbrev IsClear : Type 0
  IsClear =
      (w.fault w.calls ≡ false)
      × (o.status ≡ open_status)
      × (budget_spent o ≡ false)
      × (too_deep o (add_int parent.depth (pos 1)) ≡ false)
      × (branching_full o (children_of parent w) ≡ false)
      × (runtime_spent o (read_time w) ≡ false)
      × (evidence_missing p prop o ≡ false)

  ladder-approve :
      ((evaluate p prop o parent w).0.action ≡ approve) ↔ (IsClear × (breaker_trips p o ≡ false))
  unfolding evaluate count_active_children
  ladder-approve = ground arith

  ladder-freeze :
      ((evaluate p prop o parent w).0.action ≡ freeze) ↔ (IsClear × (breaker_trips p o ≡ true))
  unfolding evaluate count_active_children
  ladder-freeze = ground arith

  -- The reader answers, and steps 1 to 7 let the proposal pass.
  abbrev pub IsPassed : Type 0
  IsPassed = (w.fault w.calls ≡ false) × Passes p prop o parent (children_of parent w) (read_time w)

  IsClear-IsPassed : IsClear ↔ IsPassed
  IsClear-IsPassed = (
    λ (answers, is_open, b, d, n, r, e). (
      answers,
      record {
        is_open = is_open;
        budget = (budget_spent-false o).0 b;
        depth = (too_deep-false o _).0 d;
        branching = (branching_full-false o _).0 n;
        runtime = (runtime_spent-false o _).0 r;
        evidence = (evidence_missing-false o p prop).0 e;
      },
    ),
    λ (answers, h). (
      answers,
      h.is_open,
      (budget_spent-false o).1 h.budget,
      (too_deep-false o _).1 h.depth,
      (branching_full-false o _).1 h.branching,
      (runtime_spent-false o _).1 h.runtime,
      (evidence_missing-false o p prop).1 h.evidence,
    ),
  )

  -- A proposal is approved exactly when the reader's call succeeds, the seven conditions before the
  -- circuit breaker hold, and the breaker does not fire.
  pub evaluate-approve :
      ((evaluate p prop o parent w).0.action ≡ approve) ↔ (IsPassed × ¬ Trips p o)
  evaluate-approve = (
    λ h.
        let (clear, quiet) = ladder-approve.0 h in
        (IsClear-IsPassed.0 clear, λ trips. cc (quiet, (breaker_trips-Trips o p).1 trips)),
    λ (passed, quiet). ladder-approve.1 (IsClear-IsPassed.1 passed, not_true quiet),
  )
    where
      not_true : ¬ Trips p o → breaker_trips p o ≡ false
      not_true quiet = elim (Bool-cases (breaker_trips p o)) [
        | inl fires ↦ absurd (quiet ((breaker_trips-Trips o p).0 fires))
        | inr holds ↦ holds
      ]

  -- The objective is frozen exactly when the reader's call succeeds, the seven conditions before the
  -- circuit breaker hold, the ratio and the mission count are positive, and the mission count has
  -- reached the ratio times the finding count, as a 64-bit product, or, where that product is 0, the
  -- ratio itself.
  pub evaluate-freeze : ((evaluate p prop o parent w).0.action ≡ freeze) ↔ (IsPassed × Trips p o)
  evaluate-freeze = (
    λ h.
        let (clear, fires) = ladder-freeze.0 h in
        (IsClear-IsPassed.0 clear, (breaker_trips-Trips o p).0 fires),
    λ (passed, trips).
        ladder-freeze.1 (IsClear-IsPassed.1 passed, (breaker_trips-Trips o p).1 trips),
  )

  -- Whatever the decision, the world is left alone but for the count of calls.
  pub evaluate_reads :
      ((evaluate p prop o parent w).1 ≡ w) ⊎ ((evaluate p prop o parent w).1 ≡ tick w)
  unfolding evaluate count_active_children
  evaluate_reads = ground arith
