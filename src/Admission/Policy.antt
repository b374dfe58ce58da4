-- ===== src/Admission/Policy.antt =====
-- The admission policy, an eight-step pipeline: internal/admission/policy.go.
pub mod Laws
mod Tests
use fracta.Common.{
  ℕ, ℤ, pos, leb_ℤ, ltb_ℤ, ◌==ℤ◌, add_int, mul_int, time_sub, Time, String, same, Bool, true, false,
  not, ◌&&◌, Option, none, some, if◌then◌else◌,
}
use fracta.Objective.{status_eq, open_status, Objective}
use fracta.Proposal.{
  Note, not_open, cap_reached, depth_exceeds, count_failed, branching_reached, runtime_exceeded,
  evidence_required, circuit_breaker, checks_passed, MissionProposal,
}
use fracta.Queue.{Mission}
use fracta.World.{World, Outcome, ok, err, now}
use fracta.Admission.Reader.{count_active_children}

-- `Action`
pub data Verdict : Type 0 where
  approve reject freeze : Verdict

-- `Decision`
pub record Decision : Type 0 where
  pub action : Verdict
  pub reason : Note

-- `AdmissionPolicy`. `Now` is the clock of the world.
pub record AdmissionPolicy : Type 0 where
  pub evidence_threshold : ℤ
  pub circuit_breaker_ratio : ℤ

-- `DefaultPolicy`
abbrev pub default_policy : AdmissionPolicy
default_policy = record { evidence_threshold = pos 3; circuit_breaker_ratio = pos 3 }

abbrev pub decide : Verdict → Note → Decision
decide v note = record { action = v; reason = note }

-- `len(prop.Evidence) == 0 || string(prop.Evidence) == "null"`
abbrev pub lacks_evidence : Option String → Bool
lacks_evidence none = true
lacks_evidence (some e) = if same e "" then true else same e "null"

-- The threshold of step 8.
abbrev pub breaker_threshold : AdmissionPolicy → Objective → ℤ
breaker_threshold p o =
    let threshold = mul_int p.circuit_breaker_ratio o.finding_count in
    if threshold ==ℤ pos 0 then p.circuit_breaker_ratio else threshold

-- The conditions of the steps: 3, the cap on missions; 4, the depth; 5, the branching factor; 6, the
-- runtime; 7, the evidence; 8, the circuit breaker.
unfoldable pub budget_spent : Objective → Bool
budget_spent o = leb_ℤ o.max_missions o.mission_count

unfoldable pub too_deep : Objective → ℤ → Bool
too_deep o child_depth = ltb_ℤ o.max_depth child_depth

unfoldable pub branching_full : Objective → ℤ → Bool
branching_full o children = leb_ℤ o.max_branching children

unfoldable pub runtime_spent : Objective → Time → Bool
runtime_spent o t = ltb_ℤ (pos 0) o.max_runtime && leb_ℤ o.max_runtime (time_sub t o.created_at)

unfoldable pub evidence_missing : AdmissionPolicy → MissionProposal → Objective → Bool
evidence_missing p prop o =
    ltb_ℤ (pos 0) p.evidence_threshold
    && (leb_ℤ p.evidence_threshold o.mission_count && lacks_evidence prop.evidence)

unfoldable pub breaker_trips : AdmissionPolicy → Objective → Bool
breaker_trips p o =
    ltb_ℤ (pos 0) p.circuit_breaker_ratio
    && (ltb_ℤ (pos 0) o.mission_count && leb_ℤ (breaker_threshold p o) o.mission_count)

-- Steps 6 to 8.
abbrev steps_from_runtime : AdmissionPolicy → MissionProposal → Objective → Time → Decision
steps_from_runtime p prop o t =
    if runtime_spent o t
    then decide reject (runtime_exceeded (time_sub t o.created_at) o.max_runtime)
    else if evidence_missing p prop o
    then decide reject (evidence_required p.evidence_threshold o.mission_count)
    else if breaker_trips p o
    then decide freeze (circuit_breaker o.mission_count o.finding_count p.circuit_breaker_ratio)
    else decide approve checks_passed

-- Step 5, from the reader's answer, and the rest.
abbrev steps_from_branching :
    AdmissionPolicy → MissionProposal → Objective → Outcome ℤ × World → Decision × World
steps_from_branching p prop o (err _, w) = (decide reject count_failed, w)
steps_from_branching p prop o (ok children, w) =
    if branching_full o children
    then (decide reject (branching_reached children o.max_branching), w)
    else (steps_from_runtime p prop o (now w), w)

-- `Evaluate`. Step 2 is the unique index of the missions table.
unfoldable pub evaluate :
    AdmissionPolicy → MissionProposal → Objective → Mission → World → Decision × World
evaluate p prop o parent w =
    let child_depth = add_int parent.depth (pos 1) in
    if not (status_eq o.status open_status)
    then (decide reject (not_open o.status), w)
    else if budget_spent o
    then (decide reject (cap_reached o.mission_count o.max_missions), w)
    else if too_deep o child_depth
    then (decide reject (depth_exceeds child_depth o.max_depth), w)
    else steps_from_branching p prop o (count_active_children parent.id w)
