-- ===== src/Objective.antt =====
-- Objectives and their lifecycle: internal/objective/objective.go.
pub mod Store
pub mod Lifecycle
use fracta.Common.{
  ℕ, ℤ, pos, ◌==ℤ◌, Time, Duration, String, same, Bool, true, false, Option, none, some, List, [],
  ◌∷◌, ◌==◌, if◌then◌else◌,
}

-- `ObjectiveStatus`; `other` is any text but the seven constants.
pub data ObjectiveStatus : Type 0 where
  open_status answered disproven exhausted budget_exhausted timed_out frozen : ObjectiveStatus
  other : String → ObjectiveStatus

abbrev tag : ObjectiveStatus → ℕ
tag open_status = 0
tag answered = 1
tag disproven = 2
tag exhausted = 3
tag budget_exhausted = 4
tag timed_out = 5
tag frozen = 6
tag (other _) = 7

-- `==` on two statuses.
abbrev pub status_eq : ObjectiveStatus → ObjectiveStatus → Bool
status_eq (other s) (other t) = same s t
status_eq s t = tag s == tag t

-- `Terminal`
unfoldable pub is_terminal : ObjectiveStatus → Bool
is_terminal answered = true
is_terminal disproven = true
is_terminal exhausted = true
is_terminal budget_exhausted = true
is_terminal timed_out = true
is_terminal _ = false

-- `Valid`
unfoldable pub is_valid : ObjectiveStatus → Bool
is_valid (other _) = false
is_valid _ = true

-- `Objective`
pub record Objective : Type 0 where
  pub id : String
  pub description : String
  pub status : ObjectiveStatus
  pub created_at : Time
  pub updated_at : Time
  pub created_by : String
  pub max_missions : ℤ
  pub max_depth : ℤ
  pub max_runtime : Duration
  pub max_branching : ℤ
  pub mission_count : ℤ
  pub finding_count : ℤ
  pub outcome : String
  pub outcome_data : Option String

-- `AllowedTransitions`, a map: `none` for a status that is no key.
unfoldable pub allowed_transitions : ObjectiveStatus → Option (List ObjectiveStatus)
allowed_transitions open_status =
    some (answered ∷ disproven ∷ exhausted ∷ budget_exhausted ∷ timed_out ∷ frozen ∷ [])
allowed_transitions frozen = some (open_status ∷ [])
allowed_transitions _ = none

-- The loop of `CanTransition`.
unfoldable pub contains_status : ObjectiveStatus → List ObjectiveStatus → Bool
contains_status t [] = false
contains_status t (s ∷ ss) = if status_eq s t then true else contains_status t ss

-- `CanTransition`
unfoldable pub can_transition : ObjectiveStatus → ObjectiveStatus → Bool
unfolding allowed_transitions contains_status
can_transition from to = elim (allowed_transitions from) [
  | none ↦ false
  | some allowed ↦ contains_status to allowed
]

abbrev default_max_missions : ℤ
default_max_missions = pos 100

abbrev default_max_depth : ℤ
default_max_depth = pos 5

abbrev default_max_branching : ℤ
default_max_branching = pos 5

-- Four hours in nanoseconds.
abbrev default_max_runtime : Duration
default_max_runtime = pos 14_400_000_000_000

-- `ApplyDefaults`
unfoldable pub apply_defaults : Objective → Objective
apply_defaults o = record o {
  max_missions = if o.max_missions ==ℤ pos 0 then default_max_missions else o.max_missions;
  max_depth = if o.max_depth ==ℤ pos 0 then default_max_depth else o.max_depth;
  max_branching = if o.max_branching ==ℤ pos 0 then default_max_branching else o.max_branching;
  max_runtime = if o.max_runtime ==ℤ pos 0 then default_max_runtime else o.max_runtime;
}
