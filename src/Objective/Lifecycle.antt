-- ===== src/Objective/Lifecycle.antt =====
-- The lifecycle of an objective as a relation, and the table of transitions against it:
-- `AllowedTransitions`, `CanTransition` and `Terminal` of internal/objective/objective.go.
mod Tests
use fracta.Common.{◌≡◌, refl, true, false, ◌↔◌, ◌⊎◌, arith}
use fracta.Objective.{
  ObjectiveStatus, open_status, answered, disproven, exhausted, budget_exhausted, timed_out, frozen,
  is_terminal, is_valid, can_transition,
}

-- An open objective is resolved, runs out or is frozen; a frozen one is resumed.
pub data Transition : ObjectiveStatus → ObjectiveStatus → Type 0 where
  answer : Transition open_status answered
  disprove : Transition open_status disproven
  exhaust : Transition open_status exhausted
  spend_budget : Transition open_status budget_exhausted
  time_out : Transition open_status timed_out
  freeze : Transition open_status frozen
  resume : Transition frozen open_status

ruleset transitions = (answer, disprove, exhaust, spend_budget, time_out, freeze, resume)

can_transition_complete : {s t : ObjectiveStatus} → Transition s t → can_transition s t ≡ true
unfolding can_transition
can_transition_complete answer = refl
can_transition_complete disprove = refl
can_transition_complete exhaust = refl
can_transition_complete spend_budget = refl
can_transition_complete time_out = refl
can_transition_complete freeze = refl
can_transition_complete resume = refl

can_transition_sound : (s t : ObjectiveStatus) → can_transition s t ≡ true → Transition s t
unfolding can_transition
can_transition_sound s t h = grind (arith, transitions)

-- `CanTransition` decides the relation.
pub can_transition-Transition :
    (s t : ObjectiveStatus) → (can_transition s t ≡ true) ↔ Transition s t
can_transition-Transition s t = (can_transition_sound s t, can_transition_complete)

abbrev IsUnknown : ObjectiveStatus → Type 0
IsUnknown s = is_valid s ≡ false

stuck_sound :
    (s : ObjectiveStatus)
    → ((t : ObjectiveStatus) → can_transition s t ≡ false)
    → (is_terminal s ≡ true) ⊎ IsUnknown s
unfolding can_transition is_terminal is_valid
stuck_sound s h = ground (arith, h answered, h open_status)

stuck_complete :
    (s t : ObjectiveStatus) → (is_terminal s ≡ true) ⊎ IsUnknown s → can_transition s t ≡ false
unfolding can_transition is_terminal is_valid
stuck_complete s t h = ground arith

-- No transition is allowed from a status exactly when it is terminal or not one of the seven.
pub stuck-is_terminal :
    (s : ObjectiveStatus)
    → ((t : ObjectiveStatus) → can_transition s t ≡ false)
      ↔ ((is_terminal s ≡ true) ⊎ (is_valid s ≡ false))
stuck-is_terminal s = (stuck_sound s, λ h t. stuck_complete s t h)
