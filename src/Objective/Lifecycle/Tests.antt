-- ===== src/Objective/Lifecycle/Tests.antt =====
-- The lifecycle of an objective at concrete states.
use fracta.Common.{◌≡◌, true, false, ◌↔◌, ◌⊎◌}
use fracta.Objective.{ObjectiveStatus, open_status, frozen, is_terminal, is_valid, can_transition}
use fracta.Objective.Lifecycle.{Transition, can_transition-Transition, stuck-is_terminal}

can_transition-Transition_example :
    (can_transition frozen open_status ≡ true) ↔ Transition frozen open_status
can_transition-Transition_example = can_transition-Transition frozen open_status

stuck-is_terminal_example :
    ((t : ObjectiveStatus) → can_transition frozen t ≡ false)
    ↔ ((is_terminal frozen ≡ true) ⊎ (is_valid frozen ≡ false))
stuck-is_terminal_example = stuck-is_terminal frozen
