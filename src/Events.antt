-- ===== src/Events.antt =====
-- Events: internal/events.
pub mod Ring
pub mod Store
use fracta.Common.{Time, String, ℕ, List, ◌≡◌}

-- `Event` of types.go. `attrs` is an association list.
pub record Event : Type 0 where
  pub id : String
  pub time : Time
  pub component : String
  pub category : String
  pub resource : String
  pub action : String
  pub outcome : String
  pub severity : String
  pub task : String
  pub mission_id : ℕ
  pub objective_id : String
  pub detail : String
  pub attrs : List (String × String)
