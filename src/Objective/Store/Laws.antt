-- ===== src/Objective/Store/Laws.antt =====
-- What the statements of the objective store do to the tables.
use fracta.Common.{◌+◌, pos, ◌+ℤ◌, String, ◌≡◌, ◌⊎◌, some, find_row, update_row, arith}
use fracta.World.{
  World, ok, tick, KeepsObjectives, KeepsProposals, KeepsMissions, KeepsAgents, KeepsFaults,
}
use fracta.Objective.{ObjectiveStatus, Objective}
use fracta.Objective.Store.{
  has_id, get, update, updated_row, increment_mission_count, list_by_status,
}

-- Only the objectives change.
abbrev pub Frame : World → World → Type 0
Frame w w' = KeepsProposals w w' × KeepsMissions w w' × KeepsAgents w w' × KeepsFaults w w'

module _ (w : World) where
  pub get_reads : (id : String) → (get id w).1 ≡ tick w
  unfolding get
  get_reads id = ground arith

  pub list_by_status_reads : (s : ObjectiveStatus) → (list_by_status s w).1 ≡ tick w
  unfolding list_by_status
  list_by_status_reads s = ground arith

  -- What `Get` returns is the row under the identifier.
  pub get_found :
      (id : String) {o : Objective}
      → (get id w).0 ≡ ok o
      → find_row (has_id id) w.objectives ≡ some o
  unfolding get
  get_found id {o} h = ground arith

  pub update-Frame : (o : Objective) → Frame w (update o w).1
  unfolding update
  update-Frame o = ground arith

  pub increment-Frame : (id : String) → Frame w (increment_mission_count id w).1
  unfolding increment_mission_count
  increment-Frame id = ground arith

  -- `Update` writes the row under the identifier, or changes nothing.
  pub update_objectives :
      (o : Objective)
      → KeepsObjectives w (update o w).1
        ⊎ ((update o w).1.objectives
            ≡ update_row (has_id o.id) (updated_row o (w.clock w.calls)) w.objectives)
  unfolding update
  update_objectives o = ground arith

  -- `IncrementMissionCount` adds one to the count of the row, or changes nothing.
  pub increment_objectives :
      (id : String)
      → KeepsObjectives w (increment_mission_count id w).1
        ⊎ ((increment_mission_count id w).1.objectives
            ≡ update_row
                (has_id id)
                (λ o. record o {
                  mission_count = o.mission_count +ℤ pos 1;
                  updated_at = w.clock (w.calls + 1);
                })
                w.objectives)
  unfolding increment_mission_count
  increment_objectives id = ground arith
