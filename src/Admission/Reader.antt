-- ===== src/Admission/Reader.antt =====
-- Reading missions for the admission controller: internal/admission/reader.go, over PostgreSQL.
pub mod Laws
use fracta.Common.{
  ℕ, ℤ, pos, String, same, Bool, false, not, ◌&&◌, ◌==◌, Option, none, some, find_row, count_rows,
}
use fracta.World.{not_found, db_error, Outcome, ok, err, Action, call}
use fracta.Queue.{is_active, Mission}
use fracta.Queue.Postgres.{has_id}

-- `claimed_by` is scanned into a Go string, and the driver refuses a NULL there.
abbrev scan_mission : Option Mission → Outcome Mission
scan_mission none = err not_found
scan_mission (some m) = elim m.claimed_by [ none ↦ err db_error | some _ ↦ ok m ]

-- `GetMission`
unfoldable pub get_mission : ℕ → Action Mission
get_mission id = call λ w. (scan_mission (find_row (has_id id) w.missions), w)

-- `parent_id = $1 AND status IN ('pending', 'claimed')`; NULL equals nothing.
abbrev is_parent : ℕ → Option ℕ → Bool
is_parent id none = false
is_parent id (some parent) = parent == id

abbrev pub active_child_of : ℕ → Mission → Bool
active_child_of id m = is_parent id m.parent_id && is_active m.status

-- `CountActiveChildren`
unfoldable pub count_active_children : ℕ → Action ℤ
count_active_children id = call λ w. (ok (pos (count_rows (active_child_of id) w.missions)), w)

-- `objective_id = $1 AND status IN ('pending', 'claimed')`; an `objective_id` of "" is NULL.
abbrev pub active_in : String → Mission → Bool
active_in id m = not (same m.objective_id "") && (same m.objective_id id && is_active m.status)

-- `AllMissionsTerminal`
unfoldable pub all_missions_terminal : String → Action Bool
all_missions_terminal id = call λ w. (ok (count_rows (active_in id) w.missions == 0), w)
