-- ===== src/Objective/Store.antt =====
-- The objective store over PostgreSQL: internal/objective/pgstore.go.
pub mod Laws
use fracta.Common.{
  ℤ, pos, ◌+ℤ◌, leb_ℤ, ◌==ℤ◌, Time, String, same, Bool, false, Option, none, some, List, [], ◌∷◌,
  ◌++◌, find_row, exists_row, select_rows, update_row, sort_rows, if◌then◌else◌,
}
use fracta.World.{not_found, db_error, Outcome, ok, err, Action, call, now}
use fracta.Objective.{ObjectiveStatus, status_eq, Objective, open_status, apply_defaults}

-- `WHERE id = $1`
abbrev pub has_id : String → Objective → Bool
has_id id o = same o.id id

-- The zero status of Go is the empty text.
abbrev default_status : ObjectiveStatus → ObjectiveStatus
default_status s = if status_eq s (ObjectiveStatus.other "") then open_status else s

-- The fields that `Create` fills in before the INSERT.
unfoldable pub prepare : Time → Objective → Objective
unfolding apply_defaults
prepare t o = apply_defaults (record o {
  created_at = if o.created_at ==ℤ pos 0 then t else o.created_at;
  updated_at = if o.updated_at ==ℤ pos 0 then t else o.updated_at;
  status = default_status o.status;
})

-- INSERT of a row; `id` is the primary key.
abbrev insert_new : Objective → Action Objective
insert_new row w =
    if exists_row (has_id row.id) w.objectives
    then (err db_error, w)
    else (ok row, record w { objectives = w.objectives ++ (row ∷ []) })

-- `Create`. The result is the caller's objective, whose fields are set.
unfoldable pub create : Objective → Action Objective
unfolding prepare
create o w = call (insert_new (prepare (now w) o)) w

abbrev found : Option Objective → Outcome Objective
found none = err not_found
found (some o) = ok o

-- `Get`
unfoldable pub get : String → Action Objective
get id = call λ w. (found (find_row (has_id id) w.objectives), w)

-- The row after `UPDATE objectives SET …`: `created_at` is no column of the statement.
abbrev pub updated_row : Objective → Time → Objective → Objective
updated_row o t row = record o { id = row.id; created_at = row.created_at; updated_at = t }

-- UPDATE … WHERE id = $1, and the error where no row is affected.
abbrev update_by_id : String → (Objective → Objective) → Action (Unit {0})
update_by_id id f w =
    if exists_row (has_id id) w.objectives
    then (ok tt, record w { objectives = update_row (has_id id) f w.objectives })
    else (err not_found, w)

-- `Update`
unfoldable pub update : Objective → Action (Unit {0})
update o w = call (update_by_id o.id (updated_row o (now w))) w

-- The largest value of an INT column; an increment past it is an error.
abbrev pub max_int4 : ℤ
max_int4 = pos 2_147_483_647

abbrev is_full : (Objective → ℤ) → Option Objective → Bool
is_full column none = false
is_full column (some o) = leb_ℤ max_int4 (column o)

-- An UPDATE by id that adds one to an INT column.
abbrev increment : (Objective → ℤ) → String → (Objective → Objective) → Action (Unit {0})
increment column id f w =
    if is_full column (find_row (has_id id) w.objectives)
    then (err db_error, w)
    else update_by_id id f w

-- `IncrementMissionCount`
unfoldable pub increment_mission_count : String → Action (Unit {0})
increment_mission_count id = call λ w.
    increment (λ o. o.mission_count) id
      (λ o. record o { mission_count = o.mission_count +ℤ pos 1; updated_at = now w }) w

-- `IncrementFindingCount`
unfoldable pub increment_finding_count : String → Action (Unit {0})
increment_finding_count id = call λ w.
    increment (λ o. o.finding_count) id
      (λ o. record o { finding_count = o.finding_count +ℤ pos 1; updated_at = now w }) w

-- `ORDER BY created_at`
abbrev pub created_before : Objective → Objective → Bool
created_before o p = leb_ℤ o.created_at p.created_at

-- `ListByStatus`
unfoldable pub list_by_status : ObjectiveStatus → Action (List Objective)
unfolding sort_rows
list_by_status s =
    call
      λ w. (ok (sort_rows created_before (select_rows (λ o. status_eq o.status s) w.objectives)), w)
