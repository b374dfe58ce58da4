-- ===== src/Admission/Reader/Laws.antt =====
-- The reader's answers against the table.
use fracta.Common.{ℕ, String, ◌≡◌, none, some, find_row, arith}
use fracta.World.{World, ok, err, db_error, tick}
use fracta.Queue.{Mission}
use fracta.Queue.Postgres.{has_id}
use fracta.Admission.Reader.{get_mission, all_missions_terminal}

module _ (w : World) where
  pub get_mission_reads : (id : ℕ) → (get_mission id w).1 ≡ tick w
  unfolding get_mission
  get_mission_reads id = ground arith

  pub get_mission_found :
      (id : ℕ) {m : Mission}
      → (get_mission id w).0 ≡ ok m
      → find_row (has_id id) w.missions ≡ some m
  unfolding get_mission
  get_mission_found id {m} h = ground arith

  pub all_missions_terminal_reads : (id : String) → (all_missions_terminal id w).1 ≡ tick w
  unfolding all_missions_terminal
  all_missions_terminal_reads id = ground arith

  -- A mission that no worker has claimed cannot be read, though its row is there.
  pub get_mission_unclaimed :
      (id : ℕ) {m : Mission}
      → find_row (has_id id) w.missions ≡ some m
      → m.claimed_by ≡ none
      → get_mission id w ≡ (err db_error, tick w)
  unfolding get_mission
  get_mission_unclaimed id {m} h e = ground arith
