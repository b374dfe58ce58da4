-- ===== src/Queue/Postgres/Laws/Moved.antt =====
-- The state machine of a mission: internal/queue/queue.go.
use fracta.Common.{
  Bool, true, Bool-cases, ◌≡◌, refl, ap, ◌∙◌, inl, inr, some, List, [], ◌∷◌, find_row, update_row,
  update_rows, delete_row,
}
use fracta.Queue.{
  MissionStatus, pending, claimed, completed, failed, cancelled, is_pending, is_claimed, Mission,
}

-- The transitions of a mission.
pub data MissionStep : MissionStatus → MissionStatus → Type 0 where
  claims : MissionStep pending claimed
  completes : MissionStep claimed completed
  fails : MissionStep claimed failed
  cancels : MissionStep claimed cancelled
  reclaims : MissionStep claimed pending

-- A row makes a transition, and keeps its number, its objective and its key.
pub record Moves (m m' : Mission) : Type 0 where
  pub step : MissionStep m.status m'.status
  pub same_id : m'.id ≡ m.id
  pub same_objective : m'.objective_id ≡ m.objective_id
  pub same_key : m'.dedupe_key ≡ m.dedupe_key

-- Rows stay or make a transition, in their places; pending rows may be deleted.
pub data Moved : List Mission → List Mission → Type 0 where
  none_left : Moved [] []
  stays : {m : Mission} {ms ms' : List Mission} → Moved ms ms' → Moved (m ∷ ms) (m ∷ ms')
  moves :
      {m m' : Mission} {ms ms' : List Mission}
      → Moves m m'
      → Moved ms ms'
      → Moved (m ∷ ms) (m' ∷ ms')
  removed :
      {m : Mission} {ms ms' : List Mission} → m.status ≡ pending → Moved ms ms' → Moved (m ∷ ms) ms'

pub Moved-refl : (ms : List Mission) → Moved ms ms
Moved-refl [] = none_left
Moved-refl (m ∷ ms) = stays (Moved-refl ms)

module _ (p : Mission → Bool) (f : Mission → Mission)
    (moving : (m : Mission) → p m ≡ true → Moves m (f m)) where
  pub update_row-Moved : (ms : List Mission) → Moved ms (update_row p f ms)
  update_row-Moved [] = none_left
  update_row-Moved (m ∷ ms) = elim (Bool-cases (p m)) [
    | inl hit ↦ rw hit (moves (moving m hit) (Moved-refl ms))
    | inr miss ↦ rw miss (stays (update_row-Moved ms))
  ]

  pub update_found-Moved :
      (q : Mission → Bool) (ms : List Mission) {r : Mission}
      → find_row q ms ≡ some r
      → p r ≡ true
      → Moved ms (update_row q f ms)
  update_found-Moved q [] {r = r} h k = none_left
  update_found-Moved q (m ∷ ms) {r = r} h k = elim (Bool-cases (q m)) [
    | inl hit ↦
        let e : m ≡ r = cc (rw hit at h) in rw hit (moves (moving m (ap p e ∙ k)) (Moved-refl ms))
    | inr miss ↦ rw miss (stays (update_found-Moved q ms {r = r} (rw miss at h) k))
  ]

  pub update_rows-Moved : (ms : List Mission) → Moved ms (update_rows p f ms)
  update_rows-Moved [] = none_left
  update_rows-Moved (m ∷ ms) = elim (Bool-cases (p m)) [
    | inl hit ↦ rw hit (moves (moving m hit) (update_rows-Moved ms))
    | inr miss ↦ rw miss (stays (update_rows-Moved ms))
  ]

pub is_claimed-≡ : (s : MissionStatus) → is_claimed s ≡ true → s ≡ claimed
is_claimed-≡ pending h = cc
is_claimed-≡ claimed h = refl
is_claimed-≡ completed h = cc
is_claimed-≡ failed h = cc
is_claimed-≡ cancelled h = cc

pub is_pending-≡ : (s : MissionStatus) → is_pending s ≡ true → s ≡ pending
is_pending-≡ pending h = refl
is_pending-≡ claimed h = cc
is_pending-≡ completed h = cc
is_pending-≡ failed h = cc
is_pending-≡ cancelled h = cc

pub delete_row-Moved :
    (p : Mission → Bool) (ms : List Mission)
    → ((m : Mission) → p m ≡ true → m.status ≡ pending)
    → Moved ms (delete_row p ms)
delete_row-Moved p [] h = none_left
delete_row-Moved p (m ∷ ms) h = elim (Bool-cases (p m)) [
  | inl hit ↦ rw hit (removed (h m hit) (Moved-refl ms))
  | inr miss ↦ rw miss (stays (delete_row-Moved p ms h))
]

pub step_from : (s : MissionStatus) → s ≡ pending → MissionStep s claimed
step_from s e = rw e claims

pub step_of :
    (a b s : MissionStatus) → a ≡ claimed → b ≡ s → MissionStep claimed s → MissionStep a b
step_of a b s e h step = rw (e, h) step
