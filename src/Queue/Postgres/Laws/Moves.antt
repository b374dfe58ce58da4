-- ===== src/Queue/Postgres/Laws/Moves.antt =====
-- The statements of internal/queue/postgres.go against the state machine of a mission.
use fracta.Common.{
  ℕ, Duration, String, Bool, true, false, not, both, Bool-cases, ◌==◌, ◌≡◌, refl, sym, ap, ◌∙◌, inl,
  inr, Option, none, some, List, [], ◌∷◌, In, find_row, exists_row, update_row, update_rows,
  delete_row, select_rows, if◌then◌else◌, ◌-ℤ◌,
}
use fracta.World.{World, Outcome, ok, err, Action, pure, call, tick, now, transaction}
use mathlib.Core.Path.{subst}
use fracta.World.Laws.{call-eq-ok, continue, Settled, transaction-Settled}
use fracta.Queue.{
  MissionStatus, pending, claimed, completed, failed, cancelled, is_pending, is_claimed, Mission,
}
use fracta.Queue.Postgres.{
  has_id, claimed_row, claimed_with_id, update_claimed, ack, fail, pending_with_id, delete_pending,
  cancel, is_stuck, reclaimed_row, requeue_agents, reclaim_statements, reclaim_stuck, tasks_of,
  running_task, requeued, claimed_earlier,
}
use fracta.Queue.Postgres.Laws.Claim.{ClaimedBy}
use fracta.Queue.Postgres.Laws.Moved.{
  MissionStep, completes, fails, cancels, reclaims, Moved, Moved-refl, update_row-Moved,
  update_found-Moved, update_rows-Moved, is_claimed-≡, is_pending-≡, delete_row-Moved, step_from,
  step_of,
}

-- An update of claimed missions to a status that a claimed one can take.
module _ (id : ℕ) (f : Mission → Mission) (s : MissionStatus) (step : MissionStep claimed s)
    (keeps : (m : Mission)
      → ((f m).status ≡ s)
        × ((f m).id ≡ m.id)
        × ((f m).objective_id ≡ m.objective_id)
        × ((f m).dedupe_key ≡ m.dedupe_key)) where
  update_claimed-Moved : (w : World) → Moved w.missions (call (update_claimed id f) w).1.missions
  update_claimed-Moved w = elim (Bool-cases (w.fault w.calls)) [
    | inl faulty ↦ rw faulty (Moved-refl w.missions)
    | inr passes ↦ elim (Bool-cases (exists_row (claimed_with_id id) w.missions)) [
      | inl hit ↦
          rw (passes, hit)
            (update_row-Moved (claimed_with_id id) f
              (λ m h.
                let (_, c) = both (m.id == id) (is_claimed m.status) h in
                let (e0, e1, e2, e3) = keeps m in
                record {
                  step = step_of m.status (f m).status s (is_claimed-≡ m.status c) e0 step;
                  same_id = e1;
                  same_objective = e2;
                  same_key = e3;
                })
              w.missions)
      | inr miss ↦ rw (passes, miss) (Moved-refl w.missions)
    ]
  ]

delete_row-absent :
    (p : Mission → Bool) (ms : List Mission) → exists_row p ms ≡ false → delete_row p ms ≡ ms
delete_row-absent p [] h = refl
delete_row-absent p (m ∷ ms) h = elim (Bool-cases (p m)) [
  | inl hit ↦ cc (rw hit at h)
  | inr miss ↦ rw (miss, delete_row-absent p ms (rw miss at h))
]

-- What the DELETE of `Cancel` has done.
abbrev Deletes : World → Outcome Bool × World → Type 0
Deletes w (err _, v) = v.missions ≡ w.missions
Deletes w (ok true, v) = Moved w.missions v.missions
Deletes w (ok false, v) = v.missions ≡ w.missions

delete_pending-Deletes : (id : ℕ) (w : World) → Deletes w (delete_pending id w)
delete_pending-Deletes id w = elim (Bool-cases (w.fault w.calls)) [
  | inl faulty ↦ rw (faulty, Deletes)
  | inr passes ↦ elim (Bool-cases (exists_row (pending_with_id id) w.missions)) [
    | inl hit ↦
        rw (passes, hit, Deletes)
          (delete_row-Moved (pending_with_id id) w.missions
            (λ m h. is_pending-≡ m.status (both (m.id == id) (is_pending m.status) h).1))
    | inr miss ↦ rw (passes, miss, Deletes) (delete_row-absent (pending_with_id id) w.missions miss)
  ]
]

abbrev cancel_rest : ℕ → Bool → Action (Unit {0})
cancel_rest id was_pending =
    if was_pending then pure tt else call (update_claimed id (λ m. record m { status = cancelled }))

requeue_agents-missions :
    (result tasks : List String) (w : World)
    → (requeue_agents result tasks w).1.missions ≡ w.missions
unfolding requeue_agents
requeue_agents-missions result [] w = refl
requeue_agents-missions result (task ∷ tasks) w = elim (Bool-cases (w.fault w.calls)) [
  | inl faulty ↦ rw faulty
  | inr passes ↦ rw passes (
      requeue_agents-missions result tasks
        (record (tick w) { agents = update_row (running_task task) requeued w.agents }))
]

abbrev pub after_reclaim : Outcome (List String) × World → World
after_reclaim (r, w) = elim r [ err _ ↦ w | ok tasks ↦ elim tasks [ [] ↦ w | _ ∷ _ ↦ tick w ] ]

step_back : (s : MissionStatus) → s ≡ claimed → MissionStep s pending
step_back s e = rw e reclaims

reclaimed_lem :
    (lease : Duration) (w u v : World) (tasks : List String)
    → reclaim_statements lease (tick w) ≡ (ok tasks, u)
    → v ≡ tick u
    → Moved w.missions v.missions
unfolding reclaim_statements
reclaimed_lem lease w u v tasks h e =
    let limit = now (tick w) -ℤ lease in
    let (_, k) =
      call-eq-ok
        (λ x.
          let ts = tasks_of (select_rows (is_stuck limit) x.missions) in
          requeue_agents ts ts
            (record x { missions = update_rows (is_stuck limit) reclaimed_row x.missions }))
        (tick w) h in
    let ts = tasks_of (select_rows (is_stuck limit) w.missions) in
    let start = record (tick (tick w)) {
      missions = update_rows (is_stuck limit) reclaimed_row w.missions;
    } in
    let m : v.missions ≡ update_rows (is_stuck limit) reclaimed_row w.missions =
      ap (λ x. x.missions) e
      ∙ ap (λ p. p.1.missions) (sym k)
      ∙ requeue_agents-missions ts ts start in
    rw m (
      update_rows-Moved (is_stuck limit) reclaimed_row
        (λ x c.
          let (stuck, _) = both (is_claimed x.status) (claimed_earlier limit x.claimed_at) c in
          record {
            step = step_back x.status (is_claimed-≡ x.status stuck);
            same_id = refl;
            same_objective = refl;
            same_key = refl;
          })
        w.missions)

module _ (w : World) where
  pub ack-Moved : (id : ℕ) → Moved w.missions (ack id w).1.missions
  unfolding ack
  ack-Moved id =
      update_claimed-Moved id (λ m. record m { status = completed; completed_at = some (now w) })
        completed completes (λ m. (refl, refl, refl, refl)) w

  pub fail-Moved : (id : ℕ) (reason : String) → Moved w.missions (fail id reason w).1.missions
  unfolding fail
  fail-Moved id reason =
      update_claimed-Moved id
        (λ m. record m { status = failed; error = reason; completed_at = some (now w) }) failed
        fails (λ m. (refl, refl, refl, refl)) w

  -- The row that is claimed is found by its number.
  pub claimed-Moved :
      (locked : ℕ → Bool) (worker : String) (r : Outcome (Option Mission) × World)
      → ((m : Mission) → In m w.missions → find_row (has_id m.id) w.missions ≡ some m)
      → ClaimedBy locked worker w r
      → Moved w.missions r.1.missions
  claimed-Moved locked worker (err _, w') keyed e = rw e (Moved-refl w.missions)
  claimed-Moved locked worker (ok none, w') keyed (e, _) = rw e (Moved-refl w.missions)
  claimed-Moved locked worker (ok (some m), w') keyed (r, i, free, best, _, e) =
      let (p, _) = both (is_pending r.status) (not (locked r.id)) free in
      rw e (
        update_found-Moved (λ x. is_pending x.status) (claimed_row worker (w.clock w.calls))
          (λ x h. record {
            step = step_from x.status (is_pending-≡ x.status h);
            same_id = refl;
            same_objective = refl;
            same_key = refl;
          })
          (has_id r.id) w.missions (keyed r i) p)

  cancelled_after :
      (id : ℕ) (p : Outcome Bool × World)
      → Deletes w p
      → Moved w.missions (continue (cancel_rest id) p).1.missions
  cancelled_after id (err e, v) h = rw h (Moved-refl w.missions)
  cancelled_after id (ok true, v) h = h
  cancelled_after id (ok false, v) h =
      let moved =
        update_claimed-Moved id (λ m. record m { status = cancelled }) cancelled cancels
          (λ m. (refl, refl, refl, refl)) v in
      subst (λ ms. Moved ms (continue (cancel_rest id) (ok false, v)).1.missions) h moved

  pub cancel-Moved : (id : ℕ) → Moved w.missions (cancel id w).1.missions
  unfolding cancel
  cancel-Moved id = cancelled_after id (delete_pending id w) (delete_pending-Deletes id w)

  pub reclaim_stuck-Moved : (lease : Duration) → Moved w.missions (reclaim_stuck lease w).missions
  unfolding reclaim_stuck
  reclaim_stuck-Moved lease =
      reclaimed (transaction (reclaim_statements lease) w)
        (transaction-Settled (reclaim_statements lease) w)
    where
      reclaimed :
          (p : Outcome (List String) × World)
          → Settled (reclaim_statements lease) w p
          → Moved w.missions (after_reclaim p).missions
      reclaimed (err e, v) h = rw h.2 (Moved-refl w.missions)
      reclaimed (ok [], v) (u, h, e) = reclaimed_lem lease w u v [] h e
      reclaimed (ok (t ∷ ts), v) (u, h, e) = reclaimed_lem lease w u v (t ∷ ts) h e
