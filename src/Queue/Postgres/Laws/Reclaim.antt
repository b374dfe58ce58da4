-- ===== src/Queue/Postgres/Laws/Reclaim.antt =====
-- What a reclaim does to the missions where no call fails: `reclaimStuck` of internal/queue/postgres.go.
use fracta.Common.{
  ◌+◌, ◌-ℤ◌, Duration, String, ◌≡◌, refl, ap, ◌∙◌, false, List, [], ◌∷◌, update_row, update_rows,
  select_rows,
}
use fracta.World.{World, ok, tick, now, settle, transaction, Reliable}
use fracta.Queue.Postgres.{
  is_stuck, reclaimed_row, running_task, requeued, tasks_of, requeue_agents, reclaim_statements,
  reclaim_stuck,
}
use fracta.Queue.Postgres.Laws.Moves.{after_reclaim}

-- Steps that write agents only.
abbrev Mild : World → World → Type 0
Mild w v =
    (v.objectives ≡ w.objectives)
    × (v.proposals ≡ w.proposals)
    × (v.missions ≡ w.missions)
    × (v.fault ≡ w.fault)

requeue_agents-ok :
    (result tasks : List String) (w : World)
    → Reliable w
    → (v : World) × (requeue_agents result tasks w ≡ (ok result, v)) × Mild w v
unfolding requeue_agents
requeue_agents-ok result [] w safe = (w, refl, (refl, refl, refl, refl))
requeue_agents-ok result (task ∷ tasks) w safe = rw (safe w.calls) (
    requeue_agents-ok result tasks
      (record (tick w) { agents = update_row (running_task task) requeued w.agents }) safe)

after_reclaim-Mild : (tasks : List String) (v : World) → Mild v (after_reclaim (ok tasks, v))
after_reclaim-Mild [] v = (refl, refl, refl, refl)
after_reclaim-Mild (t ∷ ts) v = (refl, refl, refl, refl)

-- The tables after a reclaim.
abbrev pub Reclaimed : Duration → World → World → Type 0
Reclaimed lease w v =
    (v.objectives ≡ w.objectives)
    × (v.proposals ≡ w.proposals)
    × (v.missions ≡ update_rows (is_stuck (now (tick w) -ℤ lease)) reclaimed_row w.missions)
    × (v.fault ≡ w.fault)

pub reclaim_stuck-Reclaimed :
    (lease : Duration) (w : World) → Reliable w → Reclaimed lease w (reclaim_stuck lease w)
unfolding reclaim_stuck reclaim_statements
reclaim_stuck-Reclaimed lease w safe =
    let stuck = is_stuck (now (tick w) -ℤ lease) in
    let tasks = tasks_of (select_rows stuck w.missions) in
    let (v, e, mild) =
      requeue_agents-ok tasks tasks
        (record (tick (tick w)) { missions = update_rows stuck reclaimed_row w.missions }) safe in
    let commits : v.fault v.calls ≡ false = ap (λ f. f v.calls) mild.3 ∙ safe v.calls in
    let ran : reclaim_statements lease (tick w) ≡ (ok tasks, v) = rw (safe (w.calls + 1)) e in
    let committed : settle (tick w) (ok tasks, v) ≡ (ok tasks, tick v) = rw commits refl in
    let done : transaction (reclaim_statements lease) w ≡ (ok tasks, tick v) =
      rw (safe w.calls) (ap (settle (tick w)) ran ∙ committed) in
    let r : reclaim_stuck lease w ≡ after_reclaim (ok tasks, tick v) = ap after_reclaim done in
    let k = after_reclaim-Mild tasks (tick v) in
    (
      ap (λ (x : World). x.objectives) r ∙ k.0 ∙ mild.0,
      ap (λ (x : World). x.proposals) r ∙ k.1 ∙ mild.1,
      ap (λ (x : World). x.missions) r ∙ k.2 ∙ mild.2,
      ap (λ (x : World). x.fault) r ∙ k.3 ∙ mild.3,
    )
