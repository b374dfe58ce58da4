-- ===== src/Queue/Postgres/Laws/Sequences.antt =====
-- Any sequence of calls of the queue: internal/queue/postgres.go.
use fracta.Common.{
  ℕ, ◌≤◌, Duration, String, Bool, true, false, Bool-cases, Option-cases, ◌≡◌, ap, ◌+◌, ◌++◌, inl,
  inr, some, List, [], ◌∷◌, In, here, there, exists_row, delete_row, update_row, update_rows,
  select_rows, ◌-ℤ◌, arith, if◌then◌else◌,
}
use fracta.Model.{AgentEntry}
use fracta.World.{World, Outcome, ok, err, pure, call, tick, now, transaction}
use fracta.World.Laws.{Grows, call-Grows, >>=-Grows, transaction-Grows}
use fracta.Queue.{completed, failed, cancelled, is_active, Mission}
use fracta.Queue.Postgres.{
  enqueue, try_claim, candidate, claimed_with_id, update_claimed, ack, fail, pending_with_id,
  delete_pending, cancel, new_row, is_stuck, reclaimed_row, running_task, requeued, tasks_of,
  requeue_agents, reclaim_statements, reclaim_stuck,
}
use fracta.Queue.Postgres.Laws.Enqueue.{Enqueued, enqueue_atomic}
use fracta.Queue.Postgres.Laws.Claim.{try_claim_best}
use fracta.Queue.Postgres.Laws.Moves.{
  ack-Moved, fail-Moved, claimed-Moved, cancel-Moved, reclaim_stuck-Moved, after_reclaim,
}
use fracta.Queue.Postgres.Laws.Moved.{Moved, none_left, stays, moves, removed}
use fracta.Queue.Postgres.Laws.Unique.{
  Sound, Unique-found, enqueue-Grows, Enqueued-Sound, Moved-Sound, MissionStep-is_active,
}

update_claimed-Grows : (id : ℕ) (f : Mission → Mission) → Grows (call (update_claimed id f))
update_claimed-Grows id f = call-Grows (update_claimed id f) (λ w.
    elim (Bool-cases (exists_row (claimed_with_id id) w.missions)) [
      | inl hit ↦ rw hit (omega arith)
      | inr miss ↦ rw miss (omega arith)
    ])

cancel-Grows : (id : ℕ) → Grows (cancel id)
unfolding cancel
cancel-Grows id =
    >>=-Grows (delete_pending id)
      (λ was_pending.
        if was_pending
        then pure tt
        else call (update_claimed id (λ m. record m { status = cancelled })))
      (call-Grows
        (λ w. (
          ok (exists_row (pending_with_id id) w.missions),
          record w { missions = delete_row (pending_with_id id) w.missions },
        ))
        (λ w. omega arith))
      (λ b. rest b)
  where
    rest :
        (b : Bool)
        → Grows
            (if b then pure tt else call (update_claimed id (λ m. record m { status = cancelled })))
    rest true w = omega arith
    rest false w = update_claimed-Grows id (λ m. record m { status = cancelled }) w

requeue_agents-Grows : (result tasks : List String) → Grows (requeue_agents result tasks)
unfolding requeue_agents
requeue_agents-Grows result [] w = omega arith
requeue_agents-Grows result (task ∷ tasks) w = elim (Bool-cases (w.fault w.calls)) [
  | inl faulty ↦ rw faulty (omega arith)
  | inr passes ↦ rw passes (
      requeue_agents-Grows result tasks
        (record (tick w) { agents = update_row (running_task task) requeued w.agents }))
]

module _ (w : World) where
  ack-next : (id : ℕ) → w.next_mission ≤ (ack id w).1.next_mission
  unfolding ack
  ack-next id =
      update_claimed-Grows id (λ m. record m { status = completed; completed_at = some (now w) }) w

  fail-next : (id : ℕ) (reason : String) → w.next_mission ≤ (fail id reason w).1.next_mission
  unfolding fail
  fail-next id reason =
      update_claimed-Grows id
        (λ m. record m { status = failed; error = reason; completed_at = some (now w) }) w

  try_claim-next :
      (locked : ℕ → Bool) (worker : String)
      → w.next_mission ≤ (try_claim locked worker w).1.next_mission
  unfolding try_claim
  try_claim-next locked worker = elim (Bool-cases (w.fault w.calls)) [
    | inl faulty ↦ rw faulty (omega arith)
    | inr passes ↦ elim (Option-cases (candidate locked w.missions)) [
      | inl empty ↦ rw (passes, empty) (omega arith)
      | inr (m, e) ↦ rw (passes, e) (omega arith)
    ]
  ]

  reclaim_stuck-next : (lease : Duration) → w.next_mission ≤ (reclaim_stuck lease w).next_mission
  unfolding reclaim_stuck reclaim_statements
  reclaim_stuck-next lease = after (transaction (reclaim_statements lease) w) (
      transaction-Grows (reclaim_statements lease)
        (λ v.
          let limit = now v -ℤ lease in
          call-Grows
            (λ x.
              let tasks = tasks_of (select_rows (is_stuck limit) x.missions) in
              requeue_agents tasks tasks
                (record x { missions = update_rows (is_stuck limit) reclaimed_row x.missions }))
            (λ x.
              let tasks = tasks_of (select_rows (is_stuck limit) x.missions) in
              requeue_agents-Grows tasks tasks
                (record x { missions = update_rows (is_stuck limit) reclaimed_row x.missions }))
            v)
        w)
    where
      after :
          (p : Outcome (List String) × World)
          → w.next_mission ≤ p.1.next_mission
          → w.next_mission ≤ (after_reclaim p).next_mission
      after (err e, v) h = h
      after (ok [], v) h = h
      after (ok (t ∷ ts), v) h = h

-- The calls that change missions.
pub data QueueCall : Type 0 where
  enqueues : Mission → AgentEntry → QueueCall
  tries_claim : (ℕ → Bool) → String → QueueCall
  acks cancels_it : ℕ → QueueCall
  fails_it : ℕ → String → QueueCall
  reclaims_stuck : Duration → QueueCall

abbrev pub run_call : QueueCall → World → World
run_call (enqueues m a) w = (enqueue m a w).1
run_call (tries_claim locked worker) w = (try_claim locked worker w).1
run_call (acks id) w = (ack id w).1
run_call (cancels_it id) w = (cancel id w).1
run_call (fails_it id reason) w = (fail id reason w).1
run_call (reclaims_stuck lease) w = reclaim_stuck lease w

abbrev pub run_calls : List QueueCall → World → World
run_calls [] w = w
run_calls (c ∷ cs) w = run_calls cs (run_call c w)

run_call-Sound : (c : QueueCall) (w : World) → Sound w → Sound (run_call c w)
run_call-Sound (enqueues m a) w s =
    Enqueued-Sound m a w (enqueue m a w) (enqueue_atomic m a w) (enqueue-Grows m a w) s
run_call-Sound (tries_claim locked worker) w s =
    Moved-Sound w (try_claim locked worker w).1
      (claimed-Moved w locked worker (try_claim locked worker w)
        (λ m i. Unique-found w.missions m s.0 i) (try_claim_best locked worker w))
      (try_claim-next w locked worker) s
run_call-Sound (acks id) w s = Moved-Sound w (ack id w).1 (ack-Moved w id) (ack-next w id) s
run_call-Sound (cancels_it id) w s =
    Moved-Sound w (cancel id w).1 (cancel-Moved w id) (cancel-Grows id w) s
run_call-Sound (fails_it id reason) w s =
    Moved-Sound w (fail id reason w).1 (fail-Moved w id reason) (fail-next w id reason) s
run_call-Sound (reclaims_stuck lease) w s =
    Moved-Sound w (reclaim_stuck lease w) (reclaim_stuck-Moved w lease) (reclaim_stuck-next w lease)
      s

-- If no two missions have the same number, or the same dedupe key while both are active, and the
-- sequence is ahead of the numbers, that is so after any calls of the queue, whichever of them fail.
pub run_calls-Sound : (cs : List QueueCall) (w : World) → Sound w → Sound (run_calls cs w)
run_calls-Sound [] w s = s
run_calls-Sound (c ∷ cs) w s = run_calls-Sound cs (run_call c w) (run_call-Sound c w s)

-- Missions that are completed, failed or cancelled are left as they are.
Moved-In :
    (m : Mission) {ms ms' : List Mission}
    → is_active m.status ≡ false
    → Moved ms ms'
    → In m ms
    → In m ms'
Moved-In m over none_left i = elim i [ ]
Moved-In m over (stays v) (here e) = here e
Moved-In m over (stays v) (there i) = there (Moved-In m over v i)
Moved-In m over (moves x v) (here e) =
    let k = MissionStep-is_active x.step in cc (ap (λ (y : Mission). is_active y.status) e, k, over)
Moved-In m over (moves x v) (there i) = there (Moved-In m over v i)
Moved-In m over (removed p v) (here e) =
    cc (ap (λ (y : Mission). is_active y.status) e, ap is_active p, over)
Moved-In m over (removed p v) (there i) = Moved-In m over v i

In-append : (m n : Mission) (ms : List Mission) → In m ms → In m (ms ++ (n ∷ []))
In-append m n [] i = elim i [ ]
In-append m n (x ∷ ms) (here e) = here e
In-append m n (x ∷ ms) (there i) = there (In-append m n ms i)

Enqueued-In :
    (x : Mission) (m : Mission) (a : AgentEntry) (w : World) (p : Outcome ℕ × World)
    → Enqueued m a w p
    → In x w.missions
    → In x p.1.missions
Enqueued-In x m a w (err e, w') h i = rw h.2 i
Enqueued-In x m a w (ok id, w') h i =
    rw h.3 (In-append x (new_row id (w.clock (w.calls + 1 + 1)) m) w.missions i)

module _ (m : Mission) (over : is_active m.status ≡ false) where
  run_call-In :
      (c : QueueCall) (w : World) → Sound w → In m w.missions → In m (run_call c w).missions
  run_call-In (enqueues n a) w s i = Enqueued-In m n a w (enqueue n a w) (enqueue_atomic n a w) i
  run_call-In (tries_claim locked worker) w s i =
      Moved-In m over
        (claimed-Moved w locked worker (try_claim locked worker w)
          (λ n j. Unique-found w.missions n s.0 j) (try_claim_best locked worker w))
        i
  run_call-In (acks id) w s i = Moved-In m over (ack-Moved w id) i
  run_call-In (cancels_it id) w s i = Moved-In m over (cancel-Moved w id) i
  run_call-In (fails_it id reason) w s i = Moved-In m over (fail-Moved w id reason) i
  run_call-In (reclaims_stuck lease) w s i = Moved-In m over (reclaim_stuck-Moved w lease) i

  -- Where numbers and dedupe keys are unique and the sequence is ahead, a mission that is completed,
  -- failed or cancelled is left as it is by any calls of the queue, whichever of them fail.
  pub run_calls-keeps_finished :
      (cs : List QueueCall) (w : World) → Sound w → In m w.missions → In m (run_calls cs w).missions
  run_calls-keeps_finished [] w s i = i
  run_calls-keeps_finished (c ∷ cs) w s i =
      run_calls-keeps_finished cs (run_call c w) (run_call-Sound c w s) (run_call-In c w s i)
