-- ===== src/Queue/Memory/Order.antt =====
-- What `Enqueue` leaves for `Dequeue`: internal/queue/memory.go.
use fracta.Common.{
  ℕ, ◌+◌, ◌≤◌, ltb, Time, Bool, true, false, ◌&&◌, Bool-cases, inl, inr, none, some, List, [], ◌∷◌,
  ◌++◌, length, ◌≡◌, refl, sym, ap, ◌∙◌, All, find_row, find_row_sound, find_row-update_row,
  find_row-append_new, arith,
}
use fracta.Model.{AgentEntry}
use fracta.World.{World, Outcome, ok, err, now}
use fracta.Agents.Snapshot.{with_lock}
use fracta.Queue.{Mission, is_pending}
use fracta.Queue.Memory.{
  MemoryQueue, with_number, queued_mission, add_agent, after_persist, enqueue, is_waiting,
  claimed_mission, take_waiting, claim_taken, dequeue,
}

-- The numbers of the missions have been given out.
abbrev pub Numbered : MemoryQueue → Type 0
Numbered q = All (λ m. m.id ≤ q.next_id) q.missions

-- The queue with one mission more, which is also the last of the channel.
abbrev pub with_mission : ℕ → Mission → MemoryQueue → MemoryQueue
with_mission id m q = record q {
  next_id = id;
  missions = q.missions ++ (m ∷ []);
  channel = q.channel ++ (id ∷ []);
}

fresh_number :
    (n : ℕ) (ms : List Mission) → All (λ m. m.id ≤ n) ms → find_row (with_number (n + 1)) ms ≡ none
fresh_number n [] a = refl
fresh_number n (m ∷ ms) a =
    let other : with_number (n + 1) m ≡ false = let h = a.0 in ground arith in
    rw other (fresh_number n ms a.1)

after_persist-adds :
    (sends : Bool) (id : ℕ) (at : Time) (m : Mission) (q : MemoryQueue)
    (r : Outcome (Unit {0}) × World) (after : MemoryQueue) (w : World)
    → after_persist sends id at m q r ≡ (ok tt, (after, w))
    → after ≡ with_mission id (queued_mission id at m) q
after_persist-adds sends id at m q (err e, v) after w h =
    let c : err e ≡ ok tt = ap (λ r. r.0) h in cc c
after_persist-adds sends id at m q (ok x, v) after w h =
    elim (Bool-cases (sends && ltb (length q.channel) q.capacity)) [
      | inl sent ↦ sym (ap (λ r. r.1.0) (rw sent at h))
      | inr unsent ↦ let c : err _ ≡ ok tt = ap (λ r. r.0) (rw unsent at h) in cc c
    ]

first_waits :
    (takes : ℕ → Bool) (at : Time) (id : ℕ) (m : Mission) (q : MemoryQueue)
    → takes 0 ≡ true
    → q.channel ≡ id ∷ []
    → find_row (with_number id) q.missions ≡ some m
    → is_pending m.status ≡ true
    → (dequeue takes at q).0 ≡ some (claimed_mission at m)
unfolding dequeue take_waiting
first_waits takes at id m q received one found p =
    let waits : is_waiting (find_row (with_number id) q.missions) ≡ true =
      ap is_waiting found ∙ p in
    let taken : take_waiting takes 0 q.missions q.channel ≡ (some id, []) =
      ap (take_waiting takes 0 q.missions) one ∙ rw (received, waits) refl in
    ap (λ t. (claim_taken at q t).0) taken
    ∙ find_row-update_row (with_number id) (claimed_mission at) q.missions m found
        (find_row_sound (with_number id) q.missions found)

-- A mission that `Enqueue` accepts on a queue whose channel is empty is the one that the next `Dequeue`
-- gives, claimed and with the number that it was given, if its `select` takes from the channel.
pub dequeue-enqueue :
    (sends : Bool) (m : Mission) (a : AgentEntry) (q after : MemoryQueue) (w later : World)
    (takes : ℕ → Bool) (at : Time)
    → takes 0 ≡ true
    → Numbered q
    → q.channel ≡ []
    → enqueue sends m a (q, w) ≡ (ok tt, (after, later))
    → (dequeue takes at after).0
      ≡ some (claimed_mission at (queued_mission (q.next_id + 1) (now w) m))
unfolding enqueue with_lock
dequeue-enqueue sends m a q after w later takes at received numbered empty h =
    let id = q.next_id + 1 in
    let new = queued_mission id (now w) m in
    let e : after ≡ with_mission id new q =
      after_persist-adds sends id (now w) m q (with_lock (add_agent id a) w) after later h in
    let hit : with_number id new ≡ true = ground arith in
    ap (λ x. (dequeue takes at x).0) e
    ∙ first_waits takes at id new (with_mission id new q) received (ap (λ c. c ++ (id ∷ [])) empty)
        (find_row-append_new (with_number id) q.missions new
          (fresh_number q.next_id q.missions numbered) hit)
        refl
