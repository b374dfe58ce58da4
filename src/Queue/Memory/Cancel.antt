-- ===== src/Queue/Memory/Cancel.antt =====
-- What a cancelled mission meets afterwards: internal/queue/memory.go.
use fracta.Common.{
  ℕ, ◌==◌, true, Option, none, some, ◌≡◌, refl, sym, ap, ◌∙◌, find_row, find_row_sound,
  find_row-update_row,
}
use fracta.World.{ok, err}
use fracta.Queue.{MissionStatus, pending, claimed, completed, failed, cancelled, Mission}
use fracta.Queue.Memory.{
  MemoryQueue, with_number, completed_mission, store_change, change, ack, cancelled_by_status,
  cancel, status, status_found,
}

-- The mission with the number is there and cancelled.
abbrev pub Cancelled : ℕ → MemoryQueue → Type 0
Cancelled id q =
    (m : Mission) × (find_row (with_number id) q.missions ≡ some m)
    × (m.status ≡ cancelled)
    × (with_number id m ≡ true)

pub cancelled_by_status-cancels :
    (s : MissionStatus) (m n : Mission)
    → cancelled_by_status s m ≡ some n
    → (n.status ≡ cancelled) × (n.id ≡ m.id)
cancelled_by_status-cancels pending m n h =
    let e : record m { status = cancelled } ≡ n = cc h in
    (ap (λ x. x.status) (sym e), ap (λ x. x.id) (sym e))
cancelled_by_status-cancels claimed m n h =
    let e : record m { status = cancelled } ≡ n = cc h in
    (ap (λ x. x.status) (sym e), ap (λ x. x.id) (sym e))
cancelled_by_status-cancels completed m n h = cc
cancelled_by_status-cancels failed m n h = cc
cancelled_by_status-cancels cancelled m n h = cc

store_change-Cancelled :
    (id : ℕ) (q after : MemoryQueue) (m : Mission) (o : Option Mission)
    → find_row (with_number id) q.missions ≡ some m
    → ((n : Mission) → o ≡ some n → (n.status ≡ cancelled) × (n.id ≡ m.id))
    → store_change id q o ≡ (ok tt, after)
    → Cancelled id after
store_change-Cancelled id q after m none found k h = let e : err _ ≡ ok tt = ap (λ r. r.0) h in cc e
store_change-Cancelled id q after m (some n) found k h =
    let keeps : with_number id n ≡ true =
      ap (λ i. i == id) (k n refl).1 ∙ find_row_sound (with_number id) q.missions found in
    let e : find_row (with_number id) after.missions ≡ some n =
      ap (λ r. find_row (with_number id) r.1.missions) (sym h)
      ∙ find_row-update_row (with_number id) (λ _. n) q.missions m found keeps in
    (n, e, (k n refl).0, keeps)

change-Cancelled :
    (id : ℕ) (q after : MemoryQueue) (o : Option Mission)
    → find_row (with_number id) q.missions ≡ o
    → change id (λ m. cancelled_by_status m.status m) q o ≡ (ok tt, after)
    → Cancelled id after
change-Cancelled id q after none found h = let e : err _ ≡ ok tt = ap (λ r. r.0) h in cc e
change-Cancelled id q after (some m) found h =
    store_change-Cancelled id q after m (cancelled_by_status m.status m) found
      (cancelled_by_status-cancels m.status m) h

pub cancel-Cancelled :
    (id : ℕ) (q after : MemoryQueue) → cancel id q ≡ (ok tt, after) → Cancelled id after
unfolding cancel
cancel-Cancelled id q after h =
    change-Cancelled id q after (find_row (with_number id) q.missions) refl h

ack_found :
    (id : ℕ) (q : MemoryQueue) (m : Mission) (o : Option Mission)
    → o ≡ some m
    → find_row (with_number id) q.missions ≡ some m
    → with_number id m ≡ true
    → let after = change id (λ m. some (completed_mission m)) q o in
      (after.0 ≡ ok tt) × (find_row (with_number id) after.1.missions ≡ some (completed_mission m))
ack_found id q m none e found k = cc
ack_found id q m (some n) e found k =
    let d : n ≡ m = cc e in
    let keeps : with_number id n ≡ true = ap (with_number id) d ∙ k in
    (
      refl,
      find_row-update_row (with_number id) (λ _. completed_mission n) q.missions m found keeps
          ∙ ap (λ x. some (completed_mission x)) d,
    )

-- A mission that a `Cancel` has cancelled is completed by an `Ack`, which succeeds.
pub cancel-ack :
    (id : ℕ) (q after : MemoryQueue)
    → cancel id q ≡ (ok tt, after)
    → (status id after ≡ ok cancelled)
      × ((ack id after).0 ≡ ok tt)
      × (status id (ack id after).1 ≡ ok completed)
unfolding ack status
cancel-ack id q after h =
    let (m, found, over, k) = cancel-Cancelled id q after h in
    let (success, e) =
      ack_found id after m (find_row (with_number id) after.missions) found found k in
    (ap status_found found ∙ ap ok over, success, ap status_found e)
