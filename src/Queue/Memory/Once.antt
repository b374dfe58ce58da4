-- ===== src/Queue/Memory/Once.antt =====
-- That no mission is given to two workers: internal/queue/memory.go, over any sequence of calls.
use fracta.Common.{
  ℕ, ◌+◌, ◌≤◌, Time, String, Bool, true, false, Option, none, some, List, [], ◌∷◌, ◌≡◌, ◌≢◌, refl,
  sym, ap, ◌∙◌, All-find_row, find_row, find_row_sound, arith,
}
use fracta.Model.{AgentEntry}
use fracta.World.{World, ok, now}
use fracta.Agents.Snapshot.{with_lock}
use fracta.Queue.{is_pending, Mission}
use fracta.Queue.Memory.{
  MemoryQueue, with_number, add_agent, enqueue, is_waiting, claim_taken, take_waiting, dequeue,
  completed_mission, failed_mission, ack, fail, cancelled_by_status, cancel,
}
use fracta.Queue.Memory.Laws.{take_waiting-Taken, Dequeued, dequeue-Dequeued}
use fracta.Queue.Memory.Cancel.{Cancelled, cancel-Cancelled, cancelled_by_status-cancels}
use fracta.Queue.Memory.Order.{Numbered}
use fracta.Queue.Memory.Past.{IsPast, after_persist-IsPast, change-IsPast, claim_taken-IsPast}

-- The calls on the queue; each takes what its environment chooses.
pub data MemoryCall : Type 0 where
  enqueues : Bool → Mission → AgentEntry → MemoryCall
  dequeues : (ℕ → Bool) → Time → MemoryCall
  acks : ℕ → MemoryCall
  fails_it : ℕ → String → MemoryCall
  cancels_it : ℕ → MemoryCall

unfoldable pub run_call : MemoryCall → MemoryQueue × World → MemoryQueue × World
run_call (enqueues sends m a) (q, w) = (enqueue sends m a (q, w)).1
run_call (dequeues takes at) (q, w) = ((dequeue takes at q).1, w)
run_call (acks id) (q, w) = ((ack id q).1, w)
run_call (fails_it id reason) (q, w) = ((fail id reason q).1, w)
run_call (cancels_it id) (q, w) = ((cancel id q).1, w)

abbrev pub run_calls : List MemoryCall → MemoryQueue × World → MemoryQueue × World
run_calls [] s = s
run_calls (c ∷ cs) s = run_calls cs (run_call c s)

run_call-IsPast :
    (c : MemoryCall) (id : ℕ) (s : MemoryQueue × World) → IsPast id s.0 → IsPast id (run_call c s).0
unfolding run_call enqueue with_lock dequeue ack fail cancel
run_call-IsPast (enqueues sends m a) id (q, w) p =
    after_persist-IsPast sends id (now w) m q (with_lock (add_agent (q.next_id + 1) a) w) p
run_call-IsPast (dequeues takes at) id (q, w) p =
    claim_taken-IsPast takes at id q (take_waiting takes 0 q.missions q.channel)
      (take_waiting-Taken takes 0 q.missions q.channel) p
run_call-IsPast (acks number) id (q, w) p =
    change-IsPast id number (λ m. some (completed_mission m)) q
      (find_row (with_number number) q.missions)
      (λ m n e.
        let d : completed_mission m ≡ n = cc e in
        (ap (λ x. is_pending x.status) (sym d), ap (λ x. x.id) (sym d)))
      refl p
run_call-IsPast (fails_it number reason) id (q, w) p =
    change-IsPast id number (λ m. some (failed_mission reason m)) q
      (find_row (with_number number) q.missions)
      (λ m n e.
        let d : failed_mission reason m ≡ n = cc e in
        (ap (λ x. is_pending x.status) (sym d), ap (λ x. x.id) (sym d)))
      refl p
run_call-IsPast (cancels_it number) id (q, w) p =
    change-IsPast id number (λ m. cancelled_by_status m.status m) q
      (find_row (with_number number) q.missions)
      (λ m n e. let k = cancelled_by_status-cancels m.status m n e in (ap is_pending k.0, k.1)) refl
      p

run_calls-IsPast :
    (cs : List MemoryCall) (id : ℕ) (s : MemoryQueue × World)
    → IsPast id s.0
    → IsPast id (run_calls cs s).0
run_calls-IsPast [] id s p = p
run_calls-IsPast (c ∷ cs) id s p = run_calls-IsPast cs id (run_call c s) (run_call-IsPast c id s p)

-- A mission that was given is claimed.
claimed-IsPast :
    (takes : ℕ → Bool) (at : Time) (q after : MemoryQueue) (m : Mission)
    → Numbered q
    → after.next_id ≡ q.next_id
    → Dequeued takes at q (some m, after)
    → IsPast m.id after
claimed-IsPast takes at q after m n same_count (id, waiting, skipped, split, over, found, p, e, l) =
    let k : with_number id waiting ≡ true = find_row_sound (with_number id) q.missions found in
    let number : waiting.id ≡ id = ground arith in
    let given : m.id ≡ id = ap (λ x. x.id) e ∙ number in
    let bound : waiting.id ≤ q.next_id =
      All-find_row (λ x. x.id ≤ q.next_id) (with_number id) q.missions n found in
    (
      ap (λ i. is_waiting (find_row (with_number i) after.missions)) given
          ∙ (ap is_waiting l ∙ ap (λ x. is_pending x.status) e),
      ground arith,
    )

-- `Dequeue` gives no mission that does not wait.
gives_another :
    (takes : ℕ → Bool) (at : Time) (id : ℕ) (q after : MemoryQueue) (m : Mission)
    → IsPast id q
    → Dequeued takes at q (some m, after)
    → m.id ≢ id
gives_another takes at id q after m (past, h)
      (number, waiting, skipped, split, over, found, p, e, l) same_id =
    let k : with_number number waiting ≡ true =
      find_row_sound (with_number number) q.missions found in
    let same_number : number ≡ waiting.id = ground arith in
    let d : number ≡ id = same_number ∙ (sym (ap (λ x. x.id) e) ∙ same_id) in
    let b : is_pending waiting.status ≡ false =
      sym (ap is_waiting found)
      ∙ (ap (λ i. is_waiting (find_row (with_number i) q.missions)) d ∙ past) in
    cc (p, b)

claim_taken_count :
    (at : Time) (q : MemoryQueue) (p : Option ℕ × List ℕ)
    → (claim_taken at q p).1.next_id ≡ q.next_id
claim_taken_count at q (none, left) = refl
claim_taken_count at q (some id, left) = refl

dequeue_count :
    (takes : ℕ → Bool) (at : Time) (q : MemoryQueue) → (dequeue takes at q).1.next_id ≡ q.next_id
unfolding dequeue
dequeue_count takes at q = claim_taken_count at q (take_waiting takes 0 q.missions q.channel)

-- A mission that `Dequeue` has given is not given by a later `Dequeue`, whatever calls are made between.
pub dequeue-once :
    (takes again : ℕ → Bool) (first second : Time) (cs : List MemoryCall)
    (q after later : MemoryQueue) (w : World) (m n : Mission)
    → Numbered q
    → dequeue takes first q ≡ (some m, after)
    → dequeue again second (run_calls cs (after, w)).0 ≡ (some n, later)
    → n.id ≢ m.id
dequeue-once takes again first second cs q after later w m n numbered h k =
    let given : Dequeued takes first q (some m, after) = rw h at (dequeue-Dequeued takes first q) in
    let between = (run_calls cs (after, w)).0 in
    let later_given : Dequeued again second between (some n, later) =
      rw k at (dequeue-Dequeued again second between) in
    let same_count : after.next_id ≡ q.next_id =
      ap (λ r. r.1.next_id) (sym h) ∙ dequeue_count takes first q in
    let past : IsPast m.id after = claimed-IsPast takes first q after m numbered same_count given in
    gives_another again second m.id between later n (run_calls-IsPast cs m.id (after, w) past)
      later_given

Cancelled-IsPast : (id : ℕ) (q : MemoryQueue) → Numbered q → Cancelled id q → IsPast id q
Cancelled-IsPast id q numbered (m, found, over, k) =
    let bound : m.id ≤ q.next_id =
      All-find_row (λ x. x.id ≤ q.next_id) (with_number id) q.missions numbered found in
    (ap is_waiting found ∙ ap is_pending over, ground arith)

-- A mission that a `Cancel` has cancelled is not given by a later `Dequeue`, whatever calls are made
-- between.
pub dequeue-cancel :
    (takes : ℕ → Bool) (at : Time) (cs : List MemoryCall) (id : ℕ) (q after later : MemoryQueue)
    (w : World) (n : Mission)
    → Numbered after
    → cancel id q ≡ (ok tt, after)
    → dequeue takes at (run_calls cs (after, w)).0 ≡ (some n, later)
    → n.id ≢ id
dequeue-cancel takes at cs id q after later w n numbered h k =
    let between = (run_calls cs (after, w)).0 in
    let given : Dequeued takes at between (some n, later) =
      rw k at (dequeue-Dequeued takes at between) in
    let past = Cancelled-IsPast id after numbered (cancel-Cancelled id q after h) in
    gives_another takes at id between later n (run_calls-IsPast cs id (after, w) past) given
