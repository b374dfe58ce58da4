-- ===== src/Queue/Memory/Past.antt =====
-- That a mission that does not wait stays so: internal/queue/memory.go.
use fracta.Common.{
  ℕ, ◌+◌, ◌≤◌, ltb, ◌==◌, Time, Bool, true, false, ◌&&◌, Bool-cases, inl, inr, Option, none, some,
  Option-cases, List, [], ◌∷◌, ◌++◌, length, ◌≡◌, refl, ap, ◌∙◌, find_row, find_row_sound,
  update_row, find_row-update_row, find_row-append_other, find_row-update_row_other, arith,
}
use fracta.World.{World, Outcome, ok, err}
use fracta.Queue.{is_pending, Mission}
use fracta.Queue.Memory.{
  MemoryQueue, with_number, queued_mission, send, after_persist, is_waiting, claimed_mission,
  claim_taken, store_change, change,
}
use fracta.Queue.Memory.Laws.{IsOver, Taken}

-- The mission with the number does not wait, and its number has been given out.
abbrev pub IsPast : ℕ → MemoryQueue → Type 0
IsPast id q = IsOver q.missions id × (id ≤ q.next_id)

-- A change of one mission, to one that does not wait, leaves no other waiting.
pub update_row-IsOver :
    (id other : ℕ) (f : Mission → Mission) (ms : List Mission) (m : Mission)
    → find_row (with_number other) ms ≡ some m
    → ((r : Mission) → with_number other r ≡ true → with_number other (f r) ≡ true)
    → is_pending (f m).status ≡ false
    → IsOver ms id
    → IsOver (update_row (with_number other) f ms) id
update_row-IsOver id other f ms m found keeps p over = elim (Bool-cases (id == other)) [
  | inl same_number ↦
      let e : id ≡ other = ground arith in
      let k = find_row_sound (with_number other) ms found in
      ap (λ i. is_waiting (find_row (with_number i) (update_row (with_number other) f ms))) e
      ∙ (ap is_waiting (find_row-update_row (with_number other) f ms m found (keeps m k)) ∙ p)
  | inr differ ↦
      ap is_waiting (
        find_row-update_row_other (with_number id) (with_number other) f ms (λ r h. ground arith)
          (λ r h. let k = keeps r h in ground arith))
      ∙ over
]

pub append-IsOver :
    (id : ℕ) (ms : List Mission) (m : Mission)
    → with_number id m ≡ false
    → IsOver ms id
    → IsOver (ms ++ (m ∷ [])) id
append-IsOver id ms m h over = ap is_waiting (find_row-append_other (with_number id) ms m h) ∙ over

pub send-IsPast :
    (sends : Bool) (id n : ℕ) (q : MemoryQueue) → IsPast id q → IsPast id (send sends n q).1
send-IsPast sends id n q p = elim (Bool-cases (sends && ltb (length q.channel) q.capacity)) [
  | inl sent ↦ rw sent p
  | inr unsent ↦ rw unsent p
]

pub after_persist-IsPast :
    (sends : Bool) (id : ℕ) (at : Time) (m : Mission) (q : MemoryQueue)
    (r : Outcome (Unit {0}) × World)
    → IsPast id q
    → IsPast id (after_persist sends (q.next_id + 1) at m q r).1.0
after_persist-IsPast sends id at m q (err e, w) (over, h) = (over, omega arith)
after_persist-IsPast sends id at m q (ok x, w) (over, h) =
    let n = q.next_id + 1 in
    let new = queued_mission n at m in
    let other : with_number id new ≡ false = ground arith in
    send-IsPast sends id n (record q { next_id = n; missions = q.missions ++ (new ∷ []) })
      (append-IsOver id q.missions new other over, omega arith)

pub store_change-IsPast :
    (id number : ℕ) (q : MemoryQueue) (m : Mission) (o : Option Mission)
    → find_row (with_number number) q.missions ≡ some m
    → ((n : Mission) → o ≡ some n → (is_pending n.status ≡ false) × (n.id ≡ m.id))
    → IsPast id q
    → IsPast id (store_change number q o).1
store_change-IsPast id number q m none found k p = p
store_change-IsPast id number q m (some n) found k (over, h) =
    let keeps : with_number number n ≡ true =
      ap (λ i. i == number) (k n refl).1 ∙ find_row_sound (with_number number) q.missions found in
    (update_row-IsOver id number (λ _. n) q.missions m found (λ r e. keeps) (k n refl).0 over, h)

-- `f` ends the wait of the missions that it changes, and keeps their numbers.
pub change-IsPast :
    (id number : ℕ) (f : Mission → Option Mission) (q : MemoryQueue) (o : Option Mission)
    → ((m n : Mission) → f m ≡ some n → (is_pending n.status ≡ false) × (n.id ≡ m.id))
    → find_row (with_number number) q.missions ≡ o
    → IsPast id q
    → IsPast id (change number f q o).1
change-IsPast id number f q none k found p = p
change-IsPast id number f q (some m) k found p =
    store_change-IsPast id number q m (f m) found (k m) p

pub claim_taken-IsPast :
    (takes : ℕ → Bool) (at : Time) (id : ℕ) (q : MemoryQueue) (p : Option ℕ × List ℕ)
    → Taken takes 0 q.missions q.channel p
    → IsPast id q
    → IsPast id (claim_taken at q p).1
claim_taken-IsPast takes at id q (none, left) t p = p
claim_taken-IsPast takes at id q (some number, left) (skipped, split, past, waits) (over, h) =
    elim (Option-cases (find_row (with_number number) q.missions)) [
      | inl absent ↦ cc (rw absent at waits)
      | inr (m, found) ↦ (
        update_row-IsOver id number (claimed_mission at) q.missions m found (λ r e. e) refl over,
        h,
      )
    ]
