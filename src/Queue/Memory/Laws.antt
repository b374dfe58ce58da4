-- ===== src/Queue/Memory/Laws.antt =====
-- Which missions `Dequeue` gives: internal/queue/memory.go.
use fracta.Common.{
  ℕ, ◌+◌, ◌⊎◌, ◌∙◌, length, arith, Bool, Time, true, false, Bool-cases, Option, none, some,
  Option-cases, List, [], ◌∷◌, ◌++◌, ◌≡◌, refl, ap, inl, inr, All, find_row, find_row_sound,
  find_row-update_row, update_row,
}
use fracta.Queue.{is_pending, Mission}
use fracta.Queue.Memory.{
  MemoryQueue, with_number, claimed_mission, is_waiting, take_waiting, claim_taken, dequeue,
}

-- The mission with the number waits.
abbrev pub Waits : List Mission → ℕ → Type 0
Waits ms id = is_waiting (find_row (with_number id) ms) ≡ true

abbrev pub IsOver : List Mission → ℕ → Type 0
IsOver ms id = is_waiting (find_row (with_number id) ms) ≡ false

-- The first number of the channel whose mission waits, with those in front of it, which do not; or none,
-- as the channel has come to its end or the `select` of a round has not taken from it.
abbrev pub Taken : (ℕ → Bool) → ℕ → List Mission → List ℕ → Option ℕ × List ℕ → Type 0
Taken takes n ms ids (none, left) =
    (skipped : List ℕ) × (ids ≡ skipped ++ left)
    × All (IsOver ms) skipped
    × ((left ≡ []) ⊎ (takes (n + length skipped) ≡ false))
Taken takes n ms ids (some id, left) =
    (skipped : List ℕ) × (ids ≡ skipped ++ (id ∷ left)) × All (IsOver ms) skipped × Waits ms id

Taken-later :
    (takes : ℕ → Bool) (n : ℕ) (ms : List Mission) (id : ℕ) (ids : List ℕ) (p : Option ℕ × List ℕ)
    → IsOver ms id
    → Taken takes (n + 1) ms ids p
    → Taken takes n ms (id ∷ ids) p
Taken-later takes n ms id ids (none, left) h (skipped, e, over, why) = (
  id ∷ skipped,
  ap (λ r. id ∷ r) e,
  (h, over),
  elim why [
    | inl empty ↦ inl empty
    | inr ended ↦
        let round : n + length (id ∷ skipped) ≡ n + 1 + length skipped = omega arith in
        inr (ap takes round ∙ ended)
  ],
)
Taken-later takes n ms id ids (some x, left) h (skipped, e, over, waits) =
    (id ∷ skipped, ap (λ r. id ∷ r) e, (h, over), waits)

pub take_waiting-Taken :
    (takes : ℕ → Bool) (n : ℕ) (ms : List Mission) (ids : List ℕ)
    → Taken takes n ms ids (take_waiting takes n ms ids)
unfolding take_waiting
take_waiting-Taken takes n ms [] = ([], refl, tt, inl refl)
take_waiting-Taken takes n ms (id ∷ ids) = elim (Bool-cases (takes n)) [
  | inr ended ↦
      let first : n + 0 ≡ n = omega arith in rw ended ([], refl, tt, inr (ap takes first ∙ ended))
  | inl received ↦ elim (Bool-cases (is_waiting (find_row (with_number id) ms))) [
    | inl waits ↦ rw (received, waits) ([], refl, tt, waits)
    | inr over ↦
        rw (received, over)
          (Taken-later takes n ms id ids (take_waiting takes (n + 1) ms ids) over
            (take_waiting-Taken takes (n + 1) ms ids))
  ]
]

-- What `Dequeue` gives, and the queue that it leaves.
abbrev pub Dequeued : (ℕ → Bool) → Time → MemoryQueue → Option Mission × MemoryQueue → Type 0
Dequeued takes at q (none, after) =
    (skipped : List ℕ) × (q.channel ≡ skipped ++ after.channel)
    × All (IsOver q.missions) skipped
    × (after.missions ≡ q.missions)
    × ((after.channel ≡ []) ⊎ (takes (length skipped) ≡ false))
Dequeued takes at q (some m, after) =
    (id : ℕ) × (waiting : Mission) × (skipped : List ℕ) × (q.channel
      ≡ skipped ++ (id ∷ after.channel))
    × All (IsOver q.missions) skipped
    × (find_row (with_number id) q.missions ≡ some waiting)
    × (is_pending waiting.status ≡ true)
    × (m ≡ claimed_mission at waiting)
    × (find_row (with_number id) after.missions ≡ some m)

found-Dequeued :
    (takes : ℕ → Bool) (at : Time) (q : MemoryQueue) (id : ℕ) (left : List ℕ) (waiting : Mission)
    (o : Option Mission) (ms : List Mission)
    → find_row (with_number id) ms ≡ o
    → o ≡ some (claimed_mission at waiting)
    → find_row (with_number id) q.missions ≡ some waiting
    → Taken takes 0 q.missions q.channel (some id, left)
    → Dequeued takes at q (o, record q { channel = left; missions = ms })
found-Dequeued takes at q id left waiting none ms l e found t = cc
found-Dequeued takes at q id left waiting (some m) ms l e found (skipped, split, over, waits) =
    let pending_status : is_pending waiting.status ≡ true = rw found at waits in
    let same_mission : m ≡ claimed_mission at waiting = cc e in
    (id, waiting, skipped, split, over, found, pending_status, same_mission, l)

claim_taken-Dequeued :
    (takes : ℕ → Bool) (at : Time) (q : MemoryQueue) (p : Option ℕ × List ℕ)
    → Taken takes 0 q.missions q.channel p
    → Dequeued takes at q (claim_taken at q p)
claim_taken-Dequeued takes at q (none, left) (skipped, split, over, why) = (
  skipped,
  split,
  over,
  refl,
  elim why [
    | inl empty ↦ inl empty
    | inr ended ↦
        let round : length skipped ≡ 0 + length skipped = omega arith in
        inr (ap takes round ∙ ended)
  ],
)
claim_taken-Dequeued takes at q (some id, left) (skipped, split, over, waits) =
    elim (Option-cases (find_row (with_number id) q.missions)) [
      | inl absent ↦ cc (rw absent at waits)
      | inr (m, found) ↦
          let ms = update_row (with_number id) (claimed_mission at) q.missions in
          let k : with_number id m ≡ true = find_row_sound (with_number id) q.missions found in
          found-Dequeued takes at q id left m (find_row (with_number id) ms) ms refl
            (find_row-update_row (with_number id) (claimed_mission at) q.missions m found k) found
            (skipped, split, over, waits)
    ]

-- `Dequeue` claims the first mission of the channel that waits, and takes off only missions in front of
-- it, which do not; it gives none only if it has come to the end of the channel, or the context or the
-- closing of the queue has ended it, and it has then taken off only missions that do not wait.
pub dequeue-Dequeued :
    (takes : ℕ → Bool) (at : Time) (q : MemoryQueue) → Dequeued takes at q (dequeue takes at q)
unfolding dequeue
dequeue-Dequeued takes at q =
    claim_taken-Dequeued takes at q (take_waiting takes 0 q.missions q.channel)
      (take_waiting-Taken takes 0 q.missions q.channel)
