-- ===== src/Events/Ring/Laws.antt =====
-- A ring and its history: `Recent` and `Since` of internal/events/ring.go.
mod Positions
pub mod Contents
use native.Mathlib.Nat.{suc-mod, mod-mod}
use fracta.Common.{
  ℕ, zero, suc, ◌+◌, ◌-◌, ◌%◌, ◌≤◌, ◌<◌, ltb, leb, ℤ, pos, negsuc, String, same, length, take,
  take-take, take_all, length-take-≤, Bool, true, false, Bool-cases, ◌⊎◌, inl, inr, Option, none,
  some, List, [], ◌∷◌, ◌++◌, reverse, reverse-cons, ◌≡◌, ◌≢◌, refl, sym, ap, ◌∙◌, arith,
  if◌then◌else◌,
}
use mathlib.Core.Option
use fracta.Events.{Event}
use fracta.Events.Ring.{
  zero_event, AgentRing, make_events, event_at, set_event, ring_capacity, new_agent_ring,
  append_event, copy_events, recent_events, recent, find_event, since_found, since,
}
use fracta.Events.Ring.Laws.Positions.{behind, next_head-<, behind_next, behind_next-suc, behind-≢}
use fracta.Events.Ring.Laws.Contents.{
  length-set_event, event_at-set_event, event_at-set_event_other, length-make_events, Holds,
  capacity-<, new_agent_ring-Holds, appended-contents, append_event-Holds, last_events,
  last_events-suc, copy_events-last,
}

-- The number of events that `recent` takes.
take_asked :
    (cap count n : ℕ) (h : List Event)
    → count ≡ (if ltb (length h) cap then length h else cap)
    → take (if ltb count n then count else n) h ≡ take n (take cap h)
take_asked cap count n h c = elim (Bool-cases (ltb (length h) cap)) [
  | inl short ↦
      let e : take cap h ≡ h = take_all cap h (ground arith) in
      rw e (elim (Bool-cases (ltb count n)) [
        | inl many ↦ rw many (take_all count h (ground arith) ∙ sym (take_all n h (ground arith)))
        | inr few ↦ rw few
      ])
  | inr long ↦
      let e : count ≡ cap = rw long at c in
      elim (Bool-cases (ltb count n)) [
        | inl many ↦
            let k = length-take-≤ cap h in
            rw (many, e) (sym (take_all n (take cap h) (ground arith)))
        | inr few ↦ rw few (sym (take-take n cap h (ground arith)))
      ]
]

pub take-nil : (n : ℕ) (h : List Event) → length h ≡ 0 → take n h ≡ []
take-nil zero h k = refl
take-nil (suc n) [] k = refl
take-nil (suc n) (x ∷ h) k = ground arith

count_cases : (n : ℕ) → (n ≡ 0) ⊎ ((m : ℕ) × (n ≡ suc m))
count_cases zero = inl refl
count_cases (suc n) = inr (n, refl)

take_counted :
    (r : AgentRing) (h : List Event) → Holds r h → take r.count h ≡ take (length r.events) h
take_counted r h v = elim (Bool-cases (ltb (length h) (length r.events))) [
  | inl short ↦
      let c : r.count ≡ length h = rw short at v.counted in
      rw c (take_all (length h) h (omega arith) ∙ sym (take_all (length r.events) h (ground arith)))
  | inr long ↦ ap (λ n. take n h) (rw long at v.counted)
]

pub recent-last_events :
    (r : AgentRing) (h : List Event) (n : ℕ)
    → Holds r h
    → recent r (pos n) ≡ last_events n (take (length r.events) h)
unfolding recent
recent-last_events r h zero v = refl
recent-last_events r h (suc n) v = elim (count_cases r.count) [
  | inl e ↦
      let c = v.counted in
      let i = v.in_range in
      let k : length h ≡ 0 = ground arith in
      rw (e, recent) (ap (last_events (suc n)) (sym (take-nil (length r.events) h k)))
  | inr (m, e) ↦
      let asked = if ltb r.count (suc n) then r.count else suc n in
      let few : asked ≤ r.count = ground arith in
      let t = take_asked (length r.events) r.count (suc n) h v.counted in
      let copied : recent_events r asked ≡ last_events (suc n) (take (length r.events) h) =
        copy_events-last r h ((r.head + length r.events - asked) % length r.events) asked v few
          (mod-mod (r.head + length r.events - asked) (length r.events))
        ∙ ap reverse t in
      rw (e, recent) copied
]

-- The events that follow the first one with this identity.
unfoldable pub after : String → List Event → Option (List Event)
after id [] = none
after id (e ∷ es) = let rest = after id es in if same e.id id then some es else rest

-- The search finds the position after which the copy continues.
find_event-after :
    (es : List Event) (id : String) (oldest i n : ℕ)
    → Option.map
        (λ f. copy_events es (oldest + f + 1) (i + n - f - 1))
        (find_event es id oldest i n)
      ≡ after id (copy_events es (oldest + i) n)
unfolding find_event copy_events after
find_event-after es id oldest i zero = refl
find_event-after es id oldest i (suc n) =
    elim (Bool-cases (same (event_at es ((oldest + i) % length es)).id id)) [
      | inl found ↦
          let a : oldest + i + 1 ≡ suc (oldest + i) = omega arith in
          let b : i + suc n - i - 1 ≡ n = omega arith in rw (found, a, b)
      | inr other ↦
          let a : oldest + suc i ≡ suc (oldest + i) = omega arith in
          let b : i + suc n ≡ suc i + n = omega arith in
          rw (other, b)
            (find_event-after es id oldest (suc i) n ∙ ap (λ k. after id (copy_events es k n)) a)
    ]

since_found-after :
    (r : AgentRing) (oldest : ℕ) (o : Option ℕ)
    → since_found r oldest o
      ≡ Option.map (λ f. copy_events r.events (oldest + f + 1) (r.count - f - 1)) o
unfolding copy_events
since_found-after r oldest none = refl
since_found-after r oldest (some f) = elim (Bool-cases (leb (r.count - f - 1) 0)) [
  | inl last ↦ let e : r.count - f - 1 ≡ 0 = ground arith in rw e
  | inr more ↦ rw more
]

pub since-after :
    (r : AgentRing) (h : List Event) (id : String)
    → Holds r h
    → since r id ≡ after id (last_events (length r.events) h)
unfolding since after
since-after r h id v = elim (count_cases r.count) [
  | inl e ↦
      let c = v.counted in
      let i = v.in_range in
      let k : length h ≡ 0 = ground arith in
      rw (e, since) (ap (λ es. after id (reverse es)) (sym (take-nil (length r.events) h k)))
  | inr (m, e) ↦
      let cap = length r.events in
      let oldest = (r.head + cap - r.count) % cap in
      let t : oldest + 0 ≡ oldest = omega arith in
      let found =
        since_found-after r oldest (find_event r.events id oldest 0 r.count)
        ∙ (let z : 0 + r.count ≡ r.count = omega arith in
            rw z at (find_event-after r.events id oldest 0 r.count))
        ∙ ap (λ es. after id es)
            (ap (λ s. copy_events r.events s r.count) t
              ∙ copy_events-last r h oldest r.count v (omega arith)
                  (mod-mod (r.head + cap - r.count) cap)
              ∙ ap reverse (take_counted r h v)) in
      rw (e, since) found
]

pub length-append_event :
    (r : AgentRing) (e : Event) → length (append_event r e).events ≡ length r.events
unfolding append_event
length-append_event r e = length-set_event r.events r.head e

pub length-new_agent_ring : (size : ℤ) → length (new_agent_ring size).events ≡ ring_capacity size
unfolding new_agent_ring
length-new_agent_ring size = length-make_events (ring_capacity size)

pub ring_capacity_twice : (size : ℤ) → ring_capacity (pos (ring_capacity size)) ≡ ring_capacity size
ring_capacity_twice (pos zero) = refl
ring_capacity_twice (pos (suc n)) = refl
ring_capacity_twice (negsuc n) = refl
