-- ===== src/Events/Ring/Laws/Contents.antt =====
-- A ring and its history: `Append` of internal/events/ring.go.
use native.Mathlib.Nat.{suc-mod}
use fracta.Common.{
  ℕ, zero, suc, ◌+◌, ◌-◌, ◌%◌, ◌≤◌, ◌<◌, ltb, ℤ, pos, negsuc, length, take, List, [], ◌∷◌, ◌++◌,
  reverse, reverse-cons, ◌≡◌, ◌≢◌, refl, sym, ap, ◌∙◌, arith, if◌then◌else◌,
}
use fracta.Events.{Event}
use fracta.Events.Ring.{
  AgentRing, make_events, event_at, set_event, ring_capacity, new_agent_ring, append_event,
  copy_events,
}
use fracta.Events.Ring.Laws.Positions.{behind, next_head-<, behind_next, behind_next-suc, behind-≢}

pub length-set_event : (es : List Event) (i : ℕ) (e : Event) → length (set_event es i e) ≡ length es
unfolding set_event
length-set_event [] i e = refl
length-set_event (x ∷ es) zero e = refl
length-set_event (x ∷ es) (suc i) e = ap suc (length-set_event es i e)

pub event_at-set_event :
    (es : List Event) (i : ℕ) (e : Event) → i < length es → event_at (set_event es i e) i ≡ e
unfolding set_event event_at
event_at-set_event [] i e h = ground arith
event_at-set_event (x ∷ es) zero e h = refl
event_at-set_event (x ∷ es) (suc i) e h = event_at-set_event es i e (omega arith)

pub event_at-set_event_other :
    (es : List Event) (i j : ℕ) (e : Event) → j ≢ i → event_at (set_event es i e) j ≡ event_at es j
unfolding set_event event_at
event_at-set_event_other [] i j e h = refl
event_at-set_event_other (x ∷ es) zero zero e h = ground arith
event_at-set_event_other (x ∷ es) zero (suc j) e h = refl
event_at-set_event_other (x ∷ es) (suc i) zero e h = refl
event_at-set_event_other (x ∷ es) (suc i) (suc j) e h =
    event_at-set_event_other es i j e (λ k. h (ap suc k))

pub length-make_events : (n : ℕ) → length (make_events n) ≡ n
unfolding make_events
length-make_events zero = refl
length-make_events (suc n) = ap suc (length-make_events n)

-- The ring has this history, the newest event first.
pub record Holds (r : AgentRing) (h : List Event) : Type 0 where
  pub in_range : r.head < length r.events
  pub counted : r.count ≡ (if ltb (length h) (length r.events) then length h else length r.events)
  pub contents :
      (j : ℕ) → j < r.count → event_at r.events (behind (length r.events) r.head j) ≡ event_at h j

pub capacity-< : (size : ℤ) → 0 < ring_capacity size
capacity-< (pos zero) = omega arith
capacity-< (pos (suc n)) = omega arith
capacity-< (negsuc n) = omega arith

pub new_agent_ring-Holds : (size : ℤ) → Holds (new_agent_ring size) []
unfolding new_agent_ring
new_agent_ring-Holds size =
    let e = length-make_events (ring_capacity size) in
    let p = capacity-< size in
    record { in_range = rw e p; counted = ground arith; contents = λ j k. ground arith }

-- The new event is one step behind the new head, the others are one step further.
pub appended-contents :
    (r : AgentRing) (h : List Event) (e : Event) (j : ℕ)
    → Holds r h
    → j < (if ltb r.count (length r.events) then r.count + 1 else r.count)
    → event_at
        (set_event r.events r.head e)
        (behind (length r.events) ((r.head + 1) % length r.events) j)
      ≡ event_at (e ∷ h) j
unfolding event_at
appended-contents r h e zero s k =
    rw (behind_next (length r.events) r.head s.in_range)
      (event_at-set_event r.events r.head e s.in_range)
appended-contents r h e (suc j) s k =
    let cap = length r.events in
    let c = s.counted in
    let below : suc j < cap = ground arith in
    let old : j < r.count = ground arith in
    rw (behind_next-suc cap r.head s.in_range j below) (
      event_at-set_event_other r.events r.head (behind cap r.head j) e
        (behind-≢ cap r.head s.in_range j below)
      ∙ s.contents j old)

pub append_event-Holds :
    (r : AgentRing) (h : List Event) (e : Event) → Holds r h → Holds (append_event r e) (e ∷ h)
unfolding append_event event_at
append_event-Holds r h e s =
    let cap = length r.events in
    let l = length-set_event r.events r.head e in
    record {
      in_range = rw l (next_head-< cap r.head s.in_range);
      counted = let c = s.counted in rw l (ground arith);
      contents = λ j k. rw l (appended-contents r h e j s k);
    }

-- The last n of a history, in the order in which they happened.
abbrev pub last_events : ℕ → List Event → List Event
last_events n h = reverse (take n h)

pub last_events-suc :
    (n : ℕ) (h : List Event) → n < length h → last_events (suc n) h ≡ event_at h n ∷ last_events n h
unfolding event_at
last_events-suc n [] k = ground arith
last_events-suc zero (x ∷ h) k = refl
last_events-suc (suc n) (x ∷ h) k =
    reverse-cons x (take (suc n) h)
    ∙ ap (λ es. es ++ (x ∷ [])) (last_events-suc n h (omega arith))
    ∙ ap (λ es. event_at h n ∷ es) (sym (reverse-cons x (take n h)))

-- The loop that copies the last n events, from any start that stands for the right position.
pub copy_events-last :
    (r : AgentRing) (h : List Event) (s n : ℕ)
    → Holds r h
    → n ≤ r.count
    → s % length r.events ≡ (r.head + length r.events - n) % length r.events
    → copy_events r.events s n ≡ last_events n h
unfolding copy_events
copy_events-last r h s zero v k e = refl
copy_events-last r h s (suc n) v k e =
    let cap = length r.events in
    let c = v.counted in
    let l : n < length h = ground arith in
    let x : suc (r.head + cap - suc n) ≡ r.head + cap - n = let a = v.in_range in ground arith in
    let next : suc s % cap ≡ (r.head + cap - n) % cap =
      suc-mod s cap
      ∙ ap (λ i. suc i % cap) e
      ∙ sym (suc-mod (r.head + cap - suc n) cap)
      ∙ ap (λ i. i % cap) x in
    let first : event_at r.events (s % cap) ≡ event_at h n =
      ap (event_at r.events) e ∙ v.contents n (omega arith) in
    rw (first, copy_events-last r h (suc s) n v (omega arith) next) (sym (last_events-suc n h l))
