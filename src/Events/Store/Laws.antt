-- ===== src/Events/Store/Laws.antt =====
-- The history of each agent and the methods of `EventStore` in internal/events/ring.go.
use fracta.Common.{
  ℕ, ℤ, pos, Duration, Time, String, same, same→≡, length, take, Bool-cases, inl, inr, Option, none,
  some, List, [], ◌∷◌, ◌≡◌, refl, sym, ap, ◌∙◌, if◌then◌else◌, reverse, lookup, lookup-put,
  lookup-put_other, lookup-drop_key, lookup-drop_key_other,
}
use fracta.Events.{Event}
use fracta.Events.Ring.{AgentRing, ring_capacity, new_agent_ring, append_event, recent, since}
use fracta.Events.Ring.Laws.{
  length-append_event, length-new_agent_ring, ring_capacity_twice, take-nil, recent-last_events,
  after, since-after,
}
use fracta.Events.Ring.Laws.Contents.{Holds, new_agent_ring-Holds, append_event-Holds, last_events}
use fracta.Events.Store.{
  EventStore, new_event_store, ring_or_new, append, recent_of, since_of, remove_ring, mark_terminal,
}

-- The calls that change a store, and their effect on it; the last call is first in a list of them.
pub data StoreCall : Type 0 where
  appended : String → Event → StoreCall
  removed : String → StoreCall
  marked : String → Time → StoreCall

abbrev pub run_call : StoreCall → EventStore → EventStore
run_call (appended task e) s = append s task e
run_call (removed task) s = remove_ring s task
run_call (marked task at) s = mark_terminal s task at

abbrev pub run_calls : List StoreCall → EventStore → EventStore
run_calls [] s = s
run_calls (c ∷ cs) s = run_call c (run_calls cs s)

-- The events of a task since it was last removed, the newest first.
abbrev pub history : String → List StoreCall → List Event
history task [] = []
history task (appended t e ∷ cs) = if same t task then e ∷ history task cs else history task cs
history task (removed t ∷ cs) = if same t task then [] else history task cs
history task (marked t at ∷ cs) = history task cs

-- A ring that may be absent has this history.
abbrev RingHolds : ℕ → Option AgentRing → List Event → Type 0
RingHolds cap none h = h ≡ []
RingHolds cap (some r) h = Holds r h × (length r.events ≡ cap)

ring_or_new-RingHolds :
    (size : ℤ) (o : Option AgentRing) (h : List Event) (e : Event)
    → RingHolds (ring_capacity size) o h
    → RingHolds
        (ring_capacity size)
        (some (append_event (ring_or_new (pos (ring_capacity size)) o) e))
        (e ∷ h)
ring_or_new-RingHolds size none h e v =
    let r = new_agent_ring (pos (ring_capacity size)) in
    rw v (
      append_event-Holds r [] e (new_agent_ring-Holds (pos (ring_capacity size))),
      length-append_event r e
          ∙ length-new_agent_ring (pos (ring_capacity size))
          ∙ ring_capacity_twice size,
    )
ring_or_new-RingHolds size (some r) h e v =
    (append_event-Holds r h e v.0, length-append_event r e ∙ v.1)

module _ (cap n : ℕ) (id : String) where
  recent-RingHolds :
      (o : Option AgentRing) (h : List Event)
      → RingHolds cap o h
      → (elim o [ none ↦ [] | some r ↦ recent r (pos n) ]) ≡ last_events n (take cap h)
  recent-RingHolds none h v = rw (v, take-nil cap [] refl) (ap reverse (sym (take-nil n [] refl)))
  recent-RingHolds (some r) h v =
      recent-last_events r h n v.0 ∙ ap (λ c. last_events n (take c h)) v.1

  since-RingHolds :
      (o : Option AgentRing) (h : List Event)
      → RingHolds cap o h
      → (elim o [ none ↦ none | some r ↦ since r id ]) ≡ after id (last_events cap h)
  unfolding after
  since-RingHolds none h v = rw (v, take-nil cap [] refl)
  since-RingHolds (some r) h v = since-after r h id v.0 ∙ ap (λ c. after id (last_events c h)) v.1

module _ (size : ℤ) (ttl : Duration) where
  ring_size-run_calls :
      (cs : List StoreCall)
      → (run_calls cs (new_event_store size ttl)).ring_size ≡ pos (ring_capacity size)
  unfolding new_event_store append remove_ring mark_terminal
  ring_size-run_calls [] = refl
  ring_size-run_calls (appended t e ∷ cs) = ring_size-run_calls cs
  ring_size-run_calls (removed t ∷ cs) = ring_size-run_calls cs
  ring_size-run_calls (marked t at ∷ cs) = ring_size-run_calls cs

  -- Every agent's ring has the agent's history.
  run_calls-RingHolds :
      (cs : List StoreCall) (task : String)
      → RingHolds
          (ring_capacity size)
          (lookup task (run_calls cs (new_event_store size ttl)).rings)
          (history task cs)
  unfolding new_event_store append remove_ring mark_terminal lookup
  run_calls-RingHolds [] task = refl
  run_calls-RingHolds (appended t e ∷ cs) task =
      let s = run_calls cs (new_event_store size ttl) in
      elim (Bool-cases (same t task)) [
        | inl mine ↦
            let k = same→≡ t task mine in
            rw (mine, k, lookup-put task, ring_size-run_calls cs)
              (ring_or_new-RingHolds size (lookup task s.rings) (history task cs) e
                (run_calls-RingHolds cs task))
        | inr other ↦
            let k =
              lookup-put_other task t (append_event (ring_or_new s.ring_size (lookup t s.rings)) e)
                s.rings other in
            rw (other, k) (run_calls-RingHolds cs task)
      ]
  run_calls-RingHolds (removed t ∷ cs) task =
      let s = run_calls cs (new_event_store size ttl) in
      elim (Bool-cases (same t task)) [
        | inl mine ↦ rw (mine, same→≡ t task mine, lookup-drop_key task s.rings)
        | inr other ↦
            rw (other, lookup-drop_key_other task t s.rings other) (run_calls-RingHolds cs task)
      ]
  run_calls-RingHolds (marked t at ∷ cs) task = run_calls-RingHolds cs task

  -- After any appends, removals and marks, `Recent` gives the last n events of the agent since its
  -- last removal, the oldest first, but no more than the capacity.
  pub recent_of-last_events :
      (cs : List StoreCall) (task : String) (n : ℕ)
      → recent_of (run_calls cs (new_event_store size ttl)) task (pos n)
        ≡ last_events n (take (ring_capacity size) (history task cs))
  unfolding recent_of
  recent_of-last_events cs task n =
      recent-RingHolds (ring_capacity size) n ""
        (lookup task (run_calls cs (new_event_store size ttl)).rings) (history task cs)
        (run_calls-RingHolds cs task)

  -- After any appends, removals and marks, `Since` gives nil if no event of this identity is among
  -- those of the agent that the ring still keeps, or the kept events after the first such one.
  pub since_of-after :
      (cs : List StoreCall) (task id : String)
      → since_of (run_calls cs (new_event_store size ttl)) task id
        ≡ after id (last_events (ring_capacity size) (history task cs))
  unfolding since_of
  since_of-after cs task id =
      since-RingHolds (ring_capacity size) 0 id
        (lookup task (run_calls cs (new_event_store size ttl)).rings) (history task cs)
        (run_calls-RingHolds cs task)
