-- ===== src/Events/Store.antt =====
-- The rings of all agents: `EventStore` of internal/events/ring.go. A map is an association list; the
-- mutexes make each method one step.
pub mod Laws
mod Tests
use fracta.Common.{
  ℕ, ◌+◌, ℤ, pos, negsuc, zero, suc, ltb_ℤ, ◌==ℤ◌, time_sub, Time, Duration, String, same, length,
  Bool, Option, none, some, List, [], ◌∷◌, if◌then◌else◌, find_row, select_rows, not, put, lookup,
  drop_key,
}
use fracta.Events.{Event}
use fracta.Events.Ring.{
  AgentRing, ring_capacity, new_agent_ring, append_event, recent, since, make_events, set_event,
  copy_events, event_at, find_event,
}

pub record EventStore : Type 0 where
  pub rings : List (String × AgentRing)
  pub ring_size : ℤ
  pub ttl : Duration
  pub terminal_times : List (String × Time)

-- `DefaultRingSize` and 30 minutes stand for a size or a lifetime that is not given.
unfoldable pub new_event_store : ℤ → Duration → EventStore
new_event_store size ttl = record {
  rings = [];
  ring_size = pos (ring_capacity size);
  ttl = if ttl ==ℤ pos 0 then pos 1800000000000 else ttl;
  terminal_times = [];
}

-- The ring of `Append`: that of the task, or a new one.
abbrev pub ring_or_new : ℤ → Option AgentRing → AgentRing
ring_or_new size none = new_agent_ring size
ring_or_new size (some r) = r

-- `Append`
unfoldable pub append : EventStore → String → Event → EventStore
unfolding put lookup append_event new_agent_ring make_events set_event
append s task e = record s {
  rings = put task (append_event (ring_or_new s.ring_size (lookup task s.rings)) e) s.rings;
}

-- `Recent`
unfoldable pub recent_of : EventStore → String → ℤ → List Event
unfolding lookup recent copy_events event_at
recent_of s task n = elim (lookup task s.rings) [ none ↦ [] | some r ↦ recent r n ]

-- `Since`
unfoldable pub since_of : EventStore → String → String → Option (List Event)
unfolding lookup since copy_events event_at find_event
since_of s task id = elim (lookup task s.rings) [ none ↦ none | some r ↦ since r id ]

-- `Remove`
unfoldable pub remove_ring : EventStore → String → EventStore
unfolding drop_key
remove_ring s task = record s {
  rings = drop_key task s.rings;
  terminal_times = drop_key task s.terminal_times;
}

-- `MarkTerminal`
unfoldable pub mark_terminal : EventStore → String → Time → EventStore
unfolding put
mark_terminal s task at = record s { terminal_times = put task at s.terminal_times }

-- `now.Sub(termAt) > s.ttl`
unfoldable pub is_expired : Time → Duration → Time → Bool
unfolding time_sub
is_expired now ttl at = ltb_ℤ ttl (time_sub now at)

-- The loop of `Cleanup` over the entries of `terminalTimes`.
unfoldable pub cleanup_entries : Time → List (String × Time) → EventStore × ℕ → EventStore × ℕ
unfolding is_expired time_sub drop_key
cleanup_entries now [] p = p
cleanup_entries now ((task, at) ∷ m) (s, n) = cleanup_entries now m (
    if is_expired now s.ttl at
    then (
      record s { rings = drop_key task s.rings; terminal_times = drop_key task s.terminal_times },
      n + 1,
    )
    else (s, n))

-- `Cleanup`
unfoldable pub cleanup : EventStore → Time → EventStore × ℕ
unfolding cleanup_entries is_expired time_sub drop_key
cleanup s now = cleanup_entries now s.terminal_times (s, 0)

-- `Handle` of ringsink.go, without the broadcast to the subscribers.
unfoldable pub handle : EventStore → Event → EventStore
unfolding append mark_terminal put lookup append_event new_agent_ring make_events set_event
handle s e =
    if same e.task ""
    then s
    else let s' = append s e.task e in
      if same e.action "lifecycle.completed"
      then mark_terminal s' e.task e.time
      else if same e.action "lifecycle.failed"
      then mark_terminal s' e.task e.time
      else if same e.action "lifecycle.stopped"
      then mark_terminal s' e.task e.time
      else s'
