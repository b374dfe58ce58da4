-- ===== src/Events/Ring.antt =====
-- The ring buffer of one agent: `AgentRing` of internal/events/ring.go. The mutex makes each method
-- one step.
pub mod Laws
use fracta.Common.{
  ℕ, zero, suc, ◌+◌, ◌-◌, ◌%◌, ltb, leb, ℤ, pos, negsuc, String, same, length, Bool, Option, none,
  some, List, [], ◌∷◌, if◌then◌else◌,
}
use fracta.Events.{Event}

-- The zero `Event`.
abbrev pub zero_event : Event
zero_event = record {
  id = "";
  time = pos 0;
  component = "";
  category = "";
  resource = "";
  action = "";
  outcome = "";
  severity = "";
  task = "";
  mission_id = 0;
  objective_id = "";
  detail = "";
  attrs = [];
}

pub record AgentRing : Type 0 where
  pub events : List Event
  pub head : ℕ
  pub count : ℕ

-- `make([]Event, n)`
unfoldable pub make_events : ℕ → List Event
make_events zero = []
make_events (suc n) = zero_event ∷ make_events n

-- `events[i]`; every index is below the length, so that the first clause is not used.
unfoldable pub event_at : List Event → ℕ → Event
event_at [] i = zero_event
event_at (e ∷ es) zero = e
event_at (e ∷ es) (suc i) = event_at es i

-- `events[i] = e`
unfoldable pub set_event : List Event → ℕ → Event → List Event
set_event [] i e = []
set_event (x ∷ es) zero e = e ∷ es
set_event (x ∷ es) (suc i) e = x ∷ set_event es i e

abbrev pub default_ring_size : ℕ
default_ring_size = 100

-- `if size <= 0 { size = DefaultRingSize }`
abbrev pub ring_capacity : ℤ → ℕ
ring_capacity (pos zero) = default_ring_size
ring_capacity (pos (suc n)) = suc n
ring_capacity (negsuc _) = default_ring_size

-- `NewAgentRing`
unfoldable pub new_agent_ring : ℤ → AgentRing
unfolding make_events
new_agent_ring size = record { events = make_events (ring_capacity size); head = 0; count = 0 }

-- `Append`
unfoldable pub append_event : AgentRing → Event → AgentRing
unfolding set_event
append_event r e =
    let cap = length r.events in
    record {
      events = set_event r.events r.head e;
      head = (r.head + 1) % cap;
      count = if ltb r.count cap then r.count + 1 else r.count;
    }

-- `for i := 0; i < n; i++ { result[i] = r.events[(start+i)%cap] }`
unfoldable pub copy_events : List Event → ℕ → ℕ → List Event
copy_events es start zero = []
copy_events es start (suc n) = event_at es (start % length es) ∷ copy_events es (suc start) n

-- The last n, for an n from 1 to the count.
abbrev pub recent_events : AgentRing → ℕ → List Event
recent_events r n = let cap = length r.events in copy_events r.events ((r.head + cap - n) % cap) n

-- `Recent`; nil and an empty slice are both the empty list.
unfoldable pub recent : AgentRing → ℤ → List Event
unfolding copy_events event_at
recent r (negsuc _) = []
recent r (pos zero) = []
recent r (pos (suc n)) = elim r.count [
  | zero ↦ []
  | suc c ↦ recent_events r (if ltb r.count (suc n) then r.count else suc n)
]

-- The search of `Since`: i is the position from the oldest, n the number of positions left.
unfoldable pub find_event : List Event → String → ℕ → ℕ → ℕ → Option ℕ
unfolding event_at
find_event es id oldest i zero = none
find_event es id oldest i (suc n) =
    let rest = find_event es id oldest (suc i) n in
    if same (event_at es ((oldest + i) % length es)).id id then some i else rest

abbrev pub since_found : AgentRing → ℕ → Option ℕ → Option (List Event)
since_found r oldest none = none
since_found r oldest (some found) =
    let remaining = r.count - found - 1 in
    if leb remaining 0 then some [] else some (copy_events r.events (oldest + found + 1) remaining)

-- `Since`; `none` is nil.
unfoldable pub since : AgentRing → String → Option (List Event)
unfolding find_event copy_events event_at
since r id =
    let cap = length r.events in
    let oldest = (r.head + cap - r.count) % cap in
    elim r.count [
      | zero ↦ none
      | suc _ ↦ since_found r oldest (find_event r.events id oldest 0 r.count)
    ]

-- `Len`
abbrev pub ring_len : AgentRing → ℕ
ring_len r = r.count
