-- ===== src/Events/Store/Tests.antt =====
-- The event store at a concrete sequence of calls.
use fracta.Common.{pos, String, ◌≡◌, refl, List, [], ◌∷◌, take}
use fracta.Events.{Event}
use fracta.Events.Ring.{zero_event, ring_capacity}
use fracta.Events.Ring.Laws.{after}
use fracta.Events.Ring.Laws.Contents.{last_events}
use fracta.Events.Store.{new_event_store, recent_of, since_of}
use fracta.Events.Store.Laws.{
  StoreCall, appended, removed, marked, run_calls, history, recent_of-last_events, since_of-after,
}

abbrev event : String → String → Event
event id task = record zero_event { id = id; task = task; action = "lifecycle.started" }

-- The last call first: a ring of two takes three events after a removal.
abbrev calls : List StoreCall
calls =
    appended "a" (event "e4" "a")
    ∷ marked "a" (pos 7)
    ∷ appended "a" (event "e3" "a")
    ∷ appended "b" (event "f1" "b")
    ∷ appended "a" (event "e2" "a")
    ∷ removed "a"
    ∷ appended "a" (event "e1" "a")
    ∷ []

recent_of-last_events_example :
    recent_of (run_calls calls (new_event_store (pos 2) (pos 0))) "a" (pos 5)
    ≡ last_events 5 (take (ring_capacity (pos 2)) (history "a" calls))
recent_of-last_events_example = recent_of-last_events (pos 2) (pos 0) calls "a" 5

since_of-after_example :
    since_of (run_calls calls (new_event_store (pos 2) (pos 0))) "a" "e3"
    ≡ after "e3" (last_events (ring_capacity (pos 2)) (history "a" calls))
since_of-after_example = since_of-after (pos 2) (pos 0) calls "a" "e3"

kept_events :
    last_events 5 (take (ring_capacity (pos 2)) (history "a" calls))
    ≡ event "e3" "a" ∷ event "e4" "a" ∷ []
kept_events = refl
