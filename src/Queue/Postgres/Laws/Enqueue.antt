-- ===== src/Queue/Postgres/Laws/Enqueue.antt =====
-- The transaction of `Enqueue`: internal/queue/postgres.go.
use fracta.Common.{
  ℕ, ◌+◌, ◌≡◌, ap, ◌∙◌, false, [], ◌∷◌, ◌++◌, exists_row, same, arith, Bool-cases, inl, inr,
}
use fracta.Model.{AgentEntry}
use fracta.World.{World, Outcome, ok, err, tick, transaction, Unchanged}
use fracta.World.Laws.{call-eq-ok, continue, >>=-eq-ok, Settled, transaction-Settled}
use fracta.Queue.{Mission}
use fracta.Queue.Postgres.{
  duplicates, new_row, mission_statement, insert_mission, agent_statement, insert_agent,
  insert_both, enqueue,
}

-- The world after the INSERT of a mission.
abbrev with_mission : Mission → World → World
with_mission m w = record w {
  calls = w.calls + 1;
  next_mission = w.next_mission + 1;
  missions = w.missions ++ (new_row w.next_mission (w.clock (w.calls + 1)) m ∷ []);
}

insert_mission_ok :
    (m : Mission) (w : World) {id : ℕ} {w' : World}
    → insert_mission m w ≡ (ok id, w')
    → (exists_row (duplicates m) w.missions ≡ false)
      × (id ≡ w.next_mission)
      × (w' ≡ with_mission m w)
unfolding insert_mission
insert_mission_ok m w h = elim (Bool-cases (exists_row (duplicates m) w.missions)) [
  | inl found ↦ cc (rw found at (call-eq-ok (mission_statement m) w h).1)
  | inr fresh ↦ let e = rw fresh at (call-eq-ok (mission_statement m) w h).1 in (fresh, cc, cc)
]

-- The world after the INSERT of an agent.
abbrev with_agent : AgentEntry → World → World
with_agent a w = record w {
  calls = w.calls + 1;
  agents = w.agents ++ (record a { objective_id = "" } ∷ []);
}

insert_agent_ok :
    (a : AgentEntry) (w : World) {id : ℕ} {w' : World}
    → insert_agent a w ≡ (ok id, w')
    → (exists_row (λ (b : AgentEntry). same b.task a.task) w.agents ≡ false)
      × (id ≡ a.mission_id)
      × (w' ≡ with_agent a w)
unfolding insert_agent
insert_agent_ok a w h = ground (arith, call-eq-ok (agent_statement a) w h)

insert_both_ok :
    (m : Mission) (a : AgentEntry) (w : World) {id : ℕ} {w' : World}
    → insert_both m a w ≡ (ok id, w')
    → (exists_row (duplicates m) w.missions ≡ false)
      × (exists_row (λ (b : AgentEntry). same b.task a.task) w.agents ≡ false)
      × (id ≡ w.next_mission)
      × (w' ≡ with_agent (record a { mission_id = w.next_mission }) (with_mission m w))
unfolding insert_both
insert_both_ok m a w h =
    let (n, v, first, second) =
      >>=-eq-ok (insert_mission m) (λ id. insert_agent (record a { mission_id = id })) w h in
    let (fresh, en, ev) = insert_mission_ok m w first in
    let (new, ei, ew) = insert_agent_ok (record a { mission_id = n }) v second in
    (fresh, cc (ev, new), cc, cc)

-- What has happened, by the outcome: nothing, or one mission and one agent are stored under keys
-- that were free, and the agent has the number of the mission.
abbrev pub Enqueued : Mission → AgentEntry → World → Outcome ℕ × World → Type 0
Enqueued m a w (err _, w') = Unchanged w w'
Enqueued m a w (ok id, w') =
    (id ≡ w.next_mission)
    × (exists_row (duplicates m) w.missions ≡ false)
    × (exists_row (λ (b : AgentEntry). same b.task a.task) w.agents ≡ false)
    × (w'.missions ≡ w.missions ++ (new_row id (w.clock (w.calls + 1 + 1)) m ∷ []))
    × (w'.agents ≡ w.agents ++ (record a { mission_id = id; objective_id = "" } ∷ []))
    × (w'.objectives ≡ w.objectives)
    × (w'.proposals ≡ w.proposals)
    × (w'.fault ≡ w.fault)
    × (w'.next_mission ≡ w.next_mission + 1)

Enqueued-Settled :
    (m : Mission) (a : AgentEntry) (w : World) (p : Outcome ℕ × World)
    → Settled (insert_both m a) w p
    → Enqueued m a w p
Enqueued-Settled m a w (err e, w') h = h
Enqueued-Settled m a w (ok id, w') (v, done, ew) =
    let (fresh, new, ei, ev) = insert_both_ok m a (tick w) done in
    let e = ew ∙ ap tick ev in
    (
      ei,
      fresh,
      new,
      cc,
      cc,
      ap (λ (u : World). u.objectives) e,
      ap (λ (u : World). u.proposals) e,
      ap (λ (u : World). u.fault) e,
      ap (λ (u : World). u.next_mission) e,
    )

notified :
    (m : Mission) (a : AgentEntry) (w : World) (p : Outcome ℕ × World)
    → Enqueued m a w p
    → Enqueued m a w (continue (λ id v. (ok id, tick v)) p)
notified m a w (err e, w') h = h
notified m a w (ok id, w') h = h

-- Either the mission and its agent are both stored, under a fresh key each, or no table changes.
pub enqueue_atomic : (m : Mission) (a : AgentEntry) (w : World) → Enqueued m a w (enqueue m a w)
unfolding enqueue
enqueue_atomic m a w = notified m a w (transaction (insert_both m a) w) (
    Enqueued-Settled m a w (transaction (insert_both m a) w)
      (transaction-Settled (insert_both m a) w))
