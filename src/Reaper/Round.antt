-- ===== src/Reaper/Round.antt =====
-- One cycle of the reaper: `reap` and `reapObjectiveTimeouts` of internal/controlplane/reaper.go.
use fracta.Common.{
  pos, leb_ℤ, time_sub, Time, String, same, Bool, true, false, not, ◌&&◌, none, some, List, [], ◌∷◌,
  if◌then◌else◌,
}
use fracta.Model.{AgentStatus, agent_status_eq, AgentEntry, State}
use fracta.Objective.{Objective, ObjectiveStatus}
use fracta.Objective.Store as Objectives
use fracta.World.{World, Outcome, ok, err, now}
use fracta.Mailbox.{Content}
use fracta.Mailbox.Store as Mailbox
use fracta.Agents.Snapshot.{load}
use fracta.Agents.Writer.{Session}
use fracta.Reaper.{Reaper, reap_agents}

unfoldable pub is_timed_out : Time → Objective → Bool
unfolding time_sub
is_timed_out at o =
    not (leb_ℤ o.max_runtime (pos 0)) && not (leb_ℤ (time_sub at o.created_at) o.max_runtime)

unfoldable pub timeout_message : Time → Objective → Content
unfolding time_sub
timeout_message at o = Content.objective_timed_out o.id (time_sub at o.created_at) o.max_runtime

unfoldable pub send_timeout : Bool → Time → Objective → Outcome (Unit {0}) × World → World
unfolding timeout_message time_sub Mailbox.send
send_timeout mailbox at o (err e, w) = w
send_timeout false at o (ok _, w) = w
send_timeout true at o (ok _, w) = (Mailbox.send "reaper" "chessmaster" (timeout_message at o) w).1

-- One round of the loop of `reapObjectiveTimeouts`.
unfoldable pub time_out : Reaper → Time → Objective → World → World
unfolding is_timed_out time_sub send_timeout Objectives.update
time_out r at o w =
    if is_timed_out at o
    then send_timeout r.has_mailbox at o
        (Objectives.update (record o { status = ObjectiveStatus.timed_out }) w)
    else w

unfoldable pub time_out_all : Reaper → Time → List Objective → World → World
unfolding time_out
time_out_all r at [] w = w
time_out_all r at (o ∷ os) w = time_out_all r at os (time_out r at o w)

unfoldable pub time_out_listed : Reaper → Outcome (List Objective) × World → World
unfolding time_out_all
time_out_listed r (err e, w) = w
time_out_listed r (ok os, w) = time_out_all r (now w) os w

-- `reapObjectiveTimeouts`
unfoldable pub reap_objective_timeouts : Reaper → World → World
unfolding time_out_listed time_out_all time_out Objectives.list_by_status
reap_objective_timeouts r w =
    if r.has_objective_store
    then time_out_listed r (Objectives.list_by_status ObjectiveStatus.open_status w)
    else w

-- The pods that the sweep for failed stream agents kills, 5 minutes after their start.
unfoldable pub failed_streams : Time → List AgentEntry → List String
unfolding time_sub
failed_streams at [] = []
failed_streams at (a ∷ rest) =
    let later = failed_streams at rest in
    if same a.mode "stream"
      && agent_status_eq a.status AgentStatus.failed
      && not (leb_ℤ (time_sub at a.start_time) (pos 300000000000))
    then a.task ∷ later
    else later

unfoldable pub swept : Reaper → Time → List AgentEntry → List String
unfolding failed_streams time_sub
swept r at agents = elim r.stream_backend [ none ↦ [] | some kill ↦ failed_streams at agents ]

-- `reap`: the session after it, and the pods that its last sweep has asked to be killed.
unfoldable pub reap_loaded : Reaper → Session → Outcome State × World → Session × List String
unfolding reap_agents reap_objective_timeouts swept
reap_loaded r s (err e, w) = (record s { world = w }, [])
reap_loaded r s (ok st, w) =
    let at = now w in
    let s' = reap_agents r at st.agents (record s { world = w }) in
    (record s' { world = reap_objective_timeouts r s'.world }, swept r at st.agents)

unfoldable pub reap : Reaper → Session → Session × List String
unfolding reap_loaded reap_agents reap_objective_timeouts swept load
reap r s = reap_loaded r s (load s.world)
