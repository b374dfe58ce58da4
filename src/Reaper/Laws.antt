-- ===== src/Reaper/Laws.antt =====
-- Which agents the reaper touches: internal/controlplane/reaper.go.
use fracta.Common.{
  ℕ, zero, suc, Time, String, same, Bool, true, false, not, ◌&&◌, ◌||◌, Option, none, some, List,
  [], ◌∷◌, ◌≡◌, refl, ap, ◌∙◌, ◌⊎◌, inl, inr, All, if◌then◌else◌,
}
use fracta.Model.{AgentStatus, agent_status_eq, AgentEntry}
use fracta.Agents.Store.{update_expected, with_status, remove_agent, update_agent_status_if}
use fracta.Agents.Snapshot.Laws.Finding.{agent_of}
use fracta.Agents.Writer.{Writer, Session, emit_lifecycle_event, mark_stopped}
use fracta.Agents.Writer.Laws.Marks.{emit-world}
use fracta.Mailbox.Store as Mailbox
use fracta.Queue.Postgres.{cancel}
use fracta.Reaper.{
  Reaper, is_terminal, quietly, when, cleanup_terminal_queued_agent, reason_only, stop_reaped,
  transition_reaped_agent, stop_and_report, cancel_mission, kill_expired, stream_gone, is_killed,
  is_eligible, is_expired, reap_agent, reap_agents,
}
use fracta.Reaper.Untouched.{
  remove_agent-other, expected-other, update_status-other, is_due, Keeps, quietly-Keeps, when-Keeps,
  if-Keeps, emit-Keeps, after_update-world, cancel-KeepsRows, remove-KeepsRows,
}

module _ (r : Reaper) (t : String) (a : AgentEntry) (other : same a.task t ≡ false) where
  cleanup-other : Keeps t (cleanup_terminal_queued_agent r a)
  unfolding cleanup_terminal_queued_agent
  cleanup-other s =
      let removed = quietly (remove_agent a.task) s in
      emit-Keeps t r a.task "terminal_queued" "debug"
        (when r.has_mailbox (quietly (Mailbox.remove a.task)) removed)
      ∙ when-Keeps t r.has_mailbox (quietly (Mailbox.remove a.task))
          (quietly-Keeps t (Mailbox.remove a.task) (remove-KeepsRows t a.task)) removed
      ∙ remove_agent-other t a.task other s

  stop_reaped-other : (o : Option Writer) (reason : String) → Keeps t (stop_reaped o a.task reason)
  unfolding stop_reaped mark_stopped update_agent_status_if
  stop_reaped-other none reason s = update_status-other t a.task other AgentStatus.stopped reason s
  stop_reaped-other (some c) reason s =
      let p =
        update_expected a.task (AgentStatus.queued ∷ AgentStatus.running ∷ AgentStatus.idle ∷ [])
          (with_status AgentStatus.stopped reason) s.world in
      let emit = emit_lifecycle_event c a.task "lifecycle.stopped" "warn" (reason_only reason) in
      ap (λ w. agent_of t w.agents)
        (after_update-world t c emit s p (λ w.
          emit-world c a.task "lifecycle.stopped" "warn" (reason_only reason)
            (record s { world = w })))
      ∙ expected-other t a.task other AgentStatus.queued
          (AgentStatus.running ∷ AgentStatus.idle ∷ []) (with_status AgentStatus.stopped reason)
          s.world (λ b. refl)

  stop_and_report-other : Keeps t (stop_and_report r a)
  unfolding stop_and_report transition_reaped_agent
  stop_and_report-other s =
      emit-Keeps t r a.task "max_age" "info" (stop_reaped r.lifecycle a.task "reaped: max_age" s)
      ∙ stop_reaped-other r.lifecycle "reaped: max_age" s

  cancel_mission-Keeps : (id : ℕ) → Keeps t (cancel_mission r id)
  unfolding cancel_mission
  cancel_mission-Keeps zero s = refl
  cancel_mission-Keeps (suc id) s =
      when-Keeps t r.has_queue (quietly (cancel (suc id)))
        (quietly-Keeps t (cancel (suc id)) (cancel-KeepsRows t (suc id))) s

  kill_expired-other : Keeps t (kill_expired r a)
  unfolding kill_expired
  kill_expired-other s =
      if-Keeps t (same a.mode "queued") (λ x. stop_and_report r a (cancel_mission r a.mission_id x))
        (λ x.
          if same a.mode "stream"
          then when (stream_gone r.stream_backend a.task) (stop_and_report r a) x
          else when (is_killed (r.backend a.task)) (stop_and_report r a) x)
        (λ x.
          stop_and_report-other (cancel_mission r a.mission_id x)
          ∙ cancel_mission-Keeps a.mission_id x)
        (if-Keeps t (same a.mode "stream")
          (when (stream_gone r.stream_backend a.task) (stop_and_report r a))
          (when (is_killed (r.backend a.task)) (stop_and_report r a))
          (when-Keeps t (stream_gone r.stream_backend a.task) (stop_and_report r a)
            stop_and_report-other)
          (when-Keeps t (is_killed (r.backend a.task)) (stop_and_report r a) stop_and_report-other))
        s

  reap_agent-other : (at : Time) → Keeps t (reap_agent r at a)
  unfolding reap_agent
  reap_agent-other at s =
      let or_kill : Session → Session =
        λ x. if is_expired r.max_age at a then kill_expired r a x else x in
      let or_skip : Session → Session = λ x. if not (is_eligible a) then x else or_kill x in
      let or_clean : Session → Session = λ x.
        if same a.mode "queued" && is_terminal a.status
        then cleanup_terminal_queued_agent r a x
        else or_skip x in
      if-Keeps t (agent_status_eq a.status AgentStatus.queued) (λ x. x) or_clean (λ x. refl)
        (if-Keeps t (same a.mode "queued" && is_terminal a.status)
          (cleanup_terminal_queued_agent r a) or_skip cleanup-other
          (if-Keeps t (not (is_eligible a)) (λ x. x) or_kill (λ x. refl)
            (if-Keeps t (is_expired r.max_age at a) (kill_expired r a) (λ x. x) kill_expired-other
              (λ x. refl))))
        s

-- The tests of the loop, for an agent that is not due.
no_branch :
    {A : Type 0} (queued over eligible expired : Bool) (s x y : A)
    → over || (eligible && expired) ≡ false
    → (if queued
        then s
        else if over
        then x
        else if not eligible
        then s
        else if expired
        then y
        else s)
      ≡ s
no_branch true over eligible expired s x y h = refl
no_branch false true eligible expired s x y h = cc
no_branch false false false expired s x y h = refl
no_branch false false true true s x y h = cc
no_branch false false true false s x y h = refl

reap_agent-not_due :
    (r : Reaper) (at : Time) (a : AgentEntry) (s : Session)
    → is_due r at a ≡ false
    → reap_agent r at a s ≡ s
unfolding reap_agent
reap_agent-not_due r at a s h =
    no_branch (agent_status_eq a.status AgentStatus.queued)
      (same a.mode "queued" && is_terminal a.status) (is_eligible a) (is_expired r.max_age at a) s
      (cleanup_terminal_queued_agent r a s) (kill_expired r a s) h

-- A task none of whose agents in the list is due finds what it found, whatever the runtimes answer and
-- whichever calls fail.
pub reap_agents-spares :
    (r : Reaper) (at : Time) (t : String) (agents : List AgentEntry) (s : Session)
    → All (λ a. (same a.task t ≡ false) ⊎ (is_due r at a ≡ false)) agents
    → agent_of t (reap_agents r at agents s).world.agents ≡ agent_of t s.world.agents
unfolding reap_agents
reap_agents-spares r at t [] s h = refl
reap_agents-spares r at t (a ∷ rest) s h =
    reap_agents-spares r at t rest (reap_agent r at a s) h.1 ∙ elim h.0 [
      | inl other ↦ reap_agent-other r t a other at s
      | inr not_due ↦
          ap (λ (x : Session). agent_of t x.world.agents) (reap_agent-not_due r at a s not_due)
    ]
