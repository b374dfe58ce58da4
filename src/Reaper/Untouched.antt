-- ===== src/Reaper/Untouched.antt =====
-- What the statements of the reaper leave of an agent: internal/controlplane/reaper.go.
use fracta.Common.{
  ℕ, Time, String, same, same→≡, Bool, true, false, not, ◌&&◌, ◌||◌, Bool-cases, List, ◌∷◌, ◌≡◌,
  refl, ap, ◌∙◌, inl, inr, exists_row, delete_row, select_rows, find_row-update_row_other,
  find_row-delete_row_other, update_row, both, if◌then◌else◌,
}
use fracta.Model.{AgentStatus, AgentEntry}
use fracta.World.{World, Outcome, ok, err, Action, ◌>>=◌, call, pure}
use fracta.World.Laws.{KeepsRows, call-KeepsRows, transaction-KeepsRows, >>=-KeepsRows}
use fracta.Agents.Store.{
  has_task, expected_task, update_expected, with_status, remove_agent, update_agent_status,
}
use fracta.Agents.Snapshot.Laws.Finding.{agent_of}
use fracta.Agents.Writer.{Writer, Session, after_update}
use fracta.Agents.Writer.Laws.Marks.{progress-world}
use fracta.Mailbox.Store as Mailbox
use fracta.Queue.{cancelled}
use fracta.Queue.Postgres.{cancel, delete_pending, pending_with_id, update_claimed, claimed_with_id}
use fracta.Reaper.{Reaper, is_terminal, quietly, when, emit_reap_event, is_eligible, is_expired}

-- An agent of the queue that is over, or an agent that runs, or waits in a stream, and is too old.
abbrev pub is_due : Reaper → Time → AgentEntry → Bool
is_due r at a =
    (same a.mode "queued" && is_terminal a.status) || (is_eligible a && is_expired r.max_age at a)

-- What a task finds is the same.
abbrev pub Keeps : String → (Session → Session) → Type 0
Keeps t f = (s : Session) → agent_of t (f s).world.agents ≡ agent_of t s.world.agents

module _ (t : String) where
  pub quietly-Keeps : {A : Type 0} (m : Action A) → KeepsRows m → Keeps t (quietly m)
  quietly-Keeps m k s = ap (agent_of t) (k s.world)

  pub when-Keeps : (b : Bool) (f : Session → Session) → Keeps t f → Keeps t (when b f)
  when-Keeps true f k s = k s
  when-Keeps false f k s = refl

  pub if-Keeps :
      (b : Bool) (f g : Session → Session)
      → Keeps t f
      → Keeps t g
      → Keeps t (λ s. if b then f s else g s)
  if-Keeps true f g h k s = h s
  if-Keeps false f g h k s = k s

  pub emit-Keeps :
      (r : Reaper) (task reason severity : String)
      → Keeps t (emit_reap_event r task reason severity)
  unfolding emit_reap_event
  emit-Keeps r task reason severity s = elim (Bool-cases r.has_bus) [
    | inl b ↦ rw b refl
    | inr b ↦ rw b refl
  ]

  module _ (task : String) (other : same task t ≡ false) where
    update-other :
        (q : AgentEntry → Bool) (f : AgentEntry → AgentEntry) (rs : List AgentEntry)
        → ((a : AgentEntry) → q a ≡ true → a.task ≡ task)
        → ((a : AgentEntry) → (f a).task ≡ a.task)
        → agent_of t (update_row q f rs) ≡ agent_of t rs
    update-other q f rs mine keeps =
        find_row-update_row_other (has_task t) q f rs (λ a h. rw (mine a h) other)
          (λ a h. rw (keeps a, mine a h) other)

    pub remove_agent-other : Keeps t (quietly (remove_agent task))
    unfolding remove_agent
    remove_agent-other s = elim (Bool-cases (s.world.fault s.world.calls)) [
      | inl fails ↦ rw fails refl
      | inr passes ↦ elim (Bool-cases (exists_row (has_task task) s.world.agents)) [
        | inl there_is ↦
            rw (passes, there_is)
              (find_row-delete_row_other (has_task t) (has_task task) s.world.agents
                (λ a h. rw (same→≡ a.task task h) other))
        | inr none_is ↦ rw (passes, none_is) refl
      ]
    ]

    pub update_status-other :
        (st : AgentStatus) (reason : String)
        → Keeps t (quietly (update_agent_status task st reason))
    unfolding update_agent_status
    update_status-other st reason s = elim (Bool-cases (s.world.fault s.world.calls)) [
      | inl fails ↦ rw fails refl
      | inr passes ↦ elim (Bool-cases (exists_row (has_task task) s.world.agents)) [
        | inl there_is ↦
            rw (passes, there_is)
              (update-other (has_task task) (with_status st reason) s.world.agents
                (λ a h. same→≡ a.task task h) (λ a. refl))
        | inr none_is ↦ rw (passes, none_is) refl
      ]
    ]

    pub expected-other :
        (s : AgentStatus) (ss : List AgentStatus) (f : AgentEntry → AgentEntry) (w : World)
        → ((a : AgentEntry) → (f a).task ≡ a.task)
        → agent_of t (update_expected task (s ∷ ss) f w).1.agents ≡ agent_of t w.agents
    expected-other s ss f w keeps = elim (Bool-cases (w.fault w.calls)) [
      | inl fails ↦ rw fails refl
      | inr passes ↦ rw passes (
          update-other (expected_task task (s ∷ ss)) f w.agents
            (λ a h. same→≡ a.task task (both (same a.task task) _ h).0) keeps)
    ]

  pub after_update-world :
      (c : Writer) (emit : Session → Session) (s : Session) (p : Outcome Bool × World)
      → ((w : World) → (emit (record s { world = w })).world ≡ w)
      → (after_update c emit s p).1.world ≡ p.1
  after_update-world c emit s (err e, w) k = refl
  after_update-world c emit s (ok false, w) k = refl
  after_update-world c emit s (ok true, w) k =
      progress-world c (emit (record s { world = w })) ∙ k w

  pub cancel-KeepsRows : (id : ℕ) → KeepsRows (cancel id)
  unfolding cancel
  cancel-KeepsRows id =
      let mark = update_claimed id (λ m. record m { status = cancelled }) in
      >>=-KeepsRows (delete_pending id) (λ deleted. if deleted then pure tt else call mark)
        (call-KeepsRows
          (λ w. (
            ok (exists_row (pending_with_id id) w.missions),
            record w { missions = delete_row (pending_with_id id) w.missions },
          ))
          (λ w. refl))
        (λ deleted. elim deleted as (λ d. KeepsRows (if d then pure tt else call mark)) [
          | true ↦ λ w. refl
          | false ↦ call-KeepsRows mark (λ w.
              elim (Bool-cases (exists_row (claimed_with_id id) w.missions)) [
                | inl there_is ↦ rw there_is refl
                | inr none_is ↦ rw none_is refl
              ])
        ])

  pub remove-KeepsRows : (task : String) → KeepsRows (Mailbox.remove task)
  unfolding Mailbox.remove
  remove-KeepsRows task =
      let delete_messages : Action (Unit {0}) =
        λ w. (ok tt, record w { messages = select_rows (λ m. not (same m.to task)) w.messages }) in
      let delete_cursor : Action (Unit {0}) =
        λ w. (ok tt, record w { cursors = delete_row (Mailbox.is_cursor_of task) w.cursors }) in
      transaction-KeepsRows (call delete_messages >>= λ _. call delete_cursor) (
        >>=-KeepsRows (call delete_messages) (λ _. call delete_cursor)
          (call-KeepsRows delete_messages (λ w. refl))
          (λ _. call-KeepsRows delete_cursor (λ w. refl)))
