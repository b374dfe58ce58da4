-- ===== src/Agents/Snapshot/Laws.antt =====
-- The table after `WithLock` of internal/state/pgstore/pgstore.go.
pub mod Finding
pub mod Equality
pub mod Loops
use fracta.Common.{
  String, same, same_refl, same→≡, ≡→same, Bool, true, false, not, Bool-cases, ◌⊎◌, inl, inr,
  Option, none, some, Option-cases, List, [], ◌∷◌, ◌++◌, find_row, find_row_sound, exists_row,
  exists_row-find_row, find_row-exists_row, update_row, select_rows, if◌then◌else◌, ◌≡◌, refl, sym,
  ap, ◌∙◌, arith,
}
use fracta.Model.{AgentEntry, agent_entry_eq, ChessmasterStatus, chessmaster_eq, State}
use fracta.World.{World, Error, Outcome, ok, err, Action, pure, ◌>>=◌, ◌>>◌, call, tick, Unchanged}
use fracta.World.Laws.{call-eq-ok, >>=-eq-ok, Settled, transaction-Settled}
use fracta.Agents.Store.{has_task, update_chessmaster}
use fracta.Agents.Snapshot.{
  load_chessmaster, load, delete_agent, insert_agent_tx, update_agent_tx, delete_removed,
  save_agent, save_agents, apply_diff, apply_function, with_lock,
}
use fracta.Agents.Snapshot.Laws.Equality.{agent_entry_eq-≡}
use fracta.Agents.Snapshot.Laws.Finding.{
  agent_of, Distinct, other_task, agent_of-append, agent_of-update, agent_of-delete,
}
use fracta.Agents.Snapshot.Laws.Loops.{
  gone, gone-kept, delete_agent-ok, none_either, delete_removed-ok, save_agent-ok, saved-later,
  saved-all, save_agents-ok, absent-none, absent-gone, upsert-keeps,
}

-- Both loops together.
apply_diff-ok :
    (before after : State) (w w' : World) (u : Unit {0})
    → w.agents ≡ before.agents
    → Distinct after.agents
    → apply_diff before after w ≡ (ok u, w')
    → (t : String) → agent_of t w'.agents ≡ agent_of t after.agents
unfolding apply_diff update_chessmaster
apply_diff-ok before after w w' u b d h t =
    let upsert =
      if chessmaster_eq after.chessmaster before.chessmaster
      then pure tt
      else update_chessmaster after.chessmaster in
    let (u1, v1, h1, r1) =
      >>=-eq-ok (delete_removed before.agents after.agents)
        (λ _. save_agents before.agents after.agents >> upsert) w h in
    let (u2, v2, h2, r2) = >>=-eq-ok (save_agents before.agents after.agents) (λ _. upsert) v1 r1 in
    let removed : (k : String)
        → agent_of k v1.agents
          ≡ (if gone k before.agents after.agents then none else agent_of k before.agents) =
      λ k.
        delete_removed-ok k after.agents before.agents w v1 u1 h1
        ∙ ap (λ rs. if gone k before.agents after.agents then none else agent_of k rs) b in
    let old : (k : String)
        → exists_row (has_task k) after.agents ≡ true
        → agent_of k v1.agents ≡ agent_of k before.agents =
      λ k e. removed k ∙ rw (gone-kept k before.agents after.agents e) in
    let saved = save_agents-ok before.agents after.agents v1 v2 u2 d old h2 t in
    ap (agent_of t) (upsert-keeps before after v2 w' u r2)
    ∙ saved
    ∙ elim (Bool-cases (exists_row (has_task t) after.agents)) [
      | inl e ↦ rw e
      | inr e ↦ rw e (
          removed t
          ∙ absent-gone t before.agents after.agents e
          ∙ sym (absent-none t after.agents e))
    ]

abbrev agents_in : Outcome State → List AgentEntry
agents_in (ok st) = st.agents
agents_in (err _) = []

abbrev rows_in : Outcome (List AgentEntry) → List AgentEntry
rows_in (ok rows) = rows
rows_in (err _) = []

load-ok :
    (w v : World) (st : State)
    → load w ≡ (ok st, v)
    → (st.agents ≡ w.agents) × (v.agents ≡ w.agents)
unfolding load
load-ok w v st h =
    let select_chessmaster : Action (Option ChessmasterStatus) =
      call (λ x. (ok x.chessmaster, x)) in
    let (agents, v1, h1, r1) =
      >>=-eq-ok (call (λ x. (ok x.agents, x)))
        (λ rows x. load_chessmaster rows (select_chessmaster x)) w h in
    let (_, k) = call-eq-ok (λ x. (ok x.agents, x)) w h1 in
    let e : agents ≡ w.agents = ap (λ p. rows_in p.0) (sym k) in
    elim (Bool-cases (v1.fault v1.calls)) [
      | inl fails ↦
          let r = rw fails at r1 in
          (
            ap (λ p. agents_in p.0) (sym r) ∙ e,
            ap (λ p. p.1.agents) (sym r) ∙ ap (λ p. p.1.agents) (sym k),
          )
      | inr passes ↦
          let r = rw passes at r1 in
          (
            ap (λ p. agents_in p.0) (sym r) ∙ e,
            ap (λ p. p.1.agents) (sym r) ∙ ap (λ p. p.1.agents) (sym k),
          )
    ]

-- The outcome of `with_lock`.
abbrev pub Saved : (State → Outcome State) → World → Outcome (Unit {0}) × World → Type 0
Saved fn w (err _, w') = Unchanged w w'
Saved fn w (ok _, w') =
    (seen after : State) × (seen.agents ≡ w.agents)
    × (fn seen ≡ ok after)
    × ((t : String) → agent_of t w'.agents ≡ agent_of t after.agents)

module _ (fn : State → Outcome State) (w : World)
    (sane : (seen after : State)
      → seen.agents ≡ w.agents
      → fn seen ≡ ok after
      → Distinct after.agents) where
  applied-Saved :
      (seen : State) (v v' : World) (u : Unit {0})
      → v.agents ≡ seen.agents
      → seen.agents ≡ w.agents
      → apply_function fn seen v ≡ (ok u, v')
      → (o : Outcome State) → fn seen ≡ o
      → (after : State) × (fn seen ≡ ok after)
        × ((t : String) → agent_of t v'.agents ≡ agent_of t after.agents)
  applied-Saved seen v v' u b e h (err x) o = cc (rw (o, apply_function) at h)
  applied-Saved seen v v' u b e h (ok after) o = (
    after,
    o,
    apply_diff-ok seen after v v' u b (sane seen after e o) (rw (o, apply_function) at h),
  )

  Settled-Saved :
      (p : Outcome (Unit {0}) × World)
      → Settled (call (λ x. (ok tt, x)) >> (load >>= λ before. apply_function fn before)) w p
      → Saved fn w p
  Settled-Saved (err e, w') s = s
  Settled-Saved (ok u, w') (v, h, e) =
      let lock : Action (Unit {0}) = call (λ x. (ok tt, x)) in
      let (_, v1, h1, r1) =
        >>=-eq-ok lock (λ _. load >>= λ before. apply_function fn before) (tick w) h in
      let (_, k1) = call-eq-ok (λ x. (ok tt, x)) (tick w) h1 in
      let (seen, v2, h2, r2) = >>=-eq-ok load (λ before. apply_function fn before) v1 r1 in
      let (l1, l2) = load-ok v1 v2 seen h2 in
      let same_rows : v1.agents ≡ w.agents = ap (λ p. p.1.agents) (sym k1) in
      let (after, f, t) =
        applied-Saved seen v2 v u (l2 ∙ sym l1) (l1 ∙ same_rows) r2 (fn seen) refl in
      (seen, after, l1 ∙ same_rows, f, λ k. ap (λ x. agent_of k x.agents) e ∙ t k)

  -- If the function of the caller gives no task twice for the agents of the table, `WithLock` fails and
  -- changes no table, or it has given the function the agents of the table, the function has returned a
  -- state, and every task finds afterwards what it finds in that state.
  pub with_lock-Saved : Saved fn w (with_lock fn w)
  unfolding with_lock
  with_lock-Saved = Settled-Saved (with_lock fn w) (
      transaction-Settled (call (λ x. (ok tt, x)) >> (load >>= λ before. apply_function fn before))
        w)
