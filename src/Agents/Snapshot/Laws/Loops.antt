-- ===== src/Agents/Snapshot/Laws/Loops.antt =====
-- The loops of `applyDiff`: internal/state/pgstore/pgstore.go.
use fracta.Common.{
  String, same, same_refl, same→≡, Bool, true, false, not, Bool-cases, inl, inr, Option, none, some,
  Option-cases, List, [], ◌∷◌, ◌++◌, find_row, exists_row, exists_row-find_row, update_row,
  select_rows, if◌then◌else◌, ◌≡◌, refl, sym, ap, ◌∙◌,
}
use fracta.Model.{AgentEntry, agent_entry_eq, chessmaster_eq, State}
use fracta.World.{World, Error, ok, err, pure}
use fracta.World.Laws.{call-eq-ok, >>=-eq-ok}
use fracta.Agents.Store.{has_task, update_chessmaster}
use fracta.Agents.Snapshot.{
  delete_agent, insert_agent_tx, update_agent_tx, delete_removed, save_agent, save_agents,
}
use fracta.Agents.Snapshot.Laws.Equality.{agent_entry_eq-≡}
use fracta.Agents.Snapshot.Laws.Finding.{
  agent_of, Distinct, agent_of-append, agent_of-update, agent_of-delete,
}

abbrev pub gone : String → List AgentEntry → List AgentEntry → Bool
gone t before after =
    if exists_row (has_task t) before then not (exists_row (has_task t) after) else false

pub gone-kept :
    (t : String) (before after : List AgentEntry)
    → exists_row (has_task t) after ≡ true
    → gone t before after ≡ false
gone-kept t before after h = elim (Bool-cases (exists_row (has_task t) before)) [
  | inl k ↦ rw (k, h)
  | inr k ↦ rw k
]

pub delete_agent-ok :
    (t k : String) (w v : World) (u : Unit {0})
    → delete_agent k w ≡ (ok u, v)
    → agent_of t v.agents ≡ (if same k t then none else agent_of t w.agents)
delete_agent-ok t k w v u h =
    let (_, e) =
      call-eq-ok
        (λ x. (ok tt, record x { agents = select_rows (λ a. not (has_task k a)) x.agents })) w h in
    ap (λ p. agent_of t p.1.agents) (sym e) ∙ agent_of-delete t k w.agents

pub none_either : {A : Type 0} (b : Bool) (o : Option A) → o ≡ none → (if b then none else o) ≡ none
none_either true o h = refl
none_either false o h = h

-- The first loop takes out the agents that are gone.
module _ (t : String) (after : List AgentEntry) where
  pub delete_removed-ok :
      (before : List AgentEntry) (w w' : World) (u : Unit {0})
      → delete_removed before after w ≡ (ok u, w')
      → agent_of t w'.agents ≡ (if gone t before after then none else agent_of t w.agents)
  unfolding delete_removed
  delete_removed-ok [] w w' u h = ap (λ p. agent_of t p.1.agents) (sym h)
  delete_removed-ok (a ∷ before) w w' u h = elim (Bool-cases (exists_row (has_task a.task) after)) [
    | inl kept ↦
        let ih = delete_removed-ok before w w' u (rw kept at h) in
        elim (Bool-cases (same a.task t)) [
          | inl m ↦
              let x : exists_row (has_task t) after ≡ true =
                ap (λ k. exists_row (has_task k) after) (sym (same→≡ a.task t m)) ∙ kept in
              ih
              ∙ ap (λ b. if b then none else agent_of t w.agents)
                  (gone-kept t before after x ∙ sym (gone-kept t (a ∷ before) after x))
          | inr m ↦ rw m ih
        ]
    | inr dropped ↦
        let (u1, v, h1, h2) =
          >>=-eq-ok (delete_agent a.task) (λ _. delete_removed before after) w (rw dropped at h) in
        let ih = delete_removed-ok before v w' u h2 in
        let d = delete_agent-ok t a.task w v u1 h1 in
        elim (Bool-cases (same a.task t)) [
          | inl m ↦
              let x : exists_row (has_task t) after ≡ false =
                ap (λ k. exists_row (has_task k) after) (sym (same→≡ a.task t m)) ∙ dropped in
              let n : agent_of t v.agents ≡ none = rw m at d in
              rw (m, x) (ih ∙ none_either (gone t before after) (agent_of t v.agents) n)
          | inr m ↦
              let n : agent_of t v.agents ≡ agent_of t w.agents = rw m at d in
              rw m (ih ∙ ap (λ o. if gone t before after then none else o) n)
        ]
  ]

-- The statement for one agent makes its task find it.
pub save_agent-ok :
    (t : String) (o : Option AgentEntry) (a : AgentEntry) (w w' : World) (u : Unit {0})
    → agent_of a.task w.agents ≡ o
    → save_agent o a w ≡ (ok u, w')
    → agent_of t w'.agents ≡ (if same a.task t then some a else agent_of t w.agents)
unfolding insert_agent_tx update_agent_tx
save_agent-ok t none a w w' u e h =
    let (_, k) =
      call-eq-ok
        (λ x.
          if exists_row (has_task a.task) x.agents
          then (err Error.db_error, x)
          else (ok tt, record x { agents = x.agents ++ (a ∷ []) }))
        w h in
    elim (Bool-cases (exists_row (has_task a.task) w.agents)) [
      | inl there_already ↦ cc (rw there_already at k)
      | inr new ↦
          ap (λ p. agent_of t p.1.agents) (sym (rw new at k)) ∙ agent_of-append t w.agents a new
    ]
save_agent-ok t (some old) a w w' u e h = elim (Bool-cases (agent_entry_eq a old)) [
  | inl equal ↦
      let k : w ≡ w' = ap (λ p. p.1) (rw equal at h) in
      let x : agent_of a.task w.agents ≡ some a =
        e ∙ ap some (sym (agent_entry_eq-≡ a old equal)) in
      ap (λ v. agent_of t v.agents) (sym k) ∙ elim (Bool-cases (same a.task t)) [
        | inl m ↦ rw m (ap (λ n. agent_of n w.agents) (sym (same→≡ a.task t m)) ∙ x)
        | inr m ↦ rw m
      ]
  | inr changed ↦
      let (_, k) =
        call-eq-ok
          (λ x. (ok tt, record x { agents = update_row (has_task a.task) (λ _. a) x.agents })) w
          (rw changed at h) in
      ap (λ p. agent_of t p.1.agents) (sym k)
      ∙ agent_of-update t w.agents a (exists_row-find_row (has_task a.task) w.agents e)
]

-- The second loop makes every task of the new state find its agent, and leaves the others.
module _ (before : List AgentEntry) (a : AgentEntry) (after : List AgentEntry)
    (fresh : exists_row (has_task a.task) after ≡ false) (w v : World) (t : String)
    (saved : agent_of t v.agents ≡ (if same a.task t then some a else agent_of t w.agents)) where
  pub saved-later :
      exists_row (has_task t) after ≡ true
      → (exists_row (has_task t) (a ∷ after) ≡ true → agent_of t w.agents ≡ agent_of t before)
      → agent_of t v.agents ≡ agent_of t before
  saved-later e old = elim (Bool-cases (same a.task t)) [
    | inl m ↦ cc (ap (λ k. exists_row (has_task k) after) (same→≡ a.task t m), fresh, e)
    | inr m ↦ rw m at saved ∙ old (rw m e)
  ]

  pub saved-all :
      (o : Option AgentEntry)
      → o ≡ (if exists_row (has_task t) after then agent_of t after else agent_of t v.agents)
      → o ≡ (
          if exists_row (has_task t) (a ∷ after)
          then agent_of t (a ∷ after)
          else agent_of t w.agents)
  saved-all o ih = elim (Bool-cases (same a.task t)) [
    | inl m ↦
        let x : exists_row (has_task t) after ≡ false =
          ap (λ k. exists_row (has_task k) after) (sym (same→≡ a.task t m)) ∙ fresh in
        rw m (rw x at ih ∙ rw m at saved)
    | inr m ↦
        let s : agent_of t v.agents ≡ agent_of t w.agents = rw m at saved in
        rw m (ih ∙ ap (λ x. if exists_row (has_task t) after then agent_of t after else x) s)
  ]

module _ (before : List AgentEntry) where
  pub save_agents-ok :
      (after : List AgentEntry) (w w' : World) (u : Unit {0})
      → Distinct after
      → ((t : String)
          → exists_row (has_task t) after ≡ true
          → agent_of t w.agents ≡ agent_of t before)
      → save_agents before after w ≡ (ok u, w')
      → (t : String)
      → agent_of t w'.agents
        ≡ (if exists_row (has_task t) after then agent_of t after else agent_of t w.agents)
  unfolding save_agents
  save_agents-ok [] w w' u d old h t = ap (λ p. agent_of t p.1.agents) (sym h)
  save_agents-ok (a ∷ after) w w' u d old h t =
      let (u1, v, h1, h2) =
        >>=-eq-ok (save_agent (find_row (has_task a.task) before) a) (λ _. save_agents before after)
          w h in
      let mine : agent_of a.task w.agents ≡ agent_of a.task before =
        old a.task (rw (same_refl a.task)) in
      let saved : (k : String)
          → agent_of k v.agents ≡ (if same a.task k then some a else agent_of k w.agents) =
        λ k. save_agent-ok k (find_row (has_task a.task) before) a w v u1 mine h1 in
      saved-all before a after d.0 w v t (saved t) (agent_of t w'.agents) (
        save_agents-ok after v w' u d.1
          (λ k e. saved-later before a after d.0 w v k (saved k) e (old k)) h2 t)

pub absent-none :
    (t : String) (rs : List AgentEntry) → exists_row (has_task t) rs ≡ false → agent_of t rs ≡ none
absent-none t rs h = elim (Option-cases (agent_of t rs)) [
  | inl e ↦ e
  | inr (a, e) ↦ cc (exists_row-find_row (has_task t) rs e, h)
]

pub absent-gone :
    (t : String) (before after : List AgentEntry)
    → exists_row (has_task t) after ≡ false
    → (if gone t before after then none else agent_of t before) ≡ none
absent-gone t before after h = elim (Bool-cases (exists_row (has_task t) before)) [
  | inl k ↦ rw (k, h)
  | inr k ↦ rw k (absent-none t before k)
]

pub upsert-keeps :
    (before after : State) (w w' : World) (u : Unit {0})
    → (if chessmaster_eq after.chessmaster before.chessmaster
          then pure tt
          else update_chessmaster after.chessmaster)
        w
      ≡ (ok u, w')
    → w'.agents ≡ w.agents
unfolding update_chessmaster
upsert-keeps before after w w' u h =
    elim (Bool-cases (chessmaster_eq after.chessmaster before.chessmaster)) [
      | inl e ↦ ap (λ p. p.1.agents) (sym (rw e at h))
      | inr e ↦
          let (_, k) =
            call-eq-ok (λ x. (ok tt, record x { chessmaster = some after.chessmaster })) w
              (rw e at h) in
          ap (λ p. p.1.agents) (sym k)
    ]
