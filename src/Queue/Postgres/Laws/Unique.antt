-- ===== src/Queue/Postgres/Laws/Unique.antt =====
-- Numbers and dedupe keys of the missions table, for internal/queue/postgres.go.
use fracta.Common.{
  ℕ, ◌+◌, ◌<◌, ◌≤◌, Time, same, same_refl, same→≡, Bool, true, false, not, ◌&&◌, both, Bool-cases,
  ◌==◌, ◌≡◌, ◌≢◌, refl, sym, ap, ◌∙◌, inl, inr, some, List, [], ◌∷◌, ◌++◌, In, here, there, All,
  All-append, All-imp, All-In, find_row, exists_row, arith,
}
use fracta.Model.{AgentEntry}
use fracta.World.{World, Outcome, ok, err, tick, transaction}
use fracta.World.Laws.{Grows, call-Grows, >>=-Grows, transaction-Grows}
use fracta.Queue.{MissionStatus, is_active, Mission}
use fracta.Queue.Postgres.{
  has_id, duplicates, new_row, enqueue, insert_both, insert_mission, insert_agent,
  mission_statement, agent_statement,
}
use fracta.Queue.Postgres.Laws.Enqueue.{Enqueued}
use fracta.Queue.Postgres.Laws.Moved.{
  MissionStep, claims, completes, fails, cancels, reclaims, Moves, Moved, none_left, stays, moves,
  removed,
}

-- Two missions have different numbers, and do not both hold the same dedupe key while active.
abbrev pub Apart : Mission → Mission → Type 0
Apart m n = (m.id ≢ n.id) × (is_active m.status && duplicates m n ≡ false)

abbrev pub Unique : List Mission → Type 0
Unique [] = Unit
Unique (m ∷ ms) = All (Apart m) ms × Unique ms

-- The invariant of the missions: unique, and numbered below the sequence.
abbrev pub Sound : World → Type 0
Sound w = Unique w.missions × All (λ m. m.id < w.next_mission) w.missions

pub MissionStep-is_active : {s t : MissionStatus} → MissionStep s t → is_active s ≡ true
MissionStep-is_active claims = refl
MissionStep-is_active completes = refl
MissionStep-is_active fails = refl
MissionStep-is_active cancels = refl
MissionStep-is_active reclaims = refl

-- The two missions have the same objective and the same key, neither of them empty.
abbrev same_keys : Mission → Mission → Bool
same_keys m n =
    not (same m.objective_id "")
    && (not (same m.dedupe_key "")
        && (same n.objective_id m.objective_id && same n.dedupe_key m.dedupe_key))

weaken_right : (a b r : Bool) → a && (true && r) ≡ false → a && (b && r) ≡ false
weaken_right true true r h = h
weaken_right true false r h = refl
weaken_right false b r h = refl

weaken_left : (a c : Bool) → true && c ≡ false → a && c ≡ false
weaken_left true c h = h
weaken_left false c h = refl

Apart-right : (m n n' : Mission) → Apart m n → Moves n n' → Apart m n'
Apart-right m n n' (ids, keys) v =
    let k = MissionStep-is_active v.step in
    (
      λ e. ids (e ∙ v.same_id),
      rw (v.same_objective, v.same_key)
          (weaken_right (is_active m.status) (is_active n'.status) (same_keys m n) (rw k at keys)),
    )

Apart-left : (m m' n : Mission) → Apart m n → Moves m m' → Apart m' n
Apart-left m m' n (ids, keys) v =
    let k = MissionStep-is_active v.step in
    (
      λ e. ids (sym v.same_id ∙ e),
      rw (v.same_objective, v.same_key)
          (weaken_left (is_active m'.status) (is_active n.status && same_keys m n) (rw k at keys)),
    )

module _ (P : Mission → Type 0) (kept : (m m' : Mission) → P m → Moves m m' → P m') where
  Moved-All : {ms ms' : List Mission} → Moved ms ms' → All P ms → All P ms'
  Moved-All none_left a = tt
  Moved-All (stays v) a = (a.0, Moved-All v a.1)
  Moved-All (moves {m = m} {m' = m'} x v) a = (kept m m' a.0 x, Moved-All v a.1)
  Moved-All (removed e v) a = Moved-All v a.1

Moved-Unique : {ms ms' : List Mission} → Moved ms ms' → Unique ms → Unique ms'
Moved-Unique none_left u = tt
Moved-Unique (stays {m = m} v) u =
    (Moved-All (Apart m) (λ n n' a x. Apart-right m n n' a x) v u.0, Moved-Unique v u.1)
Moved-Unique (moves {m = m} {m' = m'} {ms' = ms'} x v) u = (
  All-imp ms' (λ n a. Apart-left m m' n a x)
      (Moved-All (Apart m) (λ n n' a y. Apart-right m n n' a y) v u.0),
  Moved-Unique v u.1,
)
Moved-Unique (removed e v) u = Moved-Unique v u.1

-- A mission is found by its number.
pub Unique-found :
    (ms : List Mission) (m : Mission) → Unique ms → In m ms → find_row (has_id m.id) ms ≡ some m
Unique-found [] m u i = elim i [ ]
Unique-found (x ∷ ms) m u (here e) =
    let f : x.id ≡ m.id = ap (λ y. y.id) (sym e) in
    let k : x.id == m.id ≡ true = ground arith in rw k (ap some (sym e))
Unique-found (x ∷ ms) m u (there i) =
    let a = (All-In (Apart x) ms u.0 i).0 in
    let k : x.id == m.id ≡ false = ground arith in rw k (Unique-found ms m u.1 i)

-- A new mission whose key is free is apart from the others.
new-Apart :
    (m : Mission) (id : ℕ) (t : Time) (r : Mission)
    → r.id < id
    → duplicates m r ≡ false
    → Apart r (new_row id t m)
new-Apart m id t r below free = (
  λ e. omega arith,
  elim (Bool-cases (is_active r.status && same_keys r m)) [
    | inl k ↦
        let (a, b) = both (is_active r.status) (same_keys r m) k in
        let (h1, b1) =
          both (not (same r.objective_id ""))
            (not (same r.dedupe_key "")
              && (same m.objective_id r.objective_id && same m.dedupe_key r.dedupe_key))
            b in
        let (h2, b2) =
          both (not (same r.dedupe_key ""))
            (same m.objective_id r.objective_id && same m.dedupe_key r.dedupe_key) b1 in
        let (h3, h4) =
          both (same m.objective_id r.objective_id) (same m.dedupe_key r.dedupe_key) b2 in
        let e1 = same→≡ m.objective_id r.objective_id h3 in
        let e2 = same→≡ m.dedupe_key r.dedupe_key h4 in
        let d : duplicates m r ≡ true =
          rw (a, e1, e2, h1, h2, same_refl r.objective_id, same_refl r.dedupe_key) in
        cc (d, free)
    | inr k ↦ k
  ],
)

insert_mission-Grows : (m : Mission) → Grows (insert_mission m)
unfolding insert_mission
insert_mission-Grows m = call-Grows (mission_statement m) (λ w.
    elim (Bool-cases (exists_row (duplicates m) w.missions)) [
      | inl taken ↦ rw taken (omega arith)
      | inr free ↦ rw free (omega arith)
    ])

insert_agent-Grows : (a : AgentEntry) → Grows (insert_agent a)
unfolding insert_agent
insert_agent-Grows a = call-Grows (agent_statement a) (λ w.
    elim (Bool-cases (exists_row (λ (b : AgentEntry). same b.task a.task) w.agents)) [
      | inl taken ↦ rw taken (omega arith)
      | inr free ↦ rw free (omega arith)
    ])

pub enqueue-Grows : (m : Mission) (a : AgentEntry) → Grows (enqueue m a)
unfolding enqueue insert_both
enqueue-Grows m a =
    >>=-Grows (transaction (insert_both m a)) (λ id w. (ok id, tick w))
      (transaction-Grows (insert_both m a) (
        >>=-Grows (insert_mission m) (λ id. insert_agent (record a { mission_id = id }))
          (insert_mission-Grows m) (λ id. insert_agent-Grows (record a { mission_id = id }))))
      (λ id w. omega arith)

Unique-append :
    (ms : List Mission) (n : Mission)
    → Unique ms
    → All (λ r. Apart r n) ms
    → Unique (ms ++ (n ∷ []))
Unique-append [] n u a = (tt, tt)
Unique-append (m ∷ ms) n u a =
    (All-append (Apart m) ms (n ∷ []) u.0 (a.0, tt), Unique-append ms n u.1 a.1)

All-free :
    (p : Mission → Bool) (ms : List Mission) → exists_row p ms ≡ false → All (λ r. p r ≡ false) ms
All-free p [] h = tt
All-free p (m ∷ ms) h = elim (Bool-cases (p m)) [
  | inl hit ↦ cc (rw hit at h)
  | inr miss ↦ (miss, All-free p ms (rw miss at h))
]

new-All :
    (m : Mission) (id : ℕ) (t : Time) (ms : List Mission)
    → All (λ r. r.id < id) ms
    → All (λ r. duplicates m r ≡ false) ms
    → All (λ r. Apart r (new_row id t m)) ms
new-All m id t [] b f = tt
new-All m id t (r ∷ ms) b f = (new-Apart m id t r b.0 f.0, new-All m id t ms b.1 f.1)

pub Enqueued-Sound :
    (m : Mission) (a : AgentEntry) (w : World) (p : Outcome ℕ × World)
    → Enqueued m a w p
    → w.next_mission ≤ p.1.next_mission
    → Sound w
    → Sound p.1
Enqueued-Sound m a w (err e, w') h g (u, b) = rw h.2 (u, All-imp w.missions (λ r k. omega arith) b)
Enqueued-Sound m a w (ok id, w') h g (u, b) =
    let t = w.clock (w.calls + 1 + 1) in
    let n = new_row id t m in
    let below : All (λ r. r.id < id) w.missions =
      All-imp w.missions (λ r k. let x = h.0 in omega arith) b in
    let next = h.8 in
    rw h.3 (
      Unique-append w.missions n u
          (new-All m id t w.missions below (All-free (duplicates m) w.missions h.1)),
      All-append (λ r. r.id < w'.next_mission) w.missions (n ∷ [])
          (All-imp w.missions (λ r k. omega arith) b) (let x = h.0 in omega arith, tt),
    )

pub Moved-Sound :
    (w w' : World)
    → Moved w.missions w'.missions
    → w.next_mission ≤ w'.next_mission
    → Sound w
    → Sound w'
Moved-Sound w w' v e (u, b) = (
  Moved-Unique v u,
  Moved-All (λ r. r.id < w'.next_mission) (λ m m' k x. rw x.same_id k) v
      (All-imp w.missions (λ r k. omega arith) b),
)
