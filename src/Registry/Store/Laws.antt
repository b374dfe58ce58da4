-- ===== src/Registry/Store/Laws.antt =====
-- The tools of a server after a discovery: `ReplaceDiscoveredTools` of
-- internal/registry/pgregistry/pgregistry.go.
use fracta.Common.{
  String, same, same_refl, same→≡, ≡→same, same_swap, Bool, true, false, not, ◌&&◌, Bool-cases,
  none, List, [], ◌∷◌, ◌≡◌, refl, sym, ap, ◌∙◌, ◌⊎◌, inl, inr, if◌then◌else◌, find_row,
  find_row-select_rows, find_row-select_rows-none, select_rows,
}
use fracta.World.{World, Outcome, ok, err, Action, tick, ◌>>◌, now, transaction, KeepsRegistry}
use fracta.World.Laws.{>>=-eq-ok, Settled, transaction-Settled}
use fracta.Registry.{Tool}
use fracta.Registry.Store.{is_tool, upsert_tools, is_kept, delete_stale, replace_discovered_tools}
use fracta.Registry.Store.Upserts.{
  enabled_found, enabled_of, or_enabled, is_listed, is_tool-true, upsert_tools-enabled,
  upsert_tools-other,
}

-- The condition of the DELETE for a tool of the server, and of another.
kept_if_listed : (a b : Bool) → a ≡ true → not (a && not b) ≡ b
kept_if_listed true true h = refl
kept_if_listed true false h = refl
kept_if_listed false b h = cc

module _ (server : String) where
  -- Of the server's tools those that were discovered are kept.
  is_kept-own :
      (ts : List Tool) (n : String) (t : Tool)
      → is_tool server n t ≡ true
      → is_kept server ts t ≡ is_listed n ts
  unfolding is_kept
  is_kept-own [] n t k = let (a, b) = is_tool-true server n t k in rw (a, same_refl server) refl
  is_kept-own (d ∷ ts) n t k =
      let (a, b) = is_tool-true server n t k in
      kept_if_listed (same t.server_name server) (is_listed t.tool_name (d ∷ ts))
        (≡→same t.server_name server a)
      ∙ ap (λ m. is_listed m (d ∷ ts)) b

  is_kept-other :
      (ts : List Tool) (s n : String) (t : Tool)
      → same server s ≡ false
      → is_tool s n t ≡ true
      → is_kept server ts t ≡ true
  unfolding is_kept
  is_kept-other [] s n t h k =
      let (a, b) = is_tool-true s n t k in rw (a, same_swap server s h) refl
  is_kept-other (d ∷ ts) s n t h k =
      let (a, b) = is_tool-true s n t k in rw (a, same_swap server s h) refl

  delete_stale-ok :
      (ts : List Tool) (w : World) {v : World}
      → delete_stale server ts w ≡ (ok tt, v)
      → v.tools ≡ select_rows (is_kept server ts) w.tools
  unfolding delete_stale
  delete_stale-ok ts w h = elim (Bool-cases (w.fault w.calls)) [
    | inl fails ↦ cc (rw fails at h)
    | inr passes ↦ sym (ap (λ p. p.1.tools) (rw passes at h))
  ]

  delete_stale-enabled :
      (ts : List Tool) (n : String) (w : World) {v : World}
      → delete_stale server ts w ≡ (ok tt, v)
      → enabled_of server n v.tools ≡ (if is_listed n ts then enabled_of server n w.tools else none)
  delete_stale-enabled ts n w h = elim (Bool-cases (is_listed n ts)) [
    | inl listed ↦
        rw (listed, delete_stale-ok ts w h)
          (ap enabled_found (
            find_row-select_rows (is_tool server n) (is_kept server ts) w.tools
              (λ r k. is_kept-own ts n r k ∙ listed)))
    | inr unlisted ↦
        rw (unlisted, delete_stale-ok ts w h)
          (ap enabled_found (
            find_row-select_rows-none (is_tool server n) (is_kept server ts) w.tools
              (λ r k. is_kept-own ts n r k ∙ unlisted)))
  ]

  -- What a discovery that succeeds has done to the server's tools and to another's.
  abbrev pub Replaced : List Tool → World → Outcome (Unit {0}) × World → Type 0
  Replaced ts w (err e, v) = KeepsRegistry w v
  Replaced ts w (ok _, v) =
      ((n : String)
        → enabled_of server n v.tools
          ≡ (if is_listed n ts then or_enabled (enabled_of server n w.tools) else none))
      × ((s n : String)
          → (s ≡ server) ⊎ (find_row (is_tool s n) v.tools ≡ find_row (is_tool s n) w.tools))

  abbrev statements : List Tool → Action (Unit {0})
  statements ts w = (upsert_tools server (now w) ts >> delete_stale server ts) w

  settled :
      (ts : List Tool) (w : World) (p : Outcome (Unit {0}) × World)
      → Settled (statements ts) w p
      → Replaced ts w p
  settled ts w (err e, v) s = s.7
  settled ts w (ok _, v) (u, ran, e) =
      let (_, x, upserted, deleted) =
        >>=-eq-ok (upsert_tools server (now (tick w)) ts) (λ _. delete_stale server ts) (tick w)
          ran in
      (
        λ n.
            let own = upsert_tools-enabled server (now (tick w)) ts n (tick w) upserted in
            let left = delete_stale-enabled ts n x deleted in
            rw e (elim (Bool-cases (is_listed n ts)) [
              | inl listed ↦ rw listed ((rw listed at left) ∙ (rw listed at own))
              | inr unlisted ↦ rw unlisted (rw unlisted at left)
            ]),
        λ s n. elim (Bool-cases (same server s)) [
          | inl own ↦ inl (sym (same→≡ server s own))
          | inr k ↦
              let same_row = upsert_tools-other server (now (tick w)) ts s n (tick w) k upserted in
              inr (
                rw (e, delete_stale-ok ts x deleted)
                  (find_row-select_rows (is_tool s n) (is_kept server ts) x.tools
                      (λ r h. is_kept-other ts s n r k h)
                    ∙ same_row))
        ],
      )

  -- A discovery of a server's tools that fails changes nothing. One that succeeds leaves of the
  -- server's tools just those it has found: each is enabled or not as it was before, and one that was
  -- not known is enabled; the tools of the other servers are as they were.
  pub replace_discovered_tools-Replaced :
      (ts : List Tool) (w : World) → Replaced ts w (replace_discovered_tools server ts w)
  unfolding replace_discovered_tools
  replace_discovered_tools-Replaced ts w =
      settled ts w (transaction (statements ts) w) (transaction-Settled (statements ts) w)
