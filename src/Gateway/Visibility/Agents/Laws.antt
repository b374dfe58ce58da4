-- ===== src/Gateway/Visibility/Agents/Laws.antt =====
-- The views of an agent's tools agree: internal/gateway/scope.go and `FilterToolsForAgent` of
-- internal/gateway/gateway.go.
use fracta.Common.{
  ℤ, Time, ltb_ℤ, ==ℤ-true, String, Bool, true, false, not, ◌||◌, Bool-cases, Option, none, some,
  List, [], ◌∷◌, ◌≡◌, ◌≢◌, refl, sym, ap, ◌∙◌, inl, inr, arith, lookup, select_rows,
}
use fracta.Gateway.{AgentScope, Gateway}
use fracta.Gateway.Visibility.{is_key, visible_in, is_tool_visible, scope_allows}
use fracta.Gateway.Visibility.Agents.{
  in_set, is_tool_visible_for_agent, if_live, passes_all, live_scope, in_scope, filter_tools,
  filter_tools_for_agent,
}

neither_before : (a b : ℤ) → ltb_ℤ a b ≡ false → ltb_ℤ b a ≡ false → a ≡ b
neither_before a b h k = ==ℤ-true a b (ground arith)

not_both_before : (a b : ℤ) → ltb_ℤ a b ≡ true → ltb_ℤ b a ≡ false
not_both_before a b h = ground arith

-- Both tests of the scope's expiry, at any other instant than that of the expiry.
in_scope-allows :
    (now : Time) (ns : String) (o : Option AgentScope)
    → ((s : AgentScope) → o ≡ some s → now ≢ s.expires_at)
    → in_scope (if_live now o) ns ≡ scope_allows now ns o
unfolding in_scope scope_allows
in_scope-allows now ns none h = refl
in_scope-allows now ns (some s) h = elim (Bool-cases (ltb_ℤ now s.expires_at)) [
  | inl live ↦ rw (live, not_both_before now s.expires_at live) refl
  | inr over ↦ elim (Bool-cases (ltb_ℤ s.expires_at now)) [
    | inl expired ↦ rw (over, expired) refl
    | inr at ↦ absurd (h s refl (neither_before now s.expires_at over at))
  ]
]

module _ (g : Gateway) (now : Time) (task : String) {set : List (String × Bool)}
    (built : g.visible_set ≡ some set)
    (instant : (s : AgentScope) → lookup task g.scopes ≡ some s → now ≢ s.expires_at) where
  -- Native tools, and the proxied ones that `IsToolVisibleForAgent` shows.
  abbrev pub offered : String → Bool
  offered t = not (is_key (lookup t g.catalog)) || is_tool_visible_for_agent g now task t

  proxied_visible :
      (t : String)
      → is_key (lookup t g.catalog) ≡ true
      → is_tool_visible g t ≡ in_set g.visible_set t
  unfolding is_tool_visible visible_in in_set
  proxied_visible t h = ap (visible_in g t) built ∙ rw h (sym (ap (λ o. in_set o t) built))

  filter_tools-offered :
      (ts : List String) → filter_tools g (live_scope g now (some task)) ts ≡ select_rows offered ts
  unfolding filter_tools live_scope is_tool_visible_for_agent
  filter_tools-offered [] = refl
  filter_tools-offered (t ∷ ts) =
      let tail = filter_tools-offered ts in
      let scoped = in_scope-allows now t (lookup task g.scopes) instant in
      elim (Bool-cases (is_key (lookup t g.catalog))) [
        | inl proxied ↦
            let visible = proxied_visible t proxied in
            elim (Bool-cases (in_set g.visible_set t)) [
              | inl shown ↦ elim (Bool-cases (scope_allows now t (lookup task g.scopes))) [
                | inl allowed ↦ rw (visible, proxied, shown, scoped, allowed, tail) refl
                | inr refused ↦ rw (visible, proxied, shown, scoped, refused, tail) refl
              ]
              | inr hidden ↦ rw (visible, proxied, hidden, tail) refl
            ]
        | inr native ↦ rw (native, tail) refl
      ]

  -- Once the visible set is built, and but for the instant at which the agent's scope expires, the
  -- list of tools for an agent has just the native tools and those proxied tools that are visible to
  -- the agent one by one.
  pub filter_tools_for_agent-offered :
      (ts : List String) → filter_tools_for_agent g now (some task) ts ≡ select_rows offered ts
  unfolding filter_tools_for_agent passes_all
  filter_tools_for_agent-offered ts =
      let e : passes_all g g.visible_set ≡ false = ap (passes_all g) built in
      rw e (filter_tools-offered ts)
