-- ===== src/Gateway/Visibility/Agents/Entries.antt =====
-- The entries that an agent sees and the tools that it may call: internal/gateway/scope.go.
use fracta.Common.{
  Time, ltb_ℤ, String, Bool, true, Bool-cases, Option, none, some, List, [], ◌∷◌, ◌≡◌, ◌↔◌, refl,
  sym, ap, ◌∙◌, inl, inr, In, here, there, All, lookup, In-lookup, select_rows, In-select_rows,
  select_rows-In,
}
use fracta.Gateway.{CatalogEntry, AgentScope, Gateway}
use fracta.Gateway.Visibility.{
  namespaced, true_or_missing, visible_in, is_tool_visible, scope_allows,
}
use fracta.Gateway.Visibility.Agents.{
  in_set, visible_entries, scoped_entries, entries_in_scope, visible_tools_for_agent,
  is_tool_visible_for_agent,
}

-- The key of an entry.
abbrev pub key_of : CatalogEntry → String
key_of e = namespaced e.server_name e.original_name

-- Each entry of the catalog stands under its server's name and its own.
abbrev pub IsKeyed : String × CatalogEntry → Type 0
IsKeyed (ns, e) = ns ≡ key_of e

visible_entries-In :
    (set : Option (List (String × Bool))) (m : List (String × CatalogEntry)) (e : CatalogEntry)
    → All IsKeyed m
    → In e (visible_entries set m)
    → In (key_of e, e) m × (in_set set (key_of e) ≡ true)
unfolding visible_entries
visible_entries-In set [] e keyed i = elim i [ ]
visible_entries-In set ((ns, x) ∷ m) e keyed i = elim (Bool-cases (in_set set ns)) [
  | inl shown ↦ first shown (rw shown at i) (visible_entries-In set m e keyed.1)
  | inr hidden ↦ let (j, h) = visible_entries-In set m e keyed.1 (rw hidden at i) in (there j, h)
]
  where
    first :
        in_set set ns ≡ true
        → In e (x ∷ visible_entries set m)
        → (In e (visible_entries set m) → In (key_of e, e) m × (in_set set (key_of e) ≡ true))
        → In (key_of e, e) ((ns, x) ∷ m) × (in_set set (key_of e) ≡ true)
    first shown (here h) f =
        let k : key_of e ≡ ns = ap key_of h ∙ sym keyed.0 in
        (here (ap (λ n. (n, e)) k ∙ ap (λ y. (ns, y)) h), rw k shown)
    first shown (there j) f = let (l, h) = f j in (there l, h)

In-visible_entries :
    (set : Option (List (String × Bool))) (m : List (String × CatalogEntry)) (ns : String)
    (e : CatalogEntry)
    → In (ns, e) m
    → in_set set ns ≡ true
    → In e (visible_entries set m)
unfolding visible_entries
In-visible_entries set [] ns e i h = elim i [ ]
In-visible_entries set ((x, y) ∷ m) ns e (here p) h =
    let shown : in_set set x ≡ true = ap (λ q. in_set set q.0) (sym p) ∙ h in
    rw shown (here (ap (λ q. q.1) p))
In-visible_entries set ((x, y) ∷ m) ns e (there j) h = elim (Bool-cases (in_set set x)) [
  | inl shown ↦ rw shown (there (In-visible_entries set m ns e j h))
  | inr hidden ↦ rw hidden (In-visible_entries set m ns e j h)
]

abbrev in_scope_of : AgentScope → CatalogEntry → Bool
in_scope_of s e = true_or_missing (lookup (key_of e) s.allowed_tools)

scoped_entries-select :
    (s : AgentScope) (es : List CatalogEntry) → scoped_entries s es ≡ select_rows (in_scope_of s) es
unfolding scoped_entries
scoped_entries-select s [] = refl
scoped_entries-select s (e ∷ es) = elim (Bool-cases (in_scope_of s e)) [
  | inl kept ↦ rw (kept, scoped_entries-select s es) refl
  | inr dropped ↦ rw (dropped, scoped_entries-select s es) refl
]

entries_in_scope-In :
    (now : Time) (o : Option AgentScope) (es : List CatalogEntry) (e : CatalogEntry)
    → In e (entries_in_scope now o es) ↔ (In e es × (scope_allows now (key_of e) o ≡ true))
unfolding entries_in_scope scope_allows
entries_in_scope-In now none es e = (λ i. (i, refl), λ p. p.0)
entries_in_scope-In now (some s) es e = elim (Bool-cases (ltb_ℤ s.expires_at now)) [
  | inl expired ↦ rw expired (λ i. (i, refl), λ p. p.0)
  | inr live ↦
      rw (live, scoped_entries-select s es)
        (In-select_rows (in_scope_of s) e es, λ p. select_rows-In (in_scope_of s) e es p.0 p.1)
]

module _ (g : Gateway) (now : Time) (task : String) {set : List (String × Bool)}
    (built : g.visible_set ≡ some set) (keyed : All IsKeyed g.catalog) where
  visible_key :
      (e : CatalogEntry)
      → In (key_of e, e) g.catalog
      → is_tool_visible g (key_of e) ≡ in_set g.visible_set (key_of e)
  unfolding is_tool_visible visible_in in_set
  visible_key e i =
      let (x, found) = In-lookup (key_of e) e g.catalog i in
      ap (visible_in g (key_of e)) built ∙ rw found (sym (ap (λ o. in_set o (key_of e)) built))

  -- Once the visible set is built an agent sees an entry just where the catalog has it and the agent
  -- may call the tool.
  pub visible_tools_for_agent-In :
      (e : CatalogEntry)
      → In e (visible_tools_for_agent g now task)
        ↔ (In (key_of e, e) g.catalog × (is_tool_visible_for_agent g now task (key_of e) ≡ true))
  unfolding visible_tools_for_agent is_tool_visible_for_agent
  visible_tools_for_agent-In e = (
    λ i.
        let (j, allowed) =
          (entries_in_scope-In now (lookup task g.scopes) (visible_entries g.visible_set g.catalog)
              e).0
            i in
        let (k, shown) = visible_entries-In g.visible_set g.catalog e keyed j in
        (k, rw (visible_key e k, shown) allowed),
    λ p. elim (Bool-cases (is_tool_visible g (key_of e))) [
      | inl visible ↦
          (entries_in_scope-In now (lookup task g.scopes) (visible_entries g.visible_set g.catalog)
              e).1
            (
              In-visible_entries g.visible_set g.catalog (key_of e) e p.0
                  (sym (visible_key e p.0) ∙ visible),
              rw visible at p.1,
            )
      | inr hidden ↦ cc (rw hidden at p.1)
    ],
  )
