-- ===== src/Gateway/Visibility/Agents.antt =====
-- The tools of one agent: internal/gateway/scope.go, and `FilterToolsForAgent` of gateway.go. A tool of
-- the server's list is its name; `now` is the time of the call.
pub mod Laws
pub mod Entries
use fracta.Common.{
  Time, ltb_ℤ, String, Bool, true, false, not, ◌&&◌, Option, none, some, List, [], ◌∷◌, lookup,
  if◌then◌else◌,
}
use fracta.Gateway.{CatalogEntry, AgentScope, Gateway}
use fracta.Gateway.Visibility.{
  namespaced, is_key, true_or_missing, enforcement_configured, visible_in, is_tool_visible,
  scope_allows,
}

-- `visibleSet[nsName]`, also of a set that is not built.
unfoldable pub in_set : Option (List (String × Bool)) → String → Bool
unfolding lookup
in_set none ns = false
in_set (some set) ns = true_or_missing (lookup ns set)

-- `visibleCatalogEntries`
unfoldable pub visible_entries :
    Option (List (String × Bool)) → List (String × CatalogEntry) → List CatalogEntry
unfolding in_set lookup
visible_entries set [] = []
visible_entries set ((ns, e) ∷ m) =
    let rest = visible_entries set m in if in_set set ns then e ∷ rest else rest

-- The loop of `VisibleToolsForAgent` and the test in front of it.
unfoldable pub scoped_entries : AgentScope → List CatalogEntry → List CatalogEntry
unfolding lookup
scoped_entries s [] = []
scoped_entries s (e ∷ es) =
    let rest = scoped_entries s es in
    if true_or_missing (lookup (namespaced e.server_name e.original_name) s.allowed_tools)
    then e ∷ rest
    else rest

unfoldable pub entries_in_scope : Time → Option AgentScope → List CatalogEntry → List CatalogEntry
unfolding scoped_entries lookup
entries_in_scope now none es = es
entries_in_scope now (some s) es = if ltb_ℤ s.expires_at now then es else scoped_entries s es

-- `VisibleToolsForAgent`
unfoldable pub visible_tools_for_agent : Gateway → Time → String → List CatalogEntry
unfolding visible_entries in_set entries_in_scope scoped_entries lookup
visible_tools_for_agent g now task =
    entries_in_scope now (lookup task g.scopes) (visible_entries g.visible_set g.catalog)

-- `IsToolVisibleForAgent`
unfoldable pub is_tool_visible_for_agent : Gateway → Time → String → String → Bool
unfolding is_tool_visible visible_in enforcement_configured scope_allows lookup
is_tool_visible_for_agent g now task ns =
    if not (is_tool_visible g ns) then false else scope_allows now ns (lookup task g.scopes)

-- The scope that `FilterToolsForAgent` uses: it needs `now` before the expiry.
abbrev pub if_live : Time → Option AgentScope → Option AgentScope
if_live now none = none
if_live now (some s) = if ltb_ℤ now s.expires_at then some s else none

unfoldable pub live_scope : Gateway → Time → Option String → Option AgentScope
unfolding lookup
live_scope g now none = none
live_scope g now (some task) = if_live now (lookup task g.scopes)

unfoldable pub in_scope : Option AgentScope → String → Bool
unfolding lookup
in_scope none ns = true
in_scope (some s) ns = true_or_missing (lookup ns s.allowed_tools)

-- The loop of `FilterToolsForAgent`.
unfoldable pub filter_tools : Gateway → Option AgentScope → List String → List String
unfolding in_set in_scope lookup
filter_tools g scope [] = []
filter_tools g scope (t ∷ ts) =
    let rest = filter_tools g scope ts in
    if not (is_key (lookup t g.catalog))
    then t ∷ rest
    else if not (in_set g.visible_set t)
    then rest
    else if not (in_scope scope t)
    then rest
    else t ∷ rest

-- The test in front of it.
unfoldable pub passes_all : Gateway → Option (List (String × Bool)) → Bool
unfolding enforcement_configured
passes_all g none = not (enforcement_configured g)
passes_all g (some set) = false

-- `FilterToolsForAgent`; the agent is that of the context, if there is one.
unfoldable pub filter_tools_for_agent : Gateway → Time → Option String → List String → List String
unfolding filter_tools passes_all live_scope enforcement_configured in_set in_scope lookup
filter_tools_for_agent g now task ts =
    if passes_all g g.visible_set then ts else filter_tools g (live_scope g now task) ts
