-- ===== src/Gateway/Visibility.antt =====
-- The tools that agents see: the visible set of internal/gateway/gateway.go and the scopes of
-- internal/gateway/scope.go. Between the locked parts of `BuildVisibleSet` other calls may run, so that
-- it is a beginning, a reading of the registry and an end.
pub mod Laws
pub mod Shown
pub mod Agents
mod Tests
use fracta.Common.{
  ℕ, ◌+◌, ◌%◌, ◌^◌, ◌==◌, Time, Duration, ltb_ℤ, ◌+ℤ◌, String, ◌⧺◌, same, Bool, true, false, not,
  ◌&&◌, ◌||◌, Option, none, some, List, [], ◌∷◌, if◌then◌else◌, put, lookup, drop_key, map_values,
}
use fracta.World.{World, Outcome, ok, err}
use fracta.Registry.{Tool}
use fracta.Registry.Store.{list_tools}
use fracta.Gateway.{ToolPolicy, CatalogEntry, AgentScope, Gateway}
use fracta.Gateway.Policy.{policy_allowed}

-- `ServerName + "." + ToolName`
abbrev pub namespaced : String → String → String
namespaced server tool = server ⧺ "." ⧺ tool

abbrev pub true_or_missing : Option Bool → Bool
true_or_missing none = false
true_or_missing (some b) = b

abbrev pub is_key : {A : Type 0} → Option A → Bool
is_key none = false
is_key (some a) = true

abbrev pub policy_or_nil : Option (Option ToolPolicy) → Option ToolPolicy
policy_or_nil none = none
policy_or_nil (some p) = p

-- What `BuildVisibleSet` reads at its beginning.
pub record Build : Type 0 where
  pub gen : ℕ
  pub policies : List (String × Option ToolPolicy)
  pub has_store : Bool
  pub entries : List (String × CatalogEntry)

-- The generation is a uint64.
unfoldable pub begin_build : Gateway → Build × Gateway
begin_build g =
    let next = (g.visible_gen + 1) % 2 ^ 64 in
    (
      record {
        gen = next;
        policies = g.tool_policies;
        has_store = g.has_registry;
        entries = g.catalog;
      },
      record g { visible_gen = next },
    )

-- `enabledMap`: a later tool replaces an earlier one with its key.
unfoldable pub enabled_map : List Tool → List (String × Bool) → List (String × Bool)
unfolding put
enabled_map [] m = m
enabled_map (t ∷ ts) m = enabled_map ts (put (namespaced t.server_name t.tool_name) t.enabled m)

abbrev pub enabled_unless_told : Option Bool → Bool
enabled_unless_told none = true
enabled_unless_told (some b) = b

-- The value of `newSet` for an entry.
unfoldable pub shows : Build → List (String × Bool) → String → CatalogEntry → Bool
unfolding policy_allowed lookup
shows b enabled ns e =
    (if b.has_store then enabled_unless_told (lookup ns enabled) else true)
    && policy_allowed (policy_or_nil (lookup e.server_name b.policies)) e.original_name

-- The set is written if no newer build has begun.
unfoldable pub end_build : Build → List (String × Bool) → Gateway → Gateway
unfolding shows policy_allowed lookup
end_build b enabled g =
    if g.visible_gen == b.gen
    then record g { visible_set = some (map_values (shows b enabled) b.entries) }
    else g

-- A failed reading ends the build.
unfoldable pub after_reading : Build → Gateway → Outcome (List Tool) × World → Gateway × World
unfolding end_build shows enabled_map put policy_allowed lookup
after_reading b g (err e, w) = (g, w)
after_reading b g (ok ts, w) = (end_build b (enabled_map ts []) g, w)

unfoldable pub read_and_end :
    List (String × CatalogEntry) → Build → Gateway → World → Gateway × World
unfolding list_tools after_reading end_build shows enabled_map put policy_allowed lookup
read_and_end [] b g w = (end_build b [] g, w)
read_and_end (e ∷ es) b g w =
    if b.has_store
    then after_reading b g (list_tools (record { server_name = ""; enabled = none }) w)
    else (end_build b [] g, w)

-- `BuildVisibleSet`, where nothing runs in between.
unfoldable pub build_visible_set : Gateway → World → Gateway × World
unfolding begin_build read_and_end list_tools after_reading end_build shows enabled_map put
    policy_allowed lookup
build_visible_set g w = let (b, g') = begin_build g in read_and_end b.entries b g' w

-- `enforcementConfigured`
unfoldable pub enforcement_configured : Gateway → Bool
enforcement_configured g = g.has_registry || elim g.tool_policies [ [] ↦ false | p ∷ ps ↦ true ]

-- `IsToolVisible`
unfoldable pub visible_in : Gateway → String → Option (List (String × Bool)) → Bool
unfolding enforcement_configured lookup
visible_in g ns none = not (enforcement_configured g)
visible_in g ns (some set) = is_key (lookup ns g.catalog) && true_or_missing (lookup ns set)

unfoldable pub is_tool_visible : Gateway → String → Bool
unfolding visible_in enforcement_configured lookup
is_tool_visible g ns = visible_in g ns g.visible_set

-- `RegisterScope` and `UnregisterScope`
unfoldable pub all_allowed : List String → List (String × Bool)
unfolding put
all_allowed [] = []
all_allowed (t ∷ ts) = put t true (all_allowed ts)

unfoldable pub register_scope : String → List String → Duration → Time → Gateway → Gateway
unfolding all_allowed put ◌+ℤ◌
register_scope task [] ttl now g = g
register_scope task (t ∷ ts) ttl now g = record g {
  scopes =
      put task
        (record {
          agent_task = task;
          allowed_tools = all_allowed (t ∷ ts);
          expires_at = now +ℤ ttl;
        })
        g.scopes;
}

unfoldable pub unregister_scope : String → Gateway → Gateway
unfolding drop_key
unregister_scope task g = record g { scopes = drop_key task g.scopes }

-- `!hasScope || time.Now().After(scope.ExpiresAt)`, or the scope's answer.
unfoldable pub scope_allows : Time → String → Option AgentScope → Bool
unfolding lookup
scope_allows now ns none = true
scope_allows now ns (some s) =
    if ltb_ℤ s.expires_at now then true else true_or_missing (lookup ns s.allowed_tools)
