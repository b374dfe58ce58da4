-- ===== src/Gateway/Catalog/Tests.antt =====
-- The catalog with an MCP server that keeps a list of names.
use fracta.Common.{
  String, same, same_refl, same→≡, Bool, false, not, Bool-cases, none, List, [], ◌∷◌, ◌≡◌, ◌≢◌,
  refl, sym, inl, inr, In, here, there, All, exists_row, exists_row-select_rows, select_rows,
  lookup,
}
use fracta.Samples.{world}
use fracta.Gateway.{Gateway}
use fracta.Gateway.Visibility.{namespaced}
use fracta.Gateway.Catalog.{ToolInfo, McpServer, reconcile_server}
use fracta.Gateway.Catalog.Laws.{
  McpServerLaws, Served, CatalogCall, registers, unregisters, reconciles, run_calls,
  run_calls-Served,
}
use fracta.Gateway.Catalog.Exact.{IsWanted, reconcile_server-exact}

abbrev is_name : String → String → Bool
is_name j k = same k j

abbrev mcp : McpServer (List String)
mcp = record {
  has_tool = λ m j. exists_row (is_name j) m;
  add_tool = λ k m. k ∷ m;
  delete_tools = λ ks m. select_rows (λ k. not (exists_row (is_name k) ks)) m;
}

not_listed : (j : String) (ks : List String) → (In j ks → ⊥) → exists_row (is_name j) ks ≡ false
not_listed j [] h = refl
not_listed j (k ∷ ks) h = elim (Bool-cases (same k j)) [
  | inl hit ↦ absurd (h (here (sym (same→≡ k j hit))))
  | inr miss ↦ rw miss (not_listed j ks (λ i. h (there i)))
]

laws : McpServerLaws mcp
laws = record {
  has_tool-add_tool = λ k m. rw (same_refl k) refl;
  has_tool-add_tool_other =
      λ j k m h. elim (Bool-cases (same k j)) [ inl hit ↦ rw hit refl | inr miss ↦ rw miss h ];
  has_tool-delete_tools_other = λ j ks m h.
      exists_row-select_rows (is_name j) (λ k. not (exists_row (is_name k) ks)) m
        (λ r e. rw (same→≡ r j e, not_listed j ks h) refl);
}

abbrev empty : Gateway
empty = record {
  catalog = [];
  has_registry = false;
  tool_policies = [];
  visible_set = none;
  visible_gen = 0;
  scopes = [];
}

abbrev info : String → ToolInfo
info name = record { name = name; description = "" }

abbrev calls : List CatalogCall
calls =
    registers "elastic" (info "search" ∷ info "count" ∷ [])
    ∷ registers "mine" (info "run" ∷ [])
    ∷ reconciles "elastic" (info "search" ∷ info "sum" ∷ []) world
    ∷ unregisters "mine"
    ∷ []

run_calls-Served_example : Served mcp laws (run_calls mcp calls (empty, "spawn" ∷ []))
run_calls-Served_example = run_calls-Served mcp laws calls (empty, "spawn" ∷ []) tt

abbrev before : Gateway × List String
before = run_calls mcp calls (empty, "spawn" ∷ [])

reconcile_server-exact_example :
    let catalog =
      (reconcile_server mcp "elastic" (info "sum" ∷ []) (before.0, before.1) world).0.0.catalog in
    All (λ t. lookup (namespaced "elastic" t.name) catalog ≢ none) (info "sum" ∷ [])
    × All (IsWanted "elastic" (info "sum" ∷ [])) catalog
reconcile_server-exact_example =
    reconcile_server-exact mcp "elastic" (info "sum" ∷ []) before.0 before.1 world
