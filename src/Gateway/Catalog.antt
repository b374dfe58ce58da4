-- ===== src/Gateway/Catalog.antt =====
-- The tools of the backend servers in the gateway's catalog and at its own MCP server:
-- `RegisterServer`, `UnregisterServer` and `ReconcileServer` of internal/gateway/gateway.go. The MCP
-- server is another package's and a parameter; a tool of it is its name, and its handler, its schema
-- and its text are left out, as is the legacy writing of the graph.
mod Maps
pub mod Laws
pub mod Exact
mod Tests
use fracta.Common.{
  ℕ, ◌+◌, String, same, Bool, true, false, not, Option, none, some, List, [], ◌∷◌, if◌then◌else◌,
  put, lookup, drop_key, exists_row,
}
use fracta.World.{World}
use fracta.Gateway.{CatalogEntry, Gateway}
use fracta.Gateway.Visibility.{namespaced, is_key, build_visible_set}

-- `ToolInfo` of internal/mcpclient.
pub record ToolInfo : Type 0 where
  pub name : String
  pub description : String

-- What the gateway uses of `server.MCPServer`: whether it has a tool, adding one, deleting some.
pub record McpServer (M : Type 0) : Type 0 where
  pub has_tool : M → String → Bool
  pub add_tool : String → M → M
  pub delete_tools : List String → M → M

abbrev pub entry_for : String → ToolInfo → CatalogEntry
entry_for server t = record {
  server_name = server;
  original_name = t.name;
  description = t.description;
}

-- `g.catalog[nsName] = …`
unfoldable pub with_entry : String → ToolInfo → Gateway → Gateway
unfolding put
with_entry server t g = record g {
  catalog = put (namespaced server t.name) (entry_for server t) g.catalog;
}

-- `delete(g.catalog, nsName)` for each name.
unfoldable pub drop_keys : {A : Type 0} → List String → List (String × A) → List (String × A)
unfolding drop_key
drop_keys [] m = m
drop_keys (k ∷ ks) m = drop_keys ks (drop_key k m)

-- The names of a server's tools, and those of them that are not incoming.
unfoldable pub names_of_server : String → List (String × CatalogEntry) → List String
names_of_server server [] = []
names_of_server server ((ns, e) ∷ m) =
    let rest = names_of_server server m in if same e.server_name server then ns ∷ rest else rest

abbrev pub is_incoming : List ToolInfo → String → Bool
is_incoming ts name = exists_row (λ t. same t.name name) ts

unfoldable pub names_to_remove : String → List ToolInfo → List (String × CatalogEntry) → List String
names_to_remove server ts [] = []
names_to_remove server ts ((ns, e) ∷ m) =
    let rest = names_to_remove server ts m in
    if same e.server_name server
    then (if is_incoming ts e.original_name then rest else ns ∷ rest)
    else rest

-- `currentByOriginal[name]`
unfoldable pub is_current : String → List (String × CatalogEntry) → String → Bool
is_current server [] name = false
is_current server ((ns, e) ∷ m) name =
    let rest = is_current server m name in
    if same e.server_name server then (if same e.original_name name then true else rest) else rest

module _ {M : Type 0} (mcp : McpServer M) where
  abbrev pub delete_if_any : List String → M → M
  delete_if_any [] m = m
  delete_if_any (k ∷ ks) m = mcp.delete_tools (k ∷ ks) m

  -- The loop of `RegisterServer`.
  unfoldable pub register_tools : String → List ToolInfo → Gateway × M → ℕ → ℕ × (Gateway × M)
  unfolding with_entry put
  register_tools server [] s n = (n, s)
  register_tools server (t ∷ ts) (g, m) n =
      let kept = register_tools server ts (g, m) n in
      let more =
        register_tools server ts (with_entry server t g, mcp.add_tool (namespaced server t.name) m)
          (n + 1) in
      if mcp.has_tool m (namespaced server t.name) then kept else more

  -- `RegisterServer`, given what the pool has discovered; none is an error of it.
  unfoldable pub register_server :
      String → Option (List ToolInfo) → Gateway × M → Option ℕ × (Gateway × M)
  unfolding register_tools with_entry put
  register_server server none s = (none, s)
  register_server server (some ts) s = let (n, s') = register_tools server ts s 0 in (some n, s')

  -- `UnregisterServer`
  unfoldable pub unregister_server : String → Gateway × M → Gateway × M
  unfolding names_of_server drop_keys drop_key
  unregister_server server (g, m) =
      let gone = names_of_server server g.catalog in
      (record g { catalog = drop_keys gone g.catalog }, delete_if_any gone m)

  -- The last loop of `ReconcileServer`; a tool that is there is replaced.
  unfoldable pub put_tools :
      String → List (String × CatalogEntry) → List ToolInfo → Gateway × M → Gateway × M
  unfolding with_entry put is_current
  put_tools server current [] s = s
  put_tools server current (t ∷ ts) (g, m) =
      let ns = namespaced server t.name in
      let m' = if is_current server current t.name then mcp.delete_tools (ns ∷ []) m else m in
      put_tools server current ts (with_entry server t g, mcp.add_tool ns m')

  unfoldable pub remove_tools : String → List ToolInfo → Gateway × M → Gateway × M
  unfolding names_to_remove drop_keys drop_key
  remove_tools server ts (g, m) =
      let gone = names_to_remove server ts g.catalog in
      (record g { catalog = drop_keys gone g.catalog }, delete_if_any gone m)

  -- `ReconcileServer`
  unfoldable pub reconcile_server :
      String → List ToolInfo → Gateway × M → World → (Gateway × M) × World
  unfolding put_tools remove_tools with_entry put is_current names_to_remove drop_keys drop_key
      build_visible_set
  reconcile_server server ts (g, m) w =
      let (g', m') = put_tools server g.catalog ts (remove_tools server ts (g, m)) in
      let (g'', w') = build_visible_set g' w in ((g'', m'), w')
