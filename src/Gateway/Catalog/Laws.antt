-- ===== src/Gateway/Catalog/Laws.antt =====
-- The catalog of the gateway and the tools of its MCP server: internal/gateway/gateway.go.
use fracta.Common.{
  ℕ, ◌+◌, String, same, same→≡, ≡→same, Bool, true, false, Bool-cases, some, List, [], ◌∷◌, ◌≡◌,
  refl, ◌∙◌, inl, inr, In, here, there, All, All-imp, if◌then◌else◌,
}
use fracta.Gateway.Catalog.Maps.{All-put, All-both, All-drop_keys, dropped}
use fracta.World.{World}
use fracta.Gateway.{CatalogEntry, Gateway}
use fracta.Gateway.Visibility.{namespaced}
use fracta.Gateway.Visibility.Laws.{build_visible_set-catalog}
use fracta.Gateway.Visibility.Agents.Entries.{key_of}
use fracta.Gateway.Catalog.{
  ToolInfo, McpServer, entry_for, with_entry, drop_keys, names_of_server, names_to_remove,
  is_current, delete_if_any, register_tools, register_server, unregister_server, put_tools,
  remove_tools, reconcile_server,
}

-- What the gateway relies on: a tool that is added is there, deleting does what it says, and neither
-- touches another tool.
pub record McpServerLaws {M : Type 0} (mcp : McpServer M) : Type 0 where
  pub has_tool-add_tool : (k : String) (m : M) → mcp.has_tool (mcp.add_tool k m) k ≡ true
  pub has_tool-add_tool_other :
      (j k : String) (m : M) → mcp.has_tool m j ≡ true → mcp.has_tool (mcp.add_tool k m) j ≡ true
  pub has_tool-delete_tools_other :
      (j : String) (ks : List String) (m : M)
      → (In j ks → ⊥)
      → mcp.has_tool (mcp.delete_tools ks m) j ≡ mcp.has_tool m j

module _ {M : Type 0} (mcp : McpServer M) (laws : McpServerLaws mcp) where
  -- Each entry stands under its own key, and the MCP server has a tool for it.
  abbrev pub IsServed : M → String × CatalogEntry → Type 0
  IsServed m (ns, e) = (ns ≡ key_of e) × (mcp.has_tool m ns ≡ true)

  abbrev pub Served : Gateway × M → Type 0
  Served (g, m) = All (IsServed m) g.catalog

  add-Served :
      (server : String) (t : ToolInfo) (g : Gateway) (m : M)
      → Served (g, m)
      → Served (with_entry server t g, mcp.add_tool (namespaced server t.name) m)
  unfolding with_entry
  add-Served server t g m h =
      All-put (IsServed (mcp.add_tool (namespaced server t.name) m)) (namespaced server t.name)
        (entry_for server t) g.catalog (refl, laws.has_tool-add_tool (namespaced server t.name) m)
        (All-imp g.catalog
          (λ p s. (s.0, laws.has_tool-add_tool_other p.0 (namespaced server t.name) m s.1)) h)

  register_tools-Served :
      (server : String) (ts : List ToolInfo) (g : Gateway) (m : M) (n : ℕ)
      → Served (g, m)
      → Served (register_tools mcp server ts (g, m) n).1
  unfolding register_tools
  register_tools-Served server [] g m n h = h
  register_tools-Served server (t ∷ ts) g m n h =
      elim (Bool-cases (mcp.has_tool m (namespaced server t.name))) [
        | inl there_is ↦ rw there_is (register_tools-Served server ts g m n h)
        | inr none_is ↦ rw none_is (
            register_tools-Served server ts (with_entry server t g)
              (mcp.add_tool (namespaced server t.name) m) (n + 1) (add-Served server t g m h))
      ]

  delete-Served :
      (gone : List String) (m : M) (es : List (String × CatalogEntry))
      → All (IsServed m) es
      → All (λ p. In p.0 gone → ⊥) es
      → All (IsServed (delete_if_any mcp gone m)) es
  delete-Served [] m es h k = h
  delete-Served (g ∷ gone) m es h k =
      All-imp es (λ p q. (q.0.0, laws.has_tool-delete_tools_other p.0 (g ∷ gone) m q.1 ∙ q.0.1))
        (All-both (IsServed m) (λ p. In p.0 (g ∷ gone) → ⊥) es h k)

  dropped-Served :
      (gone : List String) (m : M) (es : List (String × CatalogEntry))
      → All (IsServed m) es
      → All (IsServed (delete_if_any mcp gone m)) (drop_keys gone es)
  dropped-Served gone m es h =
      delete-Served gone m (drop_keys gone es) (All-drop_keys (IsServed m) gone es h)
        (dropped gone es)

  unregister_server-Served :
      (server : String) (g : Gateway) (m : M)
      → Served (g, m)
      → Served (unregister_server mcp server (g, m))
  unfolding unregister_server
  unregister_server-Served server g m h =
      dropped-Served (names_of_server server g.catalog) m g.catalog h

  replace-IsServed :
      (ns : String) (m : M) (p : String × CatalogEntry)
      → IsServed m p
      → IsServed (mcp.add_tool ns (mcp.delete_tools (ns ∷ []) m)) p
  replace-IsServed ns m (k, e) s = elim (Bool-cases (same k ns)) [
    | inl hit ↦
        (s.0, rw (same→≡ k ns hit) (laws.has_tool-add_tool ns (mcp.delete_tools (ns ∷ []) m)))
    | inr miss ↦ (
      s.0,
      laws.has_tool-add_tool_other k ns (mcp.delete_tools (ns ∷ []) m) (
          laws.has_tool-delete_tools_other k (ns ∷ []) m
            (λ i. elim i [ here q ↦ cc (≡→same k ns q, miss) | there j ↦ elim j [ ] ])
          ∙ s.1),
    )
  ]

  -- One round of the last loop of `ReconcileServer`: `b` says whether the tool is replaced.
  put_tool-Served :
      (server : String) (t : ToolInfo) (g : Gateway) (m : M) (b : Bool)
      → Served (g, m)
      → Served (
        with_entry server t g,
        mcp.add_tool
            (namespaced server t.name)
            (if b then mcp.delete_tools (namespaced server t.name ∷ []) m else m),
      )
  unfolding with_entry
  put_tool-Served server t g m false h = add-Served server t g m h
  put_tool-Served server t g m true h =
      let ns = namespaced server t.name in
      let m' = mcp.add_tool ns (mcp.delete_tools (ns ∷ []) m) in
      All-put (IsServed m') ns (entry_for server t) g.catalog
        (refl, laws.has_tool-add_tool ns (mcp.delete_tools (ns ∷ []) m))
        (All-imp g.catalog (replace-IsServed ns m) h)

  put_tools-Served :
      (server : String) (current : List (String × CatalogEntry)) (ts : List ToolInfo)
      (s : Gateway × M)
      → Served s
      → Served (put_tools mcp server current ts s)
  unfolding put_tools
  put_tools-Served server current [] s h = h
  put_tools-Served server current (t ∷ ts) (g, m) h =
      put_tools-Served server current ts _
        (put_tool-Served server t g m (is_current server current t.name) h)

  remove_tools-Served :
      (server : String) (ts : List ToolInfo) (g : Gateway) (m : M)
      → Served (g, m)
      → Served (remove_tools mcp server ts (g, m))
  unfolding remove_tools
  remove_tools-Served server ts g m h =
      dropped-Served (names_to_remove server ts g.catalog) m g.catalog h

  reconcile_server-Served :
      (server : String) (ts : List ToolInfo) (g : Gateway) (m : M) (w : World)
      → Served (g, m)
      → Served (reconcile_server mcp server ts (g, m) w).0
  unfolding reconcile_server
  reconcile_server-Served server ts g m w h =
      let s = put_tools mcp server g.catalog ts (remove_tools mcp server ts (g, m)) in
      let k =
        put_tools-Served server g.catalog ts (remove_tools mcp server ts (g, m))
          (remove_tools-Served server ts g m h) in
      rw (build_visible_set-catalog s.0 w) k

-- The operations on the catalog.
pub data CatalogCall : Type 0 where
  registers : String → List ToolInfo → CatalogCall
  unregisters : String → CatalogCall
  reconciles : String → List ToolInfo → World → CatalogCall

abbrev pub run_call : {M : Type 0} → McpServer M → CatalogCall → Gateway × M → Gateway × M
run_call mcp (registers server ts) s = (register_server mcp server (some ts) s).1
run_call mcp (unregisters server) s = unregister_server mcp server s
run_call mcp (reconciles server ts w) s = (reconcile_server mcp server ts s w).0

abbrev pub run_calls : {M : Type 0} → McpServer M → List CatalogCall → Gateway × M → Gateway × M
run_calls mcp [] s = s
run_calls mcp (c ∷ cs) s = run_calls mcp cs (run_call mcp c s)

run_call-Served :
    {M : Type 0} (mcp : McpServer M) (laws : McpServerLaws mcp) (c : CatalogCall) (s : Gateway × M)
    → Served mcp laws s
    → Served mcp laws (run_call mcp c s)
unfolding register_server
run_call-Served mcp laws (registers server ts) (g, m) h =
    register_tools-Served mcp laws server ts g m 0 h
run_call-Served mcp laws (unregisters server) (g, m) h =
    unregister_server-Served mcp laws server g m h
run_call-Served mcp laws (reconciles server ts w) (g, m) h =
    reconcile_server-Served mcp laws server ts g m w h

-- Whatever calls have changed the catalog, each of its entries stands under its server's name and its
-- own, and the MCP server has a tool of that name, if this was so at the beginning and the MCP server
-- keeps its laws.
pub run_calls-Served :
    {M : Type 0} (mcp : McpServer M) (laws : McpServerLaws mcp) (cs : List CatalogCall)
    (s : Gateway × M)
    → Served mcp laws s
    → Served mcp laws (run_calls mcp cs s)
run_calls-Served mcp laws [] s h = h
run_calls-Served mcp laws (c ∷ cs) s h =
    run_calls-Served mcp laws cs (run_call mcp c s) (run_call-Served mcp laws c s h)
