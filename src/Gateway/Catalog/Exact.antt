-- ===== src/Gateway/Catalog/Exact.antt =====
-- Which tools of a server the catalog has after `ReconcileServer` and `UnregisterServer` of
-- internal/gateway/gateway.go.
use fracta.Common.{
  String, same, same→≡, ≡→same, Bool, true, false, Bool-cases, none, List, [], ◌∷◌, ◌≡◌, ◌≢◌, refl,
  sym, ap, ◌∙◌, ◌⊎◌, inl, inr, In, here, there, All, All-imp, All-of_In, if◌then◌else◌, put, lookup,
  lookup-put, lookup-put_other,
}
use fracta.World.{World}
use fracta.Gateway.{CatalogEntry, Gateway}
use fracta.Gateway.Visibility.{namespaced}
use fracta.Gateway.Visibility.Laws.{build_visible_set-catalog}
use fracta.Gateway.Catalog.{
  ToolInfo, McpServer, entry_for, with_entry, drop_keys, names_of_server, is_incoming,
  names_to_remove, unregister_server, put_tools, remove_tools, reconcile_server,
}
use fracta.Gateway.Catalog.Maps.{All-put, All-both, All-drop_keys, dropped}

abbrev Entries : Type 0
Entries = List (String × CatalogEntry)

-- Whatever is not a key of the list satisfies P, so all that is left does.
left :
    (P : String × CatalogEntry → Type 0) (gone : List String) (m : Entries)
    → All (λ p. In p.0 gone ⊎ P p) m
    → All P (drop_keys gone m)
left P gone m h =
    All-imp (drop_keys gone m)
      (λ p k. elim k.0 [ inl listed ↦ absurd (k.1 listed) | inr holds ↦ holds ])
      (All-both (λ p. In p.0 gone ⊎ P p) (λ p. In p.0 gone → ⊥) (drop_keys gone m)
        (All-drop_keys (λ p. In p.0 gone ⊎ P p) gone m h) (dropped gone m))

module _ (P : String × CatalogEntry → Type 0) (p : String × CatalogEntry) (m : Entries) where
  listed_later :
      (gone : List String) → All (λ q. In q.0 gone ⊎ P q) m → All (λ q. In q.0 (p.0 ∷ gone) ⊎ P q) m
  listed_later gone h =
      All-imp m (λ q k. elim k [ inl listed ↦ inl (there listed) | inr holds ↦ inr holds ]) h

  -- One more entry, whose key is listed where `b` says so.
  list_if :
      (b : Bool) (gone : List String)
      → (b ≡ false → P p)
      → All (λ q. In q.0 gone ⊎ P q) m
      → All (λ q. In q.0 (if b then p.0 ∷ gone else gone) ⊎ P q) (p ∷ m)
  list_if true gone holds h = (inl (here refl), listed_later gone h)
  list_if false gone holds h = (inr (holds refl), h)

  list_if_and_not :
      (b c : Bool) (gone : List String)
      → (b ≡ false → P p)
      → (c ≡ true → P p)
      → All (λ q. In q.0 gone ⊎ P q) m
      → All (λ q. In q.0 (if b then (if c then gone else p.0 ∷ gone) else gone) ⊎ P q) (p ∷ m)
  list_if_and_not true true gone holds wanted h = (inr (wanted refl), h)
  list_if_and_not true false gone holds wanted h = (inl (here refl), listed_later gone h)
  list_if_and_not false c gone holds wanted h = (inr (holds refl), h)

abbrev OfAnother : String → String × CatalogEntry → Type 0
OfAnother server p = p.1.server_name ≢ server

names_of_server-All :
    (server : String) (m : Entries)
    → All (λ p. In p.0 (names_of_server server m) ⊎ OfAnother server p) m
unfolding names_of_server
names_of_server-All server [] = tt
names_of_server-All server ((ns, e) ∷ m) =
    list_if (OfAnother server) (ns, e) m (same e.server_name server) (names_of_server server m)
      (λ another q. cc (≡→same e.server_name server q, another)) (names_of_server-All server m)

-- After a server is unregistered the catalog has no tool of it.
pub unregister_server-OfAnother :
    {M : Type 0} (mcp : McpServer M) (server : String) (g : Gateway) (m : M)
    → All (λ p. p.1.server_name ≢ server) (unregister_server mcp server (g, m)).0.catalog
unfolding unregister_server
unregister_server-OfAnother mcp server g m =
    left (OfAnother server) (names_of_server server g.catalog) g.catalog
      (names_of_server-All server g.catalog)

-- An entry is of another server, or its tool is one of those incoming.
abbrev pub IsWanted : String → List ToolInfo → String × CatalogEntry → Type 0
IsWanted server ts p = (p.1.server_name ≢ server) ⊎ (is_incoming ts p.1.original_name ≡ true)

names_to_remove-All :
    (server : String) (ts : List ToolInfo) (m : Entries)
    → All (λ p. In p.0 (names_to_remove server ts m) ⊎ IsWanted server ts p) m
unfolding names_to_remove
names_to_remove-All server ts [] = tt
names_to_remove-All server ts ((ns, e) ∷ m) =
    list_if_and_not (IsWanted server ts) (ns, e) m (same e.server_name server)
      (is_incoming ts e.original_name) (names_to_remove server ts m)
      (λ another. inl (λ q. cc (≡→same e.server_name server q, another))) (λ wanted. inr wanted)
      (names_to_remove-All server ts m)

is_incoming-In : (ts : List ToolInfo) (t : ToolInfo) → In t ts → is_incoming ts t.name ≡ true
is_incoming-In [] t i = elim i [ ]
is_incoming-In (x ∷ ts) t (here e) = rw (≡→same x.name t.name (ap (λ y. y.name) (sym e)))
is_incoming-In (x ∷ ts) t (there i) = elim (Bool-cases (same x.name t.name)) [
  | inl hit ↦ rw hit
  | inr miss ↦ rw miss (is_incoming-In ts t i)
]

put-has :
    (j k : String) (e : CatalogEntry) (m : Entries)
    → (j ≡ k) ⊎ (lookup j m ≢ none)
    → lookup j (put k e m) ≢ none
put-has j k e m h = elim (Bool-cases (same k j)) [
  | inl hit ↦ λ q. cc (rw (sym (same→≡ k j hit)) at q, lookup-put k e m)
  | inr miss ↦ elim h [
    | inl equal ↦ cc (≡→same k j (sym equal), miss)
    | inr found ↦ λ q. found (sym (lookup-put_other j k e m miss) ∙ q)
  ]
]

module _ {M : Type 0} (mcp : McpServer M) (server : String) (all : List ToolInfo) where
  put_tools-IsWanted :
      (current : Entries) (ts : List ToolInfo) (s : Gateway × M)
      → All (λ t. is_incoming all t.name ≡ true) ts
      → All (IsWanted server all) s.0.catalog
      → All (IsWanted server all) (put_tools mcp server current ts s).0.catalog
  unfolding put_tools with_entry
  put_tools-IsWanted current [] s h k = k
  put_tools-IsWanted current (t ∷ ts) (g, m) h k = put_tools-IsWanted current ts _ h.1 (
      All-put (IsWanted server all) (namespaced server t.name) (entry_for server t) g.catalog
        (inr h.0) k)

  put_tools-has :
      (current : Entries) (ts : List ToolInfo) (s : Gateway × M) (j : String)
      → ((t : ToolInfo) × In t ts × (j ≡ namespaced server t.name)) ⊎ (lookup j s.0.catalog ≢ none)
      → lookup j (put_tools mcp server current ts s).0.catalog ≢ none
  unfolding put_tools with_entry
  put_tools-has current [] s j (inl (t, i, e)) = elim i [ ]
  put_tools-has current [] s j (inr found) = found
  put_tools-has current (t ∷ ts) (g, m) j h = put_tools-has current ts _ j (elim h [
    | inl (x, here q, e) ↦ inr (
        put-has j (namespaced server t.name) (entry_for server t) g.catalog
          (inl (e ∙ ap (λ y. namespaced server y.name) q)))
    | inl (x, there i, e) ↦ inl (x, i, e)
    | inr found ↦
        inr (put-has j (namespaced server t.name) (entry_for server t) g.catalog (inr found))
  ])

  remove_tools-IsWanted :
      (g : Gateway) (m : M)
      → All (IsWanted server all) (remove_tools mcp server all (g, m)).0.catalog
  unfolding remove_tools
  remove_tools-IsWanted g m =
      left (IsWanted server all) (names_to_remove server all g.catalog) g.catalog
        (names_to_remove-All server all g.catalog)

  -- After a server is reconciled the catalog has each of its tools that came in, and its entries of
  -- that server are of tools that came in.
  pub reconcile_server-exact :
      (g : Gateway) (m : M) (w : World)
      → let catalog = (reconcile_server mcp server all (g, m) w).0.0.catalog in
        All (λ t. lookup (namespaced server t.name) catalog ≢ none) all
        × All (IsWanted server all) catalog
  unfolding reconcile_server
  reconcile_server-exact g m w =
      let s = remove_tools mcp server all (g, m) in
      rw (build_visible_set-catalog (put_tools mcp server g.catalog all s).0 w) (
        All-of_In
            (λ t.
              lookup (namespaced server t.name) (put_tools mcp server g.catalog all s).0.catalog
              ≢ none)
            all
            (λ t i. put_tools-has g.catalog all s (namespaced server t.name) (inl (t, i, refl))),
        put_tools-IsWanted g.catalog all s
            (All-of_In (λ t. is_incoming all t.name ≡ true) all (is_incoming-In all))
            (remove_tools-IsWanted g m),
      )
