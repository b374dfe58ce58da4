-- ===== src/Registry/Sync/Laws.antt =====
-- What the configuration file may change: `SyncConfigServers` of
-- internal/registry/pgregistry/pgregistry.go.
use fracta.Common.{
  String, Time, same→≡, ≡→same, ◌≢◌, true, false, ◌&&◌, Bool-cases, Option, none, some, List, [],
  ◌∷◌, ◌≡◌, refl, sym, ap, ◌⊎◌, inl, inr, All, find_row, exists_row, find_row-append_found,
  find_row-update_row_same, find_row-update_rows_same, All-update_rows_cases,
}
use fracta.World.{World, Outcome, ok, err, Action, now}
use fracta.World.Laws.{>>=-eq-ok, continue}
use fracta.Registry.{Server}
use fracta.Registry.Store.{is_server}
use fracta.Registry.Sync.{
  McpServerEntry, config_row, is_config, differs, configured_by, put_configured, store_entry,
  sync_entry, sync_entries, is_named, is_absent, disable_absent, sync_config_servers,
}

pub configured_by_name :
    (new s : Server) (name : String) → is_server name (configured_by new s) ≡ is_server name s
configured_by_name new s name = elim (Bool-cases (is_config s && differs new s)) [
  | inl changed ↦ rw changed
  | inr left ↦ rw left
]

-- The row `r` is found under the name.
module _ (name : String) (r : Server) (foreign : is_config r ≡ false) where
  abbrev Stays : World → Type 0
  Stays w = find_row (is_server name) w.servers ≡ some r

  put_configured-stays :
      (new : Server) (ss : List Server)
      → find_row (is_server name) ss ≡ some r
      → find_row (is_server name) (put_configured new ss) ≡ some r
  put_configured-stays new ss h = elim (Bool-cases (exists_row (is_server new.name) ss)) [
    | inl there_is ↦ rw there_is (
        find_row-update_row_same (is_server name) (is_server new.name) (configured_by new) ss r
          (λ x. configured_by_name new x name) (rw foreign refl) h)
    | inr none_is ↦ rw none_is (find_row-append_found (is_server name) ss new r h)
  ]

  store_entry-Stays :
      (at : Time) (e : McpServerEntry) (json : Option String) (w : World)
      → Stays w
      → Stays (store_entry at e json w).1
  unfolding store_entry
  store_entry-Stays at e none w h = h
  store_entry-Stays at e (some json) w h = elim (Bool-cases (w.fault w.calls)) [
    | inl fault ↦ rw fault h
    | inr passes ↦ rw passes (put_configured-stays (config_row e json at) w.servers h)
  ]

  sync_entry-Stays :
      (at : Time) (e : McpServerEntry) (w : World) → Stays w → Stays (sync_entry at e w).1
  unfolding sync_entry store_entry
  sync_entry-Stays at e w h = store_entry-Stays at e e.json w h

  continue-Stays :
      (f : Unit {0} → Action (Unit {0})) (p : Outcome (Unit {0}) × World)
      → Stays p.1
      → ((w : World) → Stays w → Stays (f tt w).1)
      → Stays (continue f p).1
  continue-Stays f (ok _, w) h k = k w h
  continue-Stays f (err e, w) h k = h

  sync_entries-Stays :
      (at : Time) (es : List McpServerEntry) (w : World) → Stays w → Stays (sync_entries at es w).1
  unfolding sync_entries
  sync_entries-Stays at [] w h = h
  sync_entries-Stays at (e ∷ es) w h =
      continue-Stays (λ _. sync_entries at es) (sync_entry at e w) (sync_entry-Stays at e w h)
        (sync_entries-Stays at es)

  disable_absent-Stays :
      (at : Time) (es : List McpServerEntry) (w : World)
      → Stays w
      → Stays (disable_absent at es w).1
  unfolding disable_absent
  disable_absent-Stays at es w h = elim (Bool-cases (w.fault w.calls)) [
    | inl fault ↦ rw fault h
    | inr passes ↦ rw passes (
        find_row-update_rows_same (is_server name) (is_absent es)
          (λ s. record s { proxy_enabled = false; updated_at = at }) w.servers r (λ x. refl)
          (rw foreign refl) h)
  ]

  sync-Stays : (es : List McpServerEntry) (w : World) → Stays w → Stays (sync_config_servers es w).1
  unfolding sync_config_servers
  sync-Stays es w h =
      continue-Stays (λ _. disable_absent (now w) es) (sync_entries (now w) es w)
        (sync_entries-Stays (now w) es w h) (disable_absent-Stays (now w) es)

-- A server that the configuration does not own keeps its row, whatever the configuration holds and
-- wherever the synchronisation stops.
pub sync_config_servers-foreign :
    (es : List McpServerEntry) (w : World) (name : String) (r : Server)
    → find_row (is_server name) w.servers ≡ some r
    → r.created_by ≢ "config"
    → find_row (is_server name) (sync_config_servers es w).1.servers ≡ some r
sync_config_servers-foreign es w name r h k = elim (Bool-cases (is_config r)) [
  | inl owned ↦ absurd (k (same→≡ r.created_by "config" owned))
  | inr foreign ↦ sync-Stays name r foreign es w h
]

-- A server is not the configuration's, or it is not proxied, or it is in the file.
abbrev pub IsConfigured : List McpServerEntry → Server → Type 0
IsConfigured es s = (s.created_by ≢ "config") ⊎ ((s.proxy_enabled ≡ false) ⊎ (is_named es s ≡ true))

disable_absent-IsConfigured :
    (at : Time) (es : List McpServerEntry) (w : World) {v : World}
    → disable_absent at es w ≡ (ok tt, v)
    → All (IsConfigured es) v.servers
unfolding disable_absent
disable_absent-IsConfigured at es w h = elim (Bool-cases (w.fault w.calls)) [
  | inl fault ↦ cc (rw fault at h)
  | inr passes ↦ rw (sym (ap (λ p. p.1.servers) (rw passes at h))) (
      All-update_rows_cases (IsConfigured es) (is_absent es)
        (λ s. record s { proxy_enabled = false; updated_at = at }) w.servers
        (λ s absent. inr (inl refl)) named)
]
  where
    named : (s : Server) → is_absent es s ≡ false → IsConfigured es s
    named s left = elim (Bool-cases (is_config s)) [
      | inr foreign ↦ inl (λ c. cc (≡→same s.created_by "config" c, foreign))
      | inl owned ↦ elim (Bool-cases s.proxy_enabled) [
        | inr off ↦ inr (inl off)
        | inl on ↦ elim (Bool-cases (is_named es s)) [
          | inl listed ↦ inr (inr listed)
          | inr unlisted ↦ cc (rw (owned, on, unlisted) at left)
        ]
      ]
    ]

-- After a synchronisation that succeeds, each server that the configuration owns and that is proxied
-- is one of those in the file.
pub sync_config_servers-IsConfigured :
    (es : List McpServerEntry) (w : World) {v : World}
    → sync_config_servers es w ≡ (ok tt, v)
    → All (IsConfigured es) v.servers
unfolding sync_config_servers
sync_config_servers-IsConfigured es w h =
    let (_, u, _, disabled) =
      >>=-eq-ok (sync_entries (now w) es) (λ _. disable_absent (now w) es) w h in
    disable_absent-IsConfigured (now w) es u disabled
