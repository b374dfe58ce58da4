-- ===== src/Registry/Sync.antt =====
-- The servers of the configuration file: internal/registry/transport.go and `SyncConfigServers` of
-- internal/registry/pgregistry/pgregistry.go.
pub mod Laws
use fracta.Common.{
  Time, String, same, Bool, true, false, not, ◌&&◌, ◌||◌, Option, none, some, List, [], ◌∷◌, ◌++◌,
  if◌then◌else◌, exists_row, update_row, update_rows,
}
use fracta.World.{
  World, Error, db_error, Outcome, ok, err, Action, pure, raise, ◌>>=◌, ◌>>◌, call, now,
}
use fracta.Registry.{Server}
use fracta.Registry.Store.{is_server}

-- `MCPServerRemote`, as far as the registry reads it.
pub record McpServerRemote : Type 0 where
  pub url : String
  pub transport : String

-- `MCPServerEntry` with its name in the map; `json` is what `json.Marshal` makes of it, none an error.
pub record McpServerEntry : Type 0 where
  pub name : String
  pub local_command : String
  pub remote : Option McpServerRemote
  pub kubernetes : McpServerRemote
  pub json : Option String

-- `registryRemoteTransportType`
unfoldable pub registry_remote_transport_type : String → String
registry_remote_transport_type t =
    if same t "streamable-http" || same t "streamable_http"
    then "streamable_http"
    else if same t "sse"
    then "http"
    else "streamable_http"

-- The cases of `RegistryTransportType` after that of an explicit remote.
abbrev local_transport_type : McpServerEntry → String
unfolding registry_remote_transport_type
local_transport_type e =
    if not (same e.local_command "")
    then "stdio"
    else if not (same e.kubernetes.url "")
    then registry_remote_transport_type e.kubernetes.transport
    else "stdio"

abbrev remote_transport_type : Option McpServerRemote → McpServerEntry → String
unfolding registry_remote_transport_type
remote_transport_type none e = local_transport_type e
remote_transport_type (some r) e =
    if not (same r.url "")
    then registry_remote_transport_type r.transport
    else local_transport_type e

-- `RegistryTransportType`
unfoldable pub registry_transport_type : McpServerEntry → String
unfolding registry_remote_transport_type
registry_transport_type e = remote_transport_type e.remote e

-- The row that the upsert inserts; the columns not given have their defaults.
abbrev pub config_row : McpServerEntry → String → Time → Server
unfolding registry_transport_type registry_remote_transport_type
config_row e json at = record {
  name = e.name;
  transport_type = registry_transport_type e;
  connection_config = some json;
  secret_refs = some "{}";
  server_capabilities = some "{}";
  proxy_enabled = true;
  status = "pending";
  health_message = "";
  last_discovered_at = none;
  created_by = "config";
  created_at = at;
  updated_at = at;
}

abbrev pub same_json : Option String → Option String → Bool
same_json none none = true
same_json (some a) (some b) = same a b
same_json _ _ = false

abbrev pub is_config : Server → Bool
is_config s = same s.created_by "config"

-- The WHERE clause and the SET clause of the upsert.
abbrev pub differs : Server → Server → Bool
differs new old =
    not (same_json old.connection_config new.connection_config)
    || (not (same old.transport_type new.transport_type) || not old.proxy_enabled)

abbrev pub configured_by : Server → Server → Server
configured_by new old =
    if is_config old && differs new old
    then record old {
      transport_type = new.transport_type;
      connection_config = new.connection_config;
      proxy_enabled = true;
      updated_at = new.updated_at;
    }
    else old

abbrev pub put_configured : Server → List Server → List Server
put_configured r ss =
    if exists_row (is_server r.name) ss
    then update_row (is_server r.name) (configured_by r) ss
    else ss ++ (r ∷ [])

-- One round of the loop of step 1.
unfoldable pub store_entry : Time → McpServerEntry → Option String → Action (Unit {0})
unfolding registry_transport_type registry_remote_transport_type
store_entry at e none = raise db_error
store_entry at e (some json) =
    call (λ w. (ok tt, record w { servers = put_configured (config_row e json at) w.servers }))

unfoldable pub sync_entry : Time → McpServerEntry → Action (Unit {0})
unfolding store_entry registry_transport_type registry_remote_transport_type
sync_entry at e = store_entry at e e.json

unfoldable pub sync_entries : Time → List McpServerEntry → Action (Unit {0})
unfolding sync_entry registry_transport_type registry_remote_transport_type
sync_entries at [] = pure tt
sync_entries at (e ∷ es) = sync_entry at e >> sync_entries at es

-- Step 2: the rows that it changes. Without servers the names are not asked for.
abbrev pub is_named : List McpServerEntry → Server → Bool
is_named es s = exists_row (λ e. same e.name s.name) es

abbrev pub is_absent : List McpServerEntry → Server → Bool
is_absent es s = is_config s && (s.proxy_enabled && not (is_named es s))

unfoldable pub disable_absent : Time → List McpServerEntry → Action (Unit {0})
disable_absent at es = call (λ w. (
  ok tt,
  record w {
    servers =
        update_rows (is_absent es) (λ s. record s { proxy_enabled = false; updated_at = at })
          w.servers;
  },
))

-- `SyncConfigServers`
unfoldable pub sync_config_servers : List McpServerEntry → Action (Unit {0})
unfolding sync_entries sync_entry disable_absent registry_transport_type
    registry_remote_transport_type
sync_config_servers es w = let at = now w in (sync_entries at es >> disable_absent at es) w
