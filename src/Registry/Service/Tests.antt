-- ===== src/Registry/Service/Tests.antt =====
-- The registry's service with an operator, and the registry's store with the tools of one server.
use fracta.Common.{
  pos, String, Bool, true, false, none, some, List, [], ◌∷◌, ◌≡◌, ◌≢◌, refl, find_row, All, lookup,
}
use fracta.World.{World, Error, ok, err}
use fracta.Samples.{world}
use fracta.Authz.{
  Operation, SubjectType, Subject, authorize, some_role_allows, role_allows, permissions, has_role,
}
use fracta.Registry.{Server, Tool}
use fracta.Registry.Store.{is_server, replace_discovered_tools}
use fracta.Registry.Store.Laws.{Replaced, replace_discovered_tools-Replaced}
use fracta.Registry.Sync.{
  McpServerEntry, sync_config_servers, sync_entries, sync_entry, store_entry, disable_absent,
  registry_transport_type, registry_remote_transport_type,
}
use fracta.Registry.Sync.Laws.{
  IsConfigured, sync_config_servers-foreign, sync_config_servers-IsConfigured,
}
use fracta.Registry.Service.Laws.{
  removes, switches, perform, IsAuthzError, target_of, perform-refused, only_admin-perform,
}

abbrev operator : Subject
operator = record { subject_type = SubjectType.operator; id = "olga"; roles = "operator" ∷ [] }

abbrev server : String → String → Server
server name owner = record {
  name = name;
  transport_type = "stdio";
  connection_config = some "{}";
  secret_refs = some "{}";
  server_capabilities = some "{}";
  proxy_enabled = true;
  status = "active";
  health_message = "";
  last_discovered_at = none;
  created_by = owner;
  created_at = pos 10;
  updated_at = pos 10;
}

abbrev tool : String → String → Bool → Tool
tool s name enabled = record {
  server_name = s;
  tool_name = name;
  description = "";
  input_schema = none;
  schema_hash = "";
  enabled = enabled;
  last_seen_at = pos 20;
  metadata = some "{}";
}

-- The operator has switched "search" off; "old" is not discovered again.
abbrev registry : World
registry = record world {
  servers = server "elastic" "config" ∷ server "mine" "api" ∷ [];
  tools = tool "elastic" "search" false ∷ tool "elastic" "old" true ∷ tool "mine" "run" true ∷ [];
}

denied : authorize operator Operation.delete_server (target_of (removes "mine")) ≢ none
unfolding authorize some_role_allows role_allows permissions lookup
denied e = cc e

perform-refused_example :
    (e : Error) × IsAuthzError authorize e
    × (perform authorize (some operator) (removes "mine") registry ≡ (err e, registry))
perform-refused_example = perform-refused authorize (some operator) (removes "mine") registry denied

no_admin : has_role operator.roles "admin" ≡ false
unfolding has_role
no_admin = refl

only_admin-perform_example :
    (e : Error) × IsAuthzError authorize e
    × (perform authorize (some operator) (removes "mine") registry ≡ (err e, registry))
only_admin-perform_example = only_admin-perform operator (removes "mine") registry tt no_admin

abbrev after_switch : World
after_switch = (perform authorize (some operator) (switches "elastic" "search" true) registry).1

replace_discovered_tools-Replaced_example :
    Replaced "elastic" (tool "elastic" "search" true ∷ tool "elastic" "new" true ∷ []) registry (
      replace_discovered_tools "elastic"
        (tool "elastic" "search" true ∷ tool "elastic" "new" true ∷ [])
        registry)
replace_discovered_tools-Replaced_example =
    replace_discovered_tools-Replaced "elastic"
      (tool "elastic" "search" true ∷ tool "elastic" "new" true ∷ []) registry

-- A file with one new server: the one of the configuration is switched off, the other stays.
abbrev file : List McpServerEntry
file =
    record {
      name = "fresh";
      local_command = "fresh-mcp";
      remote = none;
      kubernetes = record { url = ""; transport = "" };
      json = some "{\"Local\":{}}";
    }
    ∷ []

sync_config_servers-foreign_example :
    find_row (is_server "mine") (sync_config_servers file registry).1.servers
    ≡ some (server "mine" "api")
sync_config_servers-foreign_example =
    sync_config_servers-foreign file registry "mine" (server "mine" "api") refl (λ e. cc e)

abbrev after_sync : World
after_sync = (sync_config_servers file registry).1

synced : sync_config_servers file registry ≡ (ok tt, after_sync)
unfolding sync_config_servers sync_entries sync_entry store_entry disable_absent
    registry_transport_type registry_remote_transport_type
synced = refl

sync_config_servers-IsConfigured_example : All (IsConfigured file) after_sync.servers
sync_config_servers-IsConfigured_example = sync_config_servers-IsConfigured file registry synced
